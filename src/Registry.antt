-- ===== src/Registry.antt =====
-- tools/nobytes_cca/registry.py: what checks exist, and what each one claims. A registry is the dict
-- of the loaded checks, by their ids.
pub mod Iteration
pub mod Loading
pub mod Loaded
pub mod Validation
pub mod Sound
use oscal_aap_ansible_playbo.Prelude.{
  ℕ, String, Bool, true, false, Option, none, some, List, [], ◌∷◌, ◌++◌, lookup, prepend, any,
  filter, str_eq, not, if◌then◌else◌, ◌<>◌,
}
use oscal_aap_ansible_playbo.Py.Value.{Value, str, repr}
use oscal_aap_ansible_playbo.Py.Text.{before_first, after_first}
use oscal_aap_ansible_playbo.Py.Result.{Result, ok, raise, ◌>>=◌}
use oscal_aap_ansible_playbo.Py.Access.{value_error, attribute_error}
use oscal_aap_ansible_playbo.Py.Dict.{in_key_order}
use oscal_aap_ansible_playbo.Contract.Terms.{Assessability, Confidence, EvidenceTier, Method, Scope}
use oscal_aap_ansible_playbo.Contract.Verdict.{CheckResult}
use oscal_aap_ansible_playbo.Contract.Bundle.{FactBundle, FactHistory}

pub record ControlBinding : Type 0 where
  pub control_id : String
  pub statement_id : String
  pub control_revision : String
  pub statement_sha256 : String
  pub coverage : String
  pub rationale : String

pub record Attestation : Type 0 where
  pub source : String
  pub owner : String
  pub renewal_days : ℕ
  pub why_not_observable : String

pub record Check : Type 0 where
  pub id : String
  pub version : String
  pub title : String
  pub platform_family : String
  pub component : String
  pub controls : List ControlBinding
  pub method : Method
  pub confidence : Confidence
  pub scope : Scope
  pub evidence_tier : EvidenceTier
  pub freshness_hours : ℕ
  pub history_window_days : ℕ
  pub assessability : Assessability
  pub collect_role : String
  pub required_facts : List String
  pub optional_facts : List String
  pub evaluator : String
  pub parameters : Value
  pub not_applicable_when : String
  pub references : List String
  pub remediation : Option Value
  pub attestation : Option Attestation
  pub source_file : String

-- An evaluator function: facts, parameters and history in, a verdict out, or an exception.
abbrev pub Evaluator : Type 0
Evaluator = FactBundle → Value → FactHistory → Result CheckResult

-- `Check.is_automated`.
unfoldable pub is_automated : Check → Bool
is_automated c = elim c.assessability [
  | Assessability.automated ↦ true
  | Assessability.attested ↦ false
]

-- `evaluator.partition(":")`.
unfoldable pub module_name : String → String
unfolding before_first
module_name evaluator = before_first ":" evaluator

unfoldable pub func_name : String → String
unfolding after_first
func_name evaluator = after_first ":" evaluator

-- Importing the module and looking the function up. `import_function` is a parameter: what
-- `getattr(importlib.import_module(module_name), func_name, None)` gives, or the exception of the
-- import, where `none` is what is None or not callable.
unfoldable pub evaluator_named :
    (String → String → Result (Option Evaluator)) → String → Result Evaluator
unfolding module_name func_name
evaluator_named import_function evaluator =
    import_function (module_name evaluator) (func_name evaluator) >>= λ found. elim found [
      | some func ↦ ok func
      | none ↦ raise (
          attribute_error (
            evaluator
            <> (": no callable "
                <> (repr (str (func_name evaluator)) <> (" in " <> module_name evaluator)))))
    ]

-- `Check.resolve`.
unfoldable pub resolve : (String → String → Result (Option Evaluator)) → Check → Result Evaluator
unfolding is_automated evaluator_named
resolve import_function c = elim (is_automated c) [
  | false ↦ raise (
      value_error (
        c.id
        <> " is declared `attested`: there is no evaluator to resolve. Calling one would invent a verdict for something no tool observes."))
  | true ↦ evaluator_named import_function c.evaluator
]

abbrev pub Registry : Type 0
Registry = List (String × Check)

-- `Registry.__iter__`: the checks in the order of their ids.
unfoldable pub checks : Registry → List Check
checks r = in_key_order r

-- `b.control_id == control_id for b in c.controls`.
unfoldable pub binds : String → Check → Bool
binds control_id c = any (λ b. str_eq b.control_id control_id) c.controls

-- `Registry.for_control`.
unfoldable pub for_control : Registry → String → List Check
unfolding checks binds
for_control r control_id = filter (binds control_id) (checks r)

abbrev pub control_ids : List ControlBinding → List String
control_ids [] = []
control_ids (b ∷ bs) = b.control_id ∷ control_ids bs

-- `{b.control_id for check in … if … for b in check.controls}`.
unfoldable pub controls_of : (Check → Bool) → List Check → List String
controls_of p [] = []
controls_of p (c ∷ cs) = (if p c then control_ids c.controls else []) ++ controls_of p cs

-- `Registry.covered_controls`, `automated_controls` and `attested_controls`, as sets.
unfoldable pub covered_controls : Registry → List String
unfolding checks controls_of
covered_controls r = controls_of (λ c. true) (checks r)

unfoldable pub automated_controls : Registry → List String
unfolding checks controls_of is_automated
automated_controls r = controls_of is_automated (checks r)

unfoldable pub attested_controls : Registry → List String
unfolding checks controls_of is_automated
attested_controls r = controls_of (λ c. not (is_automated c)) (checks r)
