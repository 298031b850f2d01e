-- ===== src/Checks/AppControl.antt =====
-- tools/nobytes_cca/checks/windows/appcontrol.py: ism-0843 and ism-1657, application control.
pub mod State
pub mod Claims
use oscal_aap_ansible_playbo.Prelude.{
  ℕ, ◌+◌, String, ◌<>◌, Bool, true, false, not, ◌&&◌, ◌||◌, Option, none, some, List, [], ◌∷◌,
  length, is_empty, filter, if◌then◌else◌, lookup, mem_text, unique, prepend, str_eq,
}
use oscal_aap_ansible_playbo.Py.Text.{decimal, join}
use oscal_aap_ansible_playbo.Py.Value.{Value, bool, str, list, dict, num, strs, truthy, type_name}
use oscal_aap_ansible_playbo.Py.Result.{Result, ok, raise, ◌>>=◌}
use oscal_aap_ansible_playbo.Py.Access.{get, get_or, sort_texts, sorted, type_error}
use oscal_aap_ansible_playbo.Contract.Terms.{proxy, partial, insufficient_privilege}
use oscal_aap_ansible_playbo.Contract.Verdict.{
  CheckResult, Facts, satisfied, not_satisfied, unassessed,
}
use oscal_aap_ansible_playbo.Contract.Bundle.{Fact, FactBundle, FactHistory}
use oscal_aap_ansible_playbo.Checks.AppControl.State.{
  Guarded, after_guard, state_guard, applocker_of, wdac_of, wdac_enforcing, enforced_collections,
  audit_only,
}

-- `sorted(x for x in audit_only if x)`, shown as a text. The types that a collector emits are texts.
unfoldable pub shown : List Value → Result (List Value)
shown types = sorted (filter truthy types)

-- The items of a join, from the number of the first; an item that is no text raises.
texts : ℕ → List Value → Result (List String)
texts n [] = ok []
texts n (str s ∷ vs) = texts (n + 1) vs >>= λ ss. ok (s ∷ ss)
texts n (v ∷ vs) = raise (
    type_error (
      "sequence item "
      <> (decimal n <> (": expected str instance, " <> (type_name v <> " found")))))

-- `', '.join(sorted(x for x in audit_only if x))`.
unfoldable pub joined : List Value → Result String
unfolding shown texts
joined types = shown types >>= λ vs. texts 0 vs >>= λ ss. ok (join ", " ss)

implemented_facts : Bool → List String → List Value → Value → Bool → Value → Facts
implemented_facts available enforced audit rules wdac_on running =
    ("applocker_available", bool available)
    ∷ ("applocker_enforced_collections", list (strs (sort_texts enforced)))
    ∷ ("applocker_audit_only_collections", list audit)
    ∷ ("applocker_rule_count", rules)
    ∷ ("wdac_enforcing", bool wdac_on)
    ∷ ("wdac_running", running)
    ∷ []

-- The note on collections that only audit.
audit_note : List Value → Result String
unfolding joined
audit_note types =
    if is_empty types
    then ok ""
    else (joined types >>= λ names.
        ok (" Note that " <> (names <> " is in AuditOnly mode and blocks nothing.")))

-- The verdict of ism-0843.
unfoldable pub implemented_verdict : Bool → List String → List Value → Facts → Result CheckResult
unfolding audit_note joined
implemented_verdict wdac_on enforced audit facts =
    if wdac_on
    then satisfied
        "App Control for Business (WDAC) is enforcing a code integrity policy. Application control is implemented."
        facts proxy
    else if not (is_empty enforced)
    then (audit_note audit >>= λ note.
        satisfied
          ("AppLocker is enforcing "
            <> (decimal (length enforced)
                <> (" rule collection(s): " <> (join ", " (sort_texts enforced) <> ("." <> note)))))
          facts proxy)
    else if not (is_empty audit)
    then (joined audit >>= λ names.
        not_satisfied
          ("AppLocker policy exists but every configured collection is in AuditOnly mode ("
            <> (names <> "). Audit mode logs and blocks nothing, so nothing is being restricted."))
          facts proxy)
    else not_satisfied
        "No enforcing application control was found: AppLocker has no enforced rule collection and WDAC is not enforcing a code integrity policy."
        facts proxy

unfoldable pub judge_implemented : Fact → Result CheckResult
unfolding shown implemented_facts implemented_verdict
judge_implemented f = applocker_of f.value >>= λ applocker. wdac_of f.value >>= λ wdac.
    enforced_collections applocker >>= λ enforced. audit_only applocker >>= λ audit.
    wdac_enforcing wdac >>= λ wdac_on. get applocker "available" >>= λ available.
    shown audit >>= λ audit_shown. get_or applocker "rule_count" (num 0) >>= λ rules.
    get_or wdac "running" (list []) >>= λ running.
    implemented_verdict wdac_on enforced audit
      (implemented_facts (truthy available) enforced audit_shown rules wdac_on running)

unfoldable pub application_control_implemented :
    FactBundle → Value → FactHistory → Result CheckResult
unfolding state_guard judge_implemented
application_control_implemented bundle params history =
    after_guard (state_guard bundle) judge_implemented

-- `COLLECTION_COVERS`, `REQUIRED_TYPES` and `BEYOND_APPLOCKER`.
abbrev pub collection_covers : List (String × String)
collection_covers =
    ("Exe", "executables")
    ∷ ("Dll", "libraries")
    ∷ ("Script", "scripts")
    ∷ ("Msi", "installers")
    ∷ []

abbrev pub required_types : List String
required_types =
    "executables" ∷ "libraries" ∷ "scripts" ∷ "installers" ∷ "compiled HTML" ∷ "HTML applications"
    ∷ "control panel applets" ∷ []

abbrev pub beyond_applocker : List String
beyond_applocker = "compiled HTML" ∷ "HTML applications" ∷ "control panel applets" ∷ []

beyond_value : Value
beyond_value = dict (
    ("compiled HTML", str ".chm")
    ∷ ("HTML applications", str ".hta")
    ∷ ("control panel applets", str ".cpl")
    ∷ [])

covered_by : List String → List String
unfolding lookup
covered_by [] = []
covered_by (c ∷ cs) = prepend (lookup c collection_covers) (covered_by cs)

-- `covered`: the file types of the enforced collections.
unfoldable pub covered : List String → List String
unfolding covered_by
covered enforced = sort_texts (unique (covered_by enforced))

-- `missing_by_config`.
unfoldable pub missing_by_config : List String → List String
missing_by_config types =
    filter (λ t. not (mem_text t types) && not (mem_text t beyond_applocker)) required_types

gap : String
gap =
    "AppLocker has no rule collection for compiled HTML (.chm), HTML applications (.hta), control panel applets (.cpl), so these cannot be restricted by AppLocker however it is configured. App Control for Business (WDAC) covers more and is the route to this control."

types_facts : List String → List String → List String → Facts
unfolding beyond_value
types_facts types missing enforced =
    ("required_types", list (strs required_types))
    ∷ ("covered_by_enforced_applocker", list (strs types))
    ∷ ("not_covered_configurable", list (strs missing))
    ∷ ("not_coverable_by_applocker", beyond_value)
    ∷ ("applocker_enforced_collections", list (strs (sort_texts enforced)))
    ∷ []

-- `', '.join(covered) or 'nothing'`.
or_nothing : String → String
or_nothing s = if str_eq s "" then "nothing" else s

-- The verdict of ism-1657 from AppLocker's collections: never a pass.
unfoldable pub types_verdict : List String → Result CheckResult
unfolding covered missing_by_config types_facts gap or_nothing
types_verdict enforced =
    let types = covered enforced in
    let missing = missing_by_config types in
    let facts = types_facts types missing enforced in
    if not (is_empty missing)
    then not_satisfied
        ("AppLocker enforces "
          <> (or_nothing (join ", " types)
              <> (", leaving " <> (join ", " missing <> (" unrestricted. Separately: " <> gap)))))
        facts partial
    else not_satisfied
        ("AppLocker enforces every file type it is capable of restricting ("
          <> (join ", " types <> ("), which is not all the control requires. " <> gap)))
        facts partial

unfoldable pub judge_types : Fact → Result CheckResult
unfolding types_verdict
judge_types f = applocker_of f.value >>= λ applocker. wdac_of f.value >>= λ wdac.
    wdac_enforcing wdac >>= λ wdac_on.
    if wdac_on
    then (get_or wdac "running" (list []) >>= λ running. ok (
        unassessed insufficient_privilege
          "App Control for Business (WDAC) is enforcing. Which file types its code integrity policy covers is not readable from the state collected here, and guessing in either direction would be worse than saying so."
          (("wdac_enforcing", bool true) ∷ ("wdac_running", running) ∷ [])))
    else (enforced_collections applocker >>= λ enforced. types_verdict enforced)

unfoldable pub application_control_covers_required_file_types :
    FactBundle → Value → FactHistory → Result CheckResult
unfolding state_guard judge_types
application_control_covers_required_file_types bundle params history =
    after_guard (state_guard bundle) judge_types
