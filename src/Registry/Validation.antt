-- ===== src/Registry/Validation.antt =====
-- `validate` and `_attestation_problems` of tools/nobytes_cca/registry.py.
use oscal_aap_ansible_playbo.Prelude.{
  Option, ◌*◌, String, ◌<>◌, Bool, ◌||◌, ◌==◌, none, some, List, [], ◌∷◌, ◌++◌, if◌then◌else◌,
  str_eq,
}
use oscal_aap_ansible_playbo.Py.Text.{decimal}
use oscal_aap_ansible_playbo.Py.Value.{str, to_text, repr, py_eq}
use oscal_aap_ansible_playbo.Py.Result.{Result, Exn, ok, raise, ◌>>=◌}
use oscal_aap_ansible_playbo.Catalog.{Control, Catalog, control_at, version, statement_sha256}
use oscal_aap_ansible_playbo.Registry.{
  ControlBinding, Attestation, Check, Registry, Evaluator, is_automated, resolve, checks,
}

-- The problems of each item, in order.
module _ {A : Type 0} where
  unfoldable pub gathered : (A → Result (List String)) → List A → Result (List String)
  gathered f [] = ok []
  gathered f (x ∷ xs) = f x >>= λ ps. gathered f xs >>= λ qs. ok (ps ++ qs)

unfoldable pub not_in_catalog : Catalog → Check → ControlBinding → Result (List String)
not_in_catalog catalog check b = version catalog >>= λ v. ok (
    (check.id <> (": control '" <> (b.control_id <> ("' is not in ISM catalog " <> to_text v))))
    ∷ [])

unfoldable pub statement_problem : Check → ControlBinding → Control → List String
unfolding py_eq
statement_problem check b control =
    if py_eq (str b.statement_id) control.statement_id
    then []
    else (check.id
        <> (": statement_id '"
            <> (b.statement_id <> ("' != catalog " <> repr control.statement_id))))
      ∷ []

unfoldable pub drift_problem : (String → String) → Check → ControlBinding → Control → List String
unfolding str_eq statement_sha256
drift_problem sha256_hex check b control =
    if str_eq b.statement_sha256 (statement_sha256 sha256_hex control)
    then []
    else (check.id
        <> (": PROSE DRIFT on "
            <> (b.control_id
                <> (".\n    pinned  "
                    <> (b.statement_sha256
                        <> ("\n    current "
                            <> (statement_sha256 sha256_hex control
                                <> ("\n    now reads: "
                                    <> (control.statement
                                        <> "\n    Re-affirm or revise this check, then update the hash.")))))))))
      ∷ []

-- The body of the loop over the bindings of a check.
unfoldable pub binding_problems :
    (String → String) → Catalog → Check → ControlBinding → Result (List String)
unfolding control_at not_in_catalog statement_problem drift_problem
binding_problems sha256_hex catalog check b = elim (control_at catalog b.control_id) [
  | none ↦ not_in_catalog catalog check b
  | some control ↦
      ok (statement_problem check b control ++ drift_problem sha256_hex check b control)
]

-- `except (ImportError, AttributeError)`. ModuleNotFoundError is an ImportError.
unfoldable pub is_resolve_error : Exn → Bool
unfolding str_eq
is_resolve_error e =
    str_eq e.kind "ImportError"
    || str_eq e.kind "ModuleNotFoundError"
    || str_eq e.kind "AttributeError"

unfoldable pub resolve_problems : Check → Result Evaluator → Result (List String)
unfolding is_resolve_error
resolve_problems check (ok f) = ok []
resolve_problems check (raise e) =
    if is_resolve_error e
    then ok (
        (check.id
          <> (": evaluator '" <> (check.evaluator <> ("' does not resolve: " <> e.message))))
        ∷ [])
    else raise e

unfoldable pub renewal_problem : Check → Attestation → List String
renewal_problem check a =
    if check.freshness_hours == a.renewal_days * 24
    then []
    else (check.id
        <> (": freshness_hours is "
            <> (decimal check.freshness_hours
                <> (" but the attestation renews every "
                    <> (decimal a.renewal_days
                        <> (" days ("
                            <> (decimal (a.renewal_days * 24)
                                <> "h). An attestation cannot be fresher than the process that produces it, and calling it stale sooner is just as misleading.")))))))
      ∷ []

-- `_attestation_problems`.
unfoldable pub attestation_problems : Check → List String
unfolding renewal_problem
attestation_problems check = elim check.attestation [
  | none ↦ (check.id <> ": declared attested but carries no attestation block") ∷ []
  | some a ↦ renewal_problem check a
]

module _ (import_function : String → String → Result (Option Evaluator))
    (sha256_hex : String → String) where
  -- The body of the loop over the checks.
  unfoldable pub check_problems : Catalog → Check → Result (List String)
  unfolding gathered binding_problems is_automated resolve_problems attestation_problems
  check_problems catalog check =
      gathered (binding_problems sha256_hex catalog check) check.controls >>= λ ps.
      (if is_automated check
        then resolve_problems check (resolve import_function check)
        else ok (attestation_problems check))
      >>= λ qs. ok (ps ++ qs)

  -- `validate`.
  unfoldable pub validate : Registry → Catalog → Result (List String)
  unfolding gathered check_problems checks
  validate registry catalog = gathered (check_problems catalog) (checks registry)
