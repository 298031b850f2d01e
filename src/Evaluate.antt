-- ===== src/Evaluate.antt =====
-- tools/nobytes_cca/evaluate.py: facts in, verdicts out. The import of an evaluator function is a
-- parameter.
pub mod Coverage
pub mod Reasons
pub mod Accounting
pub mod Selection
pub mod Verdicts
use oscal_aap_ansible_playbo.Prelude.{
  ℕ, ◌+◌, ◌*◌, ◌-◌, String, ◌<>◌, ◌≡◌, Bool, true, false, not, ◌&&◌, ◌||◌, Option, none, some, List,
  [], ◌∷◌, ◌++◌, lookup, insert, any, filter, leb, ltb, ◌==◌, if◌then◌else◌, str_eq, mem_text,
  unique, length, is_empty,
}
use oscal_aap_ansible_playbo.Py.Text.{strip, decimal}
use oscal_aap_ansible_playbo.Py.Value.{Value, str, to_text}
use oscal_aap_ansible_playbo.Py.Result.{Exn, Result, ok, raise, ◌>>=◌}
use oscal_aap_ansible_playbo.Contract.Terms.{
  Status, Confidence, UnassessedReason, emits_finding, requires_attestation, insufficient_history,
  not_implemented, no_subject_in_scope, evaluation_error,
}
use oscal_aap_ansible_playbo.Contract.Verdict.{
  CheckResult, unassessed, error, with_confidence_ceiling,
}
use oscal_aap_ansible_playbo.Contract.Bundle.{
  Instant, hour, FactBundle, FactHistory, require, spans, empty_history,
}
use oscal_aap_ansible_playbo.Registry.{
  Check, Registry, Evaluator, Attestation, is_automated, resolve, checks, binds, control_ids,
  automated_controls, attested_controls,
}

pub record Evaluation : Type 0 where
  pub check : Check
  pub subject : List (String × Value)
  pub result : CheckResult
  pub collected : Instant
  pub expires : Instant

-- `Evaluation.is_fresh`.
unfoldable pub is_fresh : Evaluation → Instant → Bool
is_fresh ev at = leb ev.collected at && ltb at ev.expires

-- `history or FactHistory.empty()`: a history with no bundle is falsy.
abbrev pub or_empty : Option FactHistory → FactHistory
or_empty none = empty_history
or_empty (some h) = if is_empty h.bundles then empty_history else h

why_attested : Option Attestation → String
why_attested none = ""
why_attested (some a) = a.why_not_observable

where_attested : Option Attestation → String
where_attested none = "unspecified"
where_attested (some a) = a.source

unfoldable pub attested_result : Check → CheckResult
unfolding why_attested where_attested
attested_result check =
    unassessed requires_attestation
      (check.id
        <> (" is declared attested. "
            <> (why_attested check.attestation
                <> (" Evidence is held at: " <> where_attested check.attestation))))
      []

unfoldable pub short_history_result : Check → FactHistory → CheckResult
short_history_result check history =
    unassessed insufficient_history
      (check.id
        <> (" needs "
            <> (decimal check.history_window_days
                <> (" days of history to judge a rate; "
                    <> (decimal (length history.bundles)
                        <> " bundle(s) available. Absence of history is not evidence of non-compliance.")))))
      []

-- The `except` around the call of the evaluator.
unfoldable pub or_error : Check → Result CheckResult → CheckResult
or_error check (ok r) = r
or_error check (raise e) =
    error (check.evaluator <> (" raised " <> (e.kind <> (": " <> e.message)))) []

-- `check.history_window_days and not history.spans(check.history_window_days)`.
abbrev pub is_short : Check → FactHistory → Bool
is_short check history =
    not (check.history_window_days == 0) && not (spans history check.history_window_days)

abbrev pub evaluation_of : Check → FactBundle → CheckResult → Evaluation
evaluation_of check bundle result = record {
  check = check;
  subject = bundle.subject;
  result = with_confidence_ceiling result check.confidence;
  collected = bundle.collected;
  expires = bundle.collected + check.freshness_hours * hour;
}

-- `str(bundle.subject.get("platform_family", "")).strip()`.
abbrev pub platform_of : FactBundle → String
platform_of bundle = elim (lookup "platform_family" bundle.subject) [
  | none ↦ ""
  | some v ↦ strip (to_text v)
]

-- What the three `continue` lines let through.
unfoldable pub is_applicable : FactBundle → Option (List String) → Check → Bool
unfolding is_automated
is_applicable bundle baseline check =
    is_automated check
    && (str_eq (platform_of bundle) ""
        || str_eq check.platform_family "common"
        || str_eq check.platform_family (platform_of bundle))
    && elim baseline [
      | none ↦ true
      | some ids ↦ any (λ b. mem_text b.control_id ids) check.controls
    ]

-- `result = guard` where the guard stops, and the rest of the ladder otherwise.
abbrev pub guard_or : Option CheckResult → CheckResult → CheckResult
guard_or (some guard) result = guard
guard_or none result = result

module _ (import_function : String → String → Result (Option Evaluator)) where
  -- The guards of an automated check, and then the evaluator.
  unfoldable pub judged : Check → FactBundle → FactHistory → CheckResult
  unfolding short_history_result or_error
  judged check bundle history = guard_or (require bundle check.required_facts) (
      if is_short check history
      then short_history_result check history
      else or_error check
          (resolve import_function check >>= λ f. f bundle check.parameters history))

  unfoldable pub evaluate_check : Check → FactBundle → Option FactHistory → Evaluation
  unfolding is_automated attested_result judged
  evaluate_check check bundle history =
      evaluation_of check bundle (
        if is_automated check
        then judged check bundle (or_empty history)
        else attested_result check)

  evaluate_all :
      List Check → FactBundle → Option (List String) → Option FactHistory → List Evaluation
  unfolding is_applicable
  evaluate_all [] bundle baseline history = []
  evaluate_all (c ∷ cs) bundle baseline history =
      let rest = evaluate_all cs bundle baseline history in
      if is_applicable bundle baseline c then evaluate_check c bundle history ∷ rest else rest

  unfoldable pub evaluate_bundle :
      Registry → FactBundle → Option (List String) → Option FactHistory → List Evaluation
  unfolding evaluate_all
  evaluate_bundle registry bundle baseline history =
      evaluate_all (checks registry) bundle baseline history
