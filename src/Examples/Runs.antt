-- ===== src/Examples/Runs.antt =====
-- A run on the host, the coverage of a baseline, and the results of the runs.
use mathlib.Core.Path.{subst}
use mathlib.Core.Bool.{false≢true}
use oscal_aap_ansible_playbo.Py.Text.{join, lower, contains}
use oscal_aap_ansible_playbo.Py.Access.{sort_texts, get_or, iterate}
use oscal_aap_ansible_playbo.Prelude.{
  mem_text, In→mem_text, str_eq, ◌+◌, ◌*◌, ◌≤◌, ◌<◌, String, ◌≡◌, refl, ◌↔◌, ◌⊎◌, inl, inr, true,
  none, some, List, [], ◌∷◌, In, All, lookup,
}
use oscal_aap_ansible_playbo.Py.Value.{to_text, truthy}
use oscal_aap_ansible_playbo.Py.Result.{ok-injective, filter, ok, Returns}
use oscal_aap_ansible_playbo.Contract.Terms.{UnassessedReason, emits_finding, rank, proxy}
use oscal_aap_ansible_playbo.Contract.Verdict.{
  unassessed, satisfied, CheckResult, with_confidence_ceiling,
}
use oscal_aap_ansible_playbo.Contract.Evidence.{IsWellFormed, Weaker, with_confidence_ceiling_lem}
use oscal_aap_ansible_playbo.Contract.Bundle.{fact, hour, require, empty_history}
use oscal_aap_ansible_playbo.Contract.Guards.{IsComplete, Stops, require-none_iff, require-Stops}
use oscal_aap_ansible_playbo.Registry.{
  evaluator_named, resolve, is_automated, Check, Evaluator, automated_controls, attested_controls,
}
use oscal_aap_ansible_playbo.Registry.Iteration.{
  controls_iff, Registered, HasAutomated, HasAttested,
}
use oscal_aap_ansible_playbo.Evaluate.{Evaluation, is_fresh, evaluate_check, evaluate_bundle}
use oscal_aap_ansible_playbo.Evaluate.Coverage.{unassessed_controls}
use oscal_aap_ansible_playbo.Evaluate.Reasons.{Explains}
use oscal_aap_ansible_playbo.Evaluate.Accounting.{
  IsDetermined, unassessed_controls-Explains, unassessed_controls-none,
}
use oscal_aap_ansible_playbo.Evaluate.Selection.{Applies, In-evaluate_bundle_iff}
use oscal_aap_ansible_playbo.Evaluate.Verdicts.{
  Judged, Reports, evaluate_check-Judged, evaluate_check-Returned, evaluate_check-raise,
  evaluate_check-ceiling, evaluate_check-IsWellFormed, is_fresh_iff,
}
use oscal_aap_ansible_playbo.Checks.WellFormed.{ie11-IsWellFormed}
use oscal_aap_ansible_playbo.Checks.OsState.{ie11_disabled_or_removed}
use oscal_aap_ansible_playbo.Examples.Host.{
  features, host, unread, ie_check, lost_check, registry, no_module, moment, import_known, verdict,
  ie11-host,
}

abbrev run : Evaluation
run = evaluate_check import_known ie_check host none

run_finds : emits_finding run.result.status ≡ true
unfolding evaluate_check emits_finding ie11_disabled_or_removed with_confidence_ceiling require fact
    str_eq resolve truthy iterate filter get_or contains lower to_text satisfied
run_finds = refl

evaluate_check-Judged_example :
    (r : CheckResult) × Judged import_known ie_check host none r
    × (run.result ≡ with_confidence_ceiling r proxy)
evaluate_check-Judged_example = evaluate_check-Judged import_known ie_check host none run_finds

features_there : IsComplete host "windows.os.optional_features"
unfolding fact str_eq
features_there = (features, refl, refl)

is_Judged : Judged import_known ie_check host none verdict
unfolding is_automated str_eq evaluator_named
is_Judged = (refl, (features_there, tt), inl refl, (ie11_disabled_or_removed, refl, ie11-host))

evaluate_check-Returned_example : run.result ≡ with_confidence_ceiling verdict proxy
evaluate_check-Returned_example =
    evaluate_check-Returned import_known ie_check host none verdict is_Judged

lost_automated : is_automated lost_check ≡ true
unfolding is_automated
lost_automated = refl

evaluate_check-raise_example :
    Reports import_known lost_check host none no_module
      (evaluate_check import_known lost_check host none).result
unfolding str_eq evaluator_named
evaluate_check-raise_example =
    evaluate_check-raise import_known lost_check host none no_module lost_automated
      (features_there, tt) (inl refl) (inl refl)

run_confidence : run.result.confidence ≡ some proxy
unfolding evaluate_check ie11_disabled_or_removed with_confidence_ceiling require fact str_eq
    resolve truthy iterate filter get_or contains lower to_text satisfied
run_confidence = refl

evaluate_check-ceiling_example : rank proxy ≤ rank proxy
evaluate_check-ceiling_example =
    evaluate_check-ceiling import_known ie_check host none proxy run_confidence

found_well :
    (f : Evaluator)
    → evaluator_named import_known ie_check.evaluator ≡ ok f
    → Returns IsWellFormed (f host ie_check.parameters empty_history)
unfolding str_eq evaluator_named
found_well f e =
    subst (λ (g : Evaluator). Returns IsWellFormed (g host ie_check.parameters empty_history))
      (ok-injective ie11_disabled_or_removed f e)
      (ie11-IsWellFormed host ie_check.parameters empty_history)

evaluate_check-IsWellFormed_example : IsWellFormed run.result
evaluate_check-IsWellFormed_example =
    evaluate_check-IsWellFormed import_known ie_check host none found_well

is_fresh_iff_example :
    (is_fresh run (moment + 23 * hour) ≡ true)
    ↔ ((moment ≤ moment + 23 * hour) × (moment + 23 * hour < moment + 24 * hour))
is_fresh_iff_example = is_fresh_iff import_known ie_check host none (moment + 23 * hour)

-- A run over the registry: the attested check is not run.
abbrev runs : List Evaluation
runs = evaluate_bundle import_known registry host none none

In-evaluate_bundle_iff_example : In run runs ↔ (
    (c : Check) × Registered registry c
    × Applies host none c
    × (run ≡ evaluate_check import_known c host none))
In-evaluate_bundle_iff_example = In-evaluate_bundle_iff import_known host none none registry run

abbrev baseline : List String
baseline = "ism-1654" ∷ "ism-0042" ∷ "ism-7777" ∷ []

unassessed_controls-Explains_example :
    (IsDetermined (run ∷ []) "ism-0042"
      × (lookup "ism-0042" (unassessed_controls baseline registry (run ∷ [])) ≡ none))
    ⊎ ((¬ IsDetermined (run ∷ []) "ism-0042")
        × ((r : UnassessedReason) × (lookup "ism-0042"
                (unassessed_controls baseline registry (run ∷ []))
              ≡ some r)
            × Explains registry (run ∷ []) "ism-0042" r))
unassessed_controls-Explains_example =
    unassessed_controls-Explains registry (run ∷ []) baseline "ism-0042" (inr (inl refl))

other : ¬ In "ism-9999" baseline
unfolding mem_text str_eq
other m = false≢true (In→mem_text "ism-9999" baseline m)

unassessed_controls-none_example :
    lookup "ism-9999" (unassessed_controls baseline registry (run ∷ [])) ≡ none
unassessed_controls-none_example =
    unassessed_controls-none registry (run ∷ []) baseline "ism-9999" other

controls_iff_example :
    (In "ism-0042" (automated_controls registry) ↔ HasAutomated registry "ism-0042")
    × (In "ism-0042" (attested_controls registry) ↔ HasAttested registry "ism-0042")
controls_iff_example = controls_iff registry "ism-0042"

require-none_iff_example :
    (require host ("windows.os.optional_features" ∷ []) ≡ none)
    ↔ All (IsComplete host) ("windows.os.optional_features" ∷ [])
require-none_iff_example = require-none_iff host ("windows.os.optional_features" ∷ [])

abbrev stopped_at : CheckResult
stopped_at =
    unassessed UnassessedReason.collection_error
      "missing required fact(s): windows.os.optional_features" []

unread_stops : require unread ("windows.os.optional_features" ∷ []) ≡ some stopped_at
unfolding require fact join sort_texts
unread_stops = refl

require-Stops_example : Stops unread ("windows.os.optional_features" ∷ []) stopped_at
require-Stops_example =
    require-Stops unread ("windows.os.optional_features" ∷ []) stopped_at unread_stops

with_confidence_ceiling_lem_example :
    let s = with_confidence_ceiling verdict proxy in
    (s.status ≡ verdict.status)
    × (s.detail ≡ verdict.detail)
    × (s.reason ≡ verdict.reason)
    × (s.facts ≡ verdict.facts)
    × Weaker verdict.confidence proxy s.confidence
with_confidence_ceiling_lem_example = with_confidence_ceiling_lem verdict proxy
