-- ===== src/Checks/AppControlPaths.antt =====
-- tools/nobytes_cca/checks/windows/appcontrol_paths.py: ism-1870, application control on user profiles
-- and temporary folders. `Paths` and `Rules` have the functions that the evaluator
-- calls, `Reads` what it reads of the facts, and `Details` the texts of its results.
pub mod Paths
pub mod Rules
pub mod Reads
pub mod Details
pub mod Gathered
pub mod Harmless
pub mod Permitted
pub mod Evidence
use oscal_aap_ansible_playbo.Prelude.{
  ℕ, String, ◌<>◌, Bool, true, false, not, ◌&&◌, ◌||◌, ◌==◌, Option, none, some, List, [], ◌∷◌,
  ◌++◌, map, length, is_empty, if◌then◌else◌, lookup, insert, unique, str_eq,
}
use oscal_aap_ansible_playbo.Prelude.Int.{pos, ltb_ℤ}
use oscal_aap_ansible_playbo.Py.Text.{decimal, join}
use oscal_aap_ansible_playbo.Py.Value.{
  Value, bool, str, list, dict, num, strs, truthy, or_else, to_text, type_name,
}
use oscal_aap_ansible_playbo.Py.Result.{Result, ok, raise, ◌>>=◌, filter, filter_map}
use oscal_aap_ansible_playbo.Py.Access.{
  get, get_or, iterate_or_empty, sort_texts, to_int, type_error,
}
use oscal_aap_ansible_playbo.Contract.Terms.{
  partial, insufficient_privilege, collection_error, partial_population,
}
use oscal_aap_ansible_playbo.Contract.Verdict.{
  CheckResult, Facts, satisfied, not_satisfied, unassessed,
}
use oscal_aap_ansible_playbo.Contract.Bundle.{Fact, FactBundle, FactHistory, fact, with_fact}
use oscal_aap_ansible_playbo.Checks.AppControl.State.{
  applocker_of, wdac_of, wdac_enforcing, mode_of, type_of,
}
use oscal_aap_ansible_playbo.Checks.AppControlPaths.Rules.{
  Probes, writable_locations, Hit, Unread, Found, permitting_rules,
}
use oscal_aap_ansible_playbo.Checks.AppControlPaths.Reads.{Reading, fact_guard, read_paths}
use oscal_aap_ansible_playbo.Checks.AppControlPaths.Details.{
  unread_name, found_facts, permitted_detail,
}

-- What follows the call of `_permitting_rules`.
unfoldable pub found_verdict : Reading → Found → Result CheckResult
unfolding unread_name permitted_detail found_facts
found_verdict reading found =
    let facts = found_facts reading.base_facts found in
    if not (is_empty found.unreadable_rules) && is_empty found.permitted
    then (filter_map unread_name found.unreadable_rules >>= λ names. ok (
        unassessed collection_error
          (decimal (length found.unreadable_rules)
            <> (" allow rule(s) carried no readable path condition. A rule whose scope could not be determined is not a rule that allows nothing, so no verdict is reported: "
                <> (join ", " (sort_texts names) <> ".")))
          facts))
    else if not (is_empty found.permitted)
    then not_satisfied (permitted_detail found) facts partial
    else if reading.truncated || not (reading.probes.unreadable == 0)
    then ok (
        unassessed partial_population
          ("Every writable location that was found is covered by the enforced rules, but the search was incomplete: "
            <> (decimal reading.probes.unreadable
                <> (" path(s) unreadable"
                    <> ((if reading.truncated then ", Windows directory walk truncated" else "")
                        <> ". The location that was not inspected could be the permitted one."))))
          facts)
    else satisfied
        (decimal (length reading.probes.found)
          <> (" non-administrator-writable location(s) were found and the enforced AppLocker collections ("
              <> (join ", " reading.enforced_types
                  <> ") permit execution from none of them. What this does not prove: that every temporary folder used by every installed browser and email client was among the locations probed.")))
        facts partial

-- Where no location is writable.
unfoldable pub unwritable_verdict : Reading → Result CheckResult
unwritable_verdict reading =
    if reading.truncated || not (reading.probes.unreadable == 0)
    then ok (
        unassessed partial_population
          ("No non-administrator-writable location was found, but the search was incomplete: "
            <> (decimal reading.probes.unreadable
                <> (" path(s) could not be read"
                    <> ((if reading.truncated
                          then " and the Windows directory walk hit its budget"
                          else "")
                        <> ". An incomplete search finding nothing is not the same as there being nothing."))))
          reading.base_facts)
    else satisfied
        "None of the locations this control names is writable by a non-administrator on this host, so no application control rule can be bypassed by writing to one. Note this is a statement about filesystem permissions, not about the rule set."
        reading.base_facts partial

-- From `if not enforced` to the end.
unfoldable pub paths_verdict : Reading → Bool → Result CheckResult
unfolding unwritable_verdict found_verdict
paths_verdict reading fail_on_admin =
    if is_empty reading.enforced
    then not_satisfied
        "No AppLocker rule collection is enforcing, so application control is applied to user profiles and temporary folders in the same sense it is applied everywhere else: not at all. Which collections exist and why they are not enforcing is ism-0843's finding; this one only records that the locations this control names are unrestricted as a result."
        reading.base_facts partial
    else if is_empty reading.probes.found
    then unwritable_verdict reading
    else (permitting_rules reading.enforced reading.probes.found reading.windows_root fail_on_admin
        >>= λ found. found_verdict reading found)

-- WDAC enforces: the rules of AppLocker do not settle what runs.
unfoldable pub wdac_result : Value → Result CheckResult
wdac_result wdac = get_or wdac "running" (list []) >>= λ running. ok (
    unassessed insufficient_privilege
      "App Control for Business (WDAC) is enforcing a code integrity policy. WDAC decides by signature, hash and file attributes rather than by directory, so an AppLocker path rule does not settle what may execute here -- and the code integrity policy itself is not readable from the state collected. Saying so beats guessing in either direction."
      (("wdac_enforcing", bool true) ∷ ("wdac_running", running) ∷ []))

unfoldable pub fails_on_admin : Value → Result Bool
fails_on_admin params =
    get_or (or_else params (dict [])) "fail_on_administrator_allow" (bool false) >>= λ v.
    ok (truthy v)

-- What follows the guard.
unfoldable pub judge_paths : Value → Value → Value → Result CheckResult
unfolding fails_on_admin wdac_result read_paths paths_verdict
judge_paths params state value = fails_on_admin params >>= λ fail_on_admin.
    applocker_of state >>= λ applocker. wdac_of state >>= λ wdac.
    get (or_else value (dict [])) "windows_root" >>= λ root. wdac_enforcing wdac >>= λ wdac_on.
    if wdac_on
    then wdac_result wdac
    else (read_paths applocker (or_else value (dict []))
          (to_text (or_else root (str "C:\\Windows")))
        >>= λ reading. paths_verdict reading fail_on_admin)

-- The result of a guard, or what follows it.
abbrev pub unless_stopped : Option CheckResult → Result CheckResult → Result CheckResult
unless_stopped (some r) m = ok r
unless_stopped none m = m

-- The facts that the guard found.
abbrev pub both_facts :
    Option Fact → Option Fact → (Fact → Fact → Result CheckResult) → Result CheckResult
both_facts (some f) (some g) next = next f g
both_facts f g next = raise (type_error "'NoneType' object has no attribute 'value'")

-- `application_control_covers_user_writable_paths`.
unfoldable pub application_control_covers_user_writable_paths :
    FactBundle → Value → FactHistory → Result CheckResult
unfolding fact_guard judge_paths
application_control_covers_user_writable_paths bundle params history =
    unless_stopped (fact_guard bundle "windows.appcontrol.state") (
      unless_stopped (fact_guard bundle "windows.appcontrol.writable_paths") (
        both_facts (fact bundle "windows.appcontrol.state")
          (fact bundle "windows.appcontrol.writable_paths")
          (λ state paths. judge_paths params state.value paths.value)))
