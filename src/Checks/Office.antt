-- ===== src/Checks/Office.antt =====
-- tools/nobytes_cca/checks/windows/office.py: the guard that the Office checks share, ism-1489,
-- ism-1671 and ism-1672. `macro_internet_blocked` (ism-1488) is in `Office/InternetMacros.antt`.
pub mod Guard
pub mod Guarded
pub mod InternetMacros
pub mod NoFalsePass
pub mod Evidence
use oscal_aap_ansible_playbo.Prelude.{
  ℕ, String, ◌<>◌, Bool, true, false, not, ◌&&◌, ◌||◌, Option, none, some, List, [], ◌∷◌, ◌++◌,
  length, is_empty, if◌then◌else◌,
}
use oscal_aap_ansible_playbo.Py.Text.{decimal, join}
use oscal_aap_ansible_playbo.Py.Value.{
  Value, null, bool, str, list, dict, num, truthy, is_none, py_eq, to_text,
}
use oscal_aap_ansible_playbo.Py.Result
use oscal_aap_ansible_playbo.Py.Result.{Result, ok, raise, ◌>>=◌, filter_map}
use oscal_aap_ansible_playbo.Py.Access.{get, get_or, iterate, in_set, to_set, difference, sorted}
use oscal_aap_ansible_playbo.Contract.Terms.{proxy, partial, collection_error, partial_population}
use oscal_aap_ansible_playbo.Contract.Verdict.{
  CheckResult, Facts, satisfied, not_satisfied, not_applicable, unassessed,
}
use oscal_aap_ansible_playbo.Contract.Bundle.{Fact, FactBundle, FactHistory, fact}
use oscal_aap_ansible_playbo.Checks.Office.Guard.{
  office_guard, after_guard, profiles_unloaded, coverage_gap, in_scope_apps, rows_in_scope,
}

-- `[r.get("app") for r in rows]`.
pub apps_of : List Value → Result (List Value)
apps_of [] = ok []
apps_of (r ∷ rs) = get r "app" >>= λ app. apps_of rs >>= λ apps. ok (app ∷ apps)

-- The row of `unlocked`, where the value is not delivered by Group Policy.
unfoldable pub unlocked_row : Value → Result (Option Value)
unlocked_row r = get r "gpo_delivered" >>= λ gpo.
    if truthy gpo
    then ok none
    else (get r "app" >>= λ app. get r "scope" >>= λ scope. get r "sid" >>= λ sid.
        ok (some (dict (("app", app) ∷ ("scope", scope) ∷ ("sid", sid) ∷ []))))

-- The verdict of ism-1489.
unfoldable pub locked_verdict : List Value → List Value → List Value → Facts → Result CheckResult
unfolding coverage_gap
locked_verdict unlocked unloaded no_evidence facts =
    let gaps = coverage_gap unloaded no_evidence in
    if not (is_empty unlocked)
    then not_satisfied
        (decimal (length unlocked)
          <> " macro security value(s) are not GPO-delivered and are therefore writable by the user they apply to.")
        facts proxy
    else if not (is_empty gaps)
    then ok (
        unassessed partial_population
          ("No unlocked settings observed, but " <> (join "; " gaps <> ".")) facts)
    else satisfied "All in-scope Office macro security settings are GPO-delivered policy values."
        facts proxy

locked_facts : List Value → List Value → List Value → List Value → Facts
locked_facts seen unlocked no_evidence unloaded =
    ("apps_with_policy", list seen)
    ∷ ("not_gpo_delivered", list unlocked)
    ∷ ("apps_without_evidence", list no_evidence)
    ∷ ("profiles_unloaded", list unloaded)
    ∷ []

unfoldable pub judge_locked : Value → Fact → Result CheckResult
unfolding apps_of unlocked_row locked_facts locked_verdict
judge_locked params policy = in_scope_apps params >>= λ apps. rows_in_scope apps policy >>= λ rows.
    filter_map unlocked_row rows >>= λ unlocked. apps_of rows >>= λ listed.
    to_set listed >>= λ seen. sorted (difference apps seen) >>= λ no_evidence.
    sorted seen >>= λ seen_sorted. profiles_unloaded policy >>= λ unloaded.
    locked_verdict unlocked unloaded no_evidence
      (locked_facts seen_sorted unlocked no_evidence unloaded)

unfoldable pub macro_settings_locked : FactBundle → Value → FactHistory → Result CheckResult
unfolding office_guard judge_locked
macro_settings_locked bundle params history =
    office_guard bundle >>= λ g. after_guard g (judge_locked params)

-- The row of `enabled`: a value is there, and it is not the required one.
unfoldable pub enabled_row : Value → Value → Result (Option Value)
enabled_row required r = get r "vbawarnings" >>= λ v.
    if is_none v || py_eq v required
    then ok none
    else (get r "app" >>= λ app. get r "scope" >>= λ scope. get r "sid" >>= λ sid.
        ok (some (dict (("app", app) ∷ ("scope", scope) ∷ ("sid", sid) ∷ ("vbawarnings", v) ∷ []))))

pub app_with_value : Value → Result (Option Value)
app_with_value r = get r "vbawarnings" >>= λ v.
    if is_none v then ok none else (get r "app" >>= λ app. ok (some app))

disabled_facts : Value → List Value → List Value → Facts
disabled_facts required enabled no_evidence =
    ("required_vbawarnings", required)
    ∷ ("not_disabled", list enabled)
    ∷ ("apps_without_evidence", list no_evidence)
    ∷ (
      "note",
      str
          "Whether any user with macros enabled has a demonstrated business requirement is not observable on the host and is not assessed.",
    )
    ∷ []

-- The verdict of ism-1671.
unfoldable pub disabled_verdict :
    Value → List Value → List Value → List Value → Facts → Result CheckResult
unfolding coverage_gap
disabled_verdict required enabled unloaded no_evidence facts =
    let gaps = coverage_gap unloaded no_evidence in
    if not (is_empty enabled)
    then not_satisfied
        (decimal (length enabled)
          <> (" application/profile combination(s) do not disable macros (VBAWarnings != "
              <> (to_text required
                  <> "). Each may or may not be an approved exemption; that is not observable here.")))
        facts partial
    else if not (is_empty gaps)
    then ok (
        unassessed partial_population
          ("No enabled macros observed, but " <> (join "; " gaps <> ".")) facts)
    else satisfied
        ("All in-scope Office applications disable macros (VBAWarnings="
          <> (to_text required <> "). The business-requirement exemption process is not assessed."))
        facts partial

unfoldable pub judge_disabled : Value → Fact → Result CheckResult
unfolding enabled_row app_with_value disabled_facts disabled_verdict
judge_disabled params policy = in_scope_apps params >>= λ apps.
    get_or params "required_vbawarnings" (num 4) >>= λ required.
    rows_in_scope apps policy >>= λ rows. filter_map (enabled_row required) rows >>= λ enabled.
    filter_map app_with_value rows >>= λ listed. to_set listed >>= λ with_value.
    sorted (difference apps with_value) >>= λ no_evidence.
    let facts = disabled_facts required enabled no_evidence in
    if is_empty enabled
    then (profiles_unloaded policy >>= λ unloaded.
        disabled_verdict required enabled unloaded no_evidence facts)
    else disabled_verdict required enabled [] no_evidence facts

unfoldable pub macros_disabled_without_business_need :
    FactBundle → Value → FactHistory → Result CheckResult
unfolding office_guard judge_disabled
macros_disabled_without_business_need bundle params history =
    office_guard bundle >>= λ g. after_guard g (judge_disabled params)

-- `r.get("macroruntimescanscope") is not None`.
unfoldable pub has_scan_scope : Value → Result Bool
has_scan_scope r = get r "macroruntimescanscope" >>= λ v. ok (not (is_none v))

unfoldable pub wrong_row : Value → Value → Result (Option Value)
wrong_row required r = get r "macroruntimescanscope" >>= λ v.
    if py_eq v required
    then ok none
    else (get r "scope" >>= λ scope. get r "sid" >>= λ sid.
        ok (some (dict (("scope", scope) ∷ ("sid", sid) ∷ ("value", v) ∷ []))))

scan_scopes : List Value → Result (List Value)
scan_scopes [] = ok []
scan_scopes (r ∷ rs) = get r "macroruntimescanscope" >>= λ v. scan_scopes rs >>= λ vs. ok (v ∷ vs)

-- The verdict of ism-1672, from the scopes that carry a value.
unfoldable pub scan_verdict : Value → List Value → Facts → Result CheckResult
scan_verdict required wrong facts =
    if not (is_empty wrong)
    then not_satisfied
        (decimal (length wrong)
          <> (" scope(s) do not set MacroRuntimeScanScope=" <> (to_text required <> ".")))
        facts proxy
    else satisfied
        ("MacroRuntimeScanScope="
          <> (to_text required
              <> " in every observed scope. AMSI provider health and antivirus currency are not assessed."))
        facts proxy

pub judge_scopes : Value → List Value → Result CheckResult
unfolding wrong_row scan_scopes scan_verdict
judge_scopes required scopes = filter_map (wrong_row required) scopes >>= λ wrong.
    scan_scopes scopes >>= λ observed. scan_verdict required wrong (
      ("required_scan_scope", required)
      ∷ ("observed", list observed)
      ∷ ("misconfigured", list wrong)
      ∷ [])

unfoldable pub judge_scanning : Value → Fact → Result CheckResult
unfolding has_scan_scope judge_scopes
judge_scanning params policy = get_or params "required_scan_scope" (num 2) >>= λ required.
    iterate policy.value >>= λ rows. Result.filter has_scan_scope rows >>= λ scopes.
    if is_empty scopes
    then ok (
        unassessed partial_population
          "No MacroRuntimeScanScope value was observed in any scope. Absence of the value is not evidence that scanning is disabled -- the default varies by Office build."
          (("observed", list []) ∷ []))
    else judge_scopes required scopes

unfoldable pub macro_antivirus_scanning : FactBundle → Value → FactHistory → Result CheckResult
unfolding office_guard judge_scanning
macro_antivirus_scanning bundle params history =
    office_guard bundle >>= λ g. after_guard g (judge_scanning params)
