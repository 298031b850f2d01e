-- ===== src/Examples/Windows.antt =====
-- A host with Office under Group Policy, a host with AppLocker, and the theorems on their checks.
use oscal_aap_ansible_playbo.Checks.OsState
use oscal_aap_ansible_playbo.Checks.OsState.Evidence.{Enumerated, ie11-Agrees}
use oscal_aap_ansible_playbo.Py.Access.{iterate_or_empty, to_int, sort_texts}
use oscal_aap_ansible_playbo.Py.Text.{join}
use oscal_aap_ansible_playbo.Py.Access.{difference, sorted, index, in_set, to_set, iterate, get_or}
use oscal_aap_ansible_playbo.Prelude.{
  List, mem_text, str_eq, String, ◌≡◌, refl, ◌≢◌, Option, true, false, none, some, [], ◌∷◌,
}
use oscal_aap_ansible_playbo.Py.Value.{
  to_text, or_else, truthy, Value, bool, str, list, dict, num, strs,
}
use oscal_aap_ansible_playbo.Py.Result.{filter_map, filter, Result, ok, raise, Returns}
use oscal_aap_ansible_playbo.Contract.Terms.{emits_finding, Status, proxy}
use oscal_aap_ansible_playbo.Contract.Verdict.{satisfied, CheckResult}
use oscal_aap_ansible_playbo.Contract.Evidence.{IsWellFormed}
use oscal_aap_ansible_playbo.Contract.Bundle.{fact, Fact, FactBundle, empty_history}
use oscal_aap_ansible_playbo.Checks.Office.Guard.{
  profiles_unloaded, rows_in_scope, in_scope_apps, office_guard,
}
use oscal_aap_ansible_playbo.Checks.Office.Guarded.{Admits, Guards, office_guard-Guards}
use oscal_aap_ansible_playbo.Checks.Office.InternetMacros.{macro_internet_blocked}
use oscal_aap_ansible_playbo.Checks.Office.NoFalsePass.{
  PolicyEvidence, macro_internet_blocked-evidence,
}
use oscal_aap_ansible_playbo.Checks.Office.{
  macro_settings_locked, macros_disabled_without_business_need, macro_antivirus_scanning,
}
use oscal_aap_ansible_playbo.Checks.AppControl.{
  application_control_implemented, application_control_covers_required_file_types,
}
use oscal_aap_ansible_playbo.Checks.AppControl.State.{
  applocker_of, wdac_of, enforced_collections, audit_only, wdac_enforcing,
}
use oscal_aap_ansible_playbo.Checks.AppControl.Claims
use oscal_aap_ansible_playbo.Checks.AppControl.Claims.{
  Blocking, application_control_implemented-evidence, covers_required_file_types-ne_satisfied,
}
use oscal_aap_ansible_playbo.Checks.OsState.{ie11_disabled_or_removed}
use oscal_aap_ansible_playbo.Checks.OsSupport.{vendor_supported}
use oscal_aap_ansible_playbo.Checks.WellFormed.{WellFormed}
use oscal_aap_ansible_playbo.Checks.Evaluators.{evaluators-IsWellFormed}
use oscal_aap_ansible_playbo.Checks.AppSupport.{unsupported_applications_removed}
use oscal_aap_ansible_playbo.Checks.Browsers.Ads.{advertisements_not_processed}
use oscal_aap_ansible_playbo.Checks.Browsers.Java.{java_not_processed}
use oscal_aap_ansible_playbo.Checks.Browsers.Locked.{security_settings_locked}
use oscal_aap_ansible_playbo.Checks.AppControlPaths.{application_control_covers_user_writable_paths}
use oscal_aap_ansible_playbo.Examples.Host.{verdict, ie11-host, moment, bundle_of, host}

abbrev fact_of : String → Value → Value → Fact
fact_of key value meta = record {
  key = key;
  value = value;
  collected = moment;
  source = "ansible";
  partial = false;
  meta = meta;
}

-- Word is blocked for the machine; Excel is blocked for the one user.
abbrev row : String → String → String → Value
row app scope sid = dict (
    ("app", str app)
    ∷ ("scope", str scope)
    ∷ ("sid", str sid)
    ∷ ("blockcontentexecutionfrominternet", num 1)
    ∷ ("gpo_delivered", bool true)
    ∷ [])

abbrev rows : Value
rows = list (row "word" "machine" "" ∷ row "excel" "user" "S-1-5-21-1" ∷ [])

abbrev office_host : FactBundle
office_host = bundle_of (
    (
      "windows.office.install",
      fact_of "windows.office.install" (dict (("version", str "16.0") ∷ [])) (dict []),
    )
    ∷ ("windows.office.macro_policy", fact_of "windows.office.macro_policy" rows (dict []))
    ∷ [])

abbrev office_params : Value
office_params = dict (("in_scope_apps", list (strs ("word" ∷ "excel" ∷ []))) ∷ [])

abbrev macro_result : CheckResult
macro_result = record {
  status = Status.satisfied;
  detail =
      "All in-scope Office applications block macros in files originating from the internet, via GPO-delivered policy.";
  confidence = some proxy;
  reason = none;
  facts =
      ("blocked_machine_wide", list (strs ("word" ∷ [])))
      ∷ ("failing", list [])
      ∷ ("apps_without_evidence", list [])
      ∷ ("profiles_total", Value.null)
      ∷ ("profiles_loaded", Value.null)
      ∷ ("profiles_unloaded", list [])
      ∷ [];
}

macros_blocked : macro_internet_blocked office_host office_params empty_history ≡ ok macro_result
unfolding macro_internet_blocked fact str_eq truthy in_scope_apps get_or iterate to_set
    rows_in_scope filter in_set filter_map index sorted difference profiles_unloaded satisfied
macros_blocked = refl

macro_internet_blocked-evidence_example :
    (policy : Fact) × Admits office_host policy × PolicyEvidence office_params policy
macro_internet_blocked-evidence_example =
    macro_internet_blocked-evidence office_host office_params empty_history macro_result
      macros_blocked refl

office_guard-Guards_example : Returns (Guards office_host) (office_guard office_host)
office_guard-Guards_example = office_guard-Guards office_host

-- AppLocker enforces rules on executables; WDAC does not run.
abbrev applocker : Value
applocker = dict (
    ("available", bool true)
    ∷ ("rule_count", num 3)
    ∷ (
      "collections",
      list (
          dict
            (("type", str "Exe") ∷ ("enforcement_mode", str "Enabled") ∷ ("rule_count", num 3) ∷ [])
          ∷ []),
    )
    ∷ [])

abbrev locked_host : FactBundle
locked_host = bundle_of (
    (
      "windows.appcontrol.state",
      fact_of "windows.appcontrol.state" (dict (("applocker", applocker) ∷ ("wdac", dict []) ∷ []))
          (dict []),
    )
    ∷ [])

abbrev locked_result : CheckResult
locked_result = record {
  status = Status.satisfied;
  detail = "AppLocker is enforcing 1 rule collection(s): Exe.";
  confidence = some proxy;
  reason = none;
  facts =
      ("applocker_available", bool true)
      ∷ ("applocker_enforced_collections", list (strs ("Exe" ∷ [])))
      ∷ ("applocker_audit_only_collections", list [])
      ∷ ("applocker_rule_count", num 3)
      ∷ ("wdac_enforcing", bool false)
      ∷ ("wdac_running", list [])
      ∷ [];
}

is_locked : application_control_implemented locked_host (dict []) empty_history ≡ ok locked_result
unfolding application_control_implemented fact str_eq applocker_of get_or or_else wdac_of
    enforced_collections iterate_or_empty filter_map to_text to_int audit_only wdac_enforcing sorted
    mem_text satisfied sort_texts join
is_locked = refl

application_control_implemented-evidence_example :
    (f : Fact) × Claims.Admits locked_host f × Blocking f
application_control_implemented-evidence_example =
    application_control_implemented-evidence locked_host (dict []) empty_history locked_result
      is_locked refl

covers_required_file_types-ne_satisfied_example :
    Returns
      (λ r. (r.status ≢ Status.satisfied) × IsWellFormed r)
      (application_control_covers_required_file_types locked_host (dict []) empty_history)
covers_required_file_types-ne_satisfied_example =
    covers_required_file_types-ne_satisfied locked_host (dict []) empty_history

verdict_finds : emits_finding verdict.status ≡ true
unfolding emits_finding
verdict_finds = refl

ie11-Agrees_example :
    (rows : List Value) × Enumerated host rows
    × OsState.Evidence.Agrees rows (fact host "windows.browser.ie_policy") Status.satisfied
ie11-Agrees_example = ie11-Agrees host (dict []) empty_history verdict ie11-host verdict_finds

-- The data set is not there.
abbrev load_nothing : String → Result Value
load_nothing name = raise (record { kind = "FileNotFoundError"; message = name })

-- A parser that knows no document.
abbrev parse_nothing : String → Option Value
parse_nothing s = none

evaluators-IsWellFormed_example :
    WellFormed (application_control_implemented locked_host (dict []) empty_history)
    × WellFormed (advertisements_not_processed parse_nothing locked_host (dict []) empty_history)
    × WellFormed (java_not_processed locked_host (dict []) empty_history)
    × WellFormed (macro_internet_blocked locked_host (dict []) empty_history)
    × WellFormed (macro_settings_locked locked_host (dict []) empty_history)
    × WellFormed (vendor_supported load_nothing locked_host (dict []) empty_history)
    × WellFormed (security_settings_locked parse_nothing locked_host (dict []) empty_history)
    × WellFormed (ie11_disabled_or_removed locked_host (dict []) empty_history)
    × WellFormed
        (application_control_covers_required_file_types locked_host (dict []) empty_history)
    × WellFormed (macros_disabled_without_business_need locked_host (dict []) empty_history)
    × WellFormed (macro_antivirus_scanning locked_host (dict []) empty_history)
    × WellFormed (unsupported_applications_removed load_nothing locked_host (dict []) empty_history)
    × WellFormed
        (application_control_covers_user_writable_paths locked_host (dict []) empty_history)
evaluators-IsWellFormed_example =
    evaluators-IsWellFormed load_nothing parse_nothing locked_host (dict []) empty_history
