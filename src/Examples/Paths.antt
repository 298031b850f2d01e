-- ===== src/Examples/Paths.antt =====
-- Hosts under the default path rules of AppLocker, and under a rule with an exception.
use oscal_aap_ansible_playbo.Prelude.{
  ◌≡◌, refl, ap, Bool, true, false, List, [], ◌∷◌, String, none, str_eq,
}
use oscal_aap_ansible_playbo.Py.Value.{Value, bool, str, list, dict, num, to_text, or_else}
use oscal_aap_ansible_playbo.Py.Text.{
  after_last, has_prefix, before, has_suffix, upper, contains, take, lower, join, strip,
}
use oscal_aap_ansible_playbo.Py.Glob.{fnmatchcase}
use oscal_aap_ansible_playbo.Py.Result.{Result, ok, filter, filter_map, any}
use oscal_aap_ansible_playbo.Py.Access.{get_or, iterate_or_empty, to_int, sort_texts, as_text}
use oscal_aap_ansible_playbo.Contract.Terms.{Status, emits_finding}
use oscal_aap_ansible_playbo.Contract.Verdict.{CheckResult, satisfied, not_satisfied}
use oscal_aap_ansible_playbo.Contract.Bundle.{Fact, FactBundle, fact, empty_history}
use oscal_aap_ansible_playbo.Checks.AppControl.State.{applocker_of, wdac_of, wdac_enforcing}
use oscal_aap_ansible_playbo.Checks.AppControlPaths.Paths.{covers, contains_location, is_admin_sid}
use oscal_aap_ansible_playbo.Checks.AppControlPaths.Rules.{writable_locations, permitting_rules}
use oscal_aap_ansible_playbo.Checks.AppControlPaths.{application_control_covers_user_writable_paths}
use oscal_aap_ansible_playbo.Checks.AppControlPaths.Reads.{Reading}
use oscal_aap_ansible_playbo.Checks.AppControlPaths.Evidence.{
  Whole, ReadAs, Supports, user_writable_paths-Supports,
}
use oscal_aap_ansible_playbo.Examples.Host.{moment, bundle_of}

abbrev whole_fact : String → Value → Fact
whole_fact key value = record {
  key = key;
  value = value;
  collected = moment;
  source = "ansible";
  partial = false;
  meta = dict [];
}

-- A file name class, a range and a negated class of `fnmatch`.
glob_runs : fnmatchcase "C:\\USERS\\A1" "C:\\*\\[A-C][!2-9]" ≡ true
unfolding fnmatchcase take str_eq
glob_runs = refl

glob_fails : fnmatchcase "C:\\USERS\\A1" "C:\\?\\[A-C]*" ≡ false
unfolding fnmatchcase
glob_fails = refl

covers_temp : covers "%windir%\\*" "C:\\Windows\\Temp" "C:\\Windows\\" ≡ true
unfolding covers contains upper strip
covers_temp = refl

covers_inner : covers "%OSDRIVE%\\Users\\*\\Downloads\\*" "C:\\Users" "C:\\Windows" ≡ true
unfolding covers contains upper strip has_suffix take before
covers_inner = refl

excepts_temp : contains_location "%WINDIR%\\Temp\\*" "C:\\Windows\\Temp" "C:\\Windows" ≡ true
unfolding contains_location contains upper strip has_suffix take
excepts_temp = refl

covers_not : covers "%REMOVABLE%\\*" "C:\\Users" "C:\\Windows" ≡ false
unfolding covers contains upper strip
covers_not = refl

domain_admins : is_admin_sid " s-1-5-21-1-2-3-512 " ≡ true
unfolding is_admin_sid str_eq upper strip has_prefix after_last
domain_admins = refl

-- A rule that allows everyone all of the Windows directory.
abbrev windows_rule : List Value → Value
windows_rule exceptions = dict (
    ("action", str "Allow")
    ∷ ("name", str "Windows")
    ∷ ("sid", str "S-1-1-0")
    ∷ ("paths", list (str "%WINDIR%\\*" ∷ []))
    ∷ ("exceptions", list exceptions)
    ∷ [])

abbrev host_with : List Value → FactBundle
host_with exceptions = bundle_of (
    (
      "windows.appcontrol.state",
      whole_fact "windows.appcontrol.state" (
          dict (
            (
              "applocker",
              dict (
                  (
                    "collections",
                    list (
                        dict (
                          ("type", str "Exe")
                          ∷ ("enforcement_mode", str "Enabled")
                          ∷ ("rule_count", num 1)
                          ∷ ("path_rules", list (windows_rule exceptions ∷ []))
                          ∷ [])
                        ∷ []),
                  )
                  ∷ []),
            )
            ∷ ("wdac", dict [])
            ∷ [])),
    )
    ∷ (
      "windows.appcontrol.writable_paths",
      whole_fact "windows.appcontrol.writable_paths" (
          dict (
            ("windows_root", str "C:\\Windows")
            ∷ (
              "probes",
              list (
                  dict (
                    ("path", str "C:\\Windows\\Temp")
                    ∷ ("role", str "os-temp")
                    ∷ ("non_admin_writable", bool true)
                    ∷ [])
                  ∷ []),
            )
            ∷ [])),
    )
    ∷ [])

abbrev result_of : Result CheckResult → CheckResult
result_of (ok r) = r
result_of _ = record {
  status = Status.error;
  detail = "";
  confidence = none;
  reason = none;
  facts = [];
}

abbrev excepted : Result CheckResult
excepted =
    application_control_covers_user_writable_paths (host_with (str "%WINDIR%\\Temp\\*" ∷ []))
      (dict []) empty_history

abbrev unguarded : Result CheckResult
unguarded = application_control_covers_user_writable_paths (host_with []) (dict []) empty_history

excepted_passes : (result_of excepted).status ≡ Status.satisfied
unfolding application_control_covers_user_writable_paths fact get_or or_else applocker_of wdac_of
    wdac_enforcing to_int iterate_or_empty filter to_text writable_locations filter_map
    permitting_rules lower any as_text covers contains_location contains upper strip has_suffix take
    before str_eq satisfied not_satisfied sort_texts join is_admin_sid
excepted_passes = refl

unguarded_fails : (result_of unguarded).status ≡ Status.not_satisfied
unfolding application_control_covers_user_writable_paths fact get_or or_else applocker_of wdac_of
    wdac_enforcing to_int iterate_or_empty filter to_text writable_locations filter_map
    permitting_rules lower any as_text covers contains_location contains upper strip has_suffix take
    before str_eq satisfied not_satisfied sort_texts join is_admin_sid
unguarded_fails = refl

unguarded_runs : unguarded ≡ ok (result_of unguarded)
unfolding application_control_covers_user_writable_paths fact get_or or_else applocker_of wdac_of
    wdac_enforcing to_int iterate_or_empty filter to_text writable_locations filter_map
    permitting_rules lower any as_text covers contains_location contains upper strip has_suffix take
    before str_eq satisfied not_satisfied sort_texts join is_admin_sid
unguarded_runs = refl

excepted_runs : excepted ≡ ok (result_of excepted)
unfolding application_control_covers_user_writable_paths fact get_or or_else applocker_of wdac_of
    wdac_enforcing to_int iterate_or_empty filter to_text writable_locations filter_map
    permitting_rules lower any as_text covers contains_location contains upper strip has_suffix take
    before str_eq satisfied not_satisfied sort_texts join is_admin_sid
excepted_runs = refl

unguarded_finds : emits_finding (result_of unguarded).status ≡ true
unfolding emits_finding
unguarded_finds = ap emits_finding unguarded_fails

user_writable_paths-Supports_example :
    (state : Fact) × (paths : Fact) × (reading : Reading) × (fail_on_admin : Bool) × Whole
      (host_with [])
      "windows.appcontrol.state"
      state
    × Whole (host_with []) "windows.appcontrol.writable_paths" paths
    × ReadAs (dict []) state.value paths.value reading fail_on_admin
    × Supports reading fail_on_admin (result_of unguarded).status
user_writable_paths-Supports_example =
    user_writable_paths-Supports (host_with []) (dict []) empty_history (result_of unguarded)
      unguarded_runs unguarded_finds
