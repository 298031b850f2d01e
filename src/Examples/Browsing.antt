-- ===== src/Examples/Browsing.antt =====
-- A host with Edge and Firefox under mandatory policy that forces ad blockers.
use oscal_aap_ansible_playbo.Prelude.{
  ◌≢◌, ◌≡◌, ◌&&◌, refl, Bool, true, false, List, [], ◌∷◌, In, String, Option, none, some,
}
use oscal_aap_ansible_playbo.Py.Value.{Value, str, list, dict, num, to_text, or_else, truthy}
use oscal_aap_ansible_playbo.Py.Text.{has_prefix, before, strip}
use oscal_aap_ansible_playbo.Py.Result.{Result, ok, filter_map}
use oscal_aap_ansible_playbo.Py.Access.{sort_texts, get_or, iterate_or_empty}
use oscal_aap_ansible_playbo.Py.Dict.{keys_of, append_at}
use oscal_aap_ansible_playbo.Contract.Terms.{Status}
use oscal_aap_ansible_playbo.Contract.Verdict.{CheckResult, satisfied}
use oscal_aap_ansible_playbo.Contract.Bundle.{Fact, FactBundle, fact, empty_history}
use oscal_aap_ansible_playbo.Checks.Browsers.Inventory.{
  missing_from, coverage_gap, policy_fact, Installed, rows_of, installed_browsers,
}
use oscal_aap_ansible_playbo.Checks.Browsers.Guards.{Whole}
use oscal_aap_ansible_playbo.Checks.Browsers.Ads.{advertisements_not_processed}
use oscal_aap_ansible_playbo.Checks.Browsers.Java.{java_not_processed, is_ie_mode}
use oscal_aap_ansible_playbo.Checks.Browsers.Locked.{security_settings_locked}
use oscal_aap_ansible_playbo.Checks.Browsers.Forced.{BlockedBy}
use oscal_aap_ansible_playbo.Checks.Browsers.Evidence.{Seen, advertisements_not_processed-BlockedBy}
use oscal_aap_ansible_playbo.Checks.Browsers.Mandatory.{
  HasMandatory, security_settings_locked-HasMandatory,
}
use oscal_aap_ansible_playbo.Checks.Browsers.Npapi.{SurfaceIs, AllPast, java_not_processed-AllPast}
use oscal_aap_ansible_playbo.Examples.Host.{moment, bundle_of}

abbrev read_fact : String → Bool → Value → Fact
read_fact key partial value = record {
  key = key;
  value = value;
  collected = moment;
  source = "ansible";
  partial = partial;
  meta = dict [];
}

abbrev app : String → String → Value
app name version = dict (("name", str name) ∷ ("version", str version) ∷ [])

-- A stand-in for the parser that knows one document.
abbrev loads_one : String → Option Value
loads_one s = some (
    dict (
      (
        "uBlock0@raymondhill.net",
        dict (("installation_mode", str "force_installed") ∷ ("Status", str "locked") ∷ []),
      )
      ∷ []))

abbrev policy : Value
policy = dict (
    (
      "rows",
      list (
          dict (
            ("browser", str "edge")
            ∷ ("policy_level", str "mandatory")
            ∷ (
              "forced_extensions",
              list (str "odfafepnkmbhccpbejgmiehpchacaeak;https://example" ∷ []),
            )
            ∷ [])
          ∷ dict (
              ("browser", str "firefox")
              ∷ ("policy_level", str "mandatory")
              ∷ ("key", str "HKLM")
              ∷ (
                "values",
                dict (
                    ("ExtensionSettings", str "settings")
                    ∷ ("Preferences", str "preferences")
                    ∷ []),
              )
              ∷ [])
          ∷ []),
    )
    ∷ [])

-- The host, where the inventory may be incomplete.
abbrev host_where : Bool → FactBundle
host_where partial = bundle_of (
    ("windows.browsers.policy", read_fact "windows.browsers.policy" false policy)
    ∷ (
      "windows.browsers.java_surface",
      read_fact "windows.browsers.java_surface" false (dict (("ie_integration_level", num 1) ∷ [])),
    )
    ∷ (
      "windows.applications.installed",
      read_fact "windows.applications.installed" partial
          (list (app "Microsoft Edge" "120.0" ∷ app "Mozilla Firefox (x64)" "121.0" ∷ [])),
    )
    ∷ [])

abbrev result_of : Result CheckResult → CheckResult
result_of (ok r) = r
result_of _ = record {
  status = Status.error;
  detail = "";
  confidence = none;
  reason = none;
  facts = [];
}

abbrev ads : Result CheckResult
ads = advertisements_not_processed loads_one (host_where false) (dict []) empty_history

abbrev java : Result CheckResult
java = java_not_processed (host_where false) (dict []) empty_history

abbrev locked : Result CheckResult
locked = security_settings_locked loads_one (host_where false) (dict []) empty_history

ads_run : ads ≡ ok (result_of ads)
unfolding advertisements_not_processed policy_fact fact rows_of get_or or_else iterate_or_empty
    installed_browsers coverage_gap has_prefix to_text append_at sort_texts missing_from strip
    before satisfied
ads_run = refl

ads_pass : (result_of ads).status ≡ Status.satisfied
unfolding advertisements_not_processed policy_fact fact rows_of get_or or_else iterate_or_empty
    installed_browsers coverage_gap has_prefix to_text append_at sort_texts missing_from strip
    before satisfied
ads_pass = refl

java_run : java ≡ ok (result_of java)
unfolding java_not_processed policy_fact fact installed_browsers iterate_or_empty get_or or_else
    has_prefix to_text append_at before coverage_gap satisfied
java_run = refl

java_pass : (result_of java).status ≡ Status.satisfied
unfolding java_not_processed policy_fact fact installed_browsers iterate_or_empty get_or or_else
    has_prefix to_text append_at before coverage_gap satisfied
java_pass = refl

locked_run : locked ≡ ok (result_of locked)
unfolding security_settings_locked policy_fact fact rows_of get_or or_else iterate_or_empty
    installed_browsers filter_map to_text has_prefix append_at sort_texts missing_from coverage_gap
    satisfied
locked_run = refl

locked_pass : (result_of locked).status ≡ Status.satisfied
unfolding security_settings_locked policy_fact fact rows_of get_or or_else iterate_or_empty
    installed_browsers filter_map to_text has_prefix append_at sort_texts missing_from coverage_gap
    satisfied
locked_pass = refl

-- An inventory that is incomplete passes all the same.
partial_pass :
    (result_of
      (security_settings_locked loads_one (host_where true) (dict []) empty_history)).status
    ≡ Status.satisfied
unfolding security_settings_locked policy_fact fact rows_of get_or or_else iterate_or_empty
    installed_browsers filter_map to_text has_prefix append_at sort_texts missing_from coverage_gap
    satisfied
partial_pass = refl

advertisements_not_processed-BlockedBy_example :
    (f : Fact) × (rows : List Value) × (installed : Installed) × Whole
      (host_where false)
      "windows.browsers.policy"
      f
    × (rows_of f ≡ ok rows)
    × Seen (host_where false) f installed
    × ((k : String) → In k (keys_of installed) → BlockedBy loads_one rows k)
advertisements_not_processed-BlockedBy_example =
    advertisements_not_processed-BlockedBy loads_one (host_where false) (dict []) empty_history
      (result_of ads) ads_run ads_pass

security_settings_locked-HasMandatory_example :
    (f : Fact) × (rows : List Value) × (installed : Installed) × Whole
      (host_where false)
      "windows.browsers.policy"
      f
    × (rows_of f ≡ ok rows)
    × Seen (host_where false) f installed
    × ((k : String) → In k (keys_of installed) → HasMandatory rows k)
security_settings_locked-HasMandatory_example =
    security_settings_locked-HasMandatory loads_one (host_where false) (dict []) empty_history
      (result_of locked) locked_run locked_pass

java_not_processed-AllPast_example :
    (f : Fact) × (surface : Fact) × (installed : Installed) × (level : Value) × (javasoft : Value)
    × Whole (host_where false) "windows.browsers.policy" f
    × Whole (host_where false) "windows.browsers.java_surface" surface
    × SurfaceIs surface level javasoft
    × Seen (host_where false) f installed
    × ((is_ie_mode level && truthy javasoft) ≡ false)
    × (truthy javasoft ≡ true → (level ≢ num 1) × (level ≢ num 2))
    × AllPast installed
java_not_processed-AllPast_example =
    java_not_processed-AllPast (host_where false) (dict []) empty_history (result_of java) java_run
      java_pass
