-- ===== src/Examples/Apps.antt =====
-- A host with a browser within support, a host with Flash Player, and an office suite of no known cycle.
use oscal_aap_ansible_playbo.Prelude.{String, ◌≡◌, refl, false, none, List, [], ◌∷◌}
use oscal_aap_ansible_playbo.Py.Text.{lower, strip, before, contains, has_prefix}
use oscal_aap_ansible_playbo.Py.Value.{Value, str, list, dict, to_text}
use oscal_aap_ansible_playbo.Py.Result.{Result, ok, filter_map}
use oscal_aap_ansible_playbo.Py.Access.{get_or, iterate_or_empty}
use oscal_aap_ansible_playbo.Contract.Terms.{Status}
use oscal_aap_ansible_playbo.Contract.Verdict.{CheckResult, not_satisfied}
use oscal_aap_ansible_playbo.Contract.Bundle.{FactBundle, fact, empty_history}
use oscal_aap_ansible_playbo.Checks.AppSupport.Products.{map_product, cycle_for}
use oscal_aap_ansible_playbo.Checks.AppSupport.{unsupported_applications_removed}
use oscal_aap_ansible_playbo.Examples.Host.{moment, bundle_of}

abbrev app : String → String → Value
app name version = dict (("name", str name) ∷ ("version", str version) ∷ [])

abbrev cycle : String → String → Value
cycle name eol = dict (("cycle", str name) ∷ ("eol", str eol) ∷ [])

abbrev load_cycles : String → Result Value
load_cycles file = ok (list (cycle "120" "2999-01-01" ∷ cycle "24.8" "2001-01-01" ∷ []))

abbrev inventory : List Value → FactBundle
inventory apps = bundle_of (
    (
      "windows.applications.installed",
      record {
        key = "windows.applications.installed";
        value = list apps;
        collected = moment;
        source = "ansible";
        partial = false;
        meta = dict [];
      },
    )
    ∷ [])

abbrev result_of : Result CheckResult → CheckResult
result_of (ok r) = r
result_of _ = record {
  status = Status.error;
  detail = "";
  confidence = none;
  reason = none;
  facts = [];
}

abbrev browsing : Result CheckResult
browsing =
    unsupported_applications_removed load_cycles
      (inventory (app "Google Chrome" "120.0.1" ∷ app "LibreOffice 24.8.2.1" "24.8.2.1" ∷ []))
      (dict []) empty_history

abbrev flash : Result CheckResult
flash =
    unsupported_applications_removed load_cycles
      (inventory (app "Adobe Flash Player 32 NPAPI" "32.0" ∷ [])) (dict []) empty_history

flash_fail : (result_of flash).status ≡ Status.not_satisfied
unfolding unsupported_applications_removed fact get_or iterate_or_empty filter_map contains lower
    to_text not_satisfied
flash_fail = refl

suite_cycle : cycle_for "libreoffice" "LibreOffice 24.8.2.1" "24.8.2.1" ≡ "24"
unfolding cycle_for before strip
suite_cycle = refl

java_product : map_product "Java SE Development Kit 17" ≡ "oracle-jdk"
unfolding map_product has_prefix lower
java_product = refl

no_java_product : map_product "JavaScript Runtime" ≡ ""
unfolding map_product has_prefix lower
no_java_product = refl

office_product : map_product "Microsoft Office Professional Plus 2019" ≡ "office"
unfolding map_product has_prefix lower
office_product = refl

office_cycle : cycle_for "office" "Microsoft Office Professional Plus 2019" "16.0.1" ≡ "2019"
unfolding cycle_for
office_cycle = refl
