-- ===== src/Examples/Host.antt =====
-- A Windows host with Internet Explorer turned off, a host that was not read, and the checks of a
-- small registry.
use oscal_aap_ansible_playbo.Py.Text.{lower, contains}
use oscal_aap_ansible_playbo.Py.Access.{get_or, iterate}
use oscal_aap_ansible_playbo.Prelude.{
  not, Option, ◌*◌, String, ◌<>◌, ◌≡◌, refl, false, none, some, List, [], ◌∷◌, str_eq,
  if◌then◌else◌,
}
use oscal_aap_ansible_playbo.Py.Value.{to_text, truthy, Value, null, bool, str, list, dict}
use oscal_aap_ansible_playbo.Py.Result.{filter, Exn, Result, ok, raise}
use oscal_aap_ansible_playbo.Contract.Terms.{
  Status, Assessability, Method, Scope, EvidenceTier, direct, proxy,
}
use oscal_aap_ansible_playbo.Contract.Verdict.{satisfied, CheckResult}
use oscal_aap_ansible_playbo.Contract.Bundle.{fact, Instant, day, Fact, FactBundle, empty_history}
use oscal_aap_ansible_playbo.Registry.{Check, ControlBinding, Evaluator, Registry}
use oscal_aap_ansible_playbo.Checks.OsState.{ie11_disabled_or_removed}

abbrev pub moment : Instant
moment = 739_000 * day

abbrev pub feature : Value
feature = dict (("name", str "Internet-Explorer-Optional-amd64") ∷ ("state", str "Disabled") ∷ [])

abbrev pub features : Fact
features = record {
  key = "windows.os.optional_features";
  value = list (feature ∷ []);
  collected = moment;
  source = "ansible";
  partial = false;
  meta = dict [];
}

abbrev pub bundle_of : List (String × Fact) → FactBundle
bundle_of facts = record {
  subject = ("platform_family", str "windows") ∷ [];
  facts = facts;
  collected = moment;
  run_id = "run-1";
  provenance = dict [];
}

-- A host whose features were read, and one that was not read.
abbrev pub host : FactBundle
host = bundle_of (("windows.os.optional_features", features) ∷ [])

abbrev pub unread : FactBundle
unread = bundle_of []

abbrev pub bind : String → ControlBinding
bind id = record {
  control_id = id;
  statement_id = id <> "_smt";
  control_revision = "0";
  statement_sha256 = "";
  coverage = "full";
  rationale = "";
}

abbrev pub ie_evaluator : String
ie_evaluator = "nobytes_cca.checks.windows.os_state:ie11_disabled_or_removed"

abbrev pub check_of : String → String → Assessability → String → Check
check_of id control assessability evaluator = record {
  id = id;
  version = "1.0.0";
  title = id;
  platform_family = "windows";
  component = "operating-system";
  controls = bind control ∷ [];
  method = Method.test;
  confidence = proxy;
  scope = Scope.subject;
  evidence_tier = EvidenceTier.passive;
  freshness_hours = 24;
  history_window_days = 0;
  assessability = assessability;
  collect_role = "os";
  required_facts = "windows.os.optional_features" ∷ [];
  optional_facts = [];
  evaluator = evaluator;
  parameters = dict [];
  not_applicable_when = "";
  references = [];
  remediation = none;
  attestation = none;
  source_file = id <> ".yml";
}

abbrev pub ie_check : Check
ie_check = check_of "windows.ie11" "ism-1654" Assessability.automated ie_evaluator

-- A check whose evaluator does not exist, and one that is held as an attestation.
abbrev pub lost_check : Check
lost_check =
    check_of "windows.lost" "ism-9999" Assessability.automated "nobytes_cca.checks.lost:lost"

abbrev pub attested_check : Check
attested_check = check_of "policy.attested" "ism-0042" Assessability.attested ""

abbrev pub registry : Registry
registry =
    ("windows.ie11", ie_check)
    ∷ ("windows.lost", lost_check)
    ∷ ("policy.attested", attested_check)
    ∷ []

abbrev pub no_module : Exn
no_module = record {
  kind = "ModuleNotFoundError";
  message = "No module named 'nobytes_cca.checks.lost'";
}

abbrev pub import_known : String → String → Result (Option Evaluator)
import_known module_name func_name =
    if not (str_eq module_name "nobytes_cca.checks.windows.os_state")
    then raise no_module
    else if str_eq func_name "ie11_disabled_or_removed"
    then ok (some ie11_disabled_or_removed)
    else ok none

-- What the evaluator returns on the host.
abbrev pub verdict : CheckResult
verdict = record {
  status = Status.satisfied;
  detail = "The Internet Explorer 11 optional feature is present but not enabled.";
  confidence = some direct;
  reason = none;
  facts =
      ("ie_features", list (feature ∷ []))
      ∷ ("installed_and_enabled", list [])
      ∷ ("disabled_by_policy", bool false)
      ∷ ("edge_ie_mode", null)
      ∷ [];
}

pub ie11-host : ie11_disabled_or_removed host (dict []) empty_history ≡ ok verdict
unfolding ie11_disabled_or_removed fact str_eq truthy iterate filter get_or contains lower to_text
    satisfied
ie11-host = refl
