-- ===== src/Checks/OsState.antt =====
-- tools/nobytes_cca/checks/windows/os_state.py: ism-1654, Internet Explorer 11 is disabled or removed.
pub mod Evidence
use oscal_aap_ansible_playbo.Prelude.{
  String, ◌<>◌, Bool, false, not, ◌||◌, Option, none, some, List, [], ◌∷◌, is_empty, if◌then◌else◌,
  str_eq,
}
use oscal_aap_ansible_playbo.Py.Text.{lower, contains}
use oscal_aap_ansible_playbo.Py.Value.{Value, null, bool, str, list, dict, truthy, or_else, to_text}
use oscal_aap_ansible_playbo.Py.Result
use oscal_aap_ansible_playbo.Py.Result.{Result, ok, raise, ◌>>=◌}
use oscal_aap_ansible_playbo.Py.Access.{get, get_or, iterate}
use oscal_aap_ansible_playbo.Contract.Terms.{direct, collection_error}
use oscal_aap_ansible_playbo.Contract.Verdict.{
  CheckResult, Facts, satisfied, not_satisfied, unassessed,
}
use oscal_aap_ansible_playbo.Contract.Bundle.{Fact, FactBundle, FactHistory, fact, with_fact}

-- `str(f.get(key, "")).lower()`.
abbrev pub lowered : String → Value → Result String
lowered key f = get_or f key (str "") >>= λ v. ok (lower (to_text v))

-- A feature whose name says Internet Explorer.
unfoldable pub is_ie : Value → Result Bool
is_ie f =
    lowered "name" f >>= λ n. ok (contains "internet-explorer" n || contains "internetexplorer" n)

unfoldable pub is_enabled : Value → Result Bool
is_enabled f = lowered "state" f >>= λ s. ok (str_eq s "enabled")

-- `bool(policy and policy.value and policy.value.get("NotifyDisableIEOptions"))`.
unfoldable pub policy_disables : Option Fact → Result Bool
policy_disables none = ok false
policy_disables (some p) =
    if truthy p.value
    then (get p.value "NotifyDisableIEOptions" >>= λ v. ok (truthy v))
    else ok false

pub edge_ie_mode : Option Fact → Result Value
edge_ie_mode none = ok null
edge_ie_mode (some p) = get (or_else p.value (dict [])) "InternetExplorerIntegrationLevel"

ie_facts : List Value → List Value → Bool → Value → Facts
ie_facts ie_features installed disabled mode =
    ("ie_features", list ie_features)
    ∷ ("installed_and_enabled", list installed)
    ∷ ("disabled_by_policy", bool disabled)
    ∷ ("edge_ie_mode", mode)
    ∷ []

-- The verdict on the features that were found.
unfoldable pub ie_verdict : List Value → List Value → Bool → Value → Result CheckResult
unfolding ie_facts
ie_verdict ie_features installed disabled mode =
    let facts = ie_facts ie_features installed disabled mode in
    if is_empty ie_features
    then satisfied "No Internet Explorer 11 optional feature is present on this system." facts
        direct
    else if is_empty installed
    then satisfied "The Internet Explorer 11 optional feature is present but not enabled." facts
        direct
    else if disabled
    then satisfied
        "Internet Explorer 11 is installed but disabled by policy (NotifyDisableIEOptions)." facts
        direct
    else not_satisfied "Internet Explorer 11 is installed, enabled, and not disabled by policy."
        facts direct

unfoldable pub judge_features : Option Fact → Value → Result CheckResult
unfolding is_ie is_enabled policy_disables edge_ie_mode ie_verdict
judge_features policy value = iterate value >>= λ features.
    Result.filter is_ie features >>= λ ie_features.
    Result.filter is_enabled ie_features >>= λ installed. policy_disables policy >>= λ disabled.
    edge_ie_mode policy >>= λ mode. ie_verdict ie_features installed disabled mode

unfoldable pub ie11_disabled_or_removed : FactBundle → Value → FactHistory → Result CheckResult
unfolding judge_features
ie11_disabled_or_removed bundle params history =
    with_fact (fact bundle "windows.os.optional_features")
      (ok (
        unassessed collection_error "fact `windows.os.optional_features` absent from the bundle"
          []))
      λ features.
        if features.partial
        then (get_or features.meta "collection_error" (str "no reason recorded") >>= λ why. ok (
            unassessed collection_error
              ("the Windows optional feature list could not be enumerated, so whether Internet Explorer 11 is installed is unknown: "
                <> to_text why)
              []))
        else if not (truthy features.value)
        then ok (
            unassessed collection_error
              "the Windows optional feature list came back empty. Every supported Windows build enumerates optional features, so this is a failed read rather than a system without them, and it is not evidence that Internet Explorer 11 is absent."
              [])
        else judge_features (fact bundle "windows.browser.ie_policy") features.value
