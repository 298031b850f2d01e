-- ===== src/Examples/Office.antt =====
-- A host whose Office settings are locked and whose macros are disabled.
use oscal_aap_ansible_playbo.Checks.Office.Guard.{profiles_unloaded, rows_in_scope, in_scope_apps}
use oscal_aap_ansible_playbo.Prelude.{true, false, String, ◌≡◌, refl, none, some, [], ◌∷◌, str_eq}
use oscal_aap_ansible_playbo.Py.Value.{to_text, truthy, Value, bool, str, list, dict, num, strs}
use oscal_aap_ansible_playbo.Py.Result.{filter_map, filter, ok}
use oscal_aap_ansible_playbo.Py.Access.{difference, sorted, in_set, to_set, iterate, get_or}
use oscal_aap_ansible_playbo.Contract.Terms.{Status, proxy, partial}
use oscal_aap_ansible_playbo.Contract.Verdict.{satisfied, CheckResult}
use oscal_aap_ansible_playbo.Contract.Bundle.{fact, Fact, FactBundle, empty_history}
use oscal_aap_ansible_playbo.Checks.Office.Guarded.{Admits}
use oscal_aap_ansible_playbo.Checks.Office.{
  macro_settings_locked, macros_disabled_without_business_need,
}
use oscal_aap_ansible_playbo.Checks.Office.Evidence.{
  Whole, Delivered, AsRequired, Valued, macro_settings_locked-Whole, macros_disabled-Whole,
}
use oscal_aap_ansible_playbo.Examples.Host.{moment, bundle_of}

abbrev fact_of : String → Value → Fact
fact_of key value = record {
  key = key;
  value = value;
  collected = moment;
  source = "ansible";
  partial = false;
  meta = dict [];
}

abbrev rows : Value
rows =
    list
      (dict (("app", str "word") ∷ ("gpo_delivered", bool true) ∷ ("vbawarnings", num 4) ∷ []) ∷ [])

abbrev host : FactBundle
host = bundle_of (
    (
      "windows.office.install",
      fact_of "windows.office.install" (dict (("version", str "16.0") ∷ [])),
    )
    ∷ ("windows.office.macro_policy", fact_of "windows.office.macro_policy" rows)
    ∷ [])

abbrev params : Value
params = dict (("in_scope_apps", list (strs ("word" ∷ []))) ∷ [])

abbrev locked : CheckResult
locked = record {
  status = Status.satisfied;
  detail = "All in-scope Office macro security settings are GPO-delivered policy values.";
  confidence = some proxy;
  reason = none;
  facts =
      ("apps_with_policy", list (strs ("word" ∷ [])))
      ∷ ("not_gpo_delivered", list [])
      ∷ ("apps_without_evidence", list [])
      ∷ ("profiles_unloaded", list [])
      ∷ [];
}

is_locked : macro_settings_locked host params empty_history ≡ ok locked
unfolding macro_settings_locked fact str_eq truthy in_scope_apps get_or iterate to_set rows_in_scope
    filter in_set filter_map sorted difference profiles_unloaded satisfied
is_locked = refl

macro_settings_locked-Whole_example :
    (policy : Fact) × Admits host policy × Whole Delivered Delivered params policy
macro_settings_locked-Whole_example =
    macro_settings_locked-Whole host params empty_history locked is_locked refl

abbrev disabled : CheckResult
disabled = record {
  status = Status.satisfied;
  detail =
      "All in-scope Office applications disable macros (VBAWarnings=4). The business-requirement exemption process is not assessed.";
  confidence = some partial;
  reason = none;
  facts =
      ("required_vbawarnings", num 4)
      ∷ ("not_disabled", list [])
      ∷ ("apps_without_evidence", list [])
      ∷ (
        "note",
        str
            "Whether any user with macros enabled has a demonstrated business requirement is not observable on the host and is not assessed.",
      )
      ∷ [];
}

is_disabled : macros_disabled_without_business_need host params empty_history ≡ ok disabled
unfolding macros_disabled_without_business_need fact str_eq truthy in_scope_apps get_or iterate
    to_set rows_in_scope filter in_set filter_map sorted difference profiles_unloaded satisfied
    to_text
is_disabled = refl

macros_disabled-Whole_example :
    (policy : Fact) × Admits host policy
    × ((required : Value) × (get_or params "required_vbawarnings" (num 4) ≡ ok required)
        × Whole (AsRequired required) Valued params policy)
macros_disabled-Whole_example =
    macros_disabled-Whole host params empty_history disabled is_disabled refl
