-- ===== src/Examples/Support.antt =====
-- A Linux host in extended support, with a document of the end-of-life data set.
use oscal_aap_ansible_playbo.Py.Text.{before, strip, lower}
use oscal_aap_ansible_playbo.Py.Access.{option_text, get_or, iterate, as_text}
use oscal_aap_ansible_playbo.Prelude.{String, ◌≡◌, refl, true, false, none, some, [], ◌∷◌, str_eq}
use oscal_aap_ansible_playbo.Py.Value.{or_else, to_text, Value, bool, str, list, dict}
use oscal_aap_ansible_playbo.Py.Result.{find, Result, ok}
use oscal_aap_ansible_playbo.Py.Date.{isoformat, from_isoformat, Date, date_of, ordinal}
use oscal_aap_ansible_playbo.Contract.Terms.{Status, proxy, emits_finding}
use oscal_aap_ansible_playbo.Contract.Verdict.{not_satisfied, CheckResult}
use oscal_aap_ansible_playbo.Contract.Bundle.{fact, Fact, FactBundle, empty_history}
use oscal_aap_ansible_playbo.Eol.{reason, SupportStatus, lookup_support}
use oscal_aap_ansible_playbo.Eol.Known.{Entry, Follows, lookup_support-known}
use oscal_aap_ansible_playbo.Checks.OsSupport.{vendor_supported, status_facts}
use oscal_aap_ansible_playbo.Checks.OsSupport.Evidence.{Names, Agrees, vendor_supported-Agrees}
use oscal_aap_ansible_playbo.Examples.Host.{moment, bundle_of}

abbrev entry : String → String → String → Value
entry cycle eol extended =
    dict (("cycle", str cycle) ∷ ("eol", str eol) ∷ ("extendedSupport", str extended) ∷ [])

-- 2024-04-24 lies between the two dates of cycle 8.
abbrev load_rhel : String → Result Value
load_rhel name =
    ok (list (entry "9" "2032-05-31" "2035-05-31" ∷ entry "8" "2024-01-31" "2032-05-31" ∷ []))

abbrev rhel : SupportStatus
rhel = record {
  product = str "rhel";
  cycle = str "8";
  eol = some "2024-01-31";
  extended_support = some "2032-05-31";
  supported = false;
  in_extended_support = true;
  unknown = false;
  source = "endoflife.date";
}

abbrev today : Date
today = ordinal 2024 4 24

rhel_known :
    lookup_support load_rhel (str "RHEL") (str "8.9") today
    ≡ ok (record rhel { product = str "RHEL" })
unfolding lookup_support as_text str_eq lower strip iterate find get_or to_text before
    from_isoformat isoformat
rhel_known = refl

lookup_support-known_example :
    (e : Value) × Entry load_rhel (str "RHEL") (str "8.9") e
    × Follows today e (record rhel { product = str "RHEL" })
lookup_support-known_example =
    lookup_support-known load_rhel (str "RHEL") (str "8.9") today
      (record rhel { product = str "RHEL" }) rhel_known refl

abbrev release : Fact
release = record {
  key = "os.release";
  value = dict (("eol_product", str "rhel") ∷ ("eol_cycle", str "8") ∷ []);
  collected = moment;
  source = "ansible";
  partial = false;
  meta = dict [];
}

abbrev linux : FactBundle
linux = bundle_of (("os.release", release) ∷ [])

abbrev params : Value
params = dict (("extended_support_counts_as_supported", bool false) ∷ [])

-- The parameters do not let extended support count.
abbrev past : CheckResult
past = record {
  status = Status.not_satisfied;
  detail =
      "rhel 8 relies on paid extended support (mainstream support ended 2024-01-31; extended support runs to 2032-05-31), which this deployment treats as unsupported.";
  confidence = some proxy;
  reason = none;
  facts = status_facts rhel (date_of moment) release.value;
}

past_result : vendor_supported load_rhel linux params empty_history ≡ ok past
unfolding vendor_supported fact get_or or_else lookup_support as_text lower strip iterate find
    to_text from_isoformat date_of not_satisfied reason option_text isoformat
past_result = refl

past_finds : emits_finding past.status ≡ true
unfolding emits_finding
past_finds = refl

vendor_supported-Agrees_example :
    (product : Value) × (cycle : Value) × (e : Value) × (s : SupportStatus) × Names linux product
      cycle
    × Entry load_rhel product cycle e
    × Follows (date_of linux.collected) e s
    × Agrees params s past.status
vendor_supported-Agrees_example =
    vendor_supported-Agrees load_rhel linux params empty_history past past_result past_finds
