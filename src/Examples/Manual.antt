-- ===== src/Examples/Manual.antt =====
-- A small manual and the files of two checks, and the theorems on catalogs and registries at them.
use oscal_aap_ansible_playbo.Prelude.{
  ◌≡◌, ◌↔◌, refl, true, false, List, [], ◌∷◌, In, none, some, String, is_empty, str_eq,
}
use oscal_aap_ansible_playbo.Py.Value.{Value, Fields, str, list, dict, num, truthy, or_else}
use oscal_aap_ansible_playbo.Py.Text.{strip}
use oscal_aap_ansible_playbo.Py.Result.{Result, ok, filter_map}
use oscal_aap_ansible_playbo.Py.Access.{
  get_or, index, iterate, iterate_or_empty, to_int, sorted, as_text, sort_texts, mem,
}
use oscal_aap_ansible_playbo.Py.Dict.{in_key_order, HasKey, Entries}
use oscal_aap_ansible_playbo.Catalog.{Catalog, catalog_of, baseline, class_of, id_of}
use oscal_aap_ansible_playbo.Catalog.Index.{Filed}
use oscal_aap_ansible_playbo.Catalog.Complete.{Within, catalog_of_complete}
use oscal_aap_ansible_playbo.Catalog.Baseline.{Selected, In-baseline_iff}
use oscal_aap_ansible_playbo.Registry.{resolve, Check, Registry}
use oscal_aap_ansible_playbo.Registry.Iteration.{Registered}
use oscal_aap_ansible_playbo.Registry.Loading.{load_registry}
use oscal_aap_ansible_playbo.Registry.Loaded.{OwnId, IsLoaded, load_registry-IsLoaded}
use oscal_aap_ansible_playbo.Registry.Validation.{validate}
use oscal_aap_ansible_playbo.Registry.Sound.{IsSound, validate-none_iff}
use oscal_aap_ansible_playbo.Examples.Host.{ie_check, import_known}

abbrev prop : String → String → Value
prop name value = dict (("name", str name) ∷ ("value", str value) ∷ [])

abbrev control : Value
control = dict (
    ("id", str "ism-1654")
    ∷ ("class", str "ISM-control")
    ∷ (
      "props",
      list (
          prop "applicability" "OS"
          ∷ prop "applicability" "NC"
          ∷ prop "essential-eight-applicability" "ML1"
          ∷ []),
    )
    ∷ (
      "parts",
      list (
          dict
            (("id", str "ism-1654_smt") ∷ ("prose", str " Internet Explorer 11 is disabled. ") ∷ [])
          ∷ []),
    )
    ∷ [])

abbrev manual : Value
manual = dict (
    ("metadata", dict (("version", str "2025.06") ∷ []))
    ∷ ("groups", list (dict (("id", dict []) ∷ ("controls", list (control ∷ [])) ∷ []) ∷ []))
    ∷ [])

abbrev catalog : Catalog
catalog = record {
  document = manual;
  controls =
      (
        "ism-1654",
        record {
          id = "ism-1654";
          control_class = "ISM-control";
          statement = "Internet Explorer 11 is disabled.";
          statement_id = str "ism-1654_smt";
          revision = str "";
          updated = str "";
          applicability = str "NC" ∷ str "OS" ∷ [];
          essential_eight = str "ML1" ∷ [];
          sort_id = str "";
        },
      )
      ∷ [];
}

manual_read : catalog_of manual ≡ ok catalog
unfolding catalog_of get_or as_text or_else iterate filter_map index sorted strip
manual_read = refl

catalog_of_complete_example :
    Entries Filed catalog.controls
    × ((gs : Fields) (class k : String)
        → Within gs manual
        → class_of gs ≡ some class
        → id_of gs ≡ some (str k)
        → HasKey catalog.controls k)
catalog_of_complete_example = catalog_of_complete manual catalog manual_read

level_one : baseline catalog (some "ML1") none ≡ "ism-1654" ∷ []
unfolding baseline sort_texts in_key_order mem
level_one = refl

level_two : baseline catalog (some "ML2") none ≡ []
unfolding baseline sort_texts in_key_order mem
level_two = refl

In-baseline_iff_example :
    In "ism-1654" (baseline catalog (some "ML1") none)
    ↔ Selected catalog (some "ML1") none "ism-1654"
In-baseline_iff_example = In-baseline_iff catalog (some "ML1") none "ism-1654"

-- A hash that is the same for every text, and a registry of one check.
abbrev no_hash : String → String
no_hash s = ""

abbrev one_check : Registry
one_check = ("windows.ie11", ie_check) ∷ []

no_problem : validate import_known no_hash one_check catalog ≡ ok []
unfolding validate in_key_order resolve
no_problem = refl

validate-none_iff_example :
    (validate import_known no_hash one_check catalog ≡ ok [])
    ↔ ((c : Check) → Registered one_check c → IsSound import_known no_hash catalog c)
validate-none_iff_example = validate-none_iff import_known no_hash catalog one_check

abbrev check_file : Value
check_file = dict (
    ("id", str "windows.ie11")
    ∷ ("version", str "1.0.0")
    ∷ ("title", str "IE")
    ∷ ("platform_family", str "windows")
    ∷ ("component", str "operating-system")
    ∷ ("controls", list [])
    ∷ ("method", str "TEST")
    ∷ ("confidence", str "direct")
    ∷ ("scope", str "subject")
    ∷ ("evidence_tier", str "passive")
    ∷ ("freshness_hours", num 24)
    ∷ ("history_window_days", num 0)
    ∷ ("assessability", str "automated")
    ∷ (
      "collect",
      dict (
          ("role", str "os")
          ∷ ("facts", dict (("required", list (str "os.release" ∷ [])) ∷ []))
          ∷ []),
    )
    ∷ [])

abbrev files : List (String × Value)
files = ("windows/empty.yml", dict []) ∷ ("windows/ie11.yml", check_file) ∷ []

abbrev registry_of : Result Registry → Registry
registry_of (ok r) = r
registry_of _ = []

files_loaded : load_registry "checks" files ≡ ok (registry_of (load_registry "checks" files))
unfolding load_registry truthy get_or str_eq or_else index iterate filter_map to_int
    iterate_or_empty
files_loaded = refl

load_registry-IsLoaded_example :
    (is_empty (registry_of (load_registry "checks" files)) ≡ false)
    × Entries OwnId (registry_of (load_registry "checks" files))
    × ((path : String) (value : Value)
        → In (path, value) files
        → truthy value ≡ true
        → IsLoaded (registry_of (load_registry "checks" files)) path value)
load_registry-IsLoaded_example =
    load_registry-IsLoaded "checks" files (registry_of (load_registry "checks" files)) files_loaded
