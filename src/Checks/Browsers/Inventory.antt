-- ===== src/Checks/Browsers/Inventory.antt =====
-- The guard and the readings that the checks of tools/nobytes_cca/checks/windows/browsers.py share.
use oscal_aap_ansible_playbo.Prelude.{
  ℕ, String, ◌<>◌, Option, none, some, List, [], ◌∷◌, ◌++◌, length, is_empty, if◌then◌else◌,
  mem_text, str_eq,
}
use oscal_aap_ansible_playbo.Py.Text.{has_prefix, before, strip, decimal}
use oscal_aap_ansible_playbo.Py.Value.{
  Value, obj, str, list, dict, strs, or_else, to_text, type_name,
}
use oscal_aap_ansible_playbo.Py.Result.{Result, ok, raise, ◌>>=◌}
use oscal_aap_ansible_playbo.Py.Access.{get, get_or, iterate_or_empty, digits, type_error}
use oscal_aap_ansible_playbo.Py.Dict.{append_at}
use oscal_aap_ansible_playbo.Contract.Terms.{collection_error}
use oscal_aap_ansible_playbo.Contract.Verdict.{CheckResult, unassessed}
use oscal_aap_ansible_playbo.Contract.Bundle.{Fact, FactBundle, fact, with_fact}

-- `BROWSER_PATTERNS`.
abbrev pub browser_patterns : List (String × String)
browser_patterns =
    ("edge", "Microsoft Edge") ∷ ("chrome", "Google Chrome") ∷ ("firefox", "Mozilla Firefox") ∷ []

pub data Guarded : Type 0 where
  stop : CheckResult → Guarded
  go : Fact → Guarded

-- `_policy_fact`.
unfoldable pub policy_fact : FactBundle → Guarded
policy_fact bundle =
    with_fact (fact bundle "windows.browsers.policy")
      (stop
        (unassessed collection_error "fact `windows.browsers.policy` absent from the bundle" []))
      λ f.
        if f.partial
        then stop (
            unassessed collection_error
              "browser policy enumeration failed; a registry that could not be walked is not an estate without browser policy"
              [])
        else go f

-- `_rows`.
unfoldable pub rows_of : Fact → Result (List Value)
rows_of f = get (or_else f.value (dict [])) "rows" >>= λ v. iterate_or_empty v

-- `dict(v)` of a dict.
unfoldable pub as_dict : Value → Result Value
as_dict (obj fs) = ok (obj fs)
as_dict v = raise (type_error ("'" <> (type_name v <> "' object is not a mapping")))

-- `list(_meta(fact).get("profiles_unloaded") or [])`.
unfoldable pub unloaded_profiles : Fact → Result (List Value)
unfolding as_dict
unloaded_profiles f = get (or_else f.value (dict [])) "meta" >>= λ m.
    as_dict (or_else m (dict [])) >>= λ meta.
    get meta "profiles_unloaded" >>= λ v. iterate_or_empty v

-- The browsers by their keys, each with the names and the versions that were found.
abbrev pub Installed : Type 0
Installed = List (String × List (String × String))

-- The loop over `BROWSER_PATTERNS`.
unfoldable pub add_matches : String → String → List (String × String) → Installed → Installed
add_matches name version [] found = found
add_matches name version ((key, prefix) ∷ patterns) found =
    add_matches name version patterns
      (if has_prefix prefix name then append_at key (name, version) found else found)

-- The loop over the inventory.
unfoldable pub add_apps : List Value → Installed → Result Installed
unfolding add_matches
add_apps [] found = ok found
add_apps (app ∷ apps) found = get_or app "name" (str "") >>= λ name.
    get_or app "version" (str "") >>= λ version.
    add_apps apps (add_matches (to_text name) (to_text version) browser_patterns found)

-- `_installed_browsers`, from the value of the inventory.
unfoldable pub installed_of : Option Fact → Result Installed
unfolding add_apps
installed_of none = ok []
installed_of (some f) = iterate_or_empty f.value >>= λ apps. add_apps apps []

unfoldable pub installed_browsers : FactBundle → Result Installed
unfolding installed_of
installed_browsers bundle = installed_of (fact bundle "windows.applications.installed")

unfoldable pub inventory_gap : Option Fact → List String
inventory_gap none = "no application inventory, so which browsers are installed is unknown" ∷ []
inventory_gap (some f) = []

-- `_coverage_gap`.
unfoldable pub coverage_gap : Fact → FactBundle → Result (List String)
unfolding unloaded_profiles inventory_gap
coverage_gap f bundle = unloaded_profiles f >>= λ unloaded. ok (
    (if is_empty unloaded
      then []
      else (decimal (length unloaded) <> " user profile hive(s) not loaded") ∷ [])
    ++ inventory_gap (fact bundle "windows.applications.installed"))

-- `_major`.
unfoldable pub major : String → Option ℕ
unfolding digits strip str_eq
major version =
    let head = strip (before "." version) in if str_eq head "" then none else digits 0 head

names_of : List (String × String) → List String
names_of [] = []
names_of ((name, version) ∷ entries) = name ∷ names_of entries

-- `{k: [n for n, _ in v] for k, v in installed.items()}`.
unfoldable pub names_entries : Installed → List (String × Value)
unfolding names_of
names_entries [] = []
names_entries ((key, entries) ∷ found) = (key, list (strs (names_of entries))) ∷ names_entries found

-- What follows the guard.
abbrev pub after_guard : Guarded → (Fact → Result CheckResult) → Result CheckResult
after_guard (stop r) k = ok r
after_guard (go f) k = k f

-- The keys of the first that are not among the second.
unfoldable pub missing_from : List String → List String → List String
unfolding mem_text
missing_from [] others = []
missing_from (k ∷ ks) others =
    if mem_text k others then missing_from ks others else k ∷ missing_from ks others
