-- ===== src/Checks/AppControlPaths/Reads.antt =====
-- What ism-1870 reads of its two facts: the guard, the collections that enforce, the probes and the walk.
use oscal_aap_ansible_playbo.Prelude.{
  String, ◌<>◌, Bool, false, Option, none, some, List, [], ◌∷◌, if◌then◌else◌, str_eq,
}
use oscal_aap_ansible_playbo.Prelude.Int.{pos, ltb_ℤ}
use oscal_aap_ansible_playbo.Py.Value.{Value, bool, str, list, dict, num, strs, truthy, or_else}
use oscal_aap_ansible_playbo.Py.Result.{Result, ok, ◌>>=◌, filter, filter_map}
use oscal_aap_ansible_playbo.Py.Access.{get, get_or, iterate_or_empty, sort_texts, to_int}
use oscal_aap_ansible_playbo.Contract.Terms.{collection_error, partial_population}
use oscal_aap_ansible_playbo.Contract.Verdict.{CheckResult, Facts, unassessed}
use oscal_aap_ansible_playbo.Contract.Bundle.{FactBundle, fact, with_fact}
use oscal_aap_ansible_playbo.Checks.AppControl.State.{mode_of, type_of}
use oscal_aap_ansible_playbo.Checks.AppControlPaths.Rules.{Probes, writable_locations}

-- The body of the loop of `_guard` over the two keys.
unfoldable pub fact_guard : FactBundle → String → Option CheckResult
fact_guard bundle key =
    with_fact (fact bundle key)
      (some (unassessed collection_error ("fact `" <> (key <> "` absent from the bundle")) []))
      λ f.
        if f.partial
        then some (
            unassessed partial_population
              ("`"
                <> (key
                    <> "` was collected but is incomplete; a host that could not be fully inspected is not a host without application control"))
              [])
        else none

-- `str(c.get("enforcement_mode", "")) == "Enabled" and int(c.get("rule_count", 0) or 0) > 0`.
unfoldable pub is_enforced : Value → Result Bool
unfolding mode_of
is_enforced c = mode_of c >>= λ mode.
    if str_eq mode "Enabled"
    then (get_or c "rule_count" (num 0) >>= λ v.
        to_int (or_else v (num 0)) >>= λ n. ok (ltb_ℤ (pos 0) n))
    else ok false

unenforced_type : Value → Result (Option String)
unfolding mode_of type_of
unenforced_type c = mode_of c >>= λ mode.
    if str_eq mode "Enabled" then ok none else (type_of c >>= λ t. ok (some t))

each_type : Value → Result (Option String)
unfolding type_of
each_type c = type_of c >>= λ t. ok (some t)

location_entry : Value → Result (Option Value)
location_entry location = get location "path" >>= λ path.
    get location "role" >>= λ role. ok (some (dict (("path", path) ∷ ("role", role) ∷ [])))

-- What the judgement reads of the two facts.
pub record Reading : Type 0 where
  pub windows_root : String
  pub enforced : List Value
  pub enforced_types : List String
  pub probes : Probes
  pub truncated : Bool
  pub base_facts : Facts

-- `base_facts`.
unfoldable pub base_facts_of :
    String → List String → List Value → Probes → Bool → Value → Result Facts
unfolding unenforced_type location_entry
base_facts_of windows_root types collections probes truncated paths =
    filter_map unenforced_type collections >>= λ unenforced.
    filter_map location_entry probes.found >>= λ locations.
    get_or paths "profiles_total" (num 0) >>= λ total.
    get_or paths "profiles_probed" (num 0) >>= λ probed. ok (
      ("windows_root", str windows_root)
      ∷ ("enforced_collections", list (strs types))
      ∷ ("unenforced_collections", list (strs (sort_texts unenforced)))
      ∷ ("non_admin_writable_locations", list locations)
      ∷ ("profiles_total", total)
      ∷ ("profiles_probed", probed)
      ∷ ("unreadable_probes", num probes.unreadable)
      ∷ ("windows_walk_truncated", bool truncated)
      ∷ [])

-- From `collections = …` to `base_facts`.
unfoldable pub read_paths : Value → Value → String → Result Reading
unfolding is_enforced each_type base_facts_of
read_paths applocker paths windows_root = get applocker "collections" >>= λ cs.
    iterate_or_empty cs >>= λ collections. filter is_enforced collections >>= λ enforced.
    writable_locations paths >>= λ probes. get paths "windows_walk" >>= λ walk.
    get (or_else walk (dict [])) "truncated" >>= λ truncated.
    filter_map each_type enforced >>= λ types.
    base_facts_of windows_root (sort_texts types) collections probes (truthy truncated) paths
    >>= λ facts. ok (record {
      windows_root = windows_root;
      enforced = enforced;
      enforced_types = sort_texts types;
      probes = probes;
      truncated = truthy truncated;
      base_facts = facts;
    })
