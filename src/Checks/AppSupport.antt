-- ===== src/Checks/AppSupport.antt =====
-- tools/nobytes_cca/checks/windows/app_support.py: ism-1704, unsupported applications are removed.
pub mod Products
pub mod Outcomes
pub mod Evidence
use oscal_aap_ansible_playbo.Prelude.{
  ℕ, zero, suc, String, ◌<>◌, Bool, true, false, not, ◌&&◌, ◌||◌, Option, none, some, List, [], ◌∷◌,
  map, length, is_empty, prepend, if◌then◌else◌, str_eq,
}
use oscal_aap_ansible_playbo.Py.Text.{strip, join, decimal}
use oscal_aap_ansible_playbo.Py.Value.{
  Value, bool, str, list, dict, num, strs, or_else, truthy, to_text,
}
use oscal_aap_ansible_playbo.Py.Result.{Result, ok, ◌>>=◌, filter_map}
use oscal_aap_ansible_playbo.Py.Access.{get_or, iterate_or_empty, option_value}
use oscal_aap_ansible_playbo.Py.Date.{Date, date_of, isoformat}
use oscal_aap_ansible_playbo.Contract.Terms.{partial, collection_error, partial_population}
use oscal_aap_ansible_playbo.Contract.Verdict.{
  CheckResult, Facts, satisfied, not_satisfied, unassessed,
}
use oscal_aap_ansible_playbo.Contract.Bundle.{Fact, FactBundle, FactHistory, fact, with_fact}
use oscal_aap_ansible_playbo.Eol.{SupportStatus, lookup_support}
use oscal_aap_ansible_playbo.Checks.AppSupport.Products.{is_flash_player, map_product, cycle_for}

-- `UNCOVERED_FAMILIES`.
abbrev pub uncovered_families : List String
uncovered_families =
    "Microsoft Edge" ∷ "PDF applications" ∷ "email clients" ∷ "security products"
    ∷ "web browser extensions" ∷ []

-- The list that an application is put into, with its name, its version and what is recorded of it.
pub data Outcome : Type 0 where
  unsupported supported unmapped : String → String → Value → Outcome

-- The fields of `entry`, and what is added to them.
entry_with : String → String → String → String → Option String → List (String × Value) → Value
entry_with name version product cycle eol more = dict (
    ("name", str name)
    ∷ ("version", str version)
    ∷ ("product", str product)
    ∷ ("cycle", str cycle)
    ∷ ("eol", option_value eol)
    ∷ more)

-- The branches on the status.
unfoldable pub outcome_for : Bool → String → String → String → SupportStatus → Outcome
unfolding cycle_for entry_with
outcome_for extended name version product s =
    let cycle = cycle_for product name version in
    if s.unknown
    then unmapped name version (
        entry_with name version product cycle s.eol
          (("reason", str "no matching cycle in the dataset") ∷ []))
    else if s.supported || (extended && s.in_extended_support)
    then supported name version (entry_with name version product cycle s.eol [])
    else unsupported name version
        (entry_with name version product cycle s.eol (("basis", str "endoflife.date") ∷ []))

-- What is recorded of an application that `KNOWN_DEAD` has.
dead_entry : String → String → Value
dead_entry name version = dict (
    ("name", str name)
    ∷ ("version", str version)
    ∷ ("product", str "Adobe Flash Player")
    ∷ ("eol", str "2020-12-31")
    ∷ (
      "basis",
      str
          "Adobe ended support for Flash Player on 2020-12-31 and began blocking Flash content from running on 2021-01-12.",
    )
    ∷ [])

module _ (load : String → Result Value) where
  -- The body of the loop, for a name and a version.
  unfoldable pub judge_named : Bool → Date → String → String → Result Outcome
  unfolding dead_entry is_flash_player map_product outcome_for str_eq
  judge_named extended as_of name version =
      let product = map_product name in
      if is_flash_player name
      then ok (unsupported name version (dead_entry name version))
      else if str_eq product ""
      then ok (unmapped name version (dict (("name", str name) ∷ ("version", str version) ∷ [])))
      else (lookup_support load (str product) (str (cycle_for product name version)) as_of >>= λ s.
          ok (outcome_for extended name version product s))

  unfoldable pub judge_app : Bool → Date → Value → Result (Option Outcome)
  unfolding judge_named
  judge_app extended as_of app = get_or app "name" (str "") >>= λ n.
      get_or app "version" (str "") >>= λ v.
      judge_named extended as_of (to_text n) (to_text v) >>= λ o. ok (some o)

-- The three lists.
unfoldable pub unsupported_of : List Outcome → List (String × String × Value)
unsupported_of [] = []
unsupported_of (unsupported n v e ∷ os) = (n, v, e) ∷ unsupported_of os
unsupported_of (o ∷ os) = unsupported_of os

unfoldable pub supported_of : List Outcome → List Value
supported_of [] = []
supported_of (supported n v e ∷ os) = e ∷ supported_of os
supported_of (o ∷ os) = supported_of os

unfoldable pub unmapped_of : List Outcome → List Value
unmapped_of [] = []
unmapped_of (unmapped n v e ∷ os) = e ∷ unmapped_of os
unmapped_of (o ∷ os) = unmapped_of os

-- `xs[:n]`.
first_items : {A : Type 0} → ℕ → List A → List A
first_items n [] = []
first_items zero (x ∷ xs) = []
first_items (suc n) (x ∷ xs) = x ∷ first_items n xs

entry_of : String × String × Value → Value
entry_of u = u.2

listed_text : String × String × Value → String
listed_text u = strip (u.0 <> (" " <> u.1))

support_facts : Date → ℕ → List Outcome → Facts
unfolding first_items entry_of unsupported_of supported_of unmapped_of
support_facts as_of seen os =
    ("as_of", str (isoformat as_of))
    ∷ ("applications_seen", num seen)
    ∷ ("unsupported", list (map entry_of (unsupported_of os)))
    ∷ ("supported", list (supported_of os))
    ∷ ("unmapped_count", num (length (unmapped_of os)))
    ∷ ("unmapped_sample", list (first_items 10 (unmapped_of os)))
    ∷ ("families_not_covered", list (strs uncovered_families))
    ∷ []

caveat : List Outcome → String
caveat os =
    "Families this check cannot see: "
    <> (join ", " uncovered_families
        <> (". "
            <> (decimal (length (unmapped_of os))
                <> " installed application(s) could not be mapped to a support timeline and are neither passed nor failed.")))

-- The verdict.
unfoldable pub support_verdict : Date → List Outcome → Facts → Result CheckResult
unfolding first_items listed_text caveat unsupported_of supported_of
support_verdict as_of os facts =
    if not (is_empty (unsupported_of os))
    then not_satisfied
        (decimal (length (unsupported_of os))
          <> (" unsupported application(s) present as of "
              <> (isoformat as_of
                  <> (": "
                      <> (join ", " (map listed_text (first_items 5 (unsupported_of os)))
                          <> (". " <> caveat os))))))
        facts partial
    else if is_empty (supported_of os)
    then ok (
        unassessed partial_population
          ("No installed application could be mapped to a support timeline, so nothing was actually judged. "
            <> caveat os)
          facts)
    else satisfied
        ("All "
          <> (decimal (length (supported_of os))
              <> (" mapped application(s) were within vendor support as of "
                  <> (isoformat as_of <> (". " <> caveat os)))))
        facts partial

module _ (load : String → Result Value) where
  -- From `as_of = …` on.
  unfoldable pub judge_inventory : FactBundle → Value → Fact → Result CheckResult
  unfolding judge_app support_facts support_verdict
  judge_inventory bundle params f = get_or params "extended_support_counts" (bool true) >>= λ e.
      iterate_or_empty f.value >>= λ apps.
      filter_map (judge_app load (truthy e) (date_of bundle.collected)) apps >>= λ os.
      support_verdict (date_of bundle.collected) os
        (support_facts (date_of bundle.collected) (length apps) os)

  unfoldable pub partial_inventory : Fact → Result CheckResult
  partial_inventory f = get_or (or_else f.meta (dict [])) "unloaded_hives" (list []) >>= λ hives.
      ok (
        unassessed partial_population
          "at least one user profile hive could not be read, so the application inventory is incomplete; the hive not read may hold the unsupported application"
          (("unloaded_hives", hives) ∷ []))

  -- The guards on the fact.
  unfoldable pub with_inventory : FactBundle → Value → Option Fact → Result CheckResult
  unfolding judge_inventory partial_inventory
  with_inventory bundle params none = ok (
      unassessed collection_error "fact `windows.applications.installed` absent from the bundle" [])
  with_inventory bundle params (some f) =
      if f.partial then partial_inventory f else judge_inventory bundle params f

  -- `unsupported_applications_removed`.
  unfoldable pub unsupported_applications_removed :
      FactBundle → Value → FactHistory → Result CheckResult
  unfolding with_inventory
  unsupported_applications_removed bundle params history =
      with_inventory bundle params (fact bundle "windows.applications.installed")
