-- ===== src/Checks/AppControlPaths/Rules.antt =====
-- `_writable_locations` and `_permitting_rules` of tools/nobytes_cca/checks/windows/appcontrol_paths.py.
use oscal_aap_ansible_playbo.Prelude.{
  ℕ, ◌+◌, String, Bool, false, not, ◌&&◌, Option, none, some, List, [], ◌∷◌, ◌++◌, is_empty, filter,
  if◌then◌else◌, str_eq,
}
use oscal_aap_ansible_playbo.Prelude.Int.{pos, eqb_ℤ}
use oscal_aap_ansible_playbo.Py.Text.{strip, lower}
use oscal_aap_ansible_playbo.Py.Value.{Value, str, num, or_else, is_true, to_text, py_eq}
use oscal_aap_ansible_playbo.Py.Result.{Result, ok, ◌>>=◌, filter_map, any}
use oscal_aap_ansible_playbo.Py.Access.{get, get_or, iterate_or_empty, to_int, as_text}
use oscal_aap_ansible_playbo.Checks.AppControl.State.{type_of}
use oscal_aap_ansible_playbo.Checks.AppControlPaths.Paths.{is_admin_sid, covers, contains_location}

-- The locations that a user can write to, and the number of probes that could not be read.
pub record Probes : Type 0 where
  pub found : List Value
  pub unreadable : ℕ

unfoldable pub walk_probes : List Value → Result Probes
unfolding py_eq
walk_probes [] = ok (record { found = []; unreadable = 0 })
walk_probes (probe ∷ probes) =
    let rest = walk_probes probes in
    get probe "access" >>= λ access.
    if py_eq access (str "denied")
    then (rest >>= λ s. ok (record { found = s.found; unreadable = s.unreadable + 1 }))
    else (get probe "non_admin_writable" >>= λ writable. rest >>= λ s. ok (record {
      found = if is_true writable then probe ∷ s.found else s.found;
      unreadable = s.unreadable;
    }))

-- `_writable_locations`.
unfoldable pub writable_locations : Value → Result Probes
unfolding walk_probes
writable_locations paths = get paths "probes" >>= λ v. iterate_or_empty v >>= λ probes.
    get paths "windows_writable" >>= λ w.
    iterate_or_empty w >>= λ walked. walk_probes (probes ++ walked)

-- `str(rule.get("action", "")).lower() == name`.
unfoldable pub action_is : String → Value → Result Bool
unfolding str_eq
action_is name rule = get_or rule "action" (str "") >>= λ v. ok (str_eq (lower (to_text v)) name)

is_condition : Value → Bool
unfolding str_eq
is_condition p = not (str_eq (strip (to_text p)) "")

-- `[p for p in (rule.get(key) or []) if str(p).strip()]`.
unfoldable pub conditions : String → Value → Result (List Value)
unfolding is_condition
conditions key rule = get rule key >>= λ v. iterate_or_empty v >>= λ ps. ok (filter is_condition ps)

-- `collection.get("path_rules") or []`.
unfoldable pub rules_of : Value → Result (List Value)
rules_of collection = get collection "path_rules" >>= λ v. iterate_or_empty v

deny_paths : Value → Result (List Value)
unfolding action_is conditions
deny_paths rule = action_is "deny" rule >>= λ deny. if deny then conditions "paths" rule else ok []

all_denies : List Value → Result (List Value)
unfolding deny_paths
all_denies [] = ok []
all_denies (r ∷ rs) = deny_paths r >>= λ ps. all_denies rs >>= λ rest. ok (ps ++ rest)

-- The paths of the deny rules of a collection.
unfoldable pub denies_of : Value → Result (List Value)
unfolding rules_of all_denies
denies_of collection = rules_of collection >>= λ rules. all_denies rules

-- `path or ""`, whose `strip` is called.
path_text : Value → Result String
path_text p = as_text (or_else p (str "")) "strip"

unfoldable pub covers_path : String → String → Value → Result Bool
unfolding path_text
covers_path windows_root path p = path_text p >>= λ t. ok (covers t path windows_root)

unfoldable pub contains_path : String → String → Value → Result Bool
unfolding path_text
contains_path windows_root path p = path_text p >>= λ t. ok (contains_location t path windows_root)

pub record Hit : Type 0 where
  pub collection : String
  pub rule : String
  pub sid : String
  pub paths : List Value
  pub location : String
  pub location_role : String

-- An allow rule whose scope could not be read.
pub record Unread : Type 0 where
  pub collection : String
  pub name : Value

pub record Found : Type 0 where
  pub permitted : List Hit
  pub admin_scoped : List Hit
  pub unreadable_rules : List Unread

abbrev pub nothing_found : Found
nothing_found = record { permitted = []; admin_scoped = []; unreadable_rules = [] }

abbrev pub both : Found → Found → Found
both a b = record {
  permitted = a.permitted ++ b.permitted;
  admin_scoped = a.admin_scoped ++ b.admin_scoped;
  unreadable_rules = a.unreadable_rules ++ b.unreadable_rules;
}

-- The loops over collections and rules, which add to three lists.
unfoldable pub gather : (Value → Result Found) → List Value → Result Found
gather f [] = ok nothing_found
gather f (x ∷ xs) = f x >>= λ a. gather f xs >>= λ b. ok (both a b)

unfoldable pub location_path : Value → Result String
location_path location = get_or location "path" (str "") >>= λ v. ok (to_text v)

-- `collection.get("type", "")`, `rule.get("sid", "")`, …: an entry as a text.
unfoldable pub entry_text : String → Value → Result String
entry_text key v = get_or v key (str "") >>= λ w. ok (to_text w)

module _ (windows_root : String) where
  -- Whether the conditions of a rule let a path through: covered, not excepted and not denied.
  unfoldable pub lets_through : List Value → List Value → List Value → String → Result Bool
  unfolding covers_path contains_path
  lets_through patterns exceptions denies path =
      any (covers_path windows_root path) patterns >>= λ covered.
      if covered
      then (any (contains_path windows_root path) exceptions >>= λ excepted.
          if excepted
          then ok false
          else (any (contains_path windows_root path) denies >>= λ denied. ok (not denied)))
      else ok false

  -- The body of the loop over locations.
  unfoldable pub judge_location :
      String → Value → String → List Value → List Value → List Value → Value → Result (Option Hit)
  unfolding lets_through location_path entry_text
  judge_location ctype rule sid patterns exceptions denies location =
      location_path location >>= λ path. lets_through patterns exceptions denies path >>= λ through.
      if through
      then (entry_text "name" rule >>= λ name. entry_text "role" location >>= λ role. ok (
          some (record {
            collection = ctype;
            rule = name;
            sid = sid;
            paths = patterns;
            location = path;
            location_role = role;
          })))
      else ok none

  -- A rule with no path conditions: it was not parsed, unless it has conditions of another kind.
  unfoldable pub judge_unparsed : String → Value → Result Found
  judge_unparsed ctype rule = get_or rule "non_path_conditions" (num 0) >>= λ v.
      to_int (or_else v (num 0)) >>= λ n.
      if eqb_ℤ n (pos 0)
      then (get_or rule "name" (str "") >>= λ name. ok (record {
        permitted = [];
        admin_scoped = [];
        unreadable_rules = (record { collection = ctype; name = name }) ∷ [];
      }))
      else ok nothing_found

  module _ (fail_on_admin : Bool) (locations : List Value) where
    unfoldable pub filed : Bool → List Hit → Found
    filed is_admin hits =
        if is_admin && not fail_on_admin
        then record { permitted = []; admin_scoped = hits; unreadable_rules = [] }
        else record { permitted = hits; admin_scoped = []; unreadable_rules = [] }

    unfoldable pub judge_parsed : String → Value → Value → List Value → Result Found
    unfolding entry_text conditions denies_of judge_location filed is_admin_sid
    judge_parsed ctype collection rule patterns = entry_text "sid" rule >>= λ sid.
        conditions "exceptions" rule >>= λ exceptions. denies_of collection >>= λ denies.
        filter_map (judge_location ctype rule sid patterns exceptions denies) locations >>= λ hits.
        ok (filed (is_admin_sid sid) hits)

    -- The body of the loop over the rules of a collection.
    unfoldable pub judge_rule : String → Value → Value → Result Found
    unfolding action_is conditions judge_unparsed judge_parsed
    judge_rule ctype collection rule = action_is "allow" rule >>= λ allow.
        if allow
        then (conditions "paths" rule >>= λ patterns.
            if is_empty patterns
            then judge_unparsed ctype rule
            else judge_parsed ctype collection rule patterns)
        else ok nothing_found

    -- The body of the loop over the collections.
    unfoldable pub judge_collection : Value → Result Found
    unfolding rules_of gather judge_rule
    judge_collection collection = type_of collection >>= λ ctype.
        rules_of collection >>= λ rules. gather (judge_rule ctype collection) rules

-- `_permitting_rules`.
unfoldable pub permitting_rules : List Value → List Value → String → Bool → Result Found
unfolding gather judge_collection
permitting_rules collections locations windows_root fail_on_admin =
    gather (judge_collection windows_root fail_on_admin locations) collections
