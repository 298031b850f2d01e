-- ===== src/Checks/AppControlPaths/Details.antt =====
-- The facts and the texts that the verdicts of ism-1870 carry.
use oscal_aap_ansible_playbo.Prelude.{
  String, ◌<>◌, Bool, false, ◌&&◌, ◌||◌, Option, none, some, List, [], ◌∷◌, ◌++◌, map, length,
  is_empty, if◌then◌else◌, lookup, insert, unique, str_eq,
}
use oscal_aap_ansible_playbo.Py.Text.{decimal, join}
use oscal_aap_ansible_playbo.Py.Value.{Value, str, list, dict, type_name}
use oscal_aap_ansible_playbo.Py.Result.{Result, ok, raise}
use oscal_aap_ansible_playbo.Py.Access.{sort_texts, type_error}
use oscal_aap_ansible_playbo.Contract.Verdict.{Facts}
use oscal_aap_ansible_playbo.Checks.AppControlPaths.Rules.{Hit, Unread, Found}

-- `ROLE_WORDING`.
abbrev pub role_wording : List (String × String)
role_wording =
    ("os-temp", "a temporary folder used by the operating system")
    ∷ ("windows-subdirectory", "a writable directory inside the Windows directory")
    ∷ ("profile-root", "the user profile root")
    ∷ ("user-profile", "a user profile")
    ∷ ("user-temp", "a user's temporary folder")
    ∷ ("user-downloads", "a user's downloads folder")
    ∷ ("browser-temp", "a temporary folder used by a web browser")
    ∷ ("email-temp", "a temporary folder used by an email client")
    ∷ []

hit_value : Hit → Value
hit_value h = dict (
    ("collection", str h.collection)
    ∷ ("rule", str h.rule)
    ∷ ("sid", str h.sid)
    ∷ ("paths", list h.paths)
    ∷ ("location", str h.location)
    ∷ ("location_role", str h.location_role)
    ∷ [])

unread_value : Unread → Value
unread_value u = dict (("collection", str u.collection) ∷ ("name", u.name) ∷ [])

-- `facts`.
unfoldable pub found_facts : Facts → Found → Facts
unfolding hit_value unread_value
found_facts base found =
    base
    ++ (("permitted_from_writable_locations", list (map hit_value found.permitted))
        ∷ ("administrator_scoped_allows", list (map hit_value found.admin_scoped))
        ∷ ("unparsed_allow_rules", list (map unread_value found.unreadable_rules))
        ∷ [])

-- `r['collection'] + '/' + r['name']`.
slashed : String → Value → Result (Option String)
slashed c (str s) = ok (some (c <> ("/" <> s)))
slashed c v =
    raise (type_error ("can only concatenate str (not \"" <> (type_name v <> "\") to str")))

unfoldable pub unread_name : Unread → Result (Option String)
unfolding slashed
unread_name u = slashed u.collection u.name

-- A list under a key, or the empty one.
abbrev pub or_none : Option (List String) → List String
or_none none = []
or_none (some ps) = ps

-- `by_role.setdefault(role, []).append(location)`.
unfoldable pub by_role : List Hit → List (String × List String) → List (String × List String)
unfolding lookup insert
by_role [] d = d
by_role (h ∷ hs) d =
    by_role hs (insert h.location_role (or_none (lookup h.location_role d) ++ (h.location ∷ [])) d)

abbrev pub first_text : List String → String
first_text [] = ""
first_text (s ∷ ss) = s

role_text : List (String × List String) → String → String
unfolding lookup
role_text d role =
    let paths = sort_texts (unique (or_none (lookup role d))) in
    elim (lookup role role_wording) [ none ↦ role | some w ↦ w ]
    <> (" (" <> (decimal (length paths) <> (" path(s), e.g. " <> (first_text paths <> ")"))))

role_of : String × List String → String
role_of entry = entry.0

-- `described`.
described : List Hit → String
unfolding by_role role_text role_of
described hits =
    let d = by_role hits [] in join "; " (map (role_text d) (sort_texts (map role_of d)))

collection_of : Hit → String
collection_of h = h.collection

same_rule : Hit → Hit → Bool
unfolding str_eq
same_rule g h = str_eq g.collection h.collection && str_eq g.rule h.rule

is_among : Hit → List Hit → Bool
unfolding same_rule
is_among h [] = false
is_among h (g ∷ gs) = same_rule h g || is_among h gs

-- `{(hit["collection"], hit["rule"]) for hit in admin_scoped}`.
distinct : List Hit → List Hit
unfolding is_among
distinct [] = []
distinct (h ∷ hs) = let rest = distinct hs in if is_among h hs then rest else h ∷ rest

admin_note : List Hit → String
unfolding distinct
admin_note hits =
    if is_empty hits
    then ""
    else " Separately, "
      <> (decimal (length (distinct hits))
          <> " allow rule(s) scoped to administrative principals also cover these locations; those are recorded but not counted as a failure of this control.")

unfoldable pub permitted_detail : Found → String
unfolding described admin_note collection_of
permitted_detail found =
    "Application control permits execution from "
    <> (decimal (length found.permitted)
        <> (" location/rule combination(s) that a non-administrator can write to, in the "
            <> (join ", " (sort_texts (unique (map collection_of found.permitted)))
                <> (" collection(s): "
                    <> (described found.permitted
                        <> (". Writing a file to one of these and running it is not blocked."
                            <> admin_note found.admin_scoped))))))
