-- ===== src/Checks/AppControlPaths/Paths.antt =====
-- The path functions of tools/nobytes_cca/checks/windows/appcontrol_paths.py.
use Prim.Native.Char.{code}
use Prim.Native.String.{[], ◌∷◌, count}
use mathlib.Core.List.{List, ◌++◌, map}
use oscal_aap_ansible_playbo.Prelude.{
  ℕ, ◌+◌, ◌-◌, String, ◌<>◌, Bool, not, ◌&&◌, ◌||◌, leb, ◌==◌, if◌then◌else◌, str_eq, any, mem_text,
}
use oscal_aap_ansible_playbo.Py.Text.{
  strip, rstrip, upper, map_chars, translate, take, contains, has_prefix, has_suffix, before,
  after_last,
}
use oscal_aap_ansible_playbo.Py.Glob.{fnmatchcase}

abbrev pub removable_variables : List String
removable_variables = List.◌∷◌ "%REMOVABLE%" (List.◌∷◌ "%HOT%" List.[])

abbrev pub admin_sids : List String
admin_sids = List.◌∷◌ "S-1-5-18" (
    List.◌∷◌ "S-1-5-19" (
      List.◌∷◌ "S-1-5-20" (
        List.◌∷◌ "S-1-5-32-544"
          (List.◌∷◌ "S-1-5-32-549" (List.◌∷◌ "S-1-5-32-550" (List.◌∷◌ "S-1-5-32-551" List.[]))))))

abbrev pub admin_rids : List String
admin_rids =
    List.◌∷◌ "500" (List.◌∷◌ "512" (List.◌∷◌ "518" (List.◌∷◌ "519" (List.◌∷◌ "520" List.[]))))

-- `_is_admin_sid`.
unfoldable pub is_admin_sid : String → Bool
unfolding mem_text
is_admin_sid text =
    let sid = upper (strip text) in
    mem_text sid admin_sids
    || (has_prefix "S-1-5-21-" sid && mem_text (after_last "-" sid sid) admin_rids)

-- `while text.endswith("\\") and len(text) > 3: text = text[:-1]`, given the length of what stands in
-- front of the text.
unfoldable pub trim_separators : ℕ → String → String
unfolding str_eq
trim_separators n [] = []
trim_separators n (c ∷ s) =
    let rest = trim_separators (n + 1) s in
    if code c == 92 && leb 3 n && str_eq rest "" then [] else c ∷ rest

-- `_normalise`.
unfoldable pub normalise : String → String
unfolding map_chars translate trim_separators
normalise path = trim_separators 0 (upper (map_chars (translate "/" "\\") (strip path)))

-- `s.replace(old, new)`, given how many characters belong to the place that was replaced last.
unfoldable pub replaced : String → String → ℕ → String → String
replaced old new skip [] = []
replaced old new skip (c ∷ s) =
    let found = has_prefix old (c ∷ s) in
    let rest =
      replaced old new (if skip == 0 then (if found then count old - 1 else 0) else skip - 1) s in
    if skip == 0 then (if found then new <> rest else c ∷ rest) else rest

-- A candidate with the variable replaced by each of its values.
replace_each : String → List String → String → List String
unfolding replaced
replace_each variable values c = map (λ v. replaced variable v 0 c) values

replace_all : String → List String → List String → List String
unfolding replace_each
replace_all variable values List.[] = List.[]
replace_all variable values (List.◌∷◌ c cs) =
    replace_each variable values c ++ replace_all variable values cs

-- The loop over the variables.
unfoldable pub substitute : List (String × List String) → List String → List String
unfolding replace_all
substitute List.[] cs = cs
substitute (List.◌∷◌ (variable, values) vs) cs =
    substitute vs (if any (contains variable) cs then replace_all variable values cs else cs)

two : String → String → List String
two a b = List.◌∷◌ a (List.◌∷◌ b List.[])

unfoldable pub substitutions : String → String → List (String × List String)
unfolding two
substitutions root drive =
    List.◌∷◌ ("%WINDIR%", List.◌∷◌ root List.[])
      (List.◌∷◌ ("%SYSTEM32%", two (root <> "\\SYSTEM32") (root <> "\\SYSWOW64"))
        (List.◌∷◌ ("%OSDRIVE%", List.◌∷◌ drive List.[])
          (List.◌∷◌
            ("%PROGRAMFILES%", two (drive <> "\\PROGRAM FILES") (drive <> "\\PROGRAM FILES (X86)"))
            List.[])))

-- `root[:2] if len(root) > 1 and root[1] == ":" else "C:"`.
unfoldable pub drive_of : String → String
drive_of (a ∷ (b ∷ s)) = if code b == 58 then a ∷ (b ∷ []) else "C:"
drive_of s = "C:"

root_of : String → String
unfolding normalise str_eq
root_of windows_root =
    let root = normalise windows_root in if str_eq root "" then "C:\\WINDOWS" else root

-- `_expand`.
unfoldable pub expand : String → String → List String
unfolding root_of drive_of substitutions substitute normalise
expand pattern windows_root =
    let root = root_of windows_root in
    let text = normalise pattern in
    if any (λ v. contains v text) removable_variables
    then List.[]
    else substitute (substitutions root (drive_of root)) (List.◌∷◌ text List.[])

-- `_has_wildcard`.
unfoldable pub has_wildcard : String → Bool
has_wildcard text = contains "*" text || contains "?" text

-- `not _has_wildcard(d) and (loc == d or loc.startswith(d + "\\"))`.
unfoldable pub is_within : String → String → Bool
unfolding has_wildcard str_eq
is_within d loc = not (has_wildcard d) && (str_eq loc d || has_prefix (d <> "\\") loc)

-- `expanded[:-2] if expanded.endswith("\\*") else ""`.
unfoldable pub trimmed_of : String → String
trimmed_of expanded = if has_suffix "\\*" expanded then take (count expanded - 2) expanded else ""

-- The body of the loop of `_contains`.
unfoldable pub expansion_contains : String → String → Bool
unfolding is_within trimmed_of fnmatchcase str_eq
expansion_contains loc expanded =
    let trimmed = trimmed_of expanded in
    not (str_eq expanded "")
    && (fnmatchcase loc expanded
        || fnmatchcase loc (expanded <> "\\*")
        || is_within expanded loc
        || (not (str_eq trimmed "") && (fnmatchcase loc trimmed || is_within trimmed loc)))

-- `_contains`.
unfoldable pub contains_location : String → String → String → Bool
unfolding expand expansion_contains normalise
contains_location pattern location windows_root =
    any (expansion_contains (normalise location)) (expand pattern windows_root)

-- `expanded.split("*")[0].split("?")[0].rstrip("\\")`.
unfoldable pub stem_of : String → String
stem_of expanded = rstrip (λ c. code c == 92) (before "?" (before "*" expanded))

unfoldable pub stem_inside : String → String → Bool
unfolding stem_of str_eq
stem_inside loc expanded =
    let stem = stem_of expanded in
    not (str_eq stem "") && (str_eq stem loc || has_prefix (loc <> "\\") stem)

-- `_covers`.
unfoldable pub covers : String → String → String → Bool
unfolding contains_location stem_inside expand normalise
covers pattern location windows_root =
    contains_location pattern location windows_root
    || any (stem_inside (normalise location)) (expand pattern windows_root)
