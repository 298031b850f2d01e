-- ===== src/Checks/AppSupport/Products.antt =====
-- The patterns of tools/nobytes_cca/checks/windows/app_support.py, and the cycle of an application.
use Prim.Native.Char.{code}
use Prim.Native.String.{[], ◌∷◌, count}
use oscal_aap_ansible_playbo.Prelude.{
  String, Bool, true, false, not, ◌&&◌, ◌||◌, ◌==◌, Option, none, some, if◌then◌else◌, str_eq,
}
use oscal_aap_ansible_playbo.Py.Text.{lower, has_prefix, contains, strip, before}
use oscal_aap_ansible_playbo.Py.Date.{split_at}
use oscal_aap_ansible_playbo.Checks.OsSupport.{is_word, starts_word, all_digits, find_year}

-- What stands behind a prefix.
after_prefix : String → String → Option String
unfolding split_at
after_prefix p s =
    if has_prefix p s
    then elim (split_at (count p) s) [ none ↦ none | some (front, rest) ↦ some rest ]
    else none

-- `^prefix\b`, where the prefix ends in a word character.
word_prefix : String → String → Bool
unfolding after_prefix starts_word
word_prefix p s = elim (after_prefix p s) [ none ↦ false | some rest ↦ not (starts_word rest) ]

starts_year : String → Bool
unfolding split_at all_digits
starts_year s = elim (split_at 4 s) [ none ↦ false | some (year, rest) ↦ all_digits year ]

-- `^Microsoft Office (\d{4})`, in lower case.
is_office_year : String → Bool
unfolding after_prefix starts_year
is_office_year s = elim (after_prefix "microsoft office " s) [
  | none ↦ false
  | some rest ↦ starts_year rest
]

-- `^Microsoft Office (Professional|Standard|Home)`.
is_office_edition : String → Bool
is_office_edition s =
    has_prefix "microsoft office professional" s
    || has_prefix "microsoft office standard" s
    || has_prefix "microsoft office home" s

java_kind : String → Bool
java_kind s = has_prefix "se" s || has_prefix "development kit" s || has_prefix "runtime" s

-- `.*\b(SE|Development Kit|Runtime)`, given whether a word character stands in front.
java_later : Bool → String → Bool
unfolding java_kind is_word
java_later word [] = false
java_later word (c ∷ s) =
    let rest = java_later (is_word c) s in
    (not word && is_word c && java_kind (c ∷ s)) || (not (code c == 10) && rest)

-- `^Java\b.*\b(SE|Development Kit|Runtime)`.
is_java : String → Bool
unfolding after_prefix starts_word java_later
is_java s = elim (after_prefix "java" s) [
  | none ↦ false
  | some rest ↦ not (starts_word rest) && java_later true rest
]

-- `KNOWN_DEAD`.
unfoldable pub is_flash_player : String → Bool
is_flash_player name = contains "adobe flash player" (lower name)

-- `_map_product`.
unfoldable pub map_product : String → String
unfolding is_office_edition is_office_year word_prefix is_java
map_product name =
    let low = lower name in
    if is_office_edition low || is_office_year low
    then "office"
    else if word_prefix "google chrome" low
    then "chrome"
    else if word_prefix "mozilla firefox" low
    then "firefox"
    else if word_prefix "libreoffice" low
    then "libreoffice"
    else if is_java low
    then "oracle-jdk"
    else ""

-- `_cycle_for`.
unfoldable pub cycle_for : String → String → String → String
unfolding find_year str_eq
cycle_for product name version =
    if str_eq product "office"
    then elim (find_year false name) [ none ↦ "" | some year ↦ year ]
    else before "." (strip version)
