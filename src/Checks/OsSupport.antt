-- ===== src/Checks/OsSupport.antt =====
-- tools/nobytes_cca/checks/common/os_support.py: ism-1501, operating systems that their vendors no
-- longer support are replaced.
use Prim.Native.Char.{Char, code}
pub mod Evidence
use oscal_aap_ansible_playbo.Prelude.{
  String, ◌<>◌, Bool, true, false, not, ◌&&◌, ◌||◌, Option, none, some, List, [], ◌∷◌, leb, ◌==◌,
  if◌then◌else◌, str_eq,
}
use oscal_aap_ansible_playbo.Py.Text.{lower, has_prefix, contains}
use oscal_aap_ansible_playbo.Py.Value.{Value, bool, str, dict, truthy, or_else, to_text}
use oscal_aap_ansible_playbo.Py.Result.{Result, ok, ◌>>=◌}
use oscal_aap_ansible_playbo.Py.Access.{get, get_or, mem, option_value}
use oscal_aap_ansible_playbo.Py.Date.{Date, date_of, isoformat, split_at}
use oscal_aap_ansible_playbo.Contract.Terms.{proxy, collection_error, unsupported_platform}
use oscal_aap_ansible_playbo.Contract.Verdict.{
  CheckResult, Facts, satisfied, not_satisfied, unassessed,
}
use oscal_aap_ansible_playbo.Contract.Bundle.{FactBundle, FactHistory, fact, with_fact}
use oscal_aap_ansible_playbo.Eol.{SupportStatus, lookup_support, reason}

unfoldable pub is_digit : Char → Bool
is_digit c = leb b'0' (code c) && leb (code c) b'9'

-- `\w` on ASCII.
unfoldable pub is_word : Char → Bool
unfolding is_digit
is_word c =
    is_digit c
    || leb b'a' (code c) && leb (code c) b'z'
    || leb b'A' (code c) && leb (code c) b'Z'
    || code c == b'_'

unfoldable pub starts_word : String → Bool
unfolding is_word
starts_word String.[] = false
starts_word (String.◌∷◌ c s) = is_word c

unfoldable pub all_digits : String → Bool
unfolding is_digit
all_digits String.[] = true
all_digits (String.◌∷◌ c s) = is_digit c && all_digits s

-- `20\d{2}\b` at the start of the text.
year_at : String → Option String
unfolding split_at all_digits starts_word has_prefix
year_at s = elim (split_at 4 s) [
  | none ↦ none
  | some (year, rest) ↦
      if has_prefix "20" year && all_digits year && not (starts_word rest) then some year else none
]

-- `re.search(r"\b(20\d{2})\b", s)`, given whether a word character stands in front.
unfoldable pub find_year : Bool → String → Option String
unfolding year_at is_word
find_year word String.[] = none
find_year word (String.◌∷◌ c s) =
    let later = find_year (is_word c) s in
    if word then later else elim (year_at (String.◌∷◌ c s)) [ none ↦ later | some year ↦ some year ]

server_cycle : String → Option String → String
server_cycle product none = ""
server_cycle product (some year) = if contains "r2" (lower product) then year <> "-r2" else year

client_cycle : String → String → String → String
client_cycle product release edition =
    let p = lower product in
    let major =
      if contains "windows 11" p then "11" else if contains "windows 10" p then "10" else "" in
    if str_eq major "" || str_eq release ""
    then ""
    else if str_eq major "10"
    then "10-" <> release
    else if contains "enterprise" edition || contains "education" edition
    then "11-" <> (release <> "-e")
    else if contains "professional" edition || contains "core" edition || contains "home" edition
    then "11-" <> (release <> "-w")
    else "11-" <> release

-- `_windows_cycle`.
unfoldable pub windows_cycle : Value → Result String
unfolding find_year server_cycle client_cycle
windows_cycle value = get_or value "product_name" (str "") >>= λ product.
    get_or value "display_version" (str "") >>= λ release.
    get_or value "edition_id" (str "") >>= λ edition.
    get_or value "install_type" (str "") >>= λ install_type. ok (
      if str_eq (to_text install_type) "Server"
      then server_cycle (to_text product) (find_year false (to_text product))
      else client_cycle (to_text product) (lower (to_text release)) (lower (to_text edition)))

abbrev pub windows_products : List Value
windows_products = str "windows" ∷ str "windows-server" ∷ []

-- The cycle that is looked up.
unfoldable pub cycle_of : Value → Value → Result Value
unfolding windows_cycle mem
cycle_of value product = get value "eol_cycle" >>= λ cycle.
    if mem product windows_products && not (truthy cycle)
    then (windows_cycle value >>= λ c. ok (str c))
    else ok cycle

unfoldable pub status_facts : SupportStatus → Date → Value → Facts
status_facts s as_of observed =
    ("product", s.product)
    ∷ ("cycle", s.cycle)
    ∷ ("eol", option_value s.eol)
    ∷ ("extended_support", option_value s.extended_support)
    ∷ ("supported", bool s.supported)
    ∷ ("in_extended_support", bool s.in_extended_support)
    ∷ ("assessed_as_of", str (isoformat as_of))
    ∷ ("dataset", str "endoflife.date (community-maintained, not vendor-authoritative)")
    ∷ ("observed", observed)
    ∷ []

-- `{status.product} {status.cycle}`.
named : SupportStatus → String
named s = to_text s.product <> (" " <> to_text s.cycle)

-- The verdict on a support status.
unfoldable pub vendor_verdict :
    SupportStatus → Value → Value → Date → Value → Value → Result CheckResult
unfolding status_facts named
vendor_verdict s product cycle as_of value params =
    let facts = status_facts s as_of value in
    if s.unknown
    then ok (
        unassessed unsupported_platform
          ("No usable end-of-life record for "
            <> (to_text product
                <> (" "
                    <> (to_text cycle
                        <> (": "
                            <> (reason s
                                <> ". Not knowing whether a release is supported is not evidence that it is unsupported."))))))
          facts)
    else if s.supported
    then satisfied
        (named s
          <> (" is within vendor support as of "
              <> (isoformat as_of <> (" (" <> (reason s <> ").")))))
        facts proxy
    else if s.in_extended_support
    then (get_or params "extended_support_counts_as_supported" (bool true) >>= λ counts.
        if truthy counts
        then satisfied
            (named s
              <> (" is PAST mainstream support and relies on paid extended support: "
                  <> (reason s
                      <> ". The vendor is still issuing patches, so the control's wording is met, but this is a degraded state with a hard end date.")))
            facts proxy
        else not_satisfied
            (named s
              <> (" relies on paid extended support ("
                  <> (reason s <> "), which this deployment treats as unsupported.")))
            facts proxy)
    else not_satisfied
        (named s
          <> (" is no longer supported by its vendor: "
              <> (reason s <> (". Assessed as of " <> (isoformat as_of <> ".")))))
        facts proxy

module _ (load : String → Result Value) where
  unfoldable pub vendor_supported : FactBundle → Value → FactHistory → Result CheckResult
  unfolding cycle_of vendor_verdict
  vendor_supported bundle params history =
      with_fact (fact bundle "os.release")
        (ok (unassessed collection_error "fact `os.release` absent from the bundle" []))
        λ release.
          let value = or_else release.value (dict []) in
          get value "eol_product" >>= λ product. cycle_of value product >>= λ cycle.
          if not (truthy product) || not (truthy cycle)
          then ok (
              unassessed unsupported_platform
                "The collector did not report an end-of-life product/cycle for this system, so its support status cannot be determined."
                (("observed", value) ∷ []))
          else (lookup_support load product cycle (date_of bundle.collected) >>= λ s.
              vendor_verdict s product cycle (date_of bundle.collected) value params)
