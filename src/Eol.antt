-- ===== src/Eol.antt =====
-- tools/nobytes_cca/eol.py: is a release still supported by its vendor? The files of the data set are
-- not code: reading one is a parameter, from the file's name to the document or an exception.
pub mod Known
pub mod Unknown
use oscal_aap_ansible_playbo.Prelude.{
  String, ◌<>◌, Bool, true, false, not, ◌&&◌, Option, none, some, List, [], ◌∷◌, leb, if◌then◌else◌,
  str_eq, lookup,
}
use oscal_aap_ansible_playbo.Py.Text.{strip, lower, has_prefix, before, join}
use oscal_aap_ansible_playbo.Py.Value.{Value, str, is_false, to_text}
use oscal_aap_ansible_playbo.Py.Result
use oscal_aap_ansible_playbo.Py.Result.{Result, ok, raise, ◌>>=◌}
use oscal_aap_ansible_playbo.Py.Access.{get, get_or, iterate, as_text, option_text, sort_texts}
use oscal_aap_ansible_playbo.Py.Date.{Date, from_isoformat, isoformat}

-- `PRODUCT_FILES`.
abbrev pub product_files : List (String × String)
product_files =
    ("redhat", "rhel.json")
    ∷ ("rhel", "rhel.json")
    ∷ ("rocky", "rocky-linux.json")
    ∷ ("ubuntu", "ubuntu.json")
    ∷ ("debian", "debian.json")
    ∷ ("windows", "windows.json")
    ∷ ("windows-server", "windows-server.json")
    ∷ ("office", "office.json")
    ∷ ("chrome", "chrome.json")
    ∷ ("firefox", "firefox.json")
    ∷ ("libreoffice", "libreoffice.json")
    ∷ ("oracle-jdk", "oracle-jdk.json")
    ∷ []

pub record SupportStatus : Type 0 where
  pub product : Value
  pub cycle : Value
  pub eol : Option String
  pub extended_support : Option String
  pub supported : Bool
  pub in_extended_support : Bool
  pub unknown : Bool
  pub source : String

-- `SupportStatus.reason`.
unfoldable pub reason : SupportStatus → String
reason s =
    if s.unknown
    then if has_prefix "ambiguous:" s.source
      then "release matches multiple support cycles (" <> (s.source <> ")")
      else "no end-of-life record for this release"
    else if s.supported
    then "vendor support runs to " <> option_text s.eol
    else if s.in_extended_support
    then "mainstream support ended "
      <> (option_text s.eol <> ("; extended support runs to " <> option_text s.extended_support))
    else "vendor support ended " <> option_text s.eol

abbrev pub default_source : String
default_source = "endoflife.date"

-- `SupportStatus(product, cycle, None, None, False, False, unknown=True, source=…)`.
abbrev pub unknown_status : Value → Value → String → SupportStatus
unknown_status product cycle source = record {
  product = product;
  cycle = cycle;
  eol = none;
  extended_support = none;
  supported = false;
  in_extended_support = false;
  unknown = true;
  source = source;
}

-- `_as_date`.
unfoldable pub as_date : Value → Option Date
as_date (str s) = from_isoformat s
as_date v = none

-- `str(e.get("cycle", "")).strip().lower()`.
unfoldable pub cycle_key : Value → Result String
cycle_key e = get_or e "cycle" (str "") >>= λ v. ok (lower (strip (to_text v)))

abbrev pub has_cycle : String → Value → Result Bool
has_cycle wanted e = cycle_key e >>= λ k. ok (str_eq k wanted)

abbrev pub extends_cycle : String → Value → Result Bool
extends_cycle wanted e = cycle_key e >>= λ k. ok (has_prefix (wanted <> "-") k)

-- What the search for a cycle ends with: the entry, none, or several that it will not choose from.
pub data Match : Type 0 where
  found : Value → Match
  absent : Match
  ambiguous : List Value → Match

abbrev pub choose : List Value → Match
choose [] = absent
choose (e ∷ []) = found e
choose (e ∷ (f ∷ es)) = ambiguous (e ∷ (f ∷ es))

abbrev pub found_or : Option Value → Result Match → Result Match
found_or (some e) rest = ok (found e)
found_or none rest = rest

-- The three searches of `lookup`, in their order.
unfoldable pub find_cycle : String → List Value → Result Match
unfolding cycle_key
find_cycle wanted cycles = Result.find (has_cycle wanted) cycles >>= λ exact. found_or exact (
    Result.find (has_cycle (before "." wanted)) cycles >>= λ major.
    found_or major (Result.filter (extends_cycle wanted) cycles >>= λ cs. ok (choose cs)))

pub cycle_text : Value → Result String
cycle_text e = get e "cycle" >>= λ v. ok (to_text v)

pub cycle_texts : List Value → Result (List String)
cycle_texts [] = ok []
cycle_texts (e ∷ es) = cycle_text e >>= λ t. cycle_texts es >>= λ ts. ok (t ∷ ts)

-- The status of a release whose entry has an end-of-life date.
unfoldable pub dated : Value → Value → Date → Option Date → Date → SupportStatus
dated product cycle eol ext as_of =
    let mainstream_ok = leb as_of eol in
    let extended_ok = elim ext as (λ x. Bool) [ none ↦ false | some d ↦ leb as_of d ] in
    record {
      product = product;
      cycle = cycle;
      eol = some (isoformat eol);
      extended_support = elim ext [ none ↦ none | some d ↦ some (isoformat d) ];
      supported = mainstream_ok;
      in_extended_support = not mainstream_ok && extended_ok;
      unknown = false;
      source = default_source;
    }

-- `eol: false` means that the release is supported, with no date announced.
abbrev pub undated : Value → Value → SupportStatus
undated product cycle = record {
  product = product;
  cycle = cycle;
  eol = none;
  extended_support = none;
  supported = true;
  in_extended_support = false;
  unknown = false;
  source = default_source;
}

-- The status from the two values of an entry.
unfoldable pub status_of : Value → Value → Value → Value → Date → SupportStatus
unfolding dated as_date
status_of product cycle raw_eol raw_ext as_of =
    if is_false raw_eol then undated product cycle else elim (as_date raw_eol) [
      | none ↦ unknown_status product cycle default_source
      | some eol ↦ dated product cycle eol (as_date raw_ext) as_of
    ]

unfoldable pub judge : Value → Value → Date → Match → Result SupportStatus
unfolding status_of cycle_text cycle_texts
judge product cycle as_of absent = ok (unknown_status product cycle default_source)
judge product cycle as_of (ambiguous es) = cycle_texts es >>= λ ts. ok (
    unknown_status product cycle
      ("ambiguous: " <> (join ", " (sort_texts ts) <> " - collector must report the edition")))
judge product cycle as_of (found e) = get e "eol" >>= λ raw_eol.
    get e "extendedSupport" >>= λ raw_ext.
    cycle_text e >>= λ name. ok (status_of product (str name) raw_eol raw_ext as_of)

module _ (load : String → Result Value) where
  -- `lookup`. The product and the cycle are what the caller passes, texts or not.
  unfoldable pub lookup_support : Value → Value → Date → Result SupportStatus
  unfolding lookup judge find_cycle
  lookup_support product cycle as_of = as_text product "strip" >>= λ p.
      elim (lookup (lower (strip p)) product_files) [
        | none ↦ ok (unknown_status product cycle default_source)
        | some file ↦ load file >>= λ document. as_text cycle "strip" >>= λ c.
            iterate document >>= λ cycles.
            find_cycle (lower (strip c)) cycles >>= λ m. judge product cycle as_of m
      ]
