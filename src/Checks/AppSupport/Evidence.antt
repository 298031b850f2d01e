-- ===== src/Checks/AppSupport/Evidence.antt =====
-- What a finding of ism-1704 rests on.
use oscal_aap_ansible_playbo.Prelude.{
  String, ◌≡◌, ◌⊎◌, Bool, true, false, ◌&&◌, ◌||◌, List, In, str_eq,
}
use oscal_aap_ansible_playbo.Py.Value.{Value, str, to_text}
use oscal_aap_ansible_playbo.Py.Result.{Result, ok}
use oscal_aap_ansible_playbo.Py.Result.Laws
use oscal_aap_ansible_playbo.Py.Access.{get_or}
use oscal_aap_ansible_playbo.Py.Date.{Date}
use oscal_aap_ansible_playbo.Contract.Terms.{Status}
use oscal_aap_ansible_playbo.Eol.{SupportStatus, lookup_support}
use oscal_aap_ansible_playbo.Eol.Unknown.{Unanswered}
use oscal_aap_ansible_playbo.Checks.AppSupport.Products.{is_flash_player, map_product, cycle_for}
use oscal_aap_ansible_playbo.Checks.AppSupport.{Outcome, supported, unsupported, unmapped}

module _ (load : String → Result Value) (extended : Bool) (as_of : Date) where
  -- The application was judged by the entry of its product and its cycle, which is known.
  abbrev pub Judged : String → String → SupportStatus → Type 0
  Judged name version s =
      (str_eq (map_product name) "" ≡ false)
      × (lookup_support load (str (map_product name))
            (str (cycle_for (map_product name) name version)) as_of
          ≡ ok s)
      × (s.unknown ≡ false)

  -- Within support on that day, or past it: Flash Player is past it whatever its version.
  abbrev pub IsSupported : String → String → Type 0
  IsSupported name version =
      (is_flash_player name ≡ false)
      × ((s : SupportStatus) × Judged name version s
          × ((s.supported || (extended && s.in_extended_support)) ≡ true))

  abbrev pub IsUnsupported : String → String → Type 0
  IsUnsupported name version =
      (is_flash_player name ≡ true)
      ⊎ ((s : SupportStatus) × Judged name version s
          × ((s.supported || (extended && s.in_extended_support)) ≡ false))

  -- No product was found for it, or the data set has no answer for its version: no document, no entry of
  -- its cycle, several, or one without a date.
  abbrev pub IsUnmapped : String → String → Type 0
  IsUnmapped name version =
      (is_flash_player name ≡ false)
      × ((str_eq (map_product name) "" ≡ true)
          ⊎ ((s : SupportStatus) × (lookup_support load (str (map_product name))
                  (str (cycle_for (map_product name) name version)) as_of
                ≡ ok s)
              × (s.unknown ≡ true)
              × Unanswered load (str (map_product name))
                  (str (cycle_for (map_product name) name version))))

  abbrev Fits : String → String → Outcome → Type 0
  Fits name version (supported n v e) = IsSupported name version
  Fits name version (unsupported n v e) = IsUnsupported name version
  Fits name version (unmapped n v e) = IsUnmapped name version

  -- A property of the name and the version of an application.
  abbrev pub Of : Value → (String → String → Type 0) → Type 0
  Of app P =
      (n : Value) × (v : Value) × (get_or app "name" (str "") ≡ ok n)
      × (get_or app "version" (str "") ≡ ok v)
      × P (to_text n) (to_text v)

  -- An application that is within support, or of whose support nothing is known.
  abbrev pub IsAcceptable : Value → Type 0
  IsAcceptable app = Of app IsSupported ⊎ Of app IsUnmapped

  -- A pass: every application is acceptable, and some is within support. A failure: some is past it.
  abbrev pub SupportIs : List Value → Status → Type 0
  SupportIs apps status =
      ((status ≡ Status.satisfied)
        × ((app : Value) → In app apps → IsAcceptable app)
        × ((app : Value) × In app apps × Of app IsSupported))
      ⊎ ((status ≡ Status.not_satisfied) × ((app : Value) × In app apps × Of app IsUnsupported))
