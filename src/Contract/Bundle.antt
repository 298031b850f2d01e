-- ===== src/Contract/Bundle.antt =====
-- `class Fact`, `class FactBundle` and `class FactHistory` of tools/nobytes_cca/contract.py.
pub use oscal_aap_ansible_playbo.Py.Date.{Instant, hour, day}
use oscal_aap_ansible_playbo.Prelude.{
  ℕ, ◌-◌, ◌*◌, String, ◌<>◌, Bool, true, false, Option, none, some, List, [], ◌∷◌, leb, ltb,
  is_empty, if◌then◌else◌, lookup, filter,
}
use oscal_aap_ansible_playbo.Py.Text.{join}
use oscal_aap_ansible_playbo.Py.Value.{Value}
use oscal_aap_ansible_playbo.Py.Access.{sort_texts}
use oscal_aap_ansible_playbo.Contract.Verdict.{CheckResult, unassessed}
use oscal_aap_ansible_playbo.Contract.Terms.{collection_error, partial_population}

pub record Fact : Type 0 where
  pub key : String
  pub value : Value
  pub collected : Instant
  pub source : String
  pub partial : Bool
  pub meta : Value

pub record FactBundle : Type 0 where
  pub subject : List (String × Value)
  pub facts : List (String × Fact)
  pub collected : Instant
  pub run_id : String
  pub provenance : Value

-- `FactBundle.fact`.
unfoldable pub fact : FactBundle → String → Option Fact
unfolding lookup
fact bundle key = lookup key bundle.facts

-- `if f is None: …`, and what follows it.
abbrev pub with_fact {ℓ} : {A : Type ℓ} → Option Fact → A → (Fact → A) → A
with_fact none absent present = absent
with_fact (some f) absent present = present f

abbrev pub is_missing : FactBundle → String → Bool
is_missing bundle key = elim (fact bundle key) [ none ↦ true | some f ↦ false ]

abbrev pub is_incomplete : FactBundle → String → Bool
is_incomplete bundle key = elim (fact bundle key) [ none ↦ false | some f ↦ f.partial ]

-- `FactBundle.require`. `is_incomplete` is asked only where every fact is there.
unfoldable pub require : FactBundle → List String → Option CheckResult
require bundle required =
    let missing = filter (is_missing bundle) required in
    let incomplete = filter (is_incomplete bundle) required in
    if is_empty missing
    then if is_empty incomplete
      then none
      else some (
          unassessed partial_population
            ("incomplete fact(s): " <> join ", " (sort_texts incomplete)) [])
    else some (
        unassessed collection_error ("missing required fact(s): " <> join ", " (sort_texts missing))
          [])

pub record FactHistory : Type 0 where
  pub bundles : List FactBundle
  pub window_days : ℕ

insert_bundle : FactBundle → List FactBundle → List FactBundle
insert_bundle b [] = b ∷ []
insert_bundle b (c ∷ cs) =
    if ltb c.collected b.collected then c ∷ insert_bundle b cs else b ∷ (c ∷ cs)

unfoldable pub sort_bundles : List FactBundle → List FactBundle
unfolding insert_bundle
sort_bundles [] = []
sort_bundles (b ∷ bs) = insert_bundle b (sort_bundles bs)

-- `FactHistory(bundles, window_days)`.
unfoldable pub new_history : List FactBundle → ℕ → FactHistory
unfolding sort_bundles
new_history bundles window_days = record {
  bundles = sort_bundles bundles;
  window_days = window_days;
}

-- `FactHistory.empty()`.
abbrev pub empty_history : FactHistory
empty_history = record { bundles = []; window_days = 0 }

abbrev pub last_collected : FactBundle → List FactBundle → Instant
last_collected b [] = b.collected
last_collected b (c ∷ cs) = last_collected c cs

-- `FactHistory.spans`.
unfoldable pub spans : FactHistory → ℕ → Bool
spans history days = if leb days 0 then true else elim history.bundles [
  | [] ↦ false
  | b ∷ bs ↦ leb (days * day) (last_collected b bs - b.collected)
]

series_of : String → List FactBundle → List Fact
unfolding fact
series_of key [] = []
series_of key (b ∷ bs) = elim (fact b key) [
  | none ↦ series_of key bs
  | some f ↦ f ∷ series_of key bs
]

-- `FactHistory.series`.
unfoldable pub series : FactHistory → String → List Fact
unfolding series_of
series history key = series_of key history.bundles
