-- ===== src/Contract/Guards.antt =====
-- `FactBundle.require` passes exactly where every fact is there and complete.
use mathlib.Core.Path.{subst}
use oscal_aap_ansible_playbo.Prelude.{
  String, ◌≡◌, ◌↔◌, ◌⊎◌, inl, inr, true, false, Option, none, some, List, [], ◌∷◌, arith,
  Bool-cases, All, filter, is_empty, filter-is_empty, filter-is_empty_of,
}
use oscal_aap_ansible_playbo.Contract.Terms.{Status, collection_error, partial_population}
use oscal_aap_ansible_playbo.Contract.Verdict.{CheckResult, unassessed}
use oscal_aap_ansible_playbo.Contract.Bundle.{
  Fact, FactBundle, fact, require, is_missing, is_incomplete,
}
use oscal_aap_ansible_playbo.Contract.Evidence.{IsWellFormed, unassessed-IsWellFormed}

-- The fact was collected, and its collection is complete.
abbrev pub IsComplete : FactBundle → String → Type 0
IsComplete b k = (f : Fact) × (fact b k ≡ some f) × (f.partial ≡ false)

-- A guard that stops says why: nothing was determined, because a fact is missing, or else because
-- one is incomplete.
abbrev pub Stops : FactBundle → List String → CheckResult → Type 0
Stops b ks r =
    (r.status ≡ Status.unassessed)
    × (((r.reason ≡ some collection_error) × (is_empty (filter (is_missing b) ks) ≡ false))
        ⊎ ((r.reason ≡ some partial_population)
            × (is_empty (filter (is_missing b) ks) ≡ true)
            × (is_empty (filter (is_incomplete b) ks) ≡ false)))

abbrev Holds {ℓ} : {A : Type ℓ} → (A → Type 0) → Option A → Type 0
Holds P none = Unit
Holds P (some a) = P a

module _ (b : FactBundle) where
  IsComplete-of : (k : String) → is_missing b k ≡ false → is_incomplete b k ≡ false → IsComplete b k
  IsComplete-of k h i = ground arith

  not_missing : (k : String) → IsComplete b k → is_missing b k ≡ false
  not_missing k (f, e, c) = ground arith

  not_incomplete : (k : String) → IsComplete b k → is_incomplete b k ≡ false
  not_incomplete k (f, e, c) = ground arith

  All-IsComplete :
      (ks : List String)
      → All (λ k. is_missing b k ≡ false) ks
      → All (λ k. is_incomplete b k ≡ false) ks
      → All (IsComplete b) ks
  All-IsComplete [] h i = tt
  All-IsComplete (k ∷ ks) h i = (IsComplete-of k h.0 i.0, All-IsComplete ks h.1 i.1)

  none_missing : (ks : List String) → All (IsComplete b) ks → All (λ k. is_missing b k ≡ false) ks
  none_missing [] h = tt
  none_missing (k ∷ ks) h = (not_missing k h.0, none_missing ks h.1)

  none_incomplete :
      (ks : List String) → All (IsComplete b) ks → All (λ k. is_incomplete b k ≡ false) ks
  none_incomplete [] h = tt
  none_incomplete (k ∷ ks) h = (not_incomplete k h.0, none_incomplete ks h.1)

  empties_of_none :
      (ks : List String)
      → require b ks ≡ none
      → (is_empty (filter (is_missing b) ks) ≡ true)
        × (is_empty (filter (is_incomplete b) ks) ≡ true)
  unfolding require
  empties_of_none ks h = ground arith

  -- The guard passes exactly where every required fact was collected, and completely.
  pub require-none_iff : (ks : List String) → (require b ks ≡ none) ↔ All (IsComplete b) ks
  unfolding require
  require-none_iff ks = (
    λ h.
        let e = empties_of_none ks h in
        All-IsComplete ks (filter-is_empty (is_missing b) ks e.0)
          (filter-is_empty (is_incomplete b) ks e.1),
    λ h. rw (
      filter-is_empty_of (is_missing b) ks (none_missing ks h),
      filter-is_empty_of (is_incomplete b) ks (none_incomplete ks h),
    ),
  )

  -- Where the guard stops, nothing is determined: a fact is missing and the reason is a collection
  -- error, or none is missing, one is incomplete and the reason is a partial population.
  pub require-Stops : (ks : List String) (r : CheckResult) → require b ks ≡ some r → Stops b ks r
  unfolding require unassessed
  require-Stops ks r h = ground arith

  require-Holds : (ks : List String) → Holds IsWellFormed (require b ks)
  unfolding require
  require-Holds ks = elim (Bool-cases (is_empty (filter (is_missing b) ks))) [
    | inr e ↦ rw e (unassessed-IsWellFormed _ _ _)
    | inl e ↦ elim (Bool-cases (is_empty (filter (is_incomplete b) ks))) [
      | inr i ↦ rw (e, i) (unassessed-IsWellFormed _ _ _)
      | inl i ↦ rw (e, i) tt
    ]
  ]

  pub require-IsWellFormed :
      (ks : List String) (r : CheckResult) → require b ks ≡ some r → IsWellFormed r
  require-IsWellFormed ks r h = subst (Holds IsWellFormed) h (require-Holds ks)
