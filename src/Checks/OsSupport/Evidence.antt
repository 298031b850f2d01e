-- ===== src/Checks/OsSupport/Evidence.antt =====
-- What a finding of ism-1501 rests on.
use mathlib.Core.Bool.{false≢true}
use oscal_aap_ansible_playbo.Prelude.{
  String, ◌≡◌, refl, sym, ap, ◌∙◌, ◌⊎◌, inl, inr, Bool, true, false, not, ◌||◌, Option, none, some,
  [], ◌∷◌, Bool-cases,
}
use oscal_aap_ansible_playbo.Py.Value.{Value, bool, dict, truthy, or_else}
use oscal_aap_ansible_playbo.Py.Result.{Result, ok, >>=-eq_ok, ok-injective}
use oscal_aap_ansible_playbo.Py.Access.{get, get_or}
use oscal_aap_ansible_playbo.Py.Date.{Date, date_of}
use oscal_aap_ansible_playbo.Contract.Terms.{Status, Confidence, emits_finding}
use oscal_aap_ansible_playbo.Contract.Verdict.{
  CheckResult, Facts, satisfied, not_satisfied, unassessed,
}
use oscal_aap_ansible_playbo.Contract.Bundle.{Fact, FactBundle, FactHistory, fact, with_fact}
use oscal_aap_ansible_playbo.Eol.{SupportStatus, lookup_support}
use oscal_aap_ansible_playbo.Eol.Known.{Entry, Follows, lookup_support-known}
use oscal_aap_ansible_playbo.Checks.OsSupport.{cycle_of, vendor_verdict, vendor_supported}

-- Whether the parameters let paid extended support count as support; they do where they say nothing.
abbrev pub Counts : Value → Bool → Type 0
Counts params b =
    (v : Value) × (get_or params "extended_support_counts_as_supported" (bool true) ≡ ok v)
    × (truthy v ≡ b)

-- A pass has support, of the vendor or extended where that counts; a failure has neither.
abbrev pub Agrees : Value → SupportStatus → Status → Type 0
Agrees params s status =
    ((status ≡ Status.satisfied)
      × ((s.supported ≡ true) ⊎ ((s.in_extended_support ≡ true) × Counts params true)))
    ⊎ ((status ≡ Status.not_satisfied)
        × (s.supported ≡ false)
        × ((s.in_extended_support ≡ false) ⊎ Counts params false))

pub satisfied-status :
    (d : String) (fs : Facts) (c : Confidence) (r : CheckResult)
    → satisfied d fs c ≡ ok r
    → r.status ≡ Status.satisfied
unfolding satisfied
satisfied-status d [] c r h = cc
satisfied-status d (f ∷ fs) c r h = sym (ap (λ (t : CheckResult). t.status) (ok-injective _ _ h))

pub not_satisfied-status :
    (d : String) (fs : Facts) (c : Confidence) (r : CheckResult)
    → not_satisfied d fs c ≡ ok r
    → r.status ≡ Status.not_satisfied
unfolding not_satisfied
not_satisfied-status d [] c r h = cc
not_satisfied-status d (f ∷ fs) c r h =
    sym (ap (λ (t : CheckResult). t.status) (ok-injective _ _ h))

-- An `unassessed` result emits no finding.
pub unassessed-absurd :
    (w : _) (d : String) (fs : Facts) (r : CheckResult)
    → ok (unassessed w d fs) ≡ ok r
    → emits_finding r.status ≡ true
    → ⊥
unfolding unassessed emits_finding
unassessed-absurd w d fs r h k =
    false≢true (ap (λ (t : CheckResult). emits_finding t.status) (ok-injective _ _ h) ∙ k)

vendor_verdict-Agrees :
    (s : SupportStatus) (product cycle : Value) (as_of : Date) (value params : Value)
    (r : CheckResult)
    → vendor_verdict s product cycle as_of value params ≡ ok r
    → emits_finding r.status ≡ true
    → (s.unknown ≡ false) × Agrees params s r.status
unfolding vendor_verdict
vendor_verdict-Agrees s product cycle as_of value params r h k = elim (Bool-cases s.unknown) [
  | inl u ↦ absurd (unassessed-absurd _ _ _ r (rw u at h) k)
  | inr u ↦ (
    u,
    elim (Bool-cases s.supported) [
      | inl t ↦ inl (satisfied-status _ _ _ r (rw (u, t) at h), inl t)
      | inr t ↦ elim (Bool-cases s.in_extended_support) [
        | inr x ↦ inr (not_satisfied-status _ _ _ r (rw (u, t, x) at h), t, inl x)
        | inl x ↦
            let (v, e, q) =
              >>=-eq_ok (get_or params "extended_support_counts_as_supported" (bool true)) _
                (rw (u, t, x) at h) in
            elim (Bool-cases (truthy v)) [
              | inl y ↦ inl (satisfied-status _ _ _ r (rw y at q), inr (x, (v, e, y)))
              | inr y ↦ inr (not_satisfied-status _ _ _ r (rw y at q), t, inr (v, e, y))
            ]
      ]
    ],
  )
]

pub with_fact-cases :
    (o : Option Fact) (absent : Result CheckResult) (present : Fact → Result CheckResult)
    (r : CheckResult)
    → with_fact o absent present ≡ ok r
    → ((o ≡ none) × (absent ≡ ok r)) ⊎ ((f : Fact) × (o ≡ some f) × (present f ≡ ok r))
with_fact-cases none absent present r h = inl (refl, h)
with_fact-cases (some f) absent present r h = inr (f, refl, h)

-- The product and the cycle that the fact names.
abbrev pub Names : FactBundle → Value → Value → Type 0
Names bundle product cycle =
    (release : Fact) × (fact bundle "os.release" ≡ some release)
    × (get (or_else release.value (dict [])) "eol_product" ≡ ok product)
    × (cycle_of (or_else release.value (dict [])) product ≡ ok cycle)

module _ (load : String → Result Value) where
  -- A finding of ism-1501, a pass or a failure, rests on a release that the fact names and on one
  -- entry of the data set that was chosen for it; it agrees with the dates of that entry on the day
  -- of the collection. An unknown release is never a finding.
  pub vendor_supported-Agrees :
      (bundle : FactBundle) (params : Value) (history : FactHistory) (r : CheckResult)
      → vendor_supported load bundle params history ≡ ok r
      → emits_finding r.status ≡ true
      → (product : Value) × (cycle : Value) × (e : Value) × (s : SupportStatus) × Names bundle
          product cycle
        × Entry load product cycle e
        × Follows (date_of bundle.collected) e s
        × Agrees params s r.status
  unfolding vendor_supported
  vendor_supported-Agrees bundle params history r h k =
      elim (with_fact-cases (fact bundle "os.release") _ _ r h) [
        | inl (n, q) ↦ absurd (unassessed-absurd _ _ _ r q k)
        | inr (release, m, q) ↦
            let value = or_else release.value (dict []) in
            let (product, h1, k1) = >>=-eq_ok (get value "eol_product") _ q in
            let (cycle, h2, k2) = >>=-eq_ok (cycle_of value product) _ k1 in
            elim (Bool-cases (not (truthy product) || not (truthy cycle))) [
              | inl t ↦ absurd (unassessed-absurd _ _ _ r (rw t at k2) k)
              | inr t ↦
                  let (s, h3, k3) =
                    >>=-eq_ok (lookup_support load product cycle (date_of bundle.collected)) _
                      (rw t at k2) in
                  let (u, a) =
                    vendor_verdict-Agrees s product cycle (date_of bundle.collected) value params r
                      k3 k in
                  let (e, n, w) =
                    lookup_support-known load product cycle (date_of bundle.collected) s h3 u in
                  (product, cycle, e, s, (release, m, h1, h2), n, w, a)
            ]
      ]
