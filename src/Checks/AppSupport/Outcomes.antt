-- ===== src/Checks/AppSupport/Outcomes.antt =====
-- The three lists of ism-1704, and its verdict on them.
use oscal_aap_ansible_playbo.Prelude.{
  String, ◌≡◌, refl, ◌⊎◌, inl, inr, true, false, List, [], ◌∷◌, In, is_empty, Bool-cases,
}
use oscal_aap_ansible_playbo.Py.Value.{Value}
use oscal_aap_ansible_playbo.Py.Result.{ok}
use oscal_aap_ansible_playbo.Py.Date.{Date}
use oscal_aap_ansible_playbo.Contract.Terms.{Status, emits_finding}
use oscal_aap_ansible_playbo.Contract.Verdict.{CheckResult, Facts}
use oscal_aap_ansible_playbo.Checks.OsSupport.Evidence.{
  satisfied-status, not_satisfied-status, unassessed-absurd,
}
use oscal_aap_ansible_playbo.Checks.AppSupport.{
  Outcome, supported, unsupported, unmapped, unsupported_of, supported_of, support_verdict,
}

pub none_unsupported :
    (x y : String) (e : Value) (os : List Outcome)
    → is_empty (unsupported_of os) ≡ true
    → In (unsupported x y e) os
    → ⊥
unfolding unsupported_of
none_unsupported x y e [] t m = m
none_unsupported x y e (unsupported n v c ∷ os) t m = cc
none_unsupported x y e (supported n v c ∷ os) t (inl q) = cc
none_unsupported x y e (supported n v c ∷ os) t (inr m) = none_unsupported x y e os t m
none_unsupported x y e (unmapped n v c ∷ os) t (inl q) = cc
none_unsupported x y e (unmapped n v c ∷ os) t (inr m) = none_unsupported x y e os t m

pub some_unsupported :
    (os : List Outcome)
    → is_empty (unsupported_of os) ≡ false
    → (x : String) × (y : String) × (e : Value) × In (unsupported x y e) os
unfolding unsupported_of
some_unsupported [] t = cc
some_unsupported (unsupported n v c ∷ os) t = (n, v, c, inl refl)
some_unsupported (supported n v c ∷ os) t =
    let (x, y, e, m) = some_unsupported os t in (x, y, e, inr m)
some_unsupported (unmapped n v c ∷ os) t =
    let (x, y, e, m) = some_unsupported os t in (x, y, e, inr m)

pub some_supported :
    (os : List Outcome)
    → is_empty (supported_of os) ≡ false
    → (x : String) × (y : String) × (e : Value) × In (supported x y e) os
unfolding supported_of
some_supported [] t = cc
some_supported (supported n v c ∷ os) t = (n, v, c, inl refl)
some_supported (unsupported n v c ∷ os) t =
    let (x, y, e, m) = some_supported os t in (x, y, e, inr m)
some_supported (unmapped n v c ∷ os) t = let (x, y, e, m) = some_supported os t in (x, y, e, inr m)

pub support_verdict-cases :
    (as_of : Date) (os : List Outcome) (facts : Facts) (r : CheckResult)
    → support_verdict as_of os facts ≡ ok r
    → emits_finding r.status ≡ true
    → ((r.status ≡ Status.satisfied)
        × (is_empty (unsupported_of os) ≡ true)
        × (is_empty (supported_of os) ≡ false))
      ⊎ ((r.status ≡ Status.not_satisfied) × (is_empty (unsupported_of os) ≡ false))
unfolding support_verdict
support_verdict-cases as_of os facts r h k = elim (Bool-cases (is_empty (unsupported_of os))) [
  | inr u ↦ inr (not_satisfied-status _ _ _ r (rw u at h), u)
  | inl u ↦ elim (Bool-cases (is_empty (supported_of os))) [
    | inl p ↦ absurd (unassessed-absurd _ _ _ r (rw (u, p) at h) k)
    | inr p ↦ inl (satisfied-status _ _ _ r (rw (u, p) at h), u, p)
  ]
]
