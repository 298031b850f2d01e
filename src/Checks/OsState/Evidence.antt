-- ===== src/Checks/OsState/Evidence.antt =====
-- What a finding of ism-1654 rests on.
use mathlib.Core.Bool.{false≢true}
use oscal_aap_ansible_playbo.Prelude.{
  ◌≡◌, refl, ap, ◌∙◌, ◌⊎◌, inl, inr, Bool, true, false, not, Option, some, List, [], ◌∷◌,
  Bool-cases, In, is_empty, not-eq_false,
}
use oscal_aap_ansible_playbo.Py.Value.{Value, truthy, str}
use oscal_aap_ansible_playbo.Py.Result
use oscal_aap_ansible_playbo.Py.Result.{Result, ok, raise, ◌>>=◌, >>=-eq_ok, ok-injective}
use oscal_aap_ansible_playbo.Py.Result.Laws
use oscal_aap_ansible_playbo.Py.Access.{iterate, get_or}
use oscal_aap_ansible_playbo.Contract.Terms.{Status, emits_finding}
use oscal_aap_ansible_playbo.Contract.Verdict.{CheckResult}
use oscal_aap_ansible_playbo.Contract.Bundle.{Fact, FactBundle, FactHistory, fact}
use oscal_aap_ansible_playbo.Checks.OsSupport.Evidence.{
  satisfied-status, not_satisfied-status, unassessed-absurd, with_fact-cases,
}
use oscal_aap_ansible_playbo.Checks.OsState.{
  is_ie, is_enabled, policy_disables, edge_ie_mode, ie_verdict, judge_features,
  ie11_disabled_or_removed,
}

-- The features were enumerated completely, and there are some.
abbrev pub Enumerated : FactBundle → List Value → Type 0
Enumerated bundle rows =
    (f : Fact) × (fact bundle "windows.os.optional_features" ≡ some f)
    × (f.partial ≡ false)
    × (truthy f.value ≡ true)
    × (iterate f.value ≡ ok rows)

-- An Internet Explorer feature that is enabled.
abbrev pub EnabledIn : List Value → Value → Type 0
EnabledIn rows row = In row rows × (is_ie row ≡ ok true) × (is_enabled row ≡ ok true)

-- A pass has no enabled feature, or the policy; a failure has such a feature, and no policy.
abbrev pub Agrees : List Value → Option Fact → Status → Type 0
Agrees rows policy status =
    ((status ≡ Status.satisfied)
      × (((row : Value) → EnabledIn rows row → ⊥) ⊎ (policy_disables policy ≡ ok true)))
    ⊎ ((status ≡ Status.not_satisfied)
        × ((row : Value) × EnabledIn rows row)
        × (policy_disables policy ≡ ok false))

no_member : (xs : List Value) (x : Value) → is_empty xs ≡ true → In x xs → ⊥
no_member [] x h m = m
no_member (y ∷ xs) x h m = false≢true h

first_member : (xs : List Value) → is_empty xs ≡ false → (x : Value) × In x xs
first_member [] h = cc
first_member (x ∷ xs) h = (x, inl refl)

module _ (rows ie installed : List Value) (policy : Option Fact) (disabled : Bool)
    (found : Result.filter is_ie rows ≡ ok ie)
    (enabled : Result.filter is_enabled ie ≡ ok installed)
    (set : policy_disables policy ≡ ok disabled) where
  In-installed : (row : Value) → EnabledIn rows row → In row installed
  In-installed row (m, i, e) =
      Laws.In-filter_of is_enabled row ie installed enabled
        (Laws.In-filter_of is_ie row rows ie found m i) e

  EnabledIn-of : (row : Value) → In row installed → EnabledIn rows row
  EnabledIn-of row m =
      let (n, e) = Laws.In-filter is_enabled row ie installed enabled m in
      let (k, i) = Laws.In-filter is_ie row rows ie found n in (k, i, e)

  ie_verdict-Agrees :
      (mode : Value) (r : CheckResult)
      → ie_verdict ie installed disabled mode ≡ ok r
      → Agrees rows policy r.status
  unfolding ie_verdict
  ie_verdict-Agrees mode r h = elim (Bool-cases (is_empty ie)) [
    | inl e ↦ inl (
      satisfied-status _ _ _ r (rw e at h),
      inl (λ row m.
          no_member ie row e
            (Laws.In-filter is_enabled row ie installed enabled (In-installed row m)).0),
    )
    | inr e ↦ elim (Bool-cases (is_empty installed)) [
      | inl i ↦ inl (
        satisfied-status _ _ _ r (rw (e, i) at h),
        inl (λ row m. no_member installed row i (In-installed row m)),
      )
      | inr i ↦ elim (Bool-cases disabled) [
        | inl d ↦ inl (satisfied-status _ _ _ r (rw (e, i, d) at h), inr (set ∙ ap ok d))
        | inr d ↦
            let (row, m) = first_member installed i in
            inr (
              not_satisfied-status _ _ _ r (rw (e, i, d) at h),
              (row, EnabledIn-of row m),
              set ∙ ap ok d,
            )
      ]
    ]
  ]

judge_features-Agrees :
    (policy : Option Fact) (v : Value) (r : CheckResult)
    → judge_features policy v ≡ ok r
    → (rows : List Value) × (iterate v ≡ ok rows) × Agrees rows policy r.status
unfolding judge_features
judge_features-Agrees policy v r h =
    let (rows, h1, k1) = >>=-eq_ok (iterate v) _ h in
    let (ie, h2, k2) = >>=-eq_ok (Result.filter is_ie rows) _ k1 in
    let (installed, h3, k3) = >>=-eq_ok (Result.filter is_enabled ie) _ k2 in
    let (disabled, h4, k4) = >>=-eq_ok (policy_disables policy) _ k3 in
    let (mode, h5, k5) = >>=-eq_ok (edge_ie_mode policy) _ k4 in
    (rows, h1, ie_verdict-Agrees rows ie installed policy disabled h2 h3 h4 mode r k5)

-- A finding of ism-1654 rests on features that were enumerated completely. It is a pass only where no
-- Internet Explorer feature is enabled, or the policy disables the browser; it is a failure only
-- where such a feature is enabled and the policy does not.
pub ie11-Agrees :
    (bundle : FactBundle) (params : Value) (history : FactHistory) (r : CheckResult)
    → ie11_disabled_or_removed bundle params history ≡ ok r
    → emits_finding r.status ≡ true
    → (rows : List Value) × Enumerated bundle rows
      × Agrees rows (fact bundle "windows.browser.ie_policy") r.status
unfolding ie11_disabled_or_removed
ie11-Agrees bundle params history r h k =
    elim (with_fact-cases (fact bundle "windows.os.optional_features") _ _ r h) [
      | inl (n, q) ↦ absurd (unassessed-absurd _ _ _ r q k)
      | inr (f, m, q) ↦ elim (Bool-cases f.partial) [
        | inl p ↦
            let (why, h1, k1) =
              >>=-eq_ok (get_or f.meta "collection_error" (str "no reason recorded")) _
                (rw p at q) in
            absurd (unassessed-absurd _ _ _ r k1 k)
        | inr p ↦ elim (Bool-cases (not (truthy f.value))) [
          | inl t ↦ absurd (unassessed-absurd _ _ _ r (rw (p, t) at q) k)
          | inr t ↦
              let (rows, i, a) =
                judge_features-Agrees (fact bundle "windows.browser.ie_policy") f.value r
                  (rw (p, t) at q) in
              (rows, (f, m, p, not-eq_false _ t, i), a)
        ]
      ]
    ]
