-- ===== src/Checks/Browsers/Guards.antt =====
-- What the checks of browsers share: the guard, the gaps of coverage, and browsers with nothing set.
use oscal_aap_ansible_playbo.Prelude.{
  String, ◌≡◌, refl, ap, ◌∙◌, ◌⊎◌, inl, inr, Bool, true, false, Option, none, some, List, [], ◌∷◌,
  ◌++◌, In, is_empty, if◌then◌else◌, Bool-cases, Option-cases, mem_text, mem_text→In,
}
use oscal_aap_ansible_playbo.Py.Value.{Value}
use oscal_aap_ansible_playbo.Py.Result.{Result, ok, >>=-eq_ok, ok-injective}
use oscal_aap_ansible_playbo.Py.Access.{sort_texts}
use oscal_aap_ansible_playbo.Py.Access.Sorted.{In-sort_texts_of}
use oscal_aap_ansible_playbo.Contract.Terms.{emits_finding}
use oscal_aap_ansible_playbo.Contract.Verdict.{CheckResult}
use oscal_aap_ansible_playbo.Contract.Bundle.{Fact, FactBundle, fact, with_fact}
use oscal_aap_ansible_playbo.Checks.OsSupport.Evidence.{unassessed-absurd}
use oscal_aap_ansible_playbo.Checks.Browsers.Inventory.{
  go, stop, policy_fact, unloaded_profiles, inventory_gap, coverage_gap, after_guard, missing_from,
}

-- The fact was collected, and completely.
abbrev pub Whole : FactBundle → String → Fact → Type 0
Whole bundle key f = (fact bundle key ≡ some f) × (f.partial ≡ false)

goes_on :
    (f : Fact) (b : Bool) (stopped : CheckResult) (k : Fact → Result CheckResult) (r : CheckResult)
    → after_guard (if b then stop stopped else go f) k ≡ ok r
    → (ok stopped ≡ ok r) ⊎ ((b ≡ false) × (k f ≡ ok r))
goes_on f true stopped k r h = inl h
goes_on f false stopped k r h = inr (refl, h)

-- Where a check has a finding, its policy fact is whole, and the finding is that of what follows.
pub policy_fact-Whole :
    (bundle : FactBundle) (k : Fact → Result CheckResult) (r : CheckResult)
    → after_guard (policy_fact bundle) k ≡ ok r
    → emits_finding r.status ≡ true
    → (f : Fact) × Whole bundle "windows.browsers.policy" f × (k f ≡ ok r)
unfolding policy_fact
policy_fact-Whole bundle k r h e = elim (Option-cases (fact bundle "windows.browsers.policy")) [
  | inl n ↦ absurd (unassessed-absurd _ _ _ r (rw (n, with_fact, policy_fact) at h) e)
  | inr (f, n) ↦ elim (goes_on f f.partial _ k r (rw (n, with_fact, policy_fact) at h)) [
    | inl q ↦ absurd (unassessed-absurd _ _ _ r q e)
    | inr (p, q) ↦ (f, (n, p), q)
  ]
]

no_gap :
    (unloaded : List Value) (o : Option Fact) (t : String)
    → is_empty ((if is_empty unloaded then [] else t ∷ []) ++ inventory_gap o) ≡ true
    → (unloaded ≡ []) × ((g : Fact) × (o ≡ some g))
unfolding inventory_gap
no_gap [] (some g) t h = (refl, (g, refl))
no_gap [] none t h = cc
no_gap (v ∷ vs) o t h = cc

-- Where coverage has no gap, every hive of a user was loaded and there is an inventory.
pub coverage_gap-none :
    (f : Fact) (bundle : FactBundle) (gaps : List String)
    → coverage_gap f bundle ≡ ok gaps
    → is_empty gaps ≡ true
    → (unloaded_profiles f ≡ ok [])
      × ((g : Fact) × (fact bundle "windows.applications.installed" ≡ some g))
unfolding coverage_gap
coverage_gap-none f bundle gaps h e =
    let (unloaded, g, q) = >>=-eq_ok (unloaded_profiles f) _ h in
    let (a, b) =
      no_gap unloaded (fact bundle "windows.applications.installed") _
        (ap is_empty (ok-injective _ _ q) ∙ e) in
    (g ∙ ap ok a, b)

In-missing_from :
    (k : String) (ks others : List String) → In k ks → (In k others) ⊎ In k (missing_from ks others)
unfolding missing_from
In-missing_from k [] others m = absurd m
In-missing_from k (j ∷ ks) others m = elim (Bool-cases (mem_text j others)) [
  | inl t ↦ elim m [
    | inl q ↦ inl (rw q (mem_text→In j others t))
    | inr n ↦ rw (t, missing_from) (In-missing_from k ks others n)
  ]
  | inr t ↦ elim m [
    | inl q ↦ rw (t, missing_from) (inr (inl q))
    | inr n ↦ elim (In-missing_from k ks others n) [
      | inl a ↦ inl a
      | inr a ↦ rw (t, missing_from) (inr (inr a))
    ]
  ]
]

never_in_empty : (k : String) (ss : List String) → is_empty ss ≡ true → In k ss → ⊥
never_in_empty k [] e m = m
never_in_empty k (s ∷ ss) e m = cc

-- Where no key is missing, each key of the first is among the second.
pub missing_from-none :
    (k : String) (ks others : List String)
    → is_empty (sort_texts (missing_from ks others)) ≡ true
    → In k ks
    → In k others
missing_from-none k ks others e m = elim (In-missing_from k ks others m) [
  | inl a ↦ a
  | inr a ↦ absurd (never_in_empty k _ e (In-sort_texts_of k (missing_from ks others) a))
]
