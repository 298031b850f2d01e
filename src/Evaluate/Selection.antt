-- ===== src/Evaluate/Selection.antt =====
-- Which checks `evaluate_bundle` runs.
use mathlib.Core.Path.{subst}
use oscal_aap_ansible_playbo.Prelude.{
  String, ◌≡◌, refl, sym, ap, ◌∙◌, eq→str_eq, &&-eq_true_of, ◌↔◌, ◌⊎◌, inl, inr, Bool, true, Option,
  none, some, List, [], ◌∷◌, arith, In, Bool-cases, str_eq, str_eq→eq, &&-eq_true, ||-eq_true, ◌&&◌,
  ◌||◌, any, mem_text, mem_text→In, In→mem_text,
}
use oscal_aap_ansible_playbo.Py.Result.{Result}
use oscal_aap_ansible_playbo.Contract.Bundle.{FactBundle, FactHistory}
use oscal_aap_ansible_playbo.Registry.{
  Check, ControlBinding, Registry, Evaluator, checks, is_automated, control_ids,
}
use oscal_aap_ansible_playbo.Registry.Iteration.{Registered, In-checks_iff}
use oscal_aap_ansible_playbo.Evaluate.{
  Evaluation, platform_of, is_applicable, evaluate_check, evaluate_all, evaluate_bundle,
}

-- The check binds a control of the baseline, where one is given.
abbrev pub InBaseline : Option (List String) → Check → Type 0
InBaseline none c = Unit
InBaseline (some ids) c = (id : String) × In id (control_ids c.controls) × In id ids

-- The check is automated, its platform is common or the subject's (or the subject names none), and
-- it binds a control of the baseline.
abbrev pub Applies : FactBundle → Option (List String) → Check → Type 0
Applies bundle baseline c =
    (is_automated c ≡ true)
    × ((platform_of bundle ≡ "")
        ⊎ (c.platform_family ≡ "common")
        ⊎ (c.platform_family ≡ platform_of bundle))
    × InBaseline baseline c

any_bound :
    (ids : List String) (bs : List ControlBinding)
    → any (λ b. mem_text b.control_id ids) bs ≡ true
    → (id : String) × In id (control_ids bs) × In id ids
any_bound ids [] h = cc
any_bound ids (b ∷ bs) h = elim (||-eq_true _ _ h) [
  | inl e ↦ (b.control_id, inl refl, mem_text→In b.control_id ids e)
  | inr e ↦ let (id, m, n) = any_bound ids bs e in (id, inr m, n)
]

any_bound_of :
    (ids : List String) (bs : List ControlBinding) (id : String)
    → In id (control_ids bs)
    → In id ids
    → any (λ b. mem_text b.control_id ids) bs ≡ true
any_bound_of ids [] id m n = absurd m
any_bound_of ids (b ∷ bs) id (inl q) n = rw (← q, In→mem_text id ids n)
any_bound_of ids (b ∷ bs) id (inr m) n = ground (arith, any_bound_of ids bs id m n)

-- The test on platforms, for the check's platform and the subject's.
abbrev Fits : String → String → Type 0
Fits f p = (p ≡ "") ⊎ (f ≡ "common") ⊎ (f ≡ p)

abbrev fits : String → String → Bool
fits f p = str_eq p "" || str_eq f "common" || str_eq f p

fits→Fits : (f p : String) → fits f p ≡ true → Fits f p
fits→Fits f p h = ground (arith, str_eq→eq p "", str_eq→eq f "common", str_eq→eq f p)

Fits→fits : (f p : String) → Fits f p → fits f p ≡ true
Fits→fits f p h = ground (arith, eq→str_eq p "", eq→str_eq f "common", eq→str_eq f p)

abbrev in_baseline : Option (List String) → Check → Bool
in_baseline none c = true
in_baseline (some ids) c = any (λ b. mem_text b.control_id ids) c.controls

in_baseline→InBaseline :
    (baseline : Option (List String)) (c : Check)
    → in_baseline baseline c ≡ true
    → InBaseline baseline c
in_baseline→InBaseline none c h = tt
in_baseline→InBaseline (some ids) c h = any_bound ids c.controls h

InBaseline→in_baseline :
    (baseline : Option (List String)) (c : Check)
    → InBaseline baseline c
    → in_baseline baseline c ≡ true
InBaseline→in_baseline none c h = refl
InBaseline→in_baseline (some ids) c (id, m, n) = any_bound_of ids c.controls id m n

applicable_split :
    (bundle : FactBundle) (baseline : Option (List String)) (c : Check)
    → is_applicable bundle baseline c
      ≡ (is_automated c && fits c.platform_family (platform_of bundle) && in_baseline baseline c)
unfolding is_applicable
applicable_split bundle none c = refl
applicable_split bundle (some ids) c = refl

is_applicable→Applies :
    (bundle : FactBundle) (baseline : Option (List String)) (c : Check)
    → is_applicable bundle baseline c ≡ true
    → Applies bundle baseline c
is_applicable→Applies bundle baseline c h =
    let (k, b) = &&-eq_true _ _ (sym (applicable_split bundle baseline c) ∙ h) in
    let (a, f) = &&-eq_true _ _ k in (a, fits→Fits _ _ f, in_baseline→InBaseline baseline c b)

Applies→is_applicable :
    (bundle : FactBundle) (baseline : Option (List String)) (c : Check)
    → Applies bundle baseline c
    → is_applicable bundle baseline c ≡ true
Applies→is_applicable bundle baseline c (a, f, b) =
    applicable_split bundle baseline c
    ∙ &&-eq_true_of _ _ (&&-eq_true_of _ _ a (Fits→fits _ _ f))
        (InBaseline→in_baseline baseline c b)

module _ (import_function : String → String → Result (Option Evaluator)) (bundle : FactBundle)
    (baseline : Option (List String)) (history : Option FactHistory) where
  In-evaluate_all :
      (ev : Evaluation) (cs : List Check)
      → In ev (evaluate_all import_function cs bundle baseline history)
      → (c : Check) × In c cs
        × Applies bundle baseline c
        × (ev ≡ evaluate_check import_function c bundle history)
  unfolding evaluate_all
  In-evaluate_all ev [] h = absurd h
  In-evaluate_all ev (c ∷ cs) h = elim (Bool-cases (is_applicable bundle baseline c)) [
    | inl e ↦ elim (rw e at h) [
      | inl q ↦ (c, inl refl, is_applicable→Applies bundle baseline c e, q)
      | inr m ↦ let (d, n, a, q) = In-evaluate_all ev cs m in (d, inr n, a, q)
    ]
    | inr e ↦ let (d, n, a, q) = In-evaluate_all ev cs (rw e at h) in (d, inr n, a, q)
  ]

  In-evaluate_all_of :
      (c : Check) (cs : List Check)
      → In c cs
      → Applies bundle baseline c
      → In
          (evaluate_check import_function c bundle history)
          (evaluate_all import_function cs bundle baseline history)
  unfolding evaluate_all
  In-evaluate_all_of c [] m a = absurd m
  In-evaluate_all_of c (d ∷ cs) (inl q) a =
      rw (ap (is_applicable bundle baseline) (sym q) ∙ Applies→is_applicable bundle baseline c a)
        (inl (ap (λ e. evaluate_check import_function e bundle history) q))
  In-evaluate_all_of c (d ∷ cs) (inr m) a = elim (Bool-cases (is_applicable bundle baseline d)) [
    | inl e ↦ rw e (inr (In-evaluate_all_of c cs m a))
    | inr e ↦ rw e (In-evaluate_all_of c cs m a)
  ]

  -- A run yields the evaluation of every registered check that applies, and no other: an attested
  -- check, one for another platform and one outside the baseline are not run, and no other is skipped.
  pub In-evaluate_bundle_iff :
      (registry : Registry) (ev : Evaluation)
      → In ev (evaluate_bundle import_function registry bundle baseline history) ↔ (
          (c : Check) × Registered registry c
          × Applies bundle baseline c
          × (ev ≡ evaluate_check import_function c bundle history))
  unfolding evaluate_bundle
  In-evaluate_bundle_iff registry ev = (
    λ h.
        let (c, m, a, q) = In-evaluate_all ev (checks registry) h in
        (c, (In-checks_iff registry c).0 m, a, q),
    λ (c, n, a, q).
        subst (λ e. In e (evaluate_all import_function (checks registry) bundle baseline history))
          (sym q) (In-evaluate_all_of c (checks registry) ((In-checks_iff registry c).1 n) a),
  )
