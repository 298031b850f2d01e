-- ===== src/Catalog/Baseline.antt =====
-- Which controls are in a baseline.
use mathlib.Core.Path.{subst}
use oscal_aap_ansible_playbo.Prelude.{
  String, ◌≡◌, refl, sym, ◌∙◌, ◌≢◌, ◌↔◌, inl, inr, Bool, true, false, Option, none, some, List,
  str_eq, Bool-cases, In, In-filter, In-filter_of, In-map, In-map_of, &&-eq_true, map,
  &&-eq_true_of, lookup, str_eq→eq, eq→str_eq, filter,
}
use oscal_aap_ansible_playbo.Py.Value.{Value, str}
use oscal_aap_ansible_playbo.Py.Access.{mem}
use oscal_aap_ansible_playbo.Py.Access.Sorted.{In-sort_texts, In-sort_texts_of}
use oscal_aap_ansible_playbo.Py.Dict.{In-in_key_order_iff}
use oscal_aap_ansible_playbo.Catalog.{
  Control, Catalog, controls, in_e8, applies_at, passes, is_selected, baseline,
}

-- The value that is wanted, if any, is in the list.
abbrev pub Among : Option String → List Value → Type 0
Among wanted values =
    (value : String) → wanted ≡ some value → value ≢ "" → mem (str value) values ≡ true

passes_iff :
    (test : String → Control → Bool) (wanted : Option String) (control : Control)
    → (passes test wanted control ≡ true)
      ↔ ((value : String) → wanted ≡ some value → value ≢ "" → test value control ≡ true)
unfolding passes
passes_iff test none control = (λ h value e n. cc, λ h. refl)
passes_iff test (some w) control = elim (Bool-cases (str_eq w "")) [
  | inl t ↦
      (λ h value e n. absurd (n (sym (same w value e) ∙ str_eq→eq w "" t)), λ h. rw (t, passes))
  | inr t ↦ (
    λ h value e n. subst (λ v. test v control ≡ true) (same w value e) (rw (t, passes) at h),
    λ h. rw (t, passes) (h w refl (λ q. differ (eq→str_eq w "" q) t)),
  )
]
  where
    same : (a b : String) → some a ≡ some b → a ≡ b
    same a b e = cc

    differ : {b : Bool} → b ≡ true → b ≡ false → ⊥
    differ p q = cc

-- A control of the catalog with the id, which is no principle, and which is in the level of the
-- Essential Eight and applies at the classification, where these are given.
abbrev pub Selected : Catalog → Option String → Option String → String → Type 0
Selected c e8 classification id =
    (k : String) × (control : Control) × (lookup k c.controls ≡ some control)
    × (control.id ≡ id)
    × (control.control_class ≡ "ISM-control")
    × Among e8 control.essential_eight
    × Among classification control.applicability

is_selected-parts :
    (e8 classification : Option String) (control : Control)
    → (is_selected e8 classification control ≡ true) ↔ (
        (control.control_class ≡ "ISM-control")
        × Among e8 control.essential_eight
        × Among classification control.applicability)
unfolding is_selected in_e8 applies_at
is_selected-parts e8 classification control = (
  λ t.
      let (r, d) = &&-eq_true _ _ t in
      let (a, b) = &&-eq_true _ _ r in
      (
        str_eq→eq _ _ a,
        (passes_iff in_e8 e8 control).0 b,
        (passes_iff applies_at classification control).0 d,
      ),
  λ (a, b, d).
      &&-eq_true_of _ _ (&&-eq_true_of _ _ (eq→str_eq _ _ a) ((passes_iff in_e8 e8 control).1 b))
        ((passes_iff applies_at classification control).1 d),
)

-- An id is in a baseline exactly where a control of the catalog has it, which is no principle, and
-- which is in the level of the Essential Eight and applies at the classification, where these are
-- given.
pub In-baseline_iff :
    (c : Catalog) (e8 classification : Option String) (id : String)
    → In id (baseline c e8 classification) ↔ Selected c e8 classification id
unfolding baseline controls
In-baseline_iff c e8 classification id = (
  λ m.
      let (control, n, q) =
        In-map (λ (x : Control). x.id) id (filter (is_selected e8 classification) (controls c))
          (In-sort_texts id _ m) in
      let (l, t) = In-filter (is_selected e8 classification) control (controls c) n in
      let (k, e) = (In-in_key_order_iff c.controls control).0 l in
      let (a, b, d) = (is_selected-parts e8 classification control).0 t in
      (k, control, e, q, a, b, d),
  λ (k, control, e, q, a, b, d). In-sort_texts_of id _ (
      subst
        (λ i.
          In i (map (λ (x : Control). x.id) (filter (is_selected e8 classification) (controls c))))
        q
        (In-map_of (λ (x : Control). x.id) control
          (filter (is_selected e8 classification) (controls c))
          (In-filter_of (is_selected e8 classification) control (controls c)
            ((In-in_key_order_iff c.controls control).1 (k, e))
            ((is_selected-parts e8 classification control).1 (a, b, d))))),
)
