-- ===== src/Redact/Retained.antt =====
-- What a policy that retains leaves as it is.
use oscal_aap_ansible_playbo.Prelude.{
  String, ◌≡◌, refl, ap, ◌∙◌, ◌⊎◌, inl, inr, Option, none, some, arith, Option-cases, lookup,
}
use oscal_aap_ansible_playbo.Py.Text.{lower}
use oscal_aap_ansible_playbo.Py.Value.{
  Value, Items, Fields, null, bool, int, str, arr, obj, nil, cons, end, field,
}
use oscal_aap_ansible_playbo.Py.Result.{ok}
use oscal_aap_ansible_playbo.Redact.{
  Action, retain, keep_field, Policy, named_action, sid_action, shape_action, first_of, action_for,
  apply, redact_scalar, redact_value, redact_fields, redact_item, redact_items, policy_of,
  redact_facts,
}

-- Every action is `retain`.
abbrev pub Retains : Policy → Type 0
Retains p =
    ((k : String) (a : Action) → lookup k p.named ≡ some a → a ≡ retain) × (p.fallback ≡ retain)

abbrev Kept : Option Action → Type 0
Kept o = (o ≡ none) ⊎ (o ≡ some retain)

Kept-first_of : (n i : Option Action) → Kept n → Kept i → Kept (first_of n i)
Kept-first_of n i (inl e) h = rw e h
Kept-first_of n i (inr e) h = rw e (inr refl)

module _ (sha : String → String) (p : Policy) (h : Retains p) where
  Kept-named : (k : String) → Kept (named_action p k)
  unfolding named_action
  Kept-named k = elim (Option-cases (lookup (lower k) p.named)) [
    | inl e ↦ inl e
    | inr (a, e) ↦ inr (e ∙ ap some (h.0 (lower k) a e))
  ]

  sid_action-retain : sid_action p ≡ retain
  unfolding sid_action
  sid_action-retain = elim (Option-cases (lookup "sid" p.named)) [
    | inl e ↦ rw (e, sid_action) (h.1)
    | inr (a, e) ↦ rw (e, sid_action) (h.0 "sid" a e)
  ]

  shape_action-retain : (v : Value) → shape_action p v ≡ retain
  unfolding shape_action
  shape_action-retain (str s) = ground (arith, sid_action-retain, h.1)
  shape_action-retain (int n) = h.1
  shape_action-retain (bool b) = h.1
  shape_action-retain null = h.1
  shape_action-retain (arr xs) = h.1
  shape_action-retain (obj fs) = h.1

  action_for-retain :
      (n i : Option Action) (v : Value) → Kept n → Kept i → action_for p n v i ≡ retain
  unfolding action_for
  action_for-retain n i v a b = elim (Kept-first_of n i a b) [
    | inl e ↦ rw (e, action_for) (shape_action-retain v)
    | inr e ↦ rw (e, action_for)
  ]

  apply-retain :
      (n i : Option Action) (v : Value)
      → Kept n
      → Kept i
      → apply sha (action_for p n v i) v p.salt ≡ v
  unfolding apply
  apply-retain n i v a b = rw (action_for-retain n i v a b)

  redact_scalar-retain : (i : Option Action) (v : Value) → Kept i → redact_scalar sha p i v ≡ some v
  unfolding redact_scalar apply
  redact_scalar-retain i v b = rw (action_for-retain none i v (inl refl) b)

  keep_field-retain :
      (n : Option Action) (k : String) (v : Value) (fs : Fields)
      → Kept n
      → keep_field n k v fs ≡ field k v fs
  keep_field-retain n k v fs (inl e) = rw e
  keep_field-retain n k v fs (inr e) = rw e

  mutual
    unfolding redact_value

    value-retain :
        (n i : Option Action) (v : Value) → Kept n → Kept i → redact_value sha p n i v ≡ v
    value-retain n i (obj fs) a b = ap obj (fields-retain none fs (inl refl))
    value-retain n i (arr xs) a b = ap arr (items-retain (first_of n i) xs (Kept-first_of n i a b))
    value-retain n i (str s) a b = apply-retain n i (str s) a b
    value-retain n i (int m) a b = apply-retain n i (int m) a b
    value-retain n i (bool m) a b = apply-retain n i (bool m) a b
    value-retain n i null a b = apply-retain n i null a b

    fields-retain : (i : Option Action) (fs : Fields) → Kept i → redact_fields sha p i fs ≡ fs
    fields-retain i end b = refl
    fields-retain i (field k v fs) b =
        keep_field-retain (named_action p k) k _ _ (Kept-named k)
        ∙ (ap (λ w. field k w (redact_fields sha p i fs))
              (value-retain (named_action p k) i v (Kept-named k) b)
            ∙ ap (field k v) (fields-retain i fs b))

    item-retain : (i : Option Action) (v : Value) → Kept i → redact_item sha p i v ≡ some v
    item-retain i (obj fs) b =
        ap (λ (gs : Fields). some (obj gs)) (fields-retain none fs (inl refl))
    item-retain i (arr xs) b = ap (λ (ys : Items). some (arr ys)) (items-retain i xs b)
    item-retain i (str s) b = redact_scalar-retain i (str s) b
    item-retain i (int m) b = redact_scalar-retain i (int m) b
    item-retain i (bool m) b = redact_scalar-retain i (bool m) b
    item-retain i null b = redact_scalar-retain i null b

    items-retain : (i : Option Action) (xs : Items) → Kept i → redact_items sha p i xs ≡ xs
    items-retain i nil b = refl
    items-retain i (cons v xs) b = rw (item-retain i v b) (ap (cons v) (items-retain i xs b))

module _ (sha : String → String) where
  -- A policy that retains everything changes nothing in a mapping of facts.
  pub redact_facts-retain :
      (fs : Fields) (keys default : Value) (salt : String) (p : Policy)
      → policy_of keys default salt ≡ ok p
      → Retains p
      → redact_facts sha (obj fs) keys default salt ≡ ok (obj fs)
  unfolding redact_facts
  redact_facts-retain fs keys default salt p e h =
      rw e (ap (λ (gs : Fields). ok (obj gs)) (fields-retain sha p h none fs (inl refl)))
