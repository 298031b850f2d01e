-- ===== src/Redact/Safety.antt =====
-- What the redaction lets through, what it refuses, and what it leaves as it is.
use mathlib.Core.Path.{subst}
use Prim.Native.String.append
use oscal_aap_ansible_playbo.Prelude.{
  String, ◌<>◌, ◌≡◌, refl, ap, ◌∙◌, ◌≢◌, ◌⊎◌, inl, inr, false, Option, none, some, Bool-cases,
  Option-cases, lookup,
}
use oscal_aap_ansible_playbo.Py.Text.{lower, take}
use oscal_aap_ansible_playbo.Py.Value.{
  Value, Items, Fields, null, bool, int, str, arr, obj, nil, cons, end, field, to_text,
}
use oscal_aap_ansible_playbo.Py.Result.{ok, ok-injective}
use oscal_aap_ansible_playbo.Redact.Sid.{looks_like_sid}
use oscal_aap_ansible_playbo.Redact.{
  Action, retain, hash, truncate, drop, is_drop, Policy, named_action, sid_action, shape_action,
  first_of, action_for, keep_item, keep_field, hashed, apply, redact_scalar, redact_value,
  redact_fields, redact_item, redact_items, policy_of, redact_facts,
}

-- No text of the value has the shape of a SID.
abbrev mutual
  pub SidFree : Value → Type 0
  SidFree (str s) = looks_like_sid s ≡ false
  SidFree (arr xs) = ItemsSidFree xs
  SidFree (obj fs) = FieldsSidFree fs
  SidFree v = Unit

  pub ItemsSidFree : Items → Type 0
  ItemsSidFree nil = Unit
  ItemsSidFree (cons v xs) = SidFree v × ItemsSidFree xs

  pub FieldsSidFree : Fields → Type 0
  FieldsSidFree end = Unit
  FieldsSidFree (field k v fs) = SidFree v × FieldsSidFree fs

-- Every named action hashes or drops. A text with the shape of a SID is hashed: by the action for
-- `sid` or, where there is none, by the default. The default does not truncate.
abbrev pub Protects : Policy → Type 0
Protects p =
    ((k : String) (a : Action) → lookup k p.named ≡ some a → (a ≡ hash) ⊎ (a ≡ drop))
    × (sid_action p ≡ hash)
    × (p.fallback ≢ truncate)

abbrev Safe : Option Action → Type 0
Safe o = (o ≡ none) ⊎ (o ≡ some hash)

Safe-first_of : (n i : Option Action) → Safe n → Safe i → Safe (first_of n i)
Safe-first_of n i (inl e) h = rw e h
Safe-first_of n i (inr e) h = rw e (inr refl)

digest-SidFree : (s : String) → looks_like_sid ("sha256:" <> s) ≡ false
unfolding looks_like_sid
digest-SidFree s =
    rw
      (
        append.cons "s" "ha256:" s,
        append.cons "h" "a256:" s,
        append.cons "a" "256:" s,
        append.cons "2" "56:" s,
      )
      refl

module _ (sha : String → String) (p : Policy) (h : Protects p) where
  hashed-SidFree : (v : Value) (salt : String) → SidFree (hashed sha v salt)
  unfolding hashed looks_like_sid
  hashed-SidFree v salt = digest-SidFree (take 32 (sha (salt <> to_text v)))

  fallback-SidFree : (v : Value) → SidFree v → SidFree (apply sha p.fallback v p.salt)
  unfolding apply
  fallback-SidFree v k = on p.fallback (h.2) v k
    where
      on : (a : Action) → a ≢ truncate → (v : Value) → SidFree v → SidFree (apply sha a v p.salt)
      on retain n v k = k
      on hash n v k = hashed-SidFree v p.salt
      on truncate n v k = absurd (n refl)
      on drop n v k = k

  text-SidFree : (s : String) → SidFree (apply sha (shape_action p (str s)) (str s) p.salt)
  unfolding shape_action apply
  text-SidFree s = elim (Bool-cases (looks_like_sid s)) [
    | inl e ↦ rw (e, h.1) (hashed-SidFree (str s) p.salt)
    | inr e ↦ rw e (fallback-SidFree (str s) e)
  ]

  -- What is no container, under an action that is named or none.
  acted-SidFree :
      (o : Option Action) (v : Value)
      → Safe o
      → SidFree (apply sha (shape_action p v) v p.salt)
      → SidFree (apply sha (elim o [ none ↦ shape_action p v | some a ↦ a ]) v p.salt)
  unfolding apply
  acted-SidFree o v (inl e) k = rw e k
  acted-SidFree o v (inr e) k = rw e (hashed-SidFree v p.salt)

  scalar-SidFree :
      (n i : Option Action) (v : Value)
      → Safe n
      → Safe i
      → SidFree (apply sha (shape_action p v) v p.salt)
      → SidFree (apply sha (action_for p n v i) v p.salt)
  unfolding action_for
  scalar-SidFree n i v a b k = acted-SidFree (first_of n i) v (Safe-first_of n i a b) k

  abbrev ItemFree : Option Value → Type 0
  ItemFree none = Unit
  ItemFree (some v) = SidFree v

  item-SidFree :
      (i : Option Action) (v : Value)
      → Safe i
      → SidFree (apply sha (shape_action p v) v p.salt)
      → ItemFree (redact_scalar sha p i v)
  unfolding redact_scalar
  item-SidFree i v b k = elim (Bool-cases (is_drop (action_for p none v i))) [
    | inl e ↦ rw e tt
    | inr e ↦ rw e (scalar-SidFree none i v (inl refl) b k)
  ]

  keep_item-SidFree :
      (o : Option Value) (xs : Items) → ItemFree o → ItemsSidFree xs → ItemsSidFree (keep_item o xs)
  keep_item-SidFree none xs a b = b
  keep_item-SidFree (some v) xs a b = (a, b)

  keep_field-SidFree :
      (n : Option Action) (k : String) (v : Value) (fs : Fields)
      → ((n ≡ some drop → ⊥) → SidFree v)
      → FieldsSidFree fs
      → FieldsSidFree (keep_field n k v fs)
  keep_field-SidFree none k v fs a b = (a (λ e. cc), b)
  keep_field-SidFree (some retain) k v fs a b = (a (λ e. cc), b)
  keep_field-SidFree (some hash) k v fs a b = (a (λ e. cc), b)
  keep_field-SidFree (some truncate) k v fs a b = (a (λ e. cc), b)
  keep_field-SidFree (some drop) k v fs a b = b

  -- A key whose value is kept names no action, or hashing.
  Safe-named : (k : String) → (named_action p k ≡ some drop → ⊥) → Safe (named_action p k)
  unfolding named_action
  Safe-named k n = elim (Option-cases (lookup (lower k) p.named)) [
    | inl e ↦ inl e
    | inr (a, e) ↦ elim (h.0 (lower k) a e) [
      | inl q ↦ inr (e ∙ ap some q)
      | inr q ↦ absurd (n (e ∙ ap some q))
    ]
  ]

  mutual
    unfolding redact_value apply shape_action

    redact_value-SidFree :
        (n i : Option Action) (v : Value) → Safe n → Safe i → SidFree (redact_value sha p n i v)
    redact_value-SidFree n i (obj fs) a b = redact_fields-SidFree none fs (inl refl)
    redact_value-SidFree n i (arr xs) a b =
        redact_items-SidFree (first_of n i) xs (Safe-first_of n i a b)
    redact_value-SidFree n i (str s) a b = scalar-SidFree n i (str s) a b (text-SidFree s)
    redact_value-SidFree n i (int m) a b =
        scalar-SidFree n i (int m) a b (fallback-SidFree (int m) tt)
    redact_value-SidFree n i (bool m) a b =
        scalar-SidFree n i (bool m) a b (fallback-SidFree (bool m) tt)
    redact_value-SidFree n i null a b = scalar-SidFree n i null a b (fallback-SidFree null tt)

    redact_fields-SidFree :
        (i : Option Action) (fs : Fields) → Safe i → FieldsSidFree (redact_fields sha p i fs)
    redact_fields-SidFree i end b = tt
    redact_fields-SidFree i (field k v fs) b =
        keep_field-SidFree (named_action p k) k _ _
          (λ n. redact_value-SidFree (named_action p k) i v (Safe-named k n) b)
          (redact_fields-SidFree i fs b)

    redact_item-SidFree :
        (i : Option Action) (v : Value) → Safe i → ItemFree (redact_item sha p i v)
    redact_item-SidFree i (obj fs) b = redact_fields-SidFree none fs (inl refl)
    redact_item-SidFree i (arr xs) b = redact_items-SidFree i xs b
    redact_item-SidFree i (str s) b = item-SidFree i (str s) b (text-SidFree s)
    redact_item-SidFree i (int m) b = item-SidFree i (int m) b (fallback-SidFree (int m) tt)
    redact_item-SidFree i (bool m) b = item-SidFree i (bool m) b (fallback-SidFree (bool m) tt)
    redact_item-SidFree i null b = item-SidFree i null b (fallback-SidFree null tt)

    redact_items-SidFree :
        (i : Option Action) (xs : Items) → Safe i → ItemsSidFree (redact_items sha p i xs)
    redact_items-SidFree i nil b = tt
    redact_items-SidFree i (cons v xs) b =
        keep_item-SidFree (redact_item sha p i v) (redact_items sha p i xs)
          (redact_item-SidFree i v b) (redact_items-SidFree i xs b)

module _ (sha : String → String) where
  -- Where every named action of a policy hashes or drops, the action for `sid` hashes, or the default
  -- where `sid` names none, and the default does not truncate, no text value of the result has the
  -- shape of a SID, at whatever key and depth it was collected.
  pub redact_facts-SidFree :
      (facts keys default : Value) (salt : String) (p : Policy) (out : Value)
      → policy_of keys default salt ≡ ok p
      → Protects p
      → redact_facts sha facts keys default salt ≡ ok out
      → SidFree out
  unfolding redact_facts
  redact_facts-SidFree null keys default salt p out e h r = subst SidFree (ok-injective _ _ r) tt
  redact_facts-SidFree (obj fs) keys default salt p out e h r =
      subst SidFree (ok-injective _ _ (rw e at r))
        (redact_fields-SidFree sha p h none fs (inl refl))
  redact_facts-SidFree (str s) keys default salt p out e h r = cc
  redact_facts-SidFree (int n) keys default salt p out e h r = cc
  redact_facts-SidFree (bool b) keys default salt p out e h r = cc
  redact_facts-SidFree (arr xs) keys default salt p out e h r = cc
