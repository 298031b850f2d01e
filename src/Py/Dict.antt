-- ===== src/Py/Dict.antt =====
-- Dicts that a class keeps under texts: walking one in the order of its keys, and what setting a key
-- leaves in it.
use mathlib.Core.Path.{subst}
use oscal_aap_ansible_playbo.Prelude.{
  String, ◌≡◌, refl, sym, ap, ◌∙◌, ◌↔◌, inl, inr, some, Option, none, List, [], ◌∷◌, ◌++◌, In,
  lookup, insert, prepend, Bool-cases, Option-cases, str_eq, str_eq→eq, lookup-insert_self,
  lookup-insert_ne,
}
use oscal_aap_ansible_playbo.Py.Access.{sort_texts}
use oscal_aap_ansible_playbo.Py.Access.Sorted.{In-sort_texts_of}

module _ {V : Type 0} where
  -- The list under a key, or the empty one.
  abbrev pub list_at : Option (List V) → List V
  list_at none = []
  list_at (some vs) = vs

  -- `d.setdefault(k, []).append(v)`.
  unfoldable pub append_at : String → V → List (String × List V) → List (String × List V)
  unfolding lookup insert
  append_at k v d = insert k (list_at (lookup k d) ++ (v ∷ [])) d

  -- The keys of a dict.
  abbrev pub keys_of : List (String × V) → List String
  keys_of [] = []
  keys_of ((k, v) ∷ d) = k ∷ keys_of d

module _ {V : Type 0} where
  picked : List (String × V) → List String → List V
  unfolding lookup
  picked d [] = []
  picked d (k ∷ ks) = prepend (lookup k d) (picked d ks)

  -- `for key in sorted(d): yield d[key]`.
  unfoldable pub in_key_order : List (String × V) → List V
  unfolding picked sort_texts
  in_key_order d = picked d (sort_texts (keys_of d))

  In-keys_of : (k : String) (v : V) (d : List (String × V)) → lookup k d ≡ some v → In k (keys_of d)
  unfolding lookup
  In-keys_of k v [] h = cc
  In-keys_of k v ((j, w) ∷ d) h = elim (Bool-cases (str_eq j k)) [
    | inl e ↦ inl (sym (str_eq→eq j k e))
    | inr e ↦ inr (In-keys_of k v d (rw e at h))
  ]

  In-picked :
      (v : V) (d : List (String × V)) (ks : List String)
      → In v (picked d ks)
      → (k : String) × (lookup k d ≡ some v)
  unfolding picked
  In-picked v d [] h = absurd h
  In-picked v d (k ∷ ks) h = elim (Option-cases (lookup k d)) [
    | inl e ↦ In-picked v d ks (rw (e, picked) at h)
    | inr (w, e) ↦ elim (rw (e, picked) at h) [ inl q ↦ (k, rw q e) | inr m ↦ In-picked v d ks m ]
  ]

  In-picked_of :
      (k : String) (v : V) (d : List (String × V)) (ks : List String)
      → lookup k d ≡ some v
      → In k ks
      → In v (picked d ks)
  unfolding picked
  In-picked_of k v d [] e m = absurd m
  In-picked_of k v d (j ∷ ks) e (inl q) = rw (ap (λ i. lookup i d) (sym q) ∙ e, picked) (inl refl)
  In-picked_of k v d (j ∷ ks) e (inr m) = elim (Option-cases (lookup j d)) [
    | inl n ↦ rw (n, picked) (In-picked_of k v d ks e m)
    | inr (w, n) ↦ rw (n, picked) (inr (In-picked_of k v d ks e m))
  ]

  -- The walk meets exactly the values of the dict.
  pub In-in_key_order_iff :
      (d : List (String × V)) (v : V)
      → In v (in_key_order d) ↔ ((k : String) × (lookup k d ≡ some v))
  unfolding in_key_order
  In-in_key_order_iff d v = (
    λ m. In-picked v d (sort_texts (keys_of d)) m,
    λ (k, e).
        In-picked_of k v d (sort_texts (keys_of d)) e
          (In-sort_texts_of k (keys_of d) (In-keys_of k v d e)),
  )

  -- A key that has a value.
  abbrev pub HasKey : List (String × V) → String → Type 0
  HasKey d k = (v : V) × (lookup k d ≡ some v)

  pub insert-HasKey :
      (d : List (String × V)) (j k : String) (v : V) → HasKey d j → HasKey (insert k v d) j
  insert-HasKey d j k v (w, e) = elim (Bool-cases (str_eq k j)) [
    | inl t ↦
        (v, ap (λ i. lookup i (insert k v d)) (sym (str_eq→eq k j t)) ∙ lookup-insert_self k v d)
    | inr t ↦ (w, lookup-insert_ne j k v d t ∙ e)
  ]

  pub HasKey-insert : (d : List (String × V)) (k : String) (v : V) → HasKey (insert k v d) k
  HasKey-insert d k v = (v, lookup-insert_self k v d)

  some-injective : (v w : V) → some v ≡ some w → v ≡ w
  some-injective v w e = cc

  -- A property of a value and the key that it stands under.
  abbrev pub Entries : (String → V → Type 0) → List (String × V) → Type 0
  Entries P d = (k : String) (v : V) → lookup k d ≡ some v → P k v

  pub insert-Entries :
      (P : String → V → Type 0) (d : List (String × V)) (k : String) (v : V)
      → P k v
      → Entries P d
      → Entries P (insert k v d)
  insert-Entries P d k v p h j w e = elim (Bool-cases (str_eq k j)) [
    | inl t ↦
        let q = str_eq→eq k j t in
        subst (λ i. P i w) q
          (subst (P k)
            (some-injective v w
              (sym (lookup-insert_self k v d) ∙ (ap (λ i. lookup i (insert k v d)) q ∙ e)))
            p)
    | inr t ↦ h j w (sym (lookup-insert_ne j k v d t) ∙ e)
  ]
