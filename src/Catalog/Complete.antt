-- ===== src/Catalog/Complete.antt =====
-- The index of a catalog has every control of its document.
use mathlib.Core.Path.{subst}
use oscal_aap_ansible_playbo.Prelude.{
  String, ◌≡◌, sym, ap, ◌∙◌, ◌⊎◌, inl, inr, none, some, [], lookup, insert,
}
use oscal_aap_ansible_playbo.Py.Value.{
  Value, Items, Fields, null, bool, int, str, arr, obj, nil, cons, end, field,
}
use oscal_aap_ansible_playbo.Py.Result.{ok, >>=-eq_ok, ok-injective, Returns_inv}
use oscal_aap_ansible_playbo.Py.Dict.{HasKey, insert-HasKey, HasKey-insert, Entries}
use oscal_aap_ansible_playbo.Catalog.{
  Index, class_of, id_of, index_node, walk, walk_fields, walk_items, Catalog, catalog_of,
}
use oscal_aap_ansible_playbo.Catalog.Index.{Filed, walk-Filed, index_node-cases, read_control-id}

-- A dict of the document, at any depth.
abbrev mutual
  pub Within : Fields → Value → Type 0
  Within gs (obj fs) = (gs ≡ fs) ⊎ WithinFields gs fs
  Within gs (arr xs) = WithinItems gs xs
  Within gs v = ⊥

  pub WithinFields : Fields → Fields → Type 0
  WithinFields gs end = ⊥
  WithinFields gs (field n v fs) = Within gs v ⊎ WithinFields gs fs

  pub WithinItems : Fields → Items → Type 0
  WithinItems gs nil = ⊥
  WithinItems gs (cons v xs) = Within gs v ⊎ WithinItems gs xs

index_node-HasKey :
    (k : String) (fs : Fields) (d e : Index) → index_node fs d ≡ ok e → HasKey d k → HasKey e k
index_node-HasKey k fs d e h p = elim (index_node-cases fs d e h) [
  | inl (q, n) ↦ subst (λ b. HasKey b k) (sym q) p
  | inr (class, id, c, s, t, r, q) ↦ subst (λ b. HasKey b k) (sym q) (insert-HasKey d k c.id c p)
]

-- A key that is in the index stays there.
module _ (k : String) where
  mutual
    unfolding walk

    walk-HasKey : (v : Value) (d e : Index) → walk v d ≡ ok e → HasKey d k → HasKey e k
    walk-HasKey (obj fs) d e h p =
        let (b, g, l) = >>=-eq_ok (index_node fs d) _ h in
        walk_fields-HasKey fs b e l (index_node-HasKey k fs d b g p)
    walk-HasKey (arr xs) d e h p = walk_items-HasKey xs d e h p
    walk-HasKey (str s) d e h p = subst (λ b. HasKey b k) (ok-injective _ _ h) p
    walk-HasKey (int s) d e h p = subst (λ b. HasKey b k) (ok-injective _ _ h) p
    walk-HasKey (bool s) d e h p = subst (λ b. HasKey b k) (ok-injective _ _ h) p
    walk-HasKey null d e h p = subst (λ b. HasKey b k) (ok-injective _ _ h) p

    walk_fields-HasKey :
        (fs : Fields) (d e : Index) → walk_fields fs d ≡ ok e → HasKey d k → HasKey e k
    walk_fields-HasKey end d e h p = subst (λ b. HasKey b k) (ok-injective _ _ h) p
    walk_fields-HasKey (field n v fs) d e h p =
        let (b, g, l) = >>=-eq_ok (walk v d) _ h in
        walk_fields-HasKey fs b e l (walk-HasKey v d b g p)

    walk_items-HasKey :
        (xs : Items) (d e : Index) → walk_items xs d ≡ ok e → HasKey d k → HasKey e k
    walk_items-HasKey nil d e h p = subst (λ b. HasKey b k) (ok-injective _ _ h) p
    walk_items-HasKey (cons v xs) d e h p =
        let (b, g, l) = >>=-eq_ok (walk v d) _ h in
        walk_items-HasKey xs b e l (walk-HasKey v d b g p)

  module _ (gs : Fields) (class : String) (s : class_of gs ≡ some class)
      (t : id_of gs ≡ some (str k)) where
    index_node-adds : (d e : Index) → index_node gs d ≡ ok e → HasKey e k
    index_node-adds d e h = elim (index_node-cases gs d e h) [
      | inl (q, inl n) ↦ absurd (some_none (sym s ∙ n))
      | inl (q, inr n) ↦ absurd (some_none (sym t ∙ n))
      | inr (cl, id, c, u, v, r, q) ↦
          let w = Returns_inv (read_control-id gs cl k) c (rw (some_some (sym v ∙ t)) at r) in
          subst (λ b. HasKey b k) (sym q)
            (subst (HasKey (insert c.id c d)) w (HasKey-insert d c.id c))
    ]
      where
        some_none : {A : Type 0} {a : A} → some a ≡ none → ⊥
        some_none e = cc

        some_some : {a b : Value} → some a ≡ some b → a ≡ b
        some_some e = cc

    mutual
      unfolding walk

      walk-adds : (v : Value) (d e : Index) → walk v d ≡ ok e → Within gs v → HasKey e k
      walk-adds (obj fs) d e h (inl w) =
          let (b, g, l) = >>=-eq_ok (index_node fs d) _ h in
          walk_fields-HasKey fs b e l (index_node-adds d b (rw (← w) at g))
      walk-adds (obj fs) d e h (inr w) =
          let (b, g, l) = >>=-eq_ok (index_node fs d) _ h in walk_fields-adds fs b e l w
      walk-adds (arr xs) d e h w = walk_items-adds xs d e h w
      walk-adds (str s) d e h w = absurd w
      walk-adds (int s) d e h w = absurd w
      walk-adds (bool s) d e h w = absurd w
      walk-adds null d e h w = absurd w

      walk_fields-adds :
          (fs : Fields) (d e : Index) → walk_fields fs d ≡ ok e → WithinFields gs fs → HasKey e k
      walk_fields-adds end d e h w = absurd w
      walk_fields-adds (field n v fs) d e h w =
          let (b, g, l) = >>=-eq_ok (walk v d) _ h in
          elim w [
            | inl x ↦ walk_fields-HasKey fs b e l (walk-adds v d b g x)
            | inr x ↦ walk_fields-adds fs b e l x
          ]

      walk_items-adds :
          (xs : Items) (d e : Index) → walk_items xs d ≡ ok e → WithinItems gs xs → HasKey e k
      walk_items-adds nil d e h w = absurd w
      walk_items-adds (cons v xs) d e h w =
          let (b, g, l) = >>=-eq_ok (walk v d) _ h in
          elim w [
            | inl x ↦ walk_items-HasKey xs b e l (walk-adds v d b g x)
            | inr x ↦ walk_items-adds xs b e l x
          ]

-- Where a document is indexed, the index has nothing but controls and principles, each under its own
-- id; and every dict of the document, at any depth, that has such a class and a text as its id is found
-- there by its id.
pub catalog_of_complete :
    (document : Value) (c : Catalog)
    → catalog_of document ≡ ok c
    → Entries Filed c.controls
      × ((gs : Fields) (class k : String)
          → Within gs document
          → class_of gs ≡ some class
          → id_of gs ≡ some (str k)
          → HasKey c.controls k)
unfolding catalog_of lookup
catalog_of_complete document c h =
    let (d, e, q) = >>=-eq_ok (walk document []) _ h in
    let r = ap (λ (b : Catalog). b.controls) (ok-injective _ _ q) in
    (
      subst (Entries Filed) r (walk-Filed document [] d e (λ k v x. cc)),
      λ gs class k w s t. subst (λ b. HasKey b k) r (walk-adds k gs class s t document [] d e w),
    )
