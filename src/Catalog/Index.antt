-- ===== src/Catalog/Index.antt =====
-- The index of a catalog has nothing but controls and principles, each under its own id.
use mathlib.Core.Path.{subst}
use oscal_aap_ansible_playbo.Prelude.{
  String, ◌≡◌, refl, sym, ◌∙◌, ◌⊎◌, inl, inr, ◌||◌, Option, none, some, insert, Bool-cases,
  Option-cases, ||-eq_true, str_eq, str_eq→eq,
}
use oscal_aap_ansible_playbo.Py.Value.{
  Value, Items, Fields, null, bool, int, str, arr, obj, nil, cons, end, field, value_at,
}
use oscal_aap_ansible_playbo.Py.Result.{
  ok, >>=-eq_ok, ok-injective, Returns, Returns_inv, returns_rules,
}
use oscal_aap_ansible_playbo.Py.Dict.{Entries, insert-Entries}
use oscal_aap_ansible_playbo.Catalog.{
  Control, Index, class_of, class_text, id_of, id_text, read_control, index_node, walk, walk_fields,
  walk_items,
}

-- A control stands under its own id, and is of one of the two classes.
abbrev pub Filed : String → Control → Type 0
Filed k c = (c.id ≡ k) × ((c.control_class ≡ "ISM-control") ⊎ (c.control_class ≡ "ISM-principle"))

class_text-cases :
    (o : Option Value) (class : String)
    → class_text o ≡ some class
    → (class ≡ "ISM-control") ⊎ (class ≡ "ISM-principle")
unfolding class_text
class_text-cases (some (str s)) class h =
    elim (Bool-cases (str_eq s "ISM-control" || str_eq s "ISM-principle")) [
      | inl t ↦ elim (||-eq_true _ _ t) [
        | inl a ↦ inl (sym (same s class (rw t at h)) ∙ str_eq→eq _ _ a)
        | inr a ↦ inr (sym (same s class (rw t at h)) ∙ str_eq→eq _ _ a)
      ]
      | inr t ↦ cc (rw t at h)
    ]
  where
    same : (a b : String) → some a ≡ some b → a ≡ b
    same a b e = cc
class_text-cases (some (int n)) class h = cc
class_text-cases (some (bool n)) class h = cc
class_text-cases (some null) class h = cc
class_text-cases (some (arr n)) class h = cc
class_text-cases (some (obj n)) class h = cc
class_text-cases none class h = cc

read_control-class :
    (fs : Fields) (class : String) (id : Value)
    → Returns (λ c. c.control_class ≡ class) (read_control fs class id)
unfolding read_control
read_control-class fs class id = search returns_rules depth 30

pub read_control-id :
    (fs : Fields) (class k : String) → Returns (λ c. c.id ≡ k) (read_control fs class (str k))
unfolding read_control id_text
read_control-id fs class k = search returns_rules depth 30

-- The cases of `index_node`: nothing is added, or the control that was read.
pub index_node-cases :
    (fs : Fields) (d e : Index)
    → index_node fs d ≡ ok e
    → ((e ≡ d) × ((class_of fs ≡ none) ⊎ (id_of fs ≡ none)))
      ⊎ ((class : String) × (id : Value) × (c : Control) × (class_of fs ≡ some class)
          × (id_of fs ≡ some id)
          × (read_control fs class id ≡ ok c)
          × (e ≡ insert c.id c d))
unfolding index_node
index_node-cases fs d e h = elim (Option-cases (class_of fs)) [
  | inl n ↦ inl (sym (ok-injective _ _ (rw (n, index_node) at h)), inl n)
  | inr (class, s) ↦ elim (Option-cases (id_of fs)) [
    | inl n ↦ inl (sym (ok-injective _ _ (rw (s, n, index_node) at h)), inr n)
    | inr (id, t) ↦
        let (c, r, q) = >>=-eq_ok (read_control fs class id) _ (rw (s, t, index_node) at h) in
        inr (class, id, c, s, t, r, sym (ok-injective _ _ q))
  ]
]

index_node-Filed :
    (fs : Fields) (d e : Index) → index_node fs d ≡ ok e → Entries Filed d → Entries Filed e
unfolding class_of
index_node-Filed fs d e h p = elim (index_node-cases fs d e h) [
  | inl (q, n) ↦ subst (Entries Filed) (sym q) p
  | inr (class, id, c, s, t, r, q) ↦
      let w = Returns_inv (read_control-class fs class id) c r in
      subst (Entries Filed) (sym q) (
        insert-Entries Filed d c.id c
          (
            refl,
            elim (class_text-cases (value_at "class" fs) class s) [
              | inl a ↦ inl (w ∙ a)
              | inr a ↦ inr (w ∙ a)
            ],
          )
          p)
]

mutual
  unfolding walk

  pub walk-Filed : (v : Value) (d e : Index) → walk v d ≡ ok e → Entries Filed d → Entries Filed e
  walk-Filed (obj fs) d e h p =
      let (b, g, k) = >>=-eq_ok (index_node fs d) _ h in
      walk_fields-Filed fs b e k (index_node-Filed fs d b g p)
  walk-Filed (arr xs) d e h p = walk_items-Filed xs d e h p
  walk-Filed (str s) d e h p = subst (Entries Filed) (ok-injective _ _ h) p
  walk-Filed (int s) d e h p = subst (Entries Filed) (ok-injective _ _ h) p
  walk-Filed (bool s) d e h p = subst (Entries Filed) (ok-injective _ _ h) p
  walk-Filed null d e h p = subst (Entries Filed) (ok-injective _ _ h) p

  walk_fields-Filed :
      (fs : Fields) (d e : Index) → walk_fields fs d ≡ ok e → Entries Filed d → Entries Filed e
  walk_fields-Filed end d e h p = subst (Entries Filed) (ok-injective _ _ h) p
  walk_fields-Filed (field n v fs) d e h p =
      let (b, g, k) = >>=-eq_ok (walk v d) _ h in walk_fields-Filed fs b e k (walk-Filed v d b g p)

  walk_items-Filed :
      (xs : Items) (d e : Index) → walk_items xs d ≡ ok e → Entries Filed d → Entries Filed e
  walk_items-Filed nil d e h p = subst (Entries Filed) (ok-injective _ _ h) p
  walk_items-Filed (cons v xs) d e h p =
      let (b, g, k) = >>=-eq_ok (walk v d) _ h in walk_items-Filed xs b e k (walk-Filed v d b g p)
