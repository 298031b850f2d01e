-- ===== src/Py/Access/Sets.antt =====
-- Sets of values hold what was put into them, and sorting one loses nothing.
use mathlib.Core.Path.{subst}
use oscal_aap_ansible_playbo.Prelude.{
  ◌≡◌, refl, sym, ap, ◌∙◌, ◌⊎◌, inl, inr, Bool, true, false, List, [], ◌∷◌, arith, In, In-append,
  Bool-cases, ||-eq_true,
}
use oscal_aap_ansible_playbo.Py.Value.{Value, py_eq}
use oscal_aap_ansible_playbo.Py.Result.{ok, ◌>>=◌, >>=-eq_ok, ok-injective}
use oscal_aap_ansible_playbo.Py.Access.{
  mem, add, add_all, to_set, difference, insert_sorted, sorted, less, hashable,
}

-- A value of the list that Python calls equal.
abbrev pub Equal : Value → List Value → Type 0
Equal v xs = (x : Value) × In x xs × (py_eq x v ≡ true)

pub mem→Equal : (v : Value) (xs : List Value) → mem v xs ≡ true → Equal v xs
unfolding mem
mem→Equal v [] h = cc
mem→Equal v (x ∷ xs) h = elim (||-eq_true _ _ h) [
  | inl e ↦ (x, inl refl, e)
  | inr e ↦ let (y, m, q) = mem→Equal v xs e in (y, inr m, q)
]

In-add : (a v : Value) (s : List Value) → In a (add v s) → (a ≡ v) ⊎ In a s
unfolding add
In-add a v s m = elim (Bool-cases (mem v s)) [
  | inl e ↦ inr (rw e at m)
  | inr e ↦ elim (In-append a s (v ∷ []) (rw e at m)) [
    | inl k ↦ inr k
    | inr (inl q) ↦ inl q
    | inr (inr n) ↦ absurd n
  ]
]

hashable-eq_ok : (v w : Value) → hashable v ≡ ok w → w ≡ v
unfolding hashable
hashable-eq_ok v w h = ground arith

In-add_all : (a : Value) (vs s t : List Value) → add_all vs s ≡ ok t → In a t → In a vs ⊎ In a s
unfolding add_all
In-add_all a [] s t h m = inr (subst (In a) (sym (ok-injective _ _ h)) m)
In-add_all a (v ∷ vs) s t h m =
    let (w, e, k) = >>=-eq_ok (hashable v) _ h in
    elim (In-add_all a vs (add w s) t k m) [
      | inl n ↦ inl (inr n)
      | inr n ↦ elim (In-add a w s n) [
        | inl q ↦ inl (inl (q ∙ hashable-eq_ok v w e))
        | inr r ↦ inr r
      ]
    ]

-- Every element of `set(xs)` is one of the list.
pub In-to_set : (a : Value) (vs s : List Value) → to_set vs ≡ ok s → In a s → In a vs
unfolding to_set
In-to_set a vs s h m = elim (In-add_all a vs [] s h m) [ inl n ↦ n | inr n ↦ absurd n ]

-- What is not left by the difference is in the second set.
pub In-difference_of :
    (a : Value) (xs ys : List Value) → In a xs → (mem a ys ≡ true) ⊎ In a (difference xs ys)
unfolding difference
In-difference_of a [] ys m = absurd m
In-difference_of a (x ∷ xs) ys m = elim (Bool-cases (mem x ys)) [
  | inl e ↦ elim m [
    | inl q ↦ inl (ap (λ v. mem v ys) q ∙ e)
    | inr n ↦ rw e (In-difference_of a xs ys n)
  ]
  | inr e ↦ elim m [
    | inl q ↦ inr (rw e (inl q))
    | inr n ↦ elim (In-difference_of a xs ys n) [ inl k ↦ inl k | inr k ↦ inr (rw e (inr k)) ]
  ]
]

placed :
    (a v x : Value) (xs ys : List Value) (b : Bool)
    → ((zs : List Value) → insert_sorted v xs ≡ ok zs → (a ≡ v) ⊎ In a xs → In a zs)
    → (elim b [ true ↦ insert_sorted v xs >>= λ zs. ok (x ∷ zs) | false ↦ ok (v ∷ (x ∷ xs)) ])
      ≡ ok ys
    → (a ≡ v) ⊎ In a (x ∷ xs)
    → In a ys
placed a v x xs ys true rec k m =
    let (zs, f, q) = >>=-eq_ok (insert_sorted v xs) _ k in
    subst (In a) (ok-injective _ _ q) (elim m [
      | inl w ↦ inr (rec zs f (inl w))
      | inr (inl w) ↦ inl w
      | inr (inr n) ↦ inr (rec zs f (inr n))
    ])
placed a v x xs ys false rec k m = subst (In a) (ok-injective _ _ k) m

In-insert_sorted :
    (a v : Value) (xs ys : List Value) → insert_sorted v xs ≡ ok ys → (a ≡ v) ⊎ In a xs → In a ys
unfolding insert_sorted
In-insert_sorted a v [] ys h m = subst (In a) (ok-injective _ _ h) m
In-insert_sorted a v (x ∷ xs) ys h m =
    let (b, e, k) = >>=-eq_ok (less x v) _ h in placed a v x xs ys b (In-insert_sorted a v xs) k m

-- Sorting keeps every element.
pub In-sorted_of : (a : Value) (xs ys : List Value) → sorted xs ≡ ok ys → In a xs → In a ys
unfolding sorted
In-sorted_of a [] ys h m = absurd m
In-sorted_of a (x ∷ xs) ys h m =
    let (zs, e, k) = >>=-eq_ok (sorted xs) _ h in
    In-insert_sorted a x zs ys k (elim m [ inl q ↦ inl q | inr n ↦ inr (In-sorted_of a xs zs e n) ])
