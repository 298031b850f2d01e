-- ===== src/Prelude/Lists.antt =====
-- Lists over the native numbers, dictionaries in insertion order, and predicates by recursion.
use Prim.Native.Nat.{ℕ, suc, ◌+◌}
use Prim.Native.String.{String}
use mathlib.Core.Path.{◌≡◌, refl, sym, ap, subst}
use mathlib.Core.Logic.{◌⊎◌, inl, inr}
use mathlib.Core.Bool.{Bool, true, false, ◌&&◌, ◌||◌, false≢true}
use mathlib.Core.Option.{Option, none, some}
use mathlib.Core.List.{List, [], ◌∷◌, ◌++◌, map}
use native.Mathlib.Omega.{arith}
use oscal_aap_ansible_playbo.Prelude.Tests.{
  if◌then◌else◌, str_eq, str_eq→eq, str_eq_refl, Bool-cases,
}

module _ {ℓ} {A : Type ℓ} where
  abbrev pub length : List A → ℕ
  length [] = 0
  length (x ∷ xs) = suc (length xs)

  abbrev pub is_empty : List A → Bool
  is_empty [] = true
  is_empty (x ∷ xs) = false

  -- The element in front, if there is one.
  abbrev pub prepend : Option A → List A → List A
  prepend none xs = xs
  prepend (some x) xs = x ∷ xs

  abbrev pub any : (A → Bool) → List A → Bool
  any p [] = false
  any p (x ∷ xs) = p x || any p xs

  abbrev pub all : (A → Bool) → List A → Bool
  all p [] = true
  all p (x ∷ xs) = p x && all p xs

  abbrev pub filter : (A → Bool) → List A → List A
  filter p [] = []
  filter p (x ∷ xs) = if p x then x ∷ filter p xs else filter p xs

  abbrev pub find : (A → Bool) → List A → Option A
  find p [] = none
  find p (x ∷ xs) = if p x then some x else find p xs

  pub length-append : (xs ys : List A) → length (xs ++ ys) ≡ length xs + length ys
  length-append [] ys = omega arith
  length-append (x ∷ xs) ys = omega (arith, length-append xs ys)

module _ {A : Type 0} where
  -- Membership as data, so that a proof can match on the place.
  abbrev pub In : A → List A → Type 0
  In a [] = ⊥
  In a (x ∷ xs) = (a ≡ x) ⊎ In a xs

  pub In-append_left : (a : A) (xs ys : List A) → In a xs → In a (xs ++ ys)
  In-append_left a [] ys h = absurd h
  In-append_left a (x ∷ xs) ys (inl e) = inl e
  In-append_left a (x ∷ xs) ys (inr h) = inr (In-append_left a xs ys h)

  pub In-append_right : (a : A) (xs ys : List A) → In a ys → In a (xs ++ ys)
  In-append_right a [] ys h = h
  In-append_right a (x ∷ xs) ys h = inr (In-append_right a xs ys h)

  pub In-append : (a : A) (xs ys : List A) → In a (xs ++ ys) → In a xs ⊎ In a ys
  In-append a [] ys h = inr h
  In-append a (x ∷ xs) ys (inl e) = inl (inl e)
  In-append a (x ∷ xs) ys (inr h) = elim (In-append a xs ys h) [
    | inl k ↦ inl (inr k)
    | inr k ↦ inr k
  ]

module _ {ℓ κ} {A : Type ℓ} (P : A → Type κ) where
  abbrev pub All : List A → Type κ
  All [] = Unit
  All (x ∷ xs) = P x × All xs

module _ {ℓ} {A : Type ℓ} (P : A → Type 0) where
  abbrev pub Any : List A → Type 0
  Any [] = ⊥
  Any (x ∷ xs) = P x ⊎ Any xs

module _ {ℓ κ} {A : Type ℓ} {V : Type κ} where
  abbrev pub map_entries : (V → A) → List (String × V) → List (String × A)
  map_entries f [] = []
  map_entries f ((k, v) ∷ d) = (k, f v) ∷ map_entries f d

module _ {A B : Type 0} (f : A → B) where
  pub In-map : (b : B) (xs : List A) → In b (map f xs) → (a : A) × In a xs × (f a ≡ b)
  In-map b [] h = absurd h
  In-map b (x ∷ xs) (inl q) = (x, inl refl, sym q)
  In-map b (x ∷ xs) (inr m) = let (a, n, e) = In-map b xs m in (a, inr n, e)

  pub In-map_of : (a : A) (xs : List A) → In a xs → In (f a) (map f xs)
  In-map_of a [] h = absurd h
  In-map_of a (x ∷ xs) (inl q) = inl (ap f q)
  In-map_of a (x ∷ xs) (inr m) = inr (In-map_of a xs m)

module _ {κ} {V : Type κ} where
  -- `d.get(k)` on a dict in insertion order.
  unfoldable pub lookup : String → List (String × V) → Option V
  lookup k [] = none
  lookup k ((j, v) ∷ d) = if str_eq j k then some v else lookup k d

  -- `d[k] = v`.
  unfoldable pub insert : String → V → List (String × V) → List (String × V)
  insert k v [] = (k, v) ∷ []
  insert k v ((j, w) ∷ d) = if str_eq j k then (j, v) ∷ d else (j, w) ∷ insert k v d

  pub lookup-insert_self :
      (k : String) (v : V) (d : List (String × V)) → lookup k (insert k v d) ≡ some v
  unfolding lookup insert
  lookup-insert_self k v [] = ground (arith, str_eq_refl k)
  lookup-insert_self k v ((j, w) ∷ d) = ground (arith, lookup-insert_self k v d)

  pub lookup-insert_ne :
      (j k : String) (v : V) (d : List (String × V))
      → str_eq k j ≡ false
      → lookup j (insert k v d) ≡ lookup j d
  unfolding lookup insert
  lookup-insert_ne j k v [] h = ground arith
  lookup-insert_ne j k v ((i, w) ∷ d) h = ground (arith, lookup-insert_ne j k v d h, str_eq→eq i k)

module _ {ℓ} {A : Type ℓ} (p : A → Bool) where
  pub filter-is_empty : (xs : List A) → is_empty (filter p xs) ≡ true → All (λ x. p x ≡ false) xs
  filter-is_empty [] h = tt
  filter-is_empty (x ∷ xs) h = elim (Bool-cases (p x)) [
    | inl e ↦ absurd (false≢true (rw e at h))
    | inr e ↦ (e, filter-is_empty xs (rw e at h))
  ]

  pub filter-is_empty_of : (xs : List A) → All (λ x. p x ≡ false) xs → is_empty (filter p xs) ≡ true
  filter-is_empty_of [] h = refl
  filter-is_empty_of (x ∷ xs) h = rw h.0 (filter-is_empty_of xs h.1)

module _ {A : Type 0} (p : A → Bool) where
  pub In-filter : (a : A) (xs : List A) → In a (filter p xs) → In a xs × (p a ≡ true)
  In-filter a [] h = absurd h
  In-filter a (x ∷ xs) h = elim (Bool-cases (p x)) [
    | inl e ↦ elim (rw e at h) [
      | inl q ↦ (inl q, rw q e)
      | inr k ↦ (inr (In-filter a xs k).0, (In-filter a xs k).1)
    ]
    | inr e ↦ let k = In-filter a xs (rw e at h) in (inr k.0, k.1)
  ]

  pub In-filter_of : (a : A) (xs : List A) → In a xs → p a ≡ true → In a (filter p xs)
  In-filter_of a [] h e = absurd h
  In-filter_of a (x ∷ xs) (inl q) e = rw (← q, e) (inl refl)
  In-filter_of a (x ∷ xs) (inr h) e = elim (Bool-cases (p x)) [
    | inl t ↦ rw t (inr (In-filter_of a xs h e))
    | inr f ↦ rw f (In-filter_of a xs h e)
  ]

module _ {A : Type 0} (P : A → Type 0) where
  pub All-In : (a : A) (xs : List A) → All P xs → In a xs → P a
  All-In a [] h m = absurd m
  All-In a (x ∷ xs) h (inl e) = subst P (sym e) h.0
  All-In a (x ∷ xs) h (inr m) = All-In a xs h.1 m

  pub All-of_In : (xs : List A) → ((a : A) → In a xs → P a) → All P xs
  All-of_In [] h = tt
  All-of_In (x ∷ xs) h = (h x (inl refl), All-of_In xs (λ a m. h a (inr m)))
