-- ===== src/Py/Result/Laws.antt =====
-- What a comprehension that returned has read and kept.
use mathlib.Core.Path.{subst}
use oscal_aap_ansible_playbo.Prelude.{
  ◌≡◌, refl, sym, ap, ◌∙◌, ◌⊎◌, inl, inr, Bool, true, false, Option, none, some, List, [], ◌∷◌, In,
  is_empty, if◌then◌else◌, prepend,
}
use oscal_aap_ansible_playbo.Py.Result.{Result, ok, >>=-eq_ok, ok-injective, filter, filter_map}

module _ {A : Type 0} (p : A → Result Bool) where
  filter-cons :
      (x : A) (xs ys : List A)
      → filter p (x ∷ xs) ≡ ok ys
      → (b : Bool) × (zs : List A) × (p x ≡ ok b)
        × (filter p xs ≡ ok zs)
        × ((if b then x ∷ zs else zs) ≡ ys)
  unfolding filter
  filter-cons x xs ys h =
      let (b, e, k) = >>=-eq_ok (p x) _ h in
      let (zs, f, q) = >>=-eq_ok (filter p xs) _ k in (b, zs, e, f, ok-injective _ _ q)

  kept :
      (a x : A) (xs zs : List A) (b : Bool)
      → p x ≡ ok b
      → (In a zs → In a xs × (p a ≡ ok true))
      → In a (if b then x ∷ zs else zs)
      → In a (x ∷ xs) × (p a ≡ ok true)
  kept a x xs zs true e rec (inl w) = (inl w, ap p w ∙ e)
  kept a x xs zs true e rec (inr m) = (inr (rec m).0, (rec m).1)
  kept a x xs zs false e rec m = (inr (rec m).0, (rec m).1)

  -- What is kept is in the list and passed the test.
  pub In-filter :
      (a : A) (xs ys : List A) → filter p xs ≡ ok ys → In a ys → In a xs × (p a ≡ ok true)
  unfolding filter
  In-filter a [] ys h m = absurd (subst (In a) (sym (ok-injective _ _ h)) m)
  In-filter a (x ∷ xs) ys h m =
      let (b, zs, e, f, q) = filter-cons x xs ys h in
      kept a x xs zs b e (In-filter a xs zs f) (subst (In a) (sym q) m)

  keeps :
      (a x : A) (zs : List A) (b : Bool)
      → p x ≡ ok b
      → p a ≡ ok true
      → (a ≡ x) ⊎ In a zs
      → In a (if b then x ∷ zs else zs)
  keeps a x zs true e t m = m
  keeps a x zs false e t (inl w) = absurd (differ (sym e ∙ (ap p (sym w) ∙ t)))
    where
      differ : ok false ≡ ok true → ⊥
      differ q = cc
  keeps a x zs false e t (inr m) = m

  -- What is in the list and passes the test is kept.
  pub In-filter_of :
      (a : A) (xs ys : List A) → filter p xs ≡ ok ys → In a xs → p a ≡ ok true → In a ys
  In-filter_of a [] ys h m t = absurd m
  In-filter_of a (x ∷ xs) ys h m t =
      let (b, zs, e, f, q) = filter-cons x xs ys h in
      subst (In a) q
        (keeps a x zs b e t (elim m [ inl w ↦ inl w | inr n ↦ inr (In-filter_of a xs zs f n t) ]))

  -- The test was made of every element.
  pub filter-read :
      (a : A) (xs ys : List A) → filter p xs ≡ ok ys → In a xs → (b : Bool) × (p a ≡ ok b)
  filter-read a [] ys h m = absurd m
  filter-read a (x ∷ xs) ys h m =
      let (b, zs, e, f, q) = filter-cons x xs ys h in
      elim m [ inl w ↦ (b, ap p w ∙ e) | inr n ↦ filter-read a xs zs f n ]

module _ {A B : Type 0} (f : A → Result (Option B)) where
  filter_map-cons :
      (x : A) (xs : List A) (ys : List B)
      → filter_map f (x ∷ xs) ≡ ok ys
      → (o : Option B) × (zs : List B) × (f x ≡ ok o)
        × (filter_map f xs ≡ ok zs)
        × (prepend o zs ≡ ys)
  unfolding filter_map
  filter_map-cons x xs ys h =
      let (o, e, k) = >>=-eq_ok (f x) _ h in
      let (zs, g, q) = >>=-eq_ok (filter_map f xs) _ k in (o, zs, e, g, ok-injective _ _ q)

  from :
      (b : B) (x : A) (xs : List A) (zs : List B) (o : Option B)
      → f x ≡ ok o
      → (In b zs → (a : A) × In a xs × (f a ≡ ok (some b)))
      → In b (prepend o zs)
      → (a : A) × In a (x ∷ xs) × (f a ≡ ok (some b))
  from b x xs zs none e rec m = let (a, n, q) = rec m in (a, inr n, q)
  from b x xs zs (some c) e rec (inl w) = (x, inl refl, e ∙ ap (λ d. ok (some d)) (sym w))
  from b x xs zs (some c) e rec (inr m) = let (a, n, q) = rec m in (a, inr n, q)

  -- Every element of the result comes from one of the list.
  pub In-filter_map :
      (b : B) (xs : List A) (ys : List B)
      → filter_map f xs ≡ ok ys
      → In b ys
      → (a : A) × In a xs × (f a ≡ ok (some b))
  unfolding filter_map
  In-filter_map b [] ys h m = absurd (subst (In b) (sym (ok-injective _ _ h)) m)
  In-filter_map b (x ∷ xs) ys h m =
      let (o, zs, e, g, q) = filter_map-cons x xs ys h in
      from b x xs zs o e (In-filter_map b xs zs g) (subst (In b) (sym q) m)

  empty_prepend :
      (o : Option B) (zs : List B)
      → is_empty (prepend o zs) ≡ true
      → (o ≡ none) × (is_empty zs ≡ true)
  empty_prepend none zs h = (refl, h)
  empty_prepend (some c) zs h = cc

  -- Where the result is empty, no element gave one.
  pub filter_map-empty :
      (a : A) (xs : List A) (ys : List B)
      → filter_map f xs ≡ ok ys
      → is_empty ys ≡ true
      → In a xs
      → f a ≡ ok none
  filter_map-empty a [] ys h t m = absurd m
  filter_map-empty a (x ∷ xs) ys h t m =
      let (o, zs, e, g, q) = filter_map-cons x xs ys h in
      let (n, r) = empty_prepend o zs (ap is_empty q ∙ t) in
      elim m [ inl w ↦ ap f w ∙ (e ∙ ap ok n) | inr k ↦ filter_map-empty a xs zs g r k ]

  -- Every element of the list was read; what it gave is in the result.
  pub filter_map-read :
      (a : A) (xs : List A) (ys : List B)
      → filter_map f xs ≡ ok ys
      → In a xs
      → (o : Option B) × (f a ≡ ok o) × ((b : B) → o ≡ some b → In b ys)
  filter_map-read a [] ys h m = absurd m
  filter_map-read a (x ∷ xs) ys h m =
      let (o, zs, e, g, q) = filter_map-cons x xs ys h in
      elim m [
        | inl w ↦
            (o, ap f w ∙ e, λ b t. subst (In b) (ap (λ p. prepend p zs) (sym t) ∙ q) (inl refl))
        | inr n ↦
            let (p, k, r) = filter_map-read a xs zs g n in
            (p, k, λ b t. subst (In b) q (behind b o zs (r b t)))
      ]
    where
      behind : (b : B) (o : Option B) (zs : List B) → In b zs → In b (prepend o zs)
      behind b none zs m = m
      behind b (some c) zs m = inr m
