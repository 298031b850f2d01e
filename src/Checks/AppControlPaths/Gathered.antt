-- ===== src/Checks/AppControlPaths/Gathered.antt =====
-- What the lists that `_permitting_rules` gives say of each rule and each location.
use mathlib.Core.Path.{subst}
use mathlib.Core.Bool.{false≢true}
use oscal_aap_ansible_playbo.Prelude.{
  String, ◌≡◌, refl, sym, ap, ◌∙◌, ◌⊎◌, inl, inr, Bool, true, false, not, none, some, List, [], ◌∷◌,
  ◌++◌, In, is_empty, Bool-cases,
}
use oscal_aap_ansible_playbo.Py.Value.{Value}
use oscal_aap_ansible_playbo.Py.Result.{Result, ok, ◌>>=◌, >>=-eq_ok, ok-injective, any}
use oscal_aap_ansible_playbo.Checks.AppControlPaths.Rules.{
  Hit, Found, both, gather, location_path, covers_path, contains_path, lets_through, judge_location,
}

-- Nothing is permitted, and nothing was left unread.
abbrev pub Clean : Found → Type 0
Clean a = (is_empty a.permitted ≡ true) × (is_empty a.unreadable_rules ≡ true)

is_empty-append :
    {A : Type 0} (xs ys : List A)
    → is_empty (xs ++ ys) ≡ true
    → (is_empty xs ≡ true) × (is_empty ys ≡ true)
is_empty-append [] ys h = (refl, h)
is_empty-append (x ∷ xs) ys h = cc

Clean-both : (a b : Found) → Clean (both a b) → Clean a × Clean b
Clean-both a b h =
    let (p, q) = is_empty-append a.permitted b.permitted (h.0) in
    let (u, v) = is_empty-append a.unreadable_rules b.unreadable_rules (h.1) in ((p, u), (q, v))

module _ (f : Value → Result Found) where
  gather-cons :
      (x : Value) (xs : List Value) (t : Found)
      → gather f (x ∷ xs) ≡ ok t
      → (a : Found) × (b : Found) × (f x ≡ ok a) × (gather f xs ≡ ok b) × (both a b ≡ t)
  unfolding gather
  gather-cons x xs t h =
      let (a, e, k) = >>=-eq_ok (f x) _ h in
      let (b, g, q) = >>=-eq_ok (gather f xs) _ k in (a, b, e, g, ok-injective _ _ q)

  pub gather-Clean :
      (x : Value) (xs : List Value) (t : Found)
      → gather f xs ≡ ok t
      → Clean t
      → In x xs
      → (a : Found) × (f x ≡ ok a) × Clean a
  gather-Clean x [] t h c m = absurd m
  gather-Clean x (y ∷ ys) t h c m =
      let (a, b, e, g, q) = gather-cons y ys t h in
      let (ca, cb) = Clean-both a b (subst Clean (sym q) c) in
      elim m [ inl w ↦ (a, ap f w ∙ e, ca) | inr n ↦ gather-Clean x ys b g cb n ]

  pub gather-permitted :
      (xs : List Value) (t : Found)
      → gather f xs ≡ ok t
      → is_empty t.permitted ≡ false
      → (x : Value) × (a : Found) × In x xs × (f x ≡ ok a) × (is_empty a.permitted ≡ false)
  unfolding gather
  gather-permitted [] t h c =
      absurd
        (false≢true (sym c ∙ ap (λ (s : Found). is_empty s.permitted) (sym (ok-injective _ _ h))))
  gather-permitted (x ∷ xs) t h c =
      let (a, b, e, g, q) = gather-cons x xs t h in
      elim (Bool-cases (is_empty a.permitted)) [
        | inr n ↦ (x, a, inl refl, e, n)
        | inl n ↦
            let (y, d, m, k, w) =
              gather-permitted xs b g (
                later a.permitted b.permitted n (ap (λ (s : Found). is_empty s.permitted) q ∙ c)) in
            (y, d, inr m, k, w)
      ]
    where
      later :
          (us vs : List Hit)
          → is_empty us ≡ true
          → is_empty (us ++ vs) ≡ false
          → is_empty vs ≡ false
      later [] vs n k = k
      later (u ∷ us) vs n k = cc

never_none :
    {C : Type 0} (m n : Result String) (f : String → String → C)
    → (m >>= λ x. n >>= λ y. ok (some (f x y))) ≡ ok none
    → ⊥
never_none m n f h = let (x, e, k) = >>=-eq_ok m _ h in let (y, g, q) = >>=-eq_ok n _ k in cc

module _ (windows_root : String) where
  -- A location is kept out of what a rule allows: no pattern covers it, or some exception or some deny
  -- rule of the collection contains it.
  abbrev pub KeptOut : List Value → List Value → List Value → Value → Type 0
  KeptOut patterns exceptions denies location =
      (path : String) × (location_path location ≡ ok path)
      × ((any (covers_path windows_root path) patterns ≡ ok false)
          ⊎ ((any (contains_path windows_root path) exceptions ≡ ok true)
              ⊎ (any (contains_path windows_root path) denies ≡ ok true)))

  -- A location is let through: some pattern covers it, and no exception and no deny rule contains it.
  abbrev pub LetThrough : List Value → List Value → List Value → Value → Type 0
  LetThrough patterns exceptions denies location =
      (path : String) × (location_path location ≡ ok path)
      × (any (covers_path windows_root path) patterns ≡ ok true)
      × (any (contains_path windows_root path) exceptions ≡ ok false)
      × (any (contains_path windows_root path) denies ≡ ok false)

  lets_through-cases :
      (ps es ds : List Value) (path : String) (b : Bool)
      → lets_through windows_root ps es ds path ≡ ok b
      → ((b ≡ true)
          × (any (covers_path windows_root path) ps ≡ ok true)
          × (any (contains_path windows_root path) es ≡ ok false)
          × (any (contains_path windows_root path) ds ≡ ok false))
        ⊎ ((b ≡ false)
            × ((any (covers_path windows_root path) ps ≡ ok false)
                ⊎ ((any (contains_path windows_root path) es ≡ ok true)
                    ⊎ (any (contains_path windows_root path) ds ≡ ok true))))
  unfolding lets_through
  lets_through-cases ps es ds path b h =
      let (c, e, k) = >>=-eq_ok (any (covers_path windows_root path) ps) _ h in
      elim (Bool-cases c) [
        | inr n ↦ inr (sym (ok-injective _ _ (rw n at k)), inl (e ∙ ap ok n))
        | inl n ↦
            let (x, f, l) = >>=-eq_ok (any (contains_path windows_root path) es) _ (rw n at k) in
            elim (Bool-cases x) [
              | inl m ↦ inr (sym (ok-injective _ _ (rw m at l)), inr (inl (f ∙ ap ok m)))
              | inr m ↦
                  let (d, g, q) =
                    >>=-eq_ok (any (contains_path windows_root path) ds) _ (rw m at l) in
                  elim (Bool-cases d) [
                    | inl w ↦ inr (sym (ok-injective _ _ q) ∙ ap not w, inr (inr (g ∙ ap ok w)))
                    | inr w ↦
                        inl (
                          sym (ok-injective _ _ q) ∙ ap not w,
                          e ∙ ap ok n,
                          f ∙ ap ok m,
                          g ∙ ap ok w,
                        )
                  ]
            ]
      ]

  module _ (ctype : String) (rule : Value) (sid : String) (ps es ds : List Value)
      (location : Value) where
    pub judge_location-none :
        judge_location windows_root ctype rule sid ps es ds location ≡ ok none
        → KeptOut ps es ds location
    unfolding judge_location
    judge_location-none h =
        let (path, e, k) = >>=-eq_ok (location_path location) _ h in
        let (b, f, l) = >>=-eq_ok (lets_through windows_root ps es ds path) _ k in
        elim (lets_through-cases ps es ds path b f) [
          | inr n ↦ (path, e, n.1)
          | inl n ↦ absurd (never_none _ _ _ (rw (n.0) at l))
        ]

    pub judge_location-some :
        (hit : Hit)
        → judge_location windows_root ctype rule sid ps es ds location ≡ ok (some hit)
        → LetThrough ps es ds location
    unfolding judge_location
    judge_location-some hit h =
        let (path, e, k) = >>=-eq_ok (location_path location) _ h in
        let (b, f, l) = >>=-eq_ok (lets_through windows_root ps es ds path) _ k in
        elim (lets_through-cases ps es ds path b f) [
          | inl n ↦ (path, e, n.1, n.2, n.3)
          | inr n ↦ cc (rw (n.0) at l)
        ]
