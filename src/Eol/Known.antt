-- ===== src/Eol/Known.antt =====
-- What a support status that is not unknown rests on.
use mathlib.Core.Path.{subst}
use mathlib.Core.Bool.{false≢true}
use oscal_aap_ansible_playbo.Prelude.{
  String, ◌≡◌, refl, sym, ap, ◌∙◌, ◌↔◌, ◌⊎◌, ◌≤◌, ◌<◌, inl, inr, Bool, true, false, not, ◌&&◌,
  Option, none, some, List, [], ◌∷◌, arith, In, leb, Bool-cases, Option-cases, lookup, str_eq→eq,
}
use oscal_aap_ansible_playbo.Py.Text.{strip, lower, before}
use oscal_aap_ansible_playbo.Py.Value.{Value, str, is_false}
use oscal_aap_ansible_playbo.Py.Result
use oscal_aap_ansible_playbo.Py.Result.{Result, ok, raise, ◌>>=◌, >>=-eq_ok, ok-injective}
use oscal_aap_ansible_playbo.Py.Result.Laws
use oscal_aap_ansible_playbo.Py.Access.{get, iterate, as_text}
use oscal_aap_ansible_playbo.Py.Date.{Date}
use oscal_aap_ansible_playbo.Eol.{
  SupportStatus, product_files, as_date, cycle_key, has_cycle, extends_cycle, Match, found, absent,
  ambiguous, choose, found_or, find_cycle, dated, status_of, judge, cycle_text, cycle_texts,
  lookup_support,
}

-- The end of extended support that an entry gives.
abbrev pub ExtendedTo : Value → Date → Type 0
ExtendedTo e x = (w : Value) × (get e "extendedSupport" ≡ ok w) × (as_date w ≡ some x)

-- The status follows from the dates of the entry.
abbrev pub Follows : Date → Value → SupportStatus → Type 0
Follows as_of e s =
    (v : Value) × (get e "eol" ≡ ok v)
    × (((is_false v ≡ true) × (s.supported ≡ true) × (s.in_extended_support ≡ false))
        ⊎ ((d : Date) × (as_date v ≡ some d)
            × ((s.supported ≡ true) ↔ (as_of ≤ d))
            × ((s.in_extended_support ≡ true)
                ↔ ((d < as_of) × ((x : Date) × ExtendedTo e x × (as_of ≤ x))))))

abbrev is_past : Date → Option Date → Bool
is_past as_of none = false
is_past as_of (some x) = leb as_of x

extended_iff :
    (as_of d : Date) (o : Option Date)
    → ((not (leb as_of d) && is_past as_of o) ≡ true)
      ↔ ((d < as_of) × ((x : Date) × (o ≡ some x) × (as_of ≤ x)))
extended_iff as_of d none = (λ h. ground arith, λ (l, (x, e, m)). cc)
extended_iff as_of d (some y) =
    (λ h. (ground arith, (y, refl, ground arith)), λ (l, (x, e, m)). ground arith)

in_extended :
    (product cycle : Value) (d as_of : Date) (o : Option Date)
    → (dated product cycle d o as_of).in_extended_support ≡ (not (leb as_of d) && is_past as_of o)
unfolding dated
in_extended product cycle d as_of none = refl
in_extended product cycle d as_of (some x) = refl

dated-Follows :
    (product cycle e v w : Value) (as_of d : Date)
    → get e "eol" ≡ ok v
    → get e "extendedSupport" ≡ ok w
    → as_date v ≡ some d
    → Follows as_of e (dated product cycle d (as_date w) as_of)
unfolding dated
dated-Follows product cycle e v w as_of d h k q =
    let i = in_extended product cycle d as_of (as_date w) in
    let iff = extended_iff as_of d (as_date w) in
    (
      v,
      h,
      inr (
        d,
        q,
        (λ t. ground arith, λ l. ground arith),
        (
          λ t. let (l, (x, m, n)) = iff.0 (sym i ∙ t) in (l, (x, (w, k, m), n)),
          λ (l, (x, (u, g, m), n)).
              i ∙ iff.1 (l, (x, ap as_date (ok-injective w u (sym k ∙ g)) ∙ m, n)),
        ),
      ),
    )

status_of-Follows :
    (product cycle e v w : Value) (as_of : Date)
    → get e "eol" ≡ ok v
    → get e "extendedSupport" ≡ ok w
    → (status_of product cycle v w as_of).unknown ≡ false
    → Follows as_of e (status_of product cycle v w as_of)
unfolding status_of
status_of-Follows product cycle e v w as_of h k n = elim (Bool-cases (is_false v)) [
  | inl t ↦ rw t (v, h, inl (t, refl, refl))
  | inr t ↦ elim (Option-cases (as_date v)) [
    | inl q ↦ absurd (false≢true (sym (rw (t, q) at n)))
    | inr (d, q) ↦ rw (t, q) (dated-Follows product cycle e v w as_of d h k q)
  ]
]

module _ {A : Type 0} (p : A → Result Bool) where
  -- What a search finds is in the list and passed the test.
  In-find : (xs : List A) (a : A) → Result.find p xs ≡ ok (some a) → In a xs × (p a ≡ ok true)
  unfolding Result.find
  In-find [] a h = cc
  In-find (x ∷ xs) a h = let (b, e, k) = >>=-eq_ok (p x) _ h in on b e k (In-find xs a)
    where
      on :
          (b : Bool)
          → p x ≡ ok b
          → (elim b [ true ↦ ok (some x) | false ↦ Result.find p xs ]) ≡ ok (some a)
          → (Result.find p xs ≡ ok (some a) → In a xs × (p a ≡ ok true))
          → In a (x ∷ xs) × (p a ≡ ok true)
      on true e k rec = let q : x ≡ a = cc in (inl (sym q), ap p (sym q) ∙ e)
      on false e k rec = let (m, t) = rec k in (inr m, t)

-- The entry carries the cycle itself, or the part of it before the first dot, or it is the one entry
-- whose cycle goes on from it with a dash.
abbrev pub Chosen : String → List Value → Value → Type 0
Chosen wanted cycles e =
    In e cycles
    × ((cycle_key e ≡ ok wanted)
        ⊎ (cycle_key e ≡ ok (before "." wanted))
        ⊎ ((extends_cycle wanted e ≡ ok true)
            × ((f : Value) → In f cycles → extends_cycle wanted f ≡ ok true → f ≡ e)))

has_cycle-key :
    (wanted : String) (e : Value) → has_cycle wanted e ≡ ok true → cycle_key e ≡ ok wanted
has_cycle-key wanted e h =
    let (k, m, q) = >>=-eq_ok (cycle_key e) _ h in
    m ∙ ap ok (str_eq→eq k wanted (ok-injective _ _ q))

choose-found : (es : List Value) (e : Value) → choose es ≡ found e → es ≡ (e ∷ [])
choose-found [] e h = cc
choose-found (f ∷ []) e h = cc
choose-found (f ∷ (g ∷ es)) e h = cc

only : (e f : Value) → In f (e ∷ []) → f ≡ e
only e f (inl q) = q
only e f (inr m) = absurd m

found_or-found :
    (o : Option Value) (rest : Result Match) (e : Value)
    → found_or o rest ≡ ok (found e)
    → (o ≡ some e) ⊎ ((o ≡ none) × (rest ≡ ok (found e)))
found_or-found none rest e h = inr (refl, h)
found_or-found (some x) rest e h = inl cc

filtered-Chosen :
    (wanted : String) (cycles es : List Value) (e : Value)
    → Result.filter (extends_cycle wanted) cycles ≡ ok es
    → es ≡ (e ∷ [])
    → Chosen wanted cycles e
filtered-Chosen wanted cycles es e h q =
    let (m, t) =
      Laws.In-filter (extends_cycle wanted) e cycles es h (subst (In e) (sym q) (inl refl)) in
    (
      m,
      inr (
          inr (
            t,
            λ f n u.
                only e f
                  (subst (In f) q (Laws.In-filter_of (extends_cycle wanted) f cycles es h n u)),
          )),
    )

pub find_cycle-Chosen :
    (wanted : String) (cycles : List Value) (e : Value)
    → find_cycle wanted cycles ≡ ok (found e)
    → Chosen wanted cycles e
unfolding find_cycle
find_cycle-Chosen wanted cycles e h =
    let (exact, h1, k1) = >>=-eq_ok (Result.find (has_cycle wanted) cycles) _ h in
    elim (found_or-found exact _ e k1) [
      | inl q ↦
          let (m, t) = In-find (has_cycle wanted) cycles e (h1 ∙ ap ok q) in
          (m, inl (has_cycle-key wanted e t))
      | inr (q, r) ↦
          let (major, h2, k2) =
            >>=-eq_ok (Result.find (has_cycle (before "." wanted)) cycles) _ r in
          elim (found_or-found major _ e k2) [
            | inl p ↦
                let (m, t) = In-find (has_cycle (before "." wanted)) cycles e (h2 ∙ ap ok p) in
                (m, inr (inl (has_cycle-key (before "." wanted) e t)))
            | inr (p, w) ↦
                let (es, h3, k3) = >>=-eq_ok (Result.filter (extends_cycle wanted) cycles) _ w in
                filtered-Chosen wanted cycles es e h3 (choose-found es e (ok-injective _ _ k3))
          ]
    ]

judge-Follows :
    (product cycle : Value) (as_of : Date) (m : Match) (s : SupportStatus)
    → judge product cycle as_of m ≡ ok s
    → s.unknown ≡ false
    → (e : Value) × (m ≡ found e) × Follows as_of e s
unfolding judge
judge-Follows product cycle as_of absent s h n =
    absurd (false≢true (sym n ∙ sym (ap (λ (t : SupportStatus). t.unknown) (ok-injective _ _ h))))
judge-Follows product cycle as_of (ambiguous es) s h n =
    let (ts, e, k) = >>=-eq_ok (cycle_texts es) _ h in
    absurd (false≢true (sym n ∙ sym (ap (λ (t : SupportStatus). t.unknown) (ok-injective _ _ k))))
judge-Follows product cycle as_of (found e) s h n =
    let (v, h1, k1) = >>=-eq_ok (get e "eol") _ h in
    let (w, h2, k2) = >>=-eq_ok (get e "extendedSupport") _ k1 in
    let (name, h3, k3) = >>=-eq_ok (cycle_text e) _ k2 in
    let q = ok-injective _ _ k3 in
    (
      e,
      refl,
      subst (Follows as_of e) q (
          status_of-Follows product (str name) e v w as_of h1 h2
            (ap (λ (t : SupportStatus). t.unknown) q ∙ n)),
    )

module _ (load : String → Result Value) where
  -- The document of the product, and an entry of it that was chosen for the cycle.
  abbrev pub Entry : Value → Value → Value → Type 0
  Entry product cycle e =
      (p : String) × (file : String) × (document : Value) × (c : String) × (cycles : List Value)
      × (as_text product "strip" ≡ ok p)
      × (lookup (lower (strip p)) product_files ≡ some file)
      × (load file ≡ ok document)
      × (as_text cycle "strip" ≡ ok c)
      × (iterate document ≡ ok cycles)
      × Chosen (lower (strip c)) cycles e

  -- A status that is not unknown rests on one entry of the product's document, which was chosen for
  -- the cycle and never guessed among several, and it follows from the dates of that entry: support
  -- lasts through the day on which it ends.
  pub lookup_support-known :
      (product cycle : Value) (as_of : Date) (s : SupportStatus)
      → lookup_support load product cycle as_of ≡ ok s
      → s.unknown ≡ false
      → (e : Value) × Entry product cycle e × Follows as_of e s
  unfolding lookup_support
  lookup_support-known product cycle as_of s h n =
      let (p, h1, k1) = >>=-eq_ok (as_text product "strip") _ h in
      elim (Option-cases (lookup (lower (strip p)) product_files)) [
        | inl q ↦ absurd (
            false≢true
              (sym n ∙ sym (ap (λ (t : SupportStatus). t.unknown) (ok-injective _ _ (rw q at k1)))))
        | inr (file, q) ↦
            let (document, h2, k2) = >>=-eq_ok (load file) _ (rw q at k1) in
            let (c, h3, k3) = >>=-eq_ok (as_text cycle "strip") _ k2 in
            let (cycles, h4, k4) = >>=-eq_ok (iterate document) _ k3 in
            let (m, h5, k5) = >>=-eq_ok (find_cycle (lower (strip c)) cycles) _ k4 in
            let (e, r, w) = judge-Follows product cycle as_of m s k5 n in
            (
              e,
              (
                p,
                file,
                document,
                c,
                cycles,
                h1,
                q,
                h2,
                h3,
                h4,
                find_cycle-Chosen (lower (strip c)) cycles e (h5 ∙ ap ok r),
              ),
              w,
            )
      ]
