-- ===== src/Eol/Unknown.antt =====
-- Why a support status is unknown.
use mathlib.Core.Bool.{false≢true}
use oscal_aap_ansible_playbo.Prelude.{
  String, ◌≡◌, refl, sym, ap, ◌∙◌, ◌⊎◌, inl, inr, Bool, true, false, Option, none, some, List, [],
  ◌∷◌, In, Bool-cases, Option-cases, lookup,
}
use oscal_aap_ansible_playbo.Py.Text.{strip, lower, before}
use oscal_aap_ansible_playbo.Py.Value.{Value, str, is_false}
use oscal_aap_ansible_playbo.Py.Result
use oscal_aap_ansible_playbo.Py.Result.{Result, ok, >>=-eq_ok, ok-injective}
use oscal_aap_ansible_playbo.Py.Result.Laws
use oscal_aap_ansible_playbo.Py.Access.{get, iterate, as_text}
use oscal_aap_ansible_playbo.Py.Date.{Date}
use oscal_aap_ansible_playbo.Eol.{
  SupportStatus, product_files, as_date, has_cycle, extends_cycle, Match, found, absent, ambiguous,
  choose, found_or, find_cycle, dated, status_of, judge, cycle_text, lookup_support,
}
use oscal_aap_ansible_playbo.Eol.Known.{Chosen, find_cycle-Chosen}

-- No entry carries the cycle or the part of it before the first dot, and none goes on from it.
abbrev pub NoEntry : String → List Value → Type 0
NoEntry wanted cycles =
    (e : Value)
    → In e cycles
    → (has_cycle wanted e ≡ ok false)
      × (has_cycle (before "." wanted) e ≡ ok false)
      × (extends_cycle wanted e ≡ ok false)

-- Several entries go on from it.
abbrev pub Several : String → List Value → Type 0
Several wanted cycles =
    (e : Value) × (f : Value) × (rest : List Value) × (Result.filter (extends_cycle wanted) cycles
      ≡ ok (e ∷ (f ∷ rest)))

-- The entry has neither a date of its end nor `false` in place of one.
abbrev pub Undated : Value → Type 0
Undated e = (v : Value) × (get e "eol" ≡ ok v) × (is_false v ≡ false) × (as_date v ≡ none)

module _ {A : Type 0} (p : A → Result Bool) where
  find-none : (xs : List A) (a : A) → Result.find p xs ≡ ok none → In a xs → p a ≡ ok false
  unfolding Result.find
  find-none [] a h m = absurd m
  find-none (x ∷ xs) a h m = let (b, e, k) = >>=-eq_ok (p x) _ h in on b e k m (find-none xs a)
    where
      on :
          (b : Bool)
          → p x ≡ ok b
          → (elim b [ true ↦ ok (some x) | false ↦ Result.find p xs ]) ≡ ok none
          → In a (x ∷ xs)
          → (Result.find p xs ≡ ok none → In a xs → p a ≡ ok false)
          → p a ≡ ok false
      on true e k m rec = cc
      on false e k (inl q) rec = ap p q ∙ e
      on false e k (inr n) rec = rec k n

  filter-none : (xs : List A) (a : A) → Result.filter p xs ≡ ok [] → In a xs → p a ≡ ok false
  filter-none xs a h m = let (b, e) = Laws.filter-read p a xs [] h m in on b e
    where
      on : (b : Bool) → p a ≡ ok b → p a ≡ ok false
      on true e = absurd (Laws.In-filter_of p a xs [] h m e)
      on false e = e

found_or-absent :
    (o : Option Value) (rest : Result Match)
    → found_or o rest ≡ ok absent
    → (o ≡ none) × (rest ≡ ok absent)
found_or-absent none rest h = (refl, h)
found_or-absent (some x) rest h = cc

found_or-ambiguous :
    (o : Option Value) (rest : Result Match) (es : List Value)
    → found_or o rest ≡ ok (ambiguous es)
    → rest ≡ ok (ambiguous es)
found_or-ambiguous none rest es h = h
found_or-ambiguous (some x) rest es h = cc

choose-absent : (es : List Value) → choose es ≡ absent → es ≡ []
choose-absent [] h = refl
choose-absent (e ∷ []) h = cc
choose-absent (e ∷ (f ∷ es)) h = cc

choose-ambiguous :
    (es fs : List Value)
    → choose es ≡ ambiguous fs
    → (e : Value) × (f : Value) × (rest : List Value) × (es ≡ (e ∷ (f ∷ rest)))
choose-ambiguous [] fs h = cc
choose-ambiguous (e ∷ []) fs h = cc
choose-ambiguous (e ∷ (f ∷ es)) fs h = (e, f, es, refl)

module _ (wanted : String) (cycles : List Value) where
  find_cycle-NoEntry : find_cycle wanted cycles ≡ ok absent → NoEntry wanted cycles
  unfolding find_cycle
  find_cycle-NoEntry h e m =
      let (exact, h1, k1) = >>=-eq_ok (Result.find (has_cycle wanted) cycles) _ h in
      let (a, r) = found_or-absent exact _ k1 in
      let (major, h2, k2) = >>=-eq_ok (Result.find (has_cycle (before "." wanted)) cycles) _ r in
      let (b, w) = found_or-absent major _ k2 in
      let (es, h3, k3) = >>=-eq_ok (Result.filter (extends_cycle wanted) cycles) _ w in
      (
        find-none (has_cycle wanted) cycles e (h1 ∙ ap ok a) m,
        find-none (has_cycle (before "." wanted)) cycles e (h2 ∙ ap ok b) m,
        filter-none (extends_cycle wanted) cycles e
            (h3 ∙ ap ok (choose-absent es (ok-injective _ _ k3))) m,
      )

  find_cycle-Several :
      (fs : List Value) → find_cycle wanted cycles ≡ ok (ambiguous fs) → Several wanted cycles
  unfolding find_cycle
  find_cycle-Several fs h =
      let (exact, h1, k1) = >>=-eq_ok (Result.find (has_cycle wanted) cycles) _ h in
      let (major, h2, k2) =
        >>=-eq_ok (Result.find (has_cycle (before "." wanted)) cycles) _
          (found_or-ambiguous exact _ fs k1) in
      let (es, h3, k3) =
        >>=-eq_ok (Result.filter (extends_cycle wanted) cycles) _
          (found_or-ambiguous major _ fs k2) in
      let (e, f, rest, q) = choose-ambiguous es fs (ok-injective _ _ k3) in
      (e, f, rest, h3 ∙ ap ok q)

-- Why an entry that was searched for gives no answer.
abbrev pub NoAnswer : String → List Value → Type 0
NoAnswer wanted cycles =
    NoEntry wanted cycles
    ⊎ (Several wanted cycles ⊎ ((e : Value) × Chosen wanted cycles e × Undated e))

dated-known :
    (product cycle : Value) (d : Date) (x : Option Date) (as_of : Date)
    → (dated product cycle d x as_of).unknown ≡ false
unfolding dated
dated-known product cycle d x as_of = refl

status_of-unknown :
    (product cycle v w : Value) (as_of : Date)
    → (status_of product cycle v w as_of).unknown ≡ true
    → (is_false v ≡ false) × (as_date v ≡ none)
unfolding status_of
status_of-unknown product cycle v w as_of n = elim (Bool-cases (is_false v)) [
  | inl t ↦ absurd (false≢true (rw t at n))
  | inr t ↦ elim (Option-cases (as_date v)) [
    | inl q ↦ (t, q)
    | inr (d, q) ↦
        absurd (false≢true (sym (dated-known product cycle d (as_date w) as_of) ∙ (rw (t, q) at n)))
  ]
]

judge-Undated :
    (product cycle e : Value) (as_of : Date) (s : SupportStatus)
    → judge product cycle as_of (found e) ≡ ok s
    → s.unknown ≡ true
    → Undated e
unfolding judge
judge-Undated product cycle e as_of s h n =
    let (v, h1, k1) = >>=-eq_ok (get e "eol") _ h in
    let (w, h2, k2) = >>=-eq_ok (get e "extendedSupport") _ k1 in
    let (name, h3, k3) = >>=-eq_ok (cycle_text e) _ k2 in
    let q = ok-injective _ _ k3 in
    let (t, u) =
      status_of-unknown product (str name) v w as_of
        (ap (λ (t : SupportStatus). t.unknown) q ∙ n) in
    (v, h1, t, u)

module _ (product cycle : Value) (as_of : Date) (s : SupportStatus) (n : s.unknown ≡ true) where
  judge-NoAnswer :
      (wanted : String) (cycles : List Value) (m : Match)
      → find_cycle wanted cycles ≡ ok m
      → judge product cycle as_of m ≡ ok s
      → NoAnswer wanted cycles
  judge-NoAnswer wanted cycles absent f h = inl (find_cycle-NoEntry wanted cycles f)
  judge-NoAnswer wanted cycles (ambiguous es) f h =
      inr (inl (find_cycle-Several wanted cycles es f))
  judge-NoAnswer wanted cycles (found e) f h =
      inr (inr (e, find_cycle-Chosen wanted cycles e f, judge-Undated product cycle e as_of s h n))

module _ (load : String → Result Value) where
  -- The product has no document, or its document has no answer for the cycle.
  abbrev pub Unanswered : Value → Value → Type 0
  Unanswered product cycle =
      (p : String) × (as_text product "strip" ≡ ok p)
      × ((lookup (lower (strip p)) product_files ≡ none)
          ⊎ ((file : String) × (document : Value) × (c : String) × (cycles : List Value) × (lookup
                  (lower (strip p)) product_files
                ≡ some file)
              × (load file ≡ ok document)
              × (as_text cycle "strip" ≡ ok c)
              × (iterate document ≡ ok cycles)
              × NoAnswer (lower (strip c)) cycles))

  -- A status is unknown only where the product has no document, or no entry of it carries the cycle, or
  -- several go on from it, or the one that was chosen has no date.
  pub lookup_support-unknown :
      (product cycle : Value) (as_of : Date) (s : SupportStatus)
      → lookup_support load product cycle as_of ≡ ok s
      → s.unknown ≡ true
      → Unanswered product cycle
  unfolding lookup_support
  lookup_support-unknown product cycle as_of s h n =
      let (p, h1, k1) = >>=-eq_ok (as_text product "strip") _ h in
      elim (Option-cases (lookup (lower (strip p)) product_files)) [
        | inl q ↦ (p, h1, inl q)
        | inr (file, q) ↦
            let (document, h2, k2) = >>=-eq_ok (load file) _ (rw q at k1) in
            let (c, h3, k3) = >>=-eq_ok (as_text cycle "strip") _ k2 in
            let (cycles, h4, k4) = >>=-eq_ok (iterate document) _ k3 in
            let (m, h5, k5) = >>=-eq_ok (find_cycle (lower (strip c)) cycles) _ k4 in
            (
              p,
              h1,
              inr (
                file,
                document,
                c,
                cycles,
                q,
                h2,
                h3,
                h4,
                judge-NoAnswer product cycle as_of s n (lower (strip c)) cycles m h5 k5,
              ),
            )
      ]
