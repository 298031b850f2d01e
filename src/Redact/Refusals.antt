-- ===== src/Redact/Refusals.antt =====
-- Which policies are accepted, and how their keys are read.
use oscal_aap_ansible_playbo.Prelude.{
  String, ◌≡◌, refl, sym, ap, ◌∙◌, ◌≢◌, ◌⊎◌, inl, inr, Bool, true, false, Option, none, some, List,
  [], ◌∷◌, arith, if◌then◌else◌, Bool-cases, Option-cases, lookup, insert, str_eq, ◌&&◌, ◌||◌,
  str_eq→eq, eq→str_eq, lookup-insert_self, lookup-insert_ne,
}
use mathlib.Core.Option
use mathlib.Core.Path.{subst}
use oscal_aap_ansible_playbo.Py.Text.{lower}
use oscal_aap_ansible_playbo.Py.Value.{Value, to_text}
use oscal_aap_ansible_playbo.Py.Result.{ok, raise, >>=-eq_ok, ok-injective}
use oscal_aap_ansible_playbo.Redact.{
  Action, retain, hash, truncate, drop, is_hash, action_of, Policy, policy_of, unset_salt, hashes,
  known, known_actions, entries_of, lowered,
}

-- The word of an action.
abbrev pub word : Action → String
word retain = "retain"
word hash = "hash"
word truncate = "truncate"
word drop = "drop"

abbrev first_some : Option Value → Option Value → Option Value
first_some (some v) o = some v
first_some none o = o

abbrev text_or : Option String → Option Value → Option String
text_or o (some v) = some (to_text v)
text_or o none = o

-- What the last entry whose key is `k`, in lower case, asks for.
abbrev pub asked : String → List (String × Value) → Option Value
asked k [] = none
asked k ((j, v) ∷ kvs) = first_some (asked k kvs) (if str_eq (lower j) k then some v else none)

action_of-word : (s : String) (a : Action) → action_of s ≡ some a → s ≡ word a
unfolding action_of
action_of-word s a h = elim (Bool-cases (str_eq s "retain")) [
  | inl e ↦ held "retain" retain e (rw e at h) refl
  | inr e1 ↦ elim (Bool-cases (str_eq s "hash")) [
    | inl e ↦ held "hash" hash e (rw (e1, e) at h) refl
    | inr e2 ↦ elim (Bool-cases (str_eq s "truncate")) [
      | inl e ↦ held "truncate" truncate e (rw (e1, e2, e) at h) refl
      | inr e3 ↦ elim (Bool-cases (str_eq s "drop")) [
        | inl e ↦ held "drop" drop e (rw (e1, e2, e3, e) at h) refl
        | inr e4 ↦ absurd (never (rw (e1, e2, e3, e4) at h))
      ]
    ]
  ]
]
  where
    never : none ≡ some a → ⊥
    never e = cc

    held : (t : String) (b : Action) → str_eq s t ≡ true → some b ≡ some a → t ≡ word b → s ≡ word a
    held t b e q w = str_eq→eq s t e ∙ cc

known-word : (s : String) (a : Action) → known s ≡ ok a → s ≡ word a
unfolding known
known-word s a h = elim (Option-cases (action_of s)) [
  | inl e ↦ cc (rw (e, known) at h)
  | inr (b, e) ↦ action_of-word s b e ∙ ap word (ok-injective _ _ (rw (e, known) at h))
]

-- What is asked for under a name is what stands in the dict of texts.
lookup-lowered :
    (k : String) (kvs : List (String × Value)) (d : List (String × String))
    → lookup k (lowered kvs d) ≡ text_or (lookup k d) (asked k kvs)
unfolding lowered
lookup-lowered k [] d = refl
lookup-lowered k ((j, v) ∷ kvs) d =
    lookup-lowered k kvs (insert (lower j) (to_text v) d) ∙ on (asked k kvs)
  where
    on :
        (o : Option Value)
        → text_or (lookup k (insert (lower j) (to_text v) d)) o
          ≡ text_or (lookup k d) (first_some o (if str_eq (lower j) k then some v else none))
    on (some w) = refl
    on none = elim (Bool-cases (str_eq (lower j) k)) [
      | inl t ↦ rw t (
          ap (λ i. lookup i (insert (lower j) (to_text v) d)) (sym (str_eq→eq (lower j) k t))
          ∙ lookup-insert_self (lower j) (to_text v) d)
      | inr t ↦ rw t (lookup-insert_ne k (lower j) (to_text v) d t)
    ]

-- The actions are those that the texts name.
lookup-known_actions :
    (k : String) (d : List (String × String)) (named : List (String × Action))
    → known_actions d ≡ ok named
    → Option.map word (lookup k named) ≡ lookup k d
unfolding known_actions lookup
lookup-known_actions k [] named h =
    ap (λ n. Option.map word (lookup k n)) (sym (ok-injective [] named h))
lookup-known_actions k ((j, s) ∷ d) named h =
    let (a, h1, k1) = >>=-eq_ok (known s) _ h in
    let (rest, h2, k2) = >>=-eq_ok (known_actions d) _ k1 in
    ap (λ n. Option.map word (lookup k n)) (sym (ok-injective _ named k2))
    ∙ (elim (Bool-cases (str_eq j k)) [
      | inl t ↦ rw t (ap some (sym (known-word s a h1)))
      | inr t ↦ rw t (lookup-known_actions k d rest h2)
    ])

-- The policy takes the action for some name, or for what no name matches.
abbrev pub Uses : Policy → Action → Type 0
Uses p a = ((k : String) × (lookup k p.named ≡ some a)) ⊎ (p.fallback ≡ a)

or_true : (b : Bool) {c : Bool} → c ≡ true → (b || c) ≡ true
or_true true h = refl
or_true false h = h

some-injective : {a b : Action} → some a ≡ some b → a ≡ b
some-injective h = cc

hashes-Uses : (p : Policy) → Uses p hash → hashes p.named p.fallback ≡ true
unfolding hashes lookup
hashes-Uses p (inl (k, e)) = named_hash p.named e
  where
    named_hash : (d : List (String × Action)) → lookup k d ≡ some hash → hashes d p.fallback ≡ true
    named_hash [] e = cc
    named_hash ((j, a) ∷ d) e = elim (Bool-cases (str_eq j k)) [
      | inl t ↦ let q : a ≡ hash = some-injective (rw t at e) in rw q refl
      | inr t ↦ or_true (is_hash a) (named_hash d (rw t at e))
    ]
hashes-Uses p (inr e) = any_default p.named
  where
    any_default : (d : List (String × Action)) → hashes d p.fallback ≡ true
    any_default [] = rw e
    any_default ((j, a) ∷ d) = or_true (is_hash a) (any_default d)

-- The keys and the default give the policy, and the salt is fit for it.
abbrev pub Accepted : Value → Value → String → Policy → Type 0
Accepted keys default salt p =
    (kvs : List (String × Value)) × (entries_of keys ≡ ok kvs)
    × ((k : String) → Option.map word (lookup k p.named) ≡ Option.map to_text (asked k kvs))
    × (word p.fallback ≡ to_text default)
    × (p.salt ≡ salt)
    × (Uses p hash → (salt ≢ "") × (salt ≢ unset_salt))

-- A policy that is accepted holds under each name the action whose word the last entry of that name, in
-- lower case, asks for, and no other names; the default names its action as well. Where one of these
-- is `hash`, the salt is neither empty nor the placeholder.
pub policy_of-Reads :
    (keys default : Value) (salt : String) (p : Policy)
    → policy_of keys default salt ≡ ok p
    → Accepted keys default salt p
unfolding policy_of lookup
policy_of-Reads keys default salt p h =
    let (kvs, h1, k1) = >>=-eq_ok (entries_of keys) _ h in
    let (named, h2, k2) = >>=-eq_ok (known_actions (lowered kvs [])) _ k1 in
    let (fallback, h3, k3) = >>=-eq_ok (known (to_text default)) _ k2 in
    elim (Bool-cases (hashes named fallback && (str_eq salt "" || str_eq salt unset_salt))) [
      | inl t ↦ absurd (never (rw t at k3))
      | inr t ↦
          let q = ok-injective _ _ (rw t at k3) in
          subst (Accepted keys default salt) q (
            kvs,
            h1,
            λ k. lookup-known_actions k (lowered kvs []) named h2 ∙ texts k kvs,
            sym (known-word (to_text default) fallback h3),
            refl,
            λ u.
                salt_set
                  (hashes-Uses (record { named = named; fallback = fallback; salt = salt }) u) t,
          )
    ]
  where
    never : {x : _} → raise x ≡ ok p → ⊥
    never e = cc

    texts :
        (k : String) (kvs : List (String × Value))
        → lookup k (lowered kvs []) ≡ Option.map to_text (asked k kvs)
    texts k kvs = lookup-lowered k kvs [] ∙ on (asked k kvs)
      where
        on : (o : Option Value) → text_or none o ≡ Option.map to_text o
        on none = refl
        on (some v) = refl

    salt_set :
        {b : Bool}
        → b ≡ true
        → (b && (str_eq salt "" || str_eq salt unset_salt)) ≡ false
        → (salt ≢ "") × (salt ≢ unset_salt)
    salt_set e t = (
      λ w. ground (arith, eq→str_eq salt "" w, e, t),
      λ w. ground (arith, eq→str_eq salt unset_salt w, e, t),
    )
