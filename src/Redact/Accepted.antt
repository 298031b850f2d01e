-- ===== src/Redact/Accepted.antt =====
-- Which keys and defaults give a policy.
use oscal_aap_ansible_playbo.Prelude.{
  String, ◌≡◌, refl, ◌≢◌, inl, inr, Bool, true, false, List, [], ◌∷◌, Bool-cases, insert, str_eq,
  ◌&&◌, str_eq→eq,
}
use oscal_aap_ansible_playbo.Py.Text.{lower}
use oscal_aap_ansible_playbo.Py.Value.{Value, to_text}
use oscal_aap_ansible_playbo.Py.Result.{ok}
use oscal_aap_ansible_playbo.Redact.{
  Action, retain, hash, truncate, drop, action_of, Policy, policy_of, unset_salt, hashes, known,
  known_actions, entries_of, lowered,
}
use oscal_aap_ansible_playbo.Redact.Refusals.{word, Accepted, policy_of-Reads}

known_of-word : (a : Action) → known (word a) ≡ ok a
unfolding known action_of str_eq
known_of-word retain = refl
known_of-word hash = refl
known_of-word truncate = refl
known_of-word drop = refl

-- Each text is the word of an action, and so is that of each value.
abbrev IsWord : String → Type 0
IsWord s = (a : Action) × (s ≡ word a)

abbrev Words : List (String × String) → Type 0
Words [] = Unit
Words ((k, s) ∷ d) = IsWord s × Words d

abbrev pub Asks : List (String × Value) → Type 0
Asks [] = Unit
Asks ((k, v) ∷ kvs) = ((a : Action) × (to_text v ≡ word a)) × Asks kvs

Words-insert :
    (k s : String) (d : List (String × String)) → IsWord s → Words d → Words (insert k s d)
unfolding insert
Words-insert k s [] w h = (w, tt)
Words-insert k s ((j, t) ∷ d) w (u, h) = elim (Bool-cases (str_eq j k)) [
  | inl e ↦ rw e (w, h)
  | inr e ↦ rw e (u, Words-insert k s d w h)
]

Words-lowered :
    (kvs : List (String × Value)) (d : List (String × String))
    → Asks kvs
    → Words d
    → Words (lowered kvs d)
unfolding lowered
Words-lowered [] d h w = w
Words-lowered ((k, v) ∷ kvs) d (a, h) w =
    Words-lowered kvs (insert (lower k) (to_text v) d) h (Words-insert (lower k) (to_text v) d a w)

known_actions-Words :
    (d : List (String × String))
    → Words d
    → (named : List (String × Action)) × (known_actions d ≡ ok named)
unfolding known_actions
known_actions-Words [] h = ([], refl)
known_actions-Words ((k, s) ∷ d) ((a, e), h) =
    let (named, f) = known_actions-Words d h in ((k, a) ∷ named, rw (e, known_of-word a, f) refl)

and_false : (b : Bool) → (b && false) ≡ false
and_false true = refl
and_false false = refl

-- A policy is accepted where every value of the keys, and the default, is the word of an action, and the
-- salt is neither empty nor the placeholder.
pub policy_of-accepts :
    (keys default : Value) (salt : String) (kvs : List (String × Value)) (fallback : Action)
    → entries_of keys ≡ ok kvs
    → Asks kvs
    → to_text default ≡ word fallback
    → salt ≢ ""
    → salt ≢ unset_salt
    → (p : Policy) × (policy_of keys default salt ≡ ok p) × Accepted keys default salt p
unfolding policy_of
policy_of-accepts keys default salt kvs fallback h a w n m =
    let (named, f) = known_actions-Words (lowered kvs []) (Words-lowered kvs [] a tt) in
    let e : policy_of keys default salt
        ≡ ok (record { named = named; fallback = fallback; salt = salt }) =
      rw (h, f, w, known_of-word fallback, unset "" n, unset unset_salt m)
        (rw (and_false (hashes named fallback)) refl) in
    (_, e, policy_of-Reads keys default salt _ e)
  where
    unset : (t : String) → salt ≢ t → str_eq salt t ≡ false
    unset t k = elim (Bool-cases (str_eq salt t)) [
      | inl q ↦ absurd (k (str_eq→eq salt t q))
      | inr q ↦ q
    ]
