-- ===== src/Registry/Loaded.antt =====
-- What a registry that was loaded holds: each check under its own id, and the check of every file.
use mathlib.Core.Path.{subst}
use oscal_aap_ansible_playbo.Prelude.{
  String, ◌≡◌, refl, sym, ap, ◌∙◌, ◌⊎◌, inl, inr, true, false, none, some, List, [], ◌∷◌, In,
  is_empty, if◌then◌else◌, lookup, insert, lookup-insert_self, lookup-insert_ne, Bool-cases,
  Option-cases, str_eq, str_eq→eq,
}
use oscal_aap_ansible_playbo.Py.Value.{Value, truthy}
use oscal_aap_ansible_playbo.Py.Result.{ok, ◌>>=◌, >>=-eq_ok, ok-injective}
use oscal_aap_ansible_playbo.Py.Dict.{Entries, insert-Entries}
use oscal_aap_ansible_playbo.Registry.{Check, Registry}
use oscal_aap_ansible_playbo.Registry.Loading.{to_check, add_check, load_files, load_registry}

abbrev pub OwnId : String → Check → Type 0
OwnId k c = c.id ≡ k

-- A check is added under an id that was free.
add_check-cases :
    (c : Check) (path : String) (d e : Registry)
    → add_check c path d ≡ ok e
    → (lookup c.id d ≡ none) × (e ≡ insert c.id c d)
unfolding add_check
add_check-cases c path d e h = elim (Option-cases (lookup c.id d)) [
  | inl n ↦ (n, sym (ok-injective _ _ (rw (n, add_check) at h)))
  | inr (o, n) ↦ cc (rw (n, add_check) at h)
]

lookup-insert_free :
    (j k : String) (b c : Check) (d : Registry)
    → lookup j d ≡ none
    → lookup k d ≡ some c
    → lookup k (insert j b d) ≡ some c
lookup-insert_free j k b c d n e = elim (Bool-cases (str_eq j k)) [
  | inl t ↦ cc (sym n ∙ (ap (λ i. lookup i d) (str_eq→eq j k t) ∙ e))
  | inr t ↦ lookup-insert_ne k j b d t ∙ e
]

-- One file: nothing is added for no document, or its check, under an id that was free.
abbrev Step : String → Value → Registry → Registry → Type 0
Step path value d e =
    ((truthy value ≡ false) × (e ≡ d))
    ⊎ ((c : Check) × (truthy value ≡ true)
        × (to_check value path ≡ ok c)
        × (lookup c.id d ≡ none)
        × (e ≡ insert c.id c d))

load_files-cons :
    (path : String) (value : Value) (files : List (String × Value)) (d r : Registry)
    → load_files ((path, value) ∷ files) d ≡ ok r
    → (e : Registry) × Step path value d e × (load_files files e ≡ ok r)
unfolding load_files
load_files-cons path value files d r h =
    let (e, g, k) =
      >>=-eq_ok (if truthy value then (to_check value path >>= λ c. add_check c path d) else ok d) _
        h in
    elim (Bool-cases (truthy value)) [
      | inr t ↦ (e, inl (t, sym (ok-injective _ _ (rw t at g))), k)
      | inl t ↦
          let (c, f, l) = >>=-eq_ok (to_check value path) _ (rw t at g) in
          let (n, q) = add_check-cases c path d e l in (e, inr (c, t, f, n, q), k)
    ]

load_files-OwnId :
    (files : List (String × Value)) (d r : Registry)
    → load_files files d ≡ ok r
    → Entries OwnId d
    → Entries OwnId r
unfolding load_files
load_files-OwnId [] d r h p = subst (Entries OwnId) (ok-injective _ _ h) p
load_files-OwnId ((path, value) ∷ files) d r h p =
    let (e, s, k) = load_files-cons path value files d r h in
    load_files-OwnId files e r k (elim s [
      | inl (t, q) ↦ subst (Entries OwnId) (sym q) p
      | inr (c, t, f, n, q) ↦ subst (Entries OwnId) (sym q) (insert-Entries OwnId d c.id c refl p)
    ])

-- A check that is loaded stays.
load_files-keeps :
    (files : List (String × Value)) (d r : Registry) (k : String) (c : Check)
    → load_files files d ≡ ok r
    → lookup k d ≡ some c
    → lookup k r ≡ some c
unfolding load_files
load_files-keeps [] d r k c h p = ap (lookup k) (sym (ok-injective _ _ h)) ∙ p
load_files-keeps ((path, value) ∷ files) d r k c h p =
    let (e, s, l) = load_files-cons path value files d r h in
    load_files-keeps files e r k c l (elim s [
      | inl (t, q) ↦ ap (lookup k) q ∙ p
      | inr (b, t, f, n, q) ↦ ap (lookup k) q ∙ lookup-insert_free b.id k b c d n p
    ])

-- The check of a file that holds a document is registered under its id.
abbrev pub IsLoaded : Registry → String → Value → Type 0
IsLoaded r path value = (c : Check) × (to_check value path ≡ ok c) × (lookup c.id r ≡ some c)

load_files-IsLoaded :
    (files : List (String × Value)) (d r : Registry) (path : String) (value : Value)
    → load_files files d ≡ ok r
    → In (path, value) files
    → truthy value ≡ true
    → IsLoaded r path value
load_files-IsLoaded [] d r path value h m t = absurd m
load_files-IsLoaded ((n, v) ∷ files) d r path value h m t =
    let (e, s, l) = load_files-cons n v files d r h in
    elim m [
      | inr w ↦ load_files-IsLoaded files e r path value l w t
      | inl w ↦ elim s [
        | inl (f, q) ↦ cc
        | inr (c, u, f, free, q) ↦ (
          c,
          ap (λ (x : String × Value). to_check x.1 x.0) w ∙ f,
          load_files-keeps files e r c.id c l (ap (lookup c.id) q ∙ lookup-insert_self c.id c d),
        )
      ]
    ]

-- A registry that was loaded is not empty, holds each check under its own id, and holds the check of
-- every file that is no empty document: none is lost to another with the same id.
pub load_registry-IsLoaded :
    (directory : String) (files : List (String × Value)) (r : Registry)
    → load_registry directory files ≡ ok r
    → (is_empty r ≡ false)
      × Entries OwnId r
      × ((path : String) (value : Value)
          → In (path, value) files
          → truthy value ≡ true
          → IsLoaded r path value)
unfolding load_registry lookup
load_registry-IsLoaded directory files r h =
    let (d, e, k) = >>=-eq_ok (load_files files []) _ h in
    elim (Bool-cases (is_empty d)) [
      | inl t ↦ cc (rw t at k)
      | inr t ↦
          let q = ok-injective _ _ (rw t at k) in
          (
            ap is_empty (sym q) ∙ t,
            load_files-OwnId files [] r (e ∙ ap ok q) (λ j c x. cc),
            λ path value m u. load_files-IsLoaded files [] r path value (e ∙ ap ok q) m u,
          )
    ]
