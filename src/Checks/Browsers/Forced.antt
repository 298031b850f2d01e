-- ===== src/Checks/Browsers/Forced.antt =====
-- Where the browsers of `_forced_blockers` come from.
use mathlib.Core.Path.{subst}
use oscal_aap_ansible_playbo.Prelude.{
  String, ◌≡◌, refl, sym, ap, ◌∙◌, ◌⊎◌, inl, inr, true, Option, some, List, [], ◌∷◌, In, lookup,
  insert, Bool-cases, Option-cases, str_eq,
}
use oscal_aap_ansible_playbo.Py.Text.{before, strip}
use oscal_aap_ansible_playbo.Py.Value.{Value, str, dict, or_else, truthy, to_text}
use oscal_aap_ansible_playbo.Py.Result.{ok, >>=-eq_ok, ok-injective}
use oscal_aap_ansible_playbo.Py.Access.{get, get_or, iterate_or_empty}
use oscal_aap_ansible_playbo.Py.Dict.{append_at, keys_of}
use oscal_aap_ansible_playbo.Checks.Browsers.Ads.{
  known_ad_blockers, Blockers, add_known, add_forced, forces, add_settings, items_of, loads,
  add_extension_settings, forced_blockers,
}

In-keys_of-insert :
    {V : Type 0} (j k : String) (v : V) (d : List (String × V))
    → In j (keys_of (insert k v d))
    → (j ≡ k) ⊎ In j (keys_of d)
unfolding insert
In-keys_of-insert j k v [] h = h
In-keys_of-insert j k v ((i, w) ∷ d) h = elim (Bool-cases (str_eq i k)) [
  | inl t ↦ inr (rw (t, keys_of) at h)
  | inr t ↦ elim (rw (t, keys_of) at h) [
    | inl q ↦ inr (inl q)
    | inr m ↦ elim (In-keys_of-insert j k v d m) [ inl q ↦ inl q | inr n ↦ inr (inr n) ]
  ]
]

-- An identifier of a known ad blocker.
abbrev pub IsKnown : String → Type 0
IsKnown ident = (name : String) × (lookup ident known_ad_blockers ≡ some name)

In-add_known :
    (k browser ident : String) (out : Blockers)
    → In k (keys_of (add_known browser ident out))
    → ((k ≡ browser) × IsKnown ident) ⊎ In k (keys_of out)
unfolding add_known append_at
In-add_known k browser ident out h = elim (Option-cases (lookup ident known_ad_blockers)) [
  | inl n ↦ inr (rw (n, add_known) at h)
  | inr (name, n) ↦ elim (In-keys_of-insert k browser _ out (rw (n, add_known) at h)) [
    | inl q ↦ inl (q, (name, n))
    | inr m ↦ inr m
  ]
]

-- An entry of the list of forced extensions that is a known ad blocker.
abbrev pub ForcesEntry : List Value → Type 0
ForcesEntry es = (entry : Value) × In entry es × IsKnown (strip (before ";" (to_text entry)))

In-add_forced :
    (k browser : String) (es : List Value) (out : Blockers)
    → In k (keys_of (add_forced browser es out))
    → ((k ≡ browser) × ForcesEntry es) ⊎ In k (keys_of out)
unfolding add_forced
In-add_forced k browser [] out h = inr h
In-add_forced k browser (e ∷ es) out h = elim (In-add_forced k browser es _ h) [
  | inl (q, (entry, m, w)) ↦ inl (q, (entry, inr m, w))
  | inr m ↦ elim (In-add_known k browser _ out m) [
    | inl (q, w) ↦ inl (q, (e, inl refl, w))
    | inr n ↦ inr n
  ]
]

-- A setting that installs a known ad blocker by force.
abbrev pub ForcesSetting : List (String × Value) → Type 0
ForcesSetting kvs =
    (ident : String) × (config : Value) × In (ident, config) kvs
    × (forces config ≡ ok true)
    × IsKnown ident

In-add_settings :
    (k browser : String) (kvs : List (String × Value)) (out next : Blockers)
    → add_settings browser kvs out ≡ ok next
    → In k (keys_of next)
    → ((k ≡ browser) × ForcesSetting kvs) ⊎ In k (keys_of out)
unfolding add_settings
In-add_settings k browser [] out next h m =
    inr (subst (λ (d : Blockers). In k (keys_of d)) (sym (ok-injective _ _ h)) m)
In-add_settings k browser ((ident, config) ∷ kvs) out next h m =
    let (b, e, l) = >>=-eq_ok (forces config) _ h in
    elim (In-add_settings k browser kvs _ next l m) [
      | inl (q, (i, c, n, f, w)) ↦ inl (q, (i, c, inr n, f, w))
      | inr n ↦ elim (Bool-cases b) [
        | inr t ↦ inr (rw t at n)
        | inl t ↦ elim (In-add_known k browser ident out (rw t at n)) [
          | inl (q, w) ↦ inl (q, (ident, config, inl refl, e ∙ ap ok t, w))
          | inr o ↦ inr o
        ]
      ]
    ]

module _ (json_loads : String → Option Value) where
  -- A row of policy that forces a known ad blocker: by the list, or by the settings of Firefox.
  abbrev pub ForcesBlocker : Value → Type 0
  ForcesBlocker row =
      ((v : Value) × (es : List Value) × (get row "forced_extensions" ≡ ok v)
        × (iterate_or_empty v ≡ ok es)
        × ForcesEntry es)
      ⊎ ((w : Value) × (settings : Value) × (parsed : Value) × (kvs : List (String × Value)) × (get
              row "values"
            ≡ ok w)
          × (get (or_else w (dict [])) "ExtensionSettings" ≡ ok settings)
          × (loads json_loads settings ≡ some parsed)
          × (items_of parsed ≡ ok kvs)
          × ForcesSetting kvs)

  In-add_extension_settings :
      (k browser : String) (settings : Value) (out next : Blockers)
      → add_extension_settings json_loads browser settings out ≡ ok next
      → In k (keys_of next)
      → ((k ≡ browser)
          × ((parsed : Value) × (kvs : List (String × Value)) × (loads json_loads settings
                ≡ some parsed)
              × (items_of parsed ≡ ok kvs)
              × ForcesSetting kvs))
        ⊎ In k (keys_of out)
  unfolding add_extension_settings
  In-add_extension_settings k browser settings out next h m = elim (Bool-cases (truthy settings)) [
    | inr t ↦
        inr (subst (λ (d : Blockers). In k (keys_of d)) (sym (ok-injective _ _ (rw t at h))) m)
    | inl t ↦ elim (Option-cases (loads json_loads settings)) [
      | inl n ↦ inr (
          subst (λ (d : Blockers). In k (keys_of d))
            (sym (ok-injective _ _ (rw (t, n, add_extension_settings) at h))) m)
      | inr (parsed, n) ↦
          let (kvs, e, l) =
            >>=-eq_ok (items_of parsed) _ (rw (t, n, add_extension_settings) at h) in
          elim (In-add_settings k browser kvs out next l m) [
            | inl (q, w) ↦ inl (q, (parsed, kvs, n, e, w))
            | inr o ↦ inr o
          ]
    ]
  ]

  -- A row of the browser that forces a known ad blocker.
  abbrev pub BlockedBy : List Value → String → Type 0
  BlockedBy rows k =
      (row : Value) × (b : Value) × In row rows
      × (get_or row "browser" (str "") ≡ ok b)
      × (to_text b ≡ k)
      × ForcesBlocker row

  -- Every browser that has blockers has a row that forces one.
  pub In-forced_blockers :
      (k : String) (rows : List Value) (out next : Blockers)
      → forced_blockers json_loads rows out ≡ ok next
      → In k (keys_of next)
      → BlockedBy rows k ⊎ In k (keys_of out)
  unfolding forced_blockers
  In-forced_blockers k [] out next h m =
      inr (subst (λ (d : Blockers). In k (keys_of d)) (sym (ok-injective _ _ h)) m)
  In-forced_blockers k (row ∷ rows) out next h m =
      let (b, h1, k1) = >>=-eq_ok (get_or row "browser" (str "")) _ h in
      let (v, h2, k2) = >>=-eq_ok (get row "forced_extensions") _ k1 in
      let (es, h3, k3) = >>=-eq_ok (iterate_or_empty v) _ k2 in
      let (w, h4, k4) = >>=-eq_ok (get row "values") _ k3 in
      let (settings, h5, k5) = >>=-eq_ok (get (or_else w (dict [])) "ExtensionSettings") _ k4 in
      let (mid, h6, k6) =
        >>=-eq_ok
          (add_extension_settings json_loads (to_text b) settings (add_forced (to_text b) es out)) _
          k5 in
      elim (In-forced_blockers k rows mid next k6 m) [
        | inl (r, c, n, a, q, f) ↦ inl (r, c, inr n, a, q, f)
        | inr n ↦ elim (In-add_extension_settings k (to_text b) settings _ mid h6 n) [
          | inl (q, (parsed, kvs, l, i, f)) ↦
              inl (row, b, inl refl, h1, sym q, inr (w, settings, parsed, kvs, h4, h5, l, i, f))
          | inr o ↦ elim (In-add_forced k (to_text b) es out o) [
            | inl (q, f) ↦ inl (row, b, inl refl, h1, sym q, inl (v, es, h2, h3, f))
            | inr p ↦ inr p
          ]
        ]
      ]
