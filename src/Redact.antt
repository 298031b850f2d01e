-- ===== src/Redact.antt =====
-- collections/ansible_collections/nobytes/compliance/plugins/filter/redact.py: the redaction policy of
-- a deployment, applied to the facts of a bundle. The hash is SHA-256 in hexadecimal, a parameter.
pub mod Sid
pub mod Safety
pub mod Refusals
pub mod Accepted
pub mod Retained
use oscal_aap_ansible_playbo.Prelude.{
  ℕ, zero, suc, String, ◌<>◌, Bool, true, false, not, ◌&&◌, ◌||◌, Option, none, some, List, [], ◌∷◌,
  if◌then◌else◌, str_eq, leb, ltb, insert, lookup,
}
use Prim.Native.String.{count}
use oscal_aap_ansible_playbo.Py.Text.{
  lower, upper, has_prefix, contains, before_last, after_last, after_first, take, occurrences,
  decimal,
}
use oscal_aap_ansible_playbo.Py.Value.{
  Value, Items, Fields, null, bool, int, str, arr, obj, nil, cons, end, field, entries, truthy,
  to_text,
}
use oscal_aap_ansible_playbo.Py.Result.{Exn, Result, ok, raise, ◌>>=◌}
use oscal_aap_ansible_playbo.Py.Access.{digits, no_attribute}
use oscal_aap_ansible_playbo.Redact.Sid.{looks_like_sid}

abbrev pub unset_salt : String
unset_salt = "CHANGE-ME-PER-DEPLOYMENT"

-- `ACTIONS`.
pub data Action : Type 0 where
  retain hash truncate drop : Action

unfoldable pub action_of : String → Option Action
unfolding str_eq
action_of s =
    if str_eq s "retain"
    then some retain
    else if str_eq s "hash"
    then some hash
    else if str_eq s "truncate"
    then some truncate
    else if str_eq s "drop"
    then some drop
    else none

abbrev pub is_drop : Action → Bool
is_drop drop = true
is_drop _ = false

abbrev pub is_hash : Action → Bool
is_hash hash = true
is_hash _ = false

abbrev mask : String
mask = "***"

-- `rid.isdigit() and int(rid) < 1000`.
is_well_known : String → Bool
unfolding digits str_eq
is_well_known rid =
    not (str_eq rid "") && elim (digits 0 rid) [ none ↦ false | some n ↦ ltb n 1000 ]

-- `_truncate`, on `str(value)`.
unfoldable pub truncated : String → String
unfolding is_well_known
truncated text =
    if contains "@" text
    then (let domain = after_first "@" text in
        if str_eq domain "" then mask else mask <> ("@" <> domain))
    else if has_prefix "S-1-" (upper text) && leb 3 (occurrences "-" text)
    then if is_well_known (after_last "-" text text)
      then text
      else before_last "-" text <> ("-" <> mask)
    else if leb (count text) 2
    then mask
    else take 2 text <> (mask <> ("(" <> (decimal (count text) <> " chars)")))

-- The policy: an action for each key, in lower case, and those for other values.
pub record Policy : Type 0 where
  pub named : List (String × Action)
  pub fallback : Action
  pub salt : String

-- `policy.get(str(key).lower())`.
unfoldable pub named_action : Policy → String → Option Action
unfolding lookup
named_action p key = lookup (lower key) p.named

-- `sid_action`.
unfoldable pub sid_action : Policy → Action
unfolding lookup
sid_action p = elim (lookup "sid" p.named) [ none ↦ p.fallback | some a ↦ a ]

-- The action for a value that no name matches.
unfoldable pub shape_action : Policy → Value → Action
unfolding sid_action looks_like_sid
shape_action p (str s) = if looks_like_sid s then sid_action p else p.fallback
shape_action p v = p.fallback

-- `named if named is not None else inherited`.
abbrev pub first_of : Option Action → Option Action → Option Action
first_of (some a) inherited = some a
first_of none inherited = inherited

-- `action_for`, given the action that the key names.
unfoldable pub action_for : Policy → Option Action → Value → Option Action → Action
unfolding shape_action
action_for p named v inherited = elim (first_of named inherited) [
  | none ↦ shape_action p v
  | some a ↦ a
]

-- An item in front of the rest, if it is kept.
abbrev pub keep_item : Option Value → Items → Items
keep_item none xs = xs
keep_item (some v) xs = cons v xs

-- The value of a key in front of the rest, unless the key is named to be dropped.
abbrev pub keep_field : Option Action → String → Value → Fields → Fields
keep_field (some drop) k v fs = fs
keep_field _ k v fs = field k v fs

module _ (sha256_hex : String → String) where
  -- `_hash`.
  unfoldable pub hashed : Value → String → Value
  unfolding to_text
  hashed v salt = str ("sha256:" <> take 32 (sha256_hex (salt <> to_text v)))

  -- `_apply`.
  unfoldable pub apply : Action → Value → String → Value
  unfolding hashed truncated
  apply hash v salt = hashed v salt
  apply truncate v salt = str (truncated (to_text v))
  apply retain v salt = v
  apply drop v salt = v

  -- The item of a list that is no container, under the action that the list's key named.
  unfoldable pub redact_scalar : Policy → Option Action → Value → Option Value
  unfolding action_for apply
  redact_scalar p inherited v =
      let action = action_for p none v inherited in
      if is_drop action then none else some (apply action v p.salt)

  -- `walk`: on the value of a key, on a dict, and on an item and the items of a list.
  unfoldable mutual
    unfolding named_action action_for apply redact_scalar

    pub redact_value : Policy → Option Action → Option Action → Value → Value
    redact_value p named inherited (obj fs) = obj (redact_fields p none fs)
    redact_value p named inherited (arr xs) = arr (redact_items p (first_of named inherited) xs)
    redact_value p named inherited v = apply (action_for p named v inherited) v p.salt

    pub redact_fields : Policy → Option Action → Fields → Fields
    redact_fields p inherited end = end
    redact_fields p inherited (field k v fs) =
        keep_field (named_action p k) k (redact_value p (named_action p k) inherited v)
          (redact_fields p inherited fs)

    pub redact_item : Policy → Option Action → Value → Option Value
    redact_item p inherited (obj fs) = some (obj (redact_fields p none fs))
    redact_item p inherited (arr xs) = some (arr (redact_items p inherited xs))
    redact_item p inherited v = redact_scalar p inherited v

    pub redact_items : Policy → Option Action → Items → Items
    redact_items p inherited nil = nil
    redact_items p inherited (cons v xs) =
        keep_item (redact_item p inherited v) (redact_items p inherited xs)

filter_error : String → Exn
filter_error m = record { kind = "AnsibleFilterError"; message = m }

unknown_action : String → Exn
unfolding filter_error
unknown_action s =
    filter_error
      ("unknown redaction action '" <> (s <> "'; expected one of retain, hash, truncate, drop"))

-- `{str(k).lower(): str(v) for k, v in …}`.
unfoldable pub lowered : List (String × Value) → List (String × String) → List (String × String)
unfolding insert
lowered [] d = d
lowered ((k, v) ∷ kvs) d = lowered kvs (insert (lower k) (to_text v) d)

dict_entries : Value → Result (List (String × Value))
dict_entries (obj fs) = ok (entries fs)
dict_entries w = raise (no_attribute w "items")

-- `(keys or {}).items()`.
unfoldable pub entries_of : Value → Result (List (String × Value))
unfolding truthy dict_entries
entries_of v = if truthy v then dict_entries v else ok []

unfoldable pub known : String → Result Action
unfolding action_of unknown_action
known s = elim (action_of s) [ none ↦ raise (unknown_action s) | some a ↦ ok a ]

-- The actions by name, in the order of the policy.
unfoldable pub known_actions : List (String × String) → Result (List (String × Action))
unfolding known
known_actions [] = ok []
known_actions ((k, s) ∷ d) = known s >>= λ a. known_actions d >>= λ rest. ok ((k, a) ∷ rest)

unfoldable pub hashes : List (String × Action) → Action → Bool
hashes [] fallback = is_hash fallback
hashes ((k, a) ∷ d) fallback = is_hash a || hashes d fallback

-- The policy that is applied, or the refusal of it.
unfoldable pub policy_of : Value → Value → String → Result Policy
unfolding entries_of lowered known_actions hashes filter_error
policy_of keys default salt = entries_of keys >>= λ kvs. known_actions (lowered kvs []) >>= λ named.
    known (to_text default) >>= λ fallback.
    if hashes named fallback && (str_eq salt "" || str_eq salt unset_salt)
    then raise (
        filter_error
          "redaction policy asks for hashing but fact_bundle_redaction_salt is unset or still the shipped default. Hashed identifiers would be trivially reversible and correlatable across organisations. Set it from a vault before collecting anything.")
    else ok (record { named = named; fallback = fallback; salt = salt })

module _ (sha256_hex : String → String) where
  -- `redact_facts`.
  unfoldable pub redact_facts : Value → Value → Value → String → Result Value
  unfolding policy_of redact_value filter_error
  redact_facts null keys default salt = ok (obj end)
  redact_facts (obj fs) keys default salt =
      policy_of keys default salt >>= λ p. ok (obj (redact_fields sha256_hex p none fs))
  redact_facts v keys default salt =
      raise (filter_error "redact_facts expects a mapping of fact key to record")
