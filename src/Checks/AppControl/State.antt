-- ===== src/Checks/AppControl/State.antt =====
-- The reading of `windows.appcontrol.state` in tools/nobytes_cca/checks/windows/appcontrol.py.
use oscal_aap_ansible_playbo.Prelude.{
  String, Bool, true, false, not, ◌||◌, Option, none, some, List, [], ◌∷◌, if◌then◌else◌, str_eq,
  mem_text,
}
use oscal_aap_ansible_playbo.Prelude.Int.{pos, ltb_ℤ, eqb_ℤ}
use oscal_aap_ansible_playbo.Py.Value.{
  Value, Fields, str, num, dict, obj, or_else, value_at, to_text,
}
use oscal_aap_ansible_playbo.Py.Result.{Result, ok, ◌>>=◌, filter_map}
use oscal_aap_ansible_playbo.Py.Access.{get, get_or, iterate_or_empty, to_int}
use oscal_aap_ansible_playbo.Contract.Terms.{collection_error, partial_population}
use oscal_aap_ansible_playbo.Contract.Verdict.{CheckResult, unassessed}
use oscal_aap_ansible_playbo.Contract.Bundle.{Fact, FactBundle, fact, with_fact}

-- `(value or {}).get(key) or {}`.
abbrev part_of : String → Value → Result Value
part_of key value = get (or_else value (dict [])) key >>= λ v. ok (or_else v (dict []))

-- `_applocker` and `_wdac`.
unfoldable pub applocker_of : Value → Result Value
applocker_of value = part_of "applocker" value

unfoldable pub wdac_of : Value → Result Value
wdac_of value = part_of "wdac" value

-- `str(collection.get("enforcement_mode", ""))`.
unfoldable pub mode_of : Value → Result String
mode_of c = get_or c "enforcement_mode" (str "") >>= λ v. ok (to_text v)

unfoldable pub type_of : Value → Result String
type_of c = get_or c "type" (str "") >>= λ v. ok (to_text v)

-- `mode == "Enabled" and int(collection.get("rule_count", 0)) > 0`.
unfoldable pub enforces : Value → Result Bool
unfolding mode_of
enforces c = mode_of c >>= λ mode.
    if str_eq mode "Enabled"
    then (get_or c "rule_count" (num 0) >>= λ v. to_int v >>= λ n. ok (ltb_ℤ (pos 0) n))
    else ok false

unfoldable pub enforced_type : Value → Result (Option String)
unfolding enforces type_of
enforced_type c =
    enforces c >>= λ b. elim b [ true ↦ (type_of c >>= λ t. ok (some t)) | false ↦ ok none ]

add_text : String → List String → List String
add_text s ss = if mem_text s ss then ss else s ∷ ss

unfoldable pub add_texts : List String → List String
unfolding add_text
add_texts [] = []
add_texts (s ∷ ss) = add_text s (add_texts ss)

-- `_enforced_collections`: the keys of the dict. Every value is the mode "Enabled".
unfoldable pub enforced_collections : Value → Result (List String)
unfolding enforced_type add_texts
enforced_collections applocker = get applocker "collections" >>= λ cs.
    iterate_or_empty cs >>= λ collections.
    filter_map enforced_type collections >>= λ types. ok (add_texts types)

audit_type : Value → Result (Option Value)
unfolding mode_of
audit_type c = mode_of c >>= λ mode.
    if str_eq mode "AuditOnly" then (get c "type" >>= λ t. ok (some t)) else ok none

-- The types of the collections in audit mode.
unfoldable pub audit_only : Value → Result (List Value)
unfolding audit_type
audit_only applocker = get applocker "collections" >>= λ cs.
    iterate_or_empty cs >>= λ collections. filter_map audit_type collections

-- `int(wdac.get(key, 0) or 0) == _WDAC_ENFORCED`.
unfoldable pub is_enforced_status : String → Value → Result Bool
is_enforced_status key wdac =
    get_or wdac key (num 0) >>= λ v. to_int (or_else v (num 0)) >>= λ n. ok (eqb_ℤ n (pos 2))

-- `_wdac_enforcing`.
unfoldable pub wdac_enforcing : Value → Result Bool
unfolding is_enforced_status
wdac_enforcing wdac =
    is_enforced_status "code_integrity_policy_enforcement_status" wdac >>= λ kernel. elim kernel [
      | true ↦ ok true
      | false ↦ is_enforced_status "usermode_code_integrity_policy_enforcement_status" wdac
    ]

-- `isinstance(value, dict) and ("applocker" in value or "wdac" in value)`.
has_key : String → Fields → Bool
unfolding value_at
has_key k fs = elim (value_at k fs) [ none ↦ false | some v ↦ true ]

unfoldable pub is_usable : Value → Bool
unfolding has_key
is_usable (obj fs) = has_key "applocker" fs || has_key "wdac" fs
is_usable v = false

pub data Guarded : Type 0 where
  go : Fact → Guarded
  stop : CheckResult → Guarded

-- `_guard`.
unfoldable pub state_guard : FactBundle → Guarded
unfolding is_usable
state_guard bundle =
    with_fact (fact bundle "windows.appcontrol.state")
      (stop
        (unassessed collection_error "fact `windows.appcontrol.state` absent from the bundle" []))
      λ f.
        if not (is_usable f.value)
        then stop (
            unassessed collection_error
              "fact `windows.appcontrol.state` carries neither an `applocker` nor a `wdac` observation, so nothing was read from this host. An unreadable host is not a host without application control."
              [])
        else if f.partial
        then stop (
            unassessed partial_population
              "neither AppLocker policy nor Win32_DeviceGuard could be read; a host that could not be inspected is not a host without application control"
              [])
        else go f

abbrev pub after_guard : Guarded → (Fact → Result CheckResult) → Result CheckResult
after_guard (stop r) k = ok r
after_guard (go f) k = k f
