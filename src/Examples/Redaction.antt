-- ===== src/Examples/Redaction.antt =====
-- A policy that hashes SIDs, one that retains everything, and one that drops, on small facts.
use oscal_aap_ansible_playbo.Py.Text.{take, lower}
use oscal_aap_ansible_playbo.Prelude.{
  ◌≢◌, arith, String, ◌≡◌, refl, ◌⊎◌, inl, some, [], ◌∷◌, lookup, str_eq,
}
use oscal_aap_ansible_playbo.Py.Value.{to_text, Value, Fields, str, list, dict, null, end, field}
use oscal_aap_ansible_playbo.Py.Result.{ok, raise}
use oscal_aap_ansible_playbo.Redact.{
  entries_of, unset_salt, Action, retain, hash, drop, Policy, policy_of, redact_facts, sid_action,
}
use oscal_aap_ansible_playbo.Redact.Safety.{SidFree, Protects, redact_facts-SidFree}
use oscal_aap_ansible_playbo.Redact.Refusals.{word, Accepted, policy_of-Reads}
use oscal_aap_ansible_playbo.Redact.Accepted.{Asks, policy_of-accepts}
use oscal_aap_ansible_playbo.Redact.Retained.{Retains, redact_facts-retain}

-- A stand-in for SHA-256.
abbrev sha : String → String
sha s = "0123456789abcdef0123456789abcdef0123456789abcdef0123456789abcdef"

abbrev keys : Value
keys = dict (("SID", str "hash") ∷ [])

abbrev hashing : Policy
hashing = record { named = ("sid", hash) ∷ []; fallback = retain; salt = "pepper" }

abbrev facts : Value
facts = dict (("allow_write_sids", list (str "S-1-5-21-1-2-3-1001" ∷ str "C:\\Temp" ∷ [])) ∷ [])

hashing_read : policy_of keys (str "retain") "pepper" ≡ ok hashing
unfolding policy_of to_text lower
hashing_read = refl

abbrev redacted : Value
redacted = dict (
    ("allow_write_sids", list (str "sha256:0123456789abcdef0123456789abcdef" ∷ str "C:\\Temp" ∷ []))
    ∷ [])

hashing_run : redact_facts sha facts keys (str "retain") "pepper" ≡ ok redacted
unfolding redact_facts lower take
hashing_run = refl

hashing-Protects : Protects hashing
unfolding lookup str_eq sid_action
hashing-Protects = (only, refl, λ e. cc)
  where
    only : (k : String) (a : Action) → lookup k hashing.named ≡ some a → (a ≡ hash) ⊎ (a ≡ drop)
    only k a e = inl (ground arith)

redact_facts-SidFree_example : SidFree redacted
redact_facts-SidFree_example =
    redact_facts-SidFree sha facts keys (str "retain") "pepper" hashing redacted hashing_read
      hashing-Protects hashing_run

keys_read : entries_of keys ≡ ok (("SID", str "hash") ∷ [])
unfolding entries_of
keys_read = refl

keys-Asks : Asks (("SID", str "hash") ∷ [])
unfolding to_text
keys-Asks = ((hash, refl), tt)

retain_word : to_text (str "retain") ≡ word retain
unfolding to_text
retain_word = refl

abbrev pepper : String
pepper = "pepper"

salted : pepper ≢ ""
salted e = cc

not_placeholder : pepper ≢ unset_salt
not_placeholder e = cc

policy_of-Reads_example : Accepted keys (str "retain") "pepper" hashing
policy_of-Reads_example = policy_of-Reads keys (str "retain") "pepper" hashing hashing_read

policy_of-accepts_example :
    (p : Policy) × (policy_of keys (str "retain") pepper ≡ ok p)
    × Accepted keys (str "retain") pepper p
policy_of-accepts_example =
    policy_of-accepts keys (str "retain") pepper (("SID", str "hash") ∷ []) retain keys_read
      keys-Asks retain_word salted not_placeholder

-- An action that is none of the four, and hashing under the placeholder, are refused.
unknown_refused :
    policy_of keys (str "erase") "pepper"
    ≡ raise (record {
      kind = "AnsibleFilterError";
      message = "unknown redaction action 'erase'; expected one of retain, hash, truncate, drop";
    })
unfolding policy_of to_text lower
unknown_refused = refl

abbrev retaining : Policy
retaining = record { named = []; fallback = retain; salt = "" }

retaining_read : policy_of null (str "retain") "" ≡ ok retaining
unfolding policy_of to_text
retaining_read = refl

retaining-Retains : Retains retaining
unfolding lookup
retaining-Retains = (λ k a e. cc, refl)

abbrev fields : Fields
fields = field "owner" (str "S-1-5-21-1-2-3-1001") end

redact_facts-retain_example :
    redact_facts sha (Value.obj fields) null (str "retain") "" ≡ ok (Value.obj fields)
redact_facts-retain_example =
    redact_facts-retain sha fields null (str "retain") "" retaining retaining_read retaining-Retains

-- SIDs are to be dropped: one leaves a list, but stays under the key of a dict.
abbrev drop_sids : Value
drop_sids = dict (("sid", str "drop") ∷ [])

sid_dropped :
    redact_facts sha facts drop_sids (str "retain") ""
    ≡ ok (dict (("allow_write_sids", list (str "C:\\Temp" ∷ [])) ∷ []))
unfolding redact_facts lower to_text
sid_dropped = refl

sid_kept : redact_facts sha (Value.obj fields) drop_sids (str "retain") "" ≡ ok (Value.obj fields)
unfolding redact_facts lower to_text
sid_kept = refl
