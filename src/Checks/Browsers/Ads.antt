-- ===== src/Checks/Browsers/Ads.antt =====
-- ism-1485 of tools/nobytes_cca/checks/windows/browsers.py: web advertisements.
use oscal_aap_ansible_playbo.Prelude.{
  String, ◌<>◌, Bool, false, not, Option, none, some, List, [], ◌∷◌, is_empty, if◌then◌else◌,
  lookup, insert,
}
use oscal_aap_ansible_playbo.Py.Text.{before, strip, join}
use oscal_aap_ansible_playbo.Py.Value.{
  Value, str, obj, list, dict, strs, entries, or_else, truthy, to_text, py_eq, is_none,
}
use oscal_aap_ansible_playbo.Py.Result.{Result, ok, raise, ◌>>=◌}
use oscal_aap_ansible_playbo.Py.Access.{get, get_or, iterate_or_empty, sort_texts, no_attribute}
use oscal_aap_ansible_playbo.Py.Dict.{append_at, keys_of}
use oscal_aap_ansible_playbo.Contract.Terms.{partial, partial_population}
use oscal_aap_ansible_playbo.Contract.Verdict.{
  CheckResult, Facts, satisfied, not_satisfied, unassessed,
}
use oscal_aap_ansible_playbo.Contract.Bundle.{Fact, FactBundle, FactHistory}
use oscal_aap_ansible_playbo.Checks.Browsers.Inventory.{
  Installed, policy_fact, rows_of, installed_browsers, coverage_gap, names_entries, after_guard,
  missing_from,
}

-- `KNOWN_AD_BLOCKERS`.
abbrev pub known_ad_blockers : List (String × String)
known_ad_blockers =
    ("cjpalhdlnbpafiamejdnhcphjbkeiagm", "uBlock Origin (Chrome)")
    ∷ ("odfafepnkmbhccpbejgmiehpchacaeak", "uBlock Origin (Edge)")
    ∷ ("cfhdojbkjhnklbpkdaibdccddilifddb", "Adblock Plus (Chrome)")
    ∷ ("gmgoamodcdcjnbaobigkjelfplakmdhh", "Adblock Plus (Edge)")
    ∷ ("uBlock0@raymondhill.net", "uBlock Origin (Firefox)")
    ∷ ("{d10d0bf8-f5b5-c8b4-a8b2-2b9879e08c5d}", "Adblock Plus (Firefox)")
    ∷ []

abbrev pub Blockers : Type 0
Blockers = List (String × List String)

-- `if ident in KNOWN_AD_BLOCKERS: out.setdefault(browser, []).append(…)`.
unfoldable pub add_known : String → String → Blockers → Blockers
unfolding lookup
add_known browser ident out = elim (lookup ident known_ad_blockers) [
  | none ↦ out
  | some name ↦ append_at browser name out
]

-- The loop over the list of forced extensions.
unfoldable pub add_forced : String → List Value → Blockers → Blockers
unfolding add_known
add_forced browser [] out = out
add_forced browser (entry ∷ es) out =
    add_forced browser es (add_known browser (strip (before ";" (to_text entry))) out)

is_forced : Value → Bool
unfolding py_eq
is_forced mode = py_eq mode (str "force_installed")

-- Whether a setting of an extension installs it by force.
unfoldable pub forces : Value → Result Bool
unfolding is_forced
forces (obj fs) = get (obj fs) "installation_mode" >>= λ mode. ok (is_forced mode)
forces v = ok false

-- The loop over the parsed settings.
unfoldable pub add_settings : String → List (String × Value) → Blockers → Result Blockers
unfolding forces add_known
add_settings browser [] out = ok out
add_settings browser ((ident, config) ∷ kvs) out = forces config >>= λ forced.
    add_settings browser kvs (if forced then add_known browser ident out else out)

dict_items : Value → Result (List (String × Value))
dict_items (obj fs) = ok (entries fs)
dict_items v = raise (no_attribute v "items")

-- `(parsed or {}).items()`.
unfoldable pub items_of : Value → Result (List (String × Value))
unfolding dict_items
items_of parsed = dict_items (or_else parsed (dict []))

module _ (json_loads : String → Option Value) where
  -- `json.loads(v)`, where `none` is the exception that is caught; so is that of a value that is no text.
  unfoldable pub loads : Value → Option Value
  loads (str s) = json_loads s
  loads v = none

  -- Firefox's ExtensionSettings.
  unfoldable pub add_extension_settings : String → Value → Blockers → Result Blockers
  unfolding loads items_of add_settings
  add_extension_settings browser settings out =
      if truthy settings
      then elim (loads settings) [
        | none ↦ ok out
        | some parsed ↦ (items_of parsed >>= λ kvs. add_settings browser kvs out)
      ]
      else ok out

  -- `_forced_blockers`.
  unfoldable pub forced_blockers : List Value → Blockers → Result Blockers
  unfolding add_forced add_extension_settings
  forced_blockers [] out = ok out
  forced_blockers (row ∷ rows) out = get_or row "browser" (str "") >>= λ b.
      get row "forced_extensions" >>= λ v. iterate_or_empty v >>= λ es. get row "values" >>= λ w.
      get (or_else w (dict [])) "ExtensionSettings" >>= λ settings.
      add_extension_settings (to_text b) settings (add_forced (to_text b) es out) >>= λ next.
      forced_blockers rows next

-- `native`: recorded, and never decisive.
unfoldable pub native_settings : List Value → List (String × Value) → Result (List (String × Value))
unfolding insert
native_settings [] out = ok out
native_settings (row ∷ rows) out = get row "values" >>= λ w.
    get (or_else w (dict [])) "AdsSettingForIntrusiveAdsSites" >>= λ v.
    (if is_none v then ok out else (get row "browser" >>= λ b. ok (insert (to_text b) v out)))
    >>= λ next. native_settings rows next

blocker_entries : Blockers → List (String × Value)
blocker_entries [] = []
blocker_entries ((k, names) ∷ d) = (k, list (strs names)) ∷ blocker_entries d

ads_facts : Installed → Blockers → List (String × Value) → Facts
unfolding names_entries blocker_entries
ads_facts installed blockers native =
    ("installed_browsers", dict (names_entries installed))
    ∷ ("forced_ad_blockers", dict (blocker_entries blockers))
    ∷ ("native_intrusive_ads_setting", dict native)
    ∷ (
      "native_setting_is_not_a_mitigation",
      str
          "ASD's Blueprint: Microsoft Edge's native web advertisement capability is limited and does not provide an effective mitigation",
    )
    ∷ (
      "not_observable",
      str
          "gateway and proxy level advertisement filtering, which ASD also names as part of this control, is not visible from a host",
    )
    ∷ []

-- The verdict of ism-1485.
unfoldable pub ads_verdict : Installed → Blockers → List String → Facts → Result CheckResult
ads_verdict installed blockers gaps facts =
    let unprotected = sort_texts (missing_from (keys_of installed) (keys_of blockers)) in
    if is_empty installed
    then ok (
        unassessed partial_population
          "No application inventory, so which browsers are installed is unknown. A browser with no forced ad blocker cannot be distinguished from a browser that is not installed."
          facts)
    else if not (is_empty unprotected)
    then not_satisfied
        ("No recognised ad-blocking extension is force-installed for "
          <> (join ", " unprotected
              <> ". Note this check cannot see gateway or proxy level filtering, which ASD names as part of this control, so an estate blocking advertisements upstream will appear here as a failure it has in fact mitigated."))
        facts partial
    else if not (is_empty gaps)
    then ok (
        unassessed partial_population
          ("Every installed browser forces an ad blocker, but " <> join "; " gaps) facts)
    else satisfied
        ("Every installed browser ("
          <> (join ", " (sort_texts (keys_of installed))
              <> ") force-installs a recognised ad-blocking extension. What this does not prove: that the extension is enabled and running in each profile, only that policy requires it."))
        facts partial

module _ (json_loads : String → Option Value) where
  unfoldable pub judge_ads : FactBundle → Fact → Result CheckResult
  unfolding ads_facts ads_verdict forced_blockers native_settings
  judge_ads bundle f = rows_of f >>= λ rows. installed_browsers bundle >>= λ installed.
      forced_blockers json_loads rows [] >>= λ blockers. native_settings rows [] >>= λ native.
      coverage_gap f bundle >>= λ gaps.
      ads_verdict installed blockers gaps (ads_facts installed blockers native)

  -- `advertisements_not_processed`.
  unfoldable pub advertisements_not_processed :
      FactBundle → Value → FactHistory → Result CheckResult
  unfolding judge_ads
  advertisements_not_processed bundle params history =
      after_guard (policy_fact bundle) (judge_ads bundle)
