-- ===== src/Checks/Browsers/Locked.antt =====
-- ism-1585 of tools/nobytes_cca/checks/windows/browsers.py: settings that users cannot change.
use oscal_aap_ansible_playbo.Prelude.{
  ℕ, ◌+◌, String, ◌<>◌, Bool, false, not, ◌&&◌, ◌==◌, Option, none, some, List, [], ◌∷◌, ◌++◌, map,
  length, is_empty, if◌then◌else◌, insert, filter, mem_text, unique, str_eq,
}
use oscal_aap_ansible_playbo.Py.Text.{join, decimal}
use oscal_aap_ansible_playbo.Py.Value.{
  Value, str, obj, list, dict, strs, or_else, truthy, to_text, py_eq,
}
use oscal_aap_ansible_playbo.Py.Result.{Result, ok, ◌>>=◌, filter_map}
use oscal_aap_ansible_playbo.Py.Access.{get, sort_texts}
use oscal_aap_ansible_playbo.Py.Dict.{append_at, keys_of}
use oscal_aap_ansible_playbo.Contract.Terms.{partial, collection_error, partial_population}
use oscal_aap_ansible_playbo.Contract.Verdict.{
  CheckResult, Facts, satisfied, not_satisfied, unassessed,
}
use oscal_aap_ansible_playbo.Contract.Bundle.{Fact, FactBundle, FactHistory}
use oscal_aap_ansible_playbo.Checks.Browsers.Inventory.{
  Installed, policy_fact, rows_of, installed_browsers, coverage_gap, names_entries, after_guard,
  missing_from,
}
use oscal_aap_ansible_playbo.Checks.Browsers.Ads.{items_of, loads}

-- `str(row.get("browser"))`.
unfoldable pub browser_of : Value → Result String
browser_of row = get row "browser" >>= λ b. ok (to_text b)

-- `row.get("policy_level") == level`.
unfoldable pub level_is : String → Value → Result Bool
unfolding py_eq
level_is level row = get row "policy_level" >>= λ v. ok (py_eq v (str level))

-- The browser of a row of mandatory policy.
unfoldable pub mandatory_browser : Value → Result (Option String)
unfolding level_is browser_of
mandatory_browser row =
    level_is "mandatory" row >>= λ b. if b then (browser_of row >>= λ s. ok (some s)) else ok none

-- `recommended_only`: the keys of the rows of recommended policy, for browsers that have no other.
unfoldable pub recommended_only :
    List String → List Value → List (String × List Value) → Result (List (String × List Value))
unfolding level_is browser_of mem_text
recommended_only mandatory [] out = ok out
recommended_only mandatory (row ∷ rows) out = browser_of row >>= λ browser.
    level_is "recommended" row >>= λ b. get row "key" >>= λ key.
    recommended_only mandatory rows
      (if b && not (mem_text browser mandatory) then append_at browser key out else out)

-- What a Firefox row says: no preferences, preferences that could not be parsed, or how many are locked.
pub data Preferences : Type 0 where
  absent unparseable : Preferences
  counted : ℕ → ℕ → Preferences

is_locked : Value → Result Bool
unfolding py_eq
is_locked (obj fs) = get (obj fs) "Status" >>= λ v. ok (py_eq v (str "locked"))
is_locked v = ok false

unfoldable pub count_locked : List (String × Value) → Result ℕ
unfolding is_locked
count_locked [] = ok 0
count_locked ((k, config) ∷ kvs) =
    is_locked config >>= λ b. count_locked kvs >>= λ n. ok (if b then n + 1 else n)

-- What the rows of Firefox say: the keys that could not be parsed, and a text for each other key.
pub record Firefox : Type 0 where
  pub failed : List Value
  pub locking : List (String × Value)

note_counts : Value → ℕ → ℕ → Firefox → Firefox
unfolding insert
note_counts key locked total out = if total == 0 then out else record {
  failed = out.failed;
  locking =
      insert (to_text key)
        (str (decimal locked <> (" of " <> (decimal total <> " preferences locked")))) out.locking;
}

unfoldable pub note_preferences : Value → Preferences → Firefox → Firefox
unfolding note_counts
note_preferences key absent out = out
note_preferences key unparseable out = record {
  failed = out.failed ++ (key ∷ []);
  locking = out.locking;
}
note_preferences key (counted locked total) out = note_counts key locked total out

module _ (json_loads : String → Option Value) where
  -- `_firefox_locked`.
  unfoldable pub firefox_locked : Value → Result Preferences
  unfolding loads items_of count_locked
  firefox_locked row = get row "values" >>= λ w. get (or_else w (dict [])) "Preferences" >>= λ blob.
      if truthy blob
      then elim (loads json_loads blob) [
        | none ↦ ok unparseable
        | some parsed ↦
            (items_of parsed >>= λ kvs. count_locked kvs >>= λ n. ok (counted n (length kvs)))
      ]
      else ok absent

  firefox_row : Value → Firefox → Result Firefox
  unfolding firefox_locked note_preferences
  firefox_row row out =
      firefox_locked row >>= λ p. get row "key" >>= λ key. ok (note_preferences key p out)

  -- The loop over the rows of Firefox.
  unfoldable pub firefox_rows : List Value → Firefox → Result Firefox
  unfolding browser_of firefox_row str_eq
  firefox_rows [] out = ok out
  firefox_rows (row ∷ rows) out = browser_of row >>= λ browser.
      (if str_eq browser "firefox" then firefox_row row out else ok out) >>= λ next.
      firefox_rows rows next

recommended_entries : List (String × List Value) → List (String × Value)
recommended_entries [] = []
recommended_entries ((k, keys) ∷ d) = (k, list keys) ∷ recommended_entries d

locked_facts : Installed → List String → List (String × List Value) → Firefox → Facts
unfolding names_entries recommended_entries unique
locked_facts installed mandatory recommended firefox =
    ("installed_browsers", dict (names_entries installed))
    ∷ ("browsers_with_mandatory_policy", list (strs (sort_texts (unique mandatory))))
    ∷ ("browsers_with_recommended_policy_only", dict (recommended_entries recommended))
    ∷ ("firefox_preference_locking", dict firefox.locking)
    ∷ (
      "not_observable",
      str
          "a registry value is an administrator's intent, not the running browser's behaviour; only edge://policy or chrome://policy reporting Status OK would show the latter, and neither is readable remotely",
    )
    ∷ []

recommended_note : List String → List (String × List Value) → String
unfolding mem_text
recommended_note unlocked recommended =
    let named = filter (λ b. mem_text b (keys_of recommended)) unlocked in
    if is_empty named
    then ""
    else " Note that policy exists for "
      <> (join ", " named
          <> " under the \\Recommended key, which sets a default the user may override rather than locking anything.")

-- The verdict of ism-1585.
unfoldable pub locked_verdict :
    Installed
    → List String
    → List (String × List Value)
    → Firefox
    → Result (List String)
    → Facts
    → Result CheckResult
unfolding recommended_note
locked_verdict installed mandatory recommended firefox coverage facts =
    let unlocked = sort_texts (missing_from (keys_of installed) mandatory) in
    if not (is_empty firefox.failed)
    then ok (
        unassessed collection_error
          ("Firefox Preferences policy could not be parsed at "
            <> (join ", " (map to_text firefox.failed)
                <> ". An unreadable policy is not an absent one."))
          facts)
    else if is_empty installed
    then ok (
        unassessed partial_population
          "No application inventory, so 'every installed browser' cannot be evaluated. The control is a statement about browsers, plural."
          facts)
    else if not (is_empty unlocked)
    then not_satisfied
        ("No mandatory policy found for "
          <> (join ", " unlocked
              <> (". Settings a user can change are settings a user can change back."
                  <> recommended_note unlocked recommended)))
        facts partial
    else (coverage >>= λ gaps.
        if is_empty gaps
        then satisfied
            ("Every installed browser ("
              <> (join ", " (sort_texts (keys_of installed))
                  <> ") is governed by mandatory policy rather than a user-overridable default. What this does not prove: that the running browser honours each policy name, that a local administrator could not change it, or that a Firefox estate managed through policies.json rather than the registry is covered."))
            facts partial
        else ok (
            unassessed partial_population
              ("Every installed browser has mandatory policy, but " <> join "; " gaps) facts))

module _ (json_loads : String → Option Value) where
  unfoldable pub judge_locked : FactBundle → Fact → Result CheckResult
  unfolding locked_facts locked_verdict recommended_only firefox_rows mandatory_browser
  judge_locked bundle f = rows_of f >>= λ rows. installed_browsers bundle >>= λ installed.
      filter_map mandatory_browser rows >>= λ mandatory.
      recommended_only mandatory rows [] >>= λ recommended.
      firefox_rows json_loads rows (record { failed = []; locking = [] }) >>= λ firefox.
      locked_verdict installed mandatory recommended firefox (coverage_gap f bundle)
        (locked_facts installed mandatory recommended firefox)

  -- `security_settings_locked`.
  unfoldable pub security_settings_locked : FactBundle → Value → FactHistory → Result CheckResult
  unfolding judge_locked
  security_settings_locked bundle params history =
      after_guard (policy_fact bundle) (judge_locked bundle)
