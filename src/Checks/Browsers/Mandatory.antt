-- ===== src/Checks/Browsers/Mandatory.antt =====
-- What a pass of ism-1585 rests on.
use oscal_aap_ansible_playbo.Prelude.{
  String, ◌≡◌, ap, ◌∙◌, inl, inr, true, false, Option, some, List, [], In, is_empty, Bool-cases,
}
use oscal_aap_ansible_playbo.Py.Value.{Value}
use oscal_aap_ansible_playbo.Py.Result.{Result, ok, >>=-eq_ok, filter_map}
use oscal_aap_ansible_playbo.Py.Result.Laws
use oscal_aap_ansible_playbo.Py.Access.{sort_texts}
use oscal_aap_ansible_playbo.Py.Dict.{keys_of}
use oscal_aap_ansible_playbo.Contract.Terms.{Status}
use oscal_aap_ansible_playbo.Contract.Verdict.{CheckResult, Facts}
use oscal_aap_ansible_playbo.Contract.Bundle.{Fact, FactBundle, FactHistory}
use oscal_aap_ansible_playbo.Checks.OsSupport.Evidence.{not_satisfied-status, unassessed-absurd}
use oscal_aap_ansible_playbo.Checks.Browsers.Inventory.{
  Installed, rows_of, installed_browsers, coverage_gap, missing_from,
}
use oscal_aap_ansible_playbo.Checks.Browsers.Guards.{
  Whole, policy_fact-Whole, coverage_gap-none, missing_from-none,
}
use oscal_aap_ansible_playbo.Checks.Browsers.Locked.{
  browser_of, level_is, mandatory_browser, recommended_only, Firefox, firefox_rows, locked_verdict,
  judge_locked, security_settings_locked,
}
use oscal_aap_ansible_playbo.Checks.Browsers.Evidence.{Seen, passes-finds, failed-passes}

-- A row of mandatory policy of the browser.
abbrev pub HasMandatory : List Value → String → Type 0
HasMandatory rows k =
    (row : Value) × In row rows × (level_is "mandatory" row ≡ ok true) × (browser_of row ≡ ok k)

mandatory_browser-some :
    (row : Value) (k : String)
    → mandatory_browser row ≡ ok (some k)
    → (level_is "mandatory" row ≡ ok true) × (browser_of row ≡ ok k)
unfolding mandatory_browser
mandatory_browser-some row k h =
    let (b, e, l) = >>=-eq_ok (level_is "mandatory" row) _ h in
    elim (Bool-cases b) [
      | inr t ↦ cc (rw t at l)
      | inl t ↦
          let (s, g, q) = >>=-eq_ok (browser_of row) _ (rw t at l) in
          (e ∙ ap ok t, g ∙ ap ok (same s k q))
    ]
  where
    same : (a b : String) → ok (some a) ≡ ok (some b) → a ≡ b
    same a b e = cc

locked_verdict-pass :
    (installed : Installed) (mandatory : List String) (recommended : _) (firefox : Firefox)
    (coverage : Result (List String)) (facts : Facts) (r : CheckResult)
    → locked_verdict installed mandatory recommended firefox coverage facts ≡ ok r
    → r.status ≡ Status.satisfied
    → (is_empty firefox.failed ≡ true)
      × (is_empty installed ≡ false)
      × ((k : String) → In k (keys_of installed) → In k mandatory)
      × ((gaps : List String) × (coverage ≡ ok gaps) × (is_empty gaps ≡ true))
unfolding locked_verdict
locked_verdict-pass installed mandatory recommended firefox coverage facts r h s =
    elim (Bool-cases (is_empty firefox.failed)) [
      | inr a ↦ absurd (unassessed-absurd _ _ _ r (rw a at h) (passes-finds r s))
      | inl a ↦ elim (Bool-cases (is_empty installed)) [
        | inl t ↦ absurd (unassessed-absurd _ _ _ r (rw (a, t) at h) (passes-finds r s))
        | inr t ↦
            elim (Bool-cases (is_empty (sort_texts (missing_from (keys_of installed) mandatory)))) [
              | inr u ↦
                  absurd (failed-passes r (not_satisfied-status _ _ _ r (rw (a, t, u) at h)) s)
              | inl u ↦
                  let (gaps, g, q) = >>=-eq_ok coverage _ (rw (a, t, u) at h) in
                  elim (Bool-cases (is_empty gaps)) [
                    | inr v ↦ absurd (unassessed-absurd _ _ _ r (rw v at q) (passes-finds r s))
                    | inl v ↦ (
                      a,
                      t,
                      (λ k m. missing_from-none k (keys_of installed) mandatory u m),
                      (gaps, g, v),
                    )
                  ]
            ]
      ]
    ]

module _ (json_loads : String → Option Value) where
  judge_locked-pass :
      (bundle : FactBundle) (f : Fact) (r : CheckResult)
      → judge_locked json_loads bundle f ≡ ok r
      → r.status ≡ Status.satisfied
      → (rows : List Value) × (installed : Installed) × (rows_of f ≡ ok rows)
        × Seen bundle f installed
        × ((k : String) → In k (keys_of installed) → HasMandatory rows k)
  unfolding judge_locked
  judge_locked-pass bundle f r h s =
      let (rows, h1, k1) = >>=-eq_ok (rows_of f) _ h in
      let (installed, h2, k2) = >>=-eq_ok (installed_browsers bundle) _ k1 in
      let (mandatory, h3, k3) = >>=-eq_ok (filter_map mandatory_browser rows) _ k2 in
      let (recommended, h4, k4) = >>=-eq_ok (recommended_only mandatory rows []) _ k3 in
      let (firefox, h5, k5) =
        >>=-eq_ok (firefox_rows json_loads rows (record { failed = []; locking = [] })) _ k4 in
      let (p, t, u, (gaps, g, v)) =
        locked_verdict-pass installed mandatory recommended firefox (coverage_gap f bundle) _ r k5
          s in
      let (a, b) = coverage_gap-none f bundle gaps g v in
      (
        rows,
        installed,
        h1,
        (a, b, h2, t),
        λ k m.
            let (row, n, e) = Laws.In-filter_map mandatory_browser k rows mandatory h3 (u k m) in
            let (l, o) = mandatory_browser-some row k e in (row, n, l, o),
      )

  -- A pass of ism-1585 rests on policy that was read completely and with every hive loaded, and on an
  -- inventory with some browser; and each browser of the inventory has a row of mandatory policy. A row
  -- that only recommends is no evidence.
  pub security_settings_locked-HasMandatory :
      (bundle : FactBundle) (params : Value) (history : FactHistory) (r : CheckResult)
      → security_settings_locked json_loads bundle params history ≡ ok r
      → r.status ≡ Status.satisfied
      → (f : Fact) × (rows : List Value) × (installed : Installed) × Whole bundle
          "windows.browsers.policy" f
        × (rows_of f ≡ ok rows)
        × Seen bundle f installed
        × ((k : String) → In k (keys_of installed) → HasMandatory rows k)
  unfolding security_settings_locked
  security_settings_locked-HasMandatory bundle params history r h s =
      let (f, w, j) =
        policy_fact-Whole bundle (judge_locked json_loads bundle) r h (passes-finds r s) in
      let (rows, installed, a, b, c) = judge_locked-pass bundle f r j s in
      (f, rows, installed, w, a, b, c)
