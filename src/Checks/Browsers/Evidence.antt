-- ===== src/Checks/Browsers/Evidence.antt =====
-- What a pass of ism-1485 rests on.
use oscal_aap_ansible_playbo.Prelude.{
  String, ◌≡◌, ap, inl, inr, true, false, Option, some, List, [], In, is_empty, Bool-cases,
}
use oscal_aap_ansible_playbo.Py.Value.{Value}
use oscal_aap_ansible_playbo.Py.Result.{ok, >>=-eq_ok}
use oscal_aap_ansible_playbo.Py.Access.{sort_texts}
use oscal_aap_ansible_playbo.Py.Dict.{keys_of}
use oscal_aap_ansible_playbo.Contract.Terms.{Status, emits_finding}
use oscal_aap_ansible_playbo.Contract.Verdict.{CheckResult, Facts}
use oscal_aap_ansible_playbo.Contract.Bundle.{Fact, FactBundle, FactHistory, fact}
use oscal_aap_ansible_playbo.Checks.OsSupport.Evidence.{not_satisfied-status, unassessed-absurd}
use oscal_aap_ansible_playbo.Checks.Browsers.Inventory.{
  Installed, rows_of, unloaded_profiles, installed_browsers, coverage_gap, missing_from,
}
use oscal_aap_ansible_playbo.Checks.Browsers.Guards.{
  Whole, policy_fact-Whole, coverage_gap-none, missing_from-none,
}
use oscal_aap_ansible_playbo.Checks.Browsers.Ads.{
  Blockers, forced_blockers, native_settings, ads_verdict, judge_ads, advertisements_not_processed,
}
use oscal_aap_ansible_playbo.Checks.Browsers.Forced.{BlockedBy, In-forced_blockers}

-- The population was seen: every hive was loaded, and there is an inventory with some browser.
abbrev pub Seen : FactBundle → Fact → Installed → Type 0
Seen bundle f installed =
    (unloaded_profiles f ≡ ok [])
    × ((g : Fact) × (fact bundle "windows.applications.installed" ≡ some g))
    × (installed_browsers bundle ≡ ok installed)
    × (is_empty installed ≡ false)

pub passes-finds : (r : CheckResult) → r.status ≡ Status.satisfied → emits_finding r.status ≡ true
unfolding emits_finding
passes-finds r s = ap emits_finding s

pub failed-passes :
    (r : CheckResult) → r.status ≡ Status.not_satisfied → r.status ≡ Status.satisfied → ⊥
failed-passes r a b = cc

ads_verdict-pass :
    (installed : Installed) (blockers : Blockers) (gaps : List String) (facts : Facts)
    (r : CheckResult)
    → ads_verdict installed blockers gaps facts ≡ ok r
    → r.status ≡ Status.satisfied
    → (is_empty installed ≡ false)
      × ((k : String) → In k (keys_of installed) → In k (keys_of blockers))
      × (is_empty gaps ≡ true)
unfolding ads_verdict
ads_verdict-pass installed blockers gaps facts r h s = elim (Bool-cases (is_empty installed)) [
  | inl t ↦ absurd (unassessed-absurd _ _ _ r (rw t at h) (passes-finds r s))
  | inr t ↦
      elim (Bool-cases
        (is_empty (sort_texts (missing_from (keys_of installed) (keys_of blockers))))) [
          | inr u ↦ absurd (failed-passes r (not_satisfied-status _ _ _ r (rw (t, u) at h)) s)
          | inl u ↦ elim (Bool-cases (is_empty gaps)) [
            | inr v ↦ absurd (unassessed-absurd _ _ _ r (rw (t, u, v) at h) (passes-finds r s))
            | inl v ↦
                (t, (λ k m. missing_from-none k (keys_of installed) (keys_of blockers) u m), v)
          ]
        ]
]

module _ (json_loads : String → Option Value) where
  judge_ads-pass :
      (bundle : FactBundle) (f : Fact) (r : CheckResult)
      → judge_ads json_loads bundle f ≡ ok r
      → r.status ≡ Status.satisfied
      → (rows : List Value) × (installed : Installed) × (rows_of f ≡ ok rows)
        × Seen bundle f installed
        × ((k : String) → In k (keys_of installed) → BlockedBy json_loads rows k)
  unfolding judge_ads
  judge_ads-pass bundle f r h s =
      let (rows, h1, k1) = >>=-eq_ok (rows_of f) _ h in
      let (installed, h2, k2) = >>=-eq_ok (installed_browsers bundle) _ k1 in
      let (blockers, h3, k3) = >>=-eq_ok (forced_blockers json_loads rows []) _ k2 in
      let (native, h4, k4) = >>=-eq_ok (native_settings rows []) _ k3 in
      let (gaps, h5, k5) = >>=-eq_ok (coverage_gap f bundle) _ k4 in
      let (t, u, v) = ads_verdict-pass installed blockers gaps _ r k5 s in
      let (a, b) = coverage_gap-none f bundle gaps h5 v in
      (
        rows,
        installed,
        h1,
        (a, b, h2, t),
        λ k m. elim (In-forced_blockers json_loads k rows [] blockers h3 (u k m)) [
          | inl w ↦ w
          | inr w ↦ absurd w
        ],
      )

  -- A pass of ism-1485 rests on policy that was read completely and with every hive loaded, and on an
  -- inventory with some browser; and each browser of the inventory has a row of policy that forces a
  -- known ad blocker. The native setting is no part of it.
  pub advertisements_not_processed-BlockedBy :
      (bundle : FactBundle) (params : Value) (history : FactHistory) (r : CheckResult)
      → advertisements_not_processed json_loads bundle params history ≡ ok r
      → r.status ≡ Status.satisfied
      → (f : Fact) × (rows : List Value) × (installed : Installed) × Whole bundle
          "windows.browsers.policy" f
        × (rows_of f ≡ ok rows)
        × Seen bundle f installed
        × ((k : String) → In k (keys_of installed) → BlockedBy json_loads rows k)
  unfolding advertisements_not_processed
  advertisements_not_processed-BlockedBy bundle params history r h s =
      let (f, w, j) =
        policy_fact-Whole bundle (judge_ads json_loads bundle) r h (passes-finds r s) in
      let (rows, installed, a, b, c) = judge_ads-pass bundle f r j s in
      (f, rows, installed, w, a, b, c)
