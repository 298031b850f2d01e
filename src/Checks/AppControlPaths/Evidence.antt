-- ===== src/Checks/AppControlPaths/Evidence.antt =====
-- What a finding of ism-1870 rests on.
use mathlib.Core.Bool.{false≢true}
use oscal_aap_ansible_playbo.Prelude.{
  String, ◌<>◌, ◌≡◌, refl, sym, ap, ◌∙◌, ◌⊎◌, inl, inr, Bool, true, false, not, ◌||◌, ◌==◌, none,
  some, List, [], In, is_empty, Bool-cases, Option-cases, not-eq_false,
}
use oscal_aap_ansible_playbo.Py.Value.{Value, str, dict, list, or_else, to_text}
use oscal_aap_ansible_playbo.Py.Result.{ok, >>=-eq_ok, filter_map}
use oscal_aap_ansible_playbo.Py.Access.{get, get_or}
use oscal_aap_ansible_playbo.Contract.Terms.{
  Status, emits_finding, collection_error, partial_population,
}
use oscal_aap_ansible_playbo.Contract.Verdict.{CheckResult, unassessed}
use oscal_aap_ansible_playbo.Contract.Bundle.{Fact, FactBundle, FactHistory, fact, with_fact}
use oscal_aap_ansible_playbo.Checks.OsSupport.Evidence.{
  satisfied-status, not_satisfied-status, unassessed-absurd,
}
use oscal_aap_ansible_playbo.Checks.AppControl.State.{applocker_of, wdac_of, wdac_enforcing}
use oscal_aap_ansible_playbo.Checks.AppControlPaths.Rules.{Found, permitting_rules, rules_of}
use oscal_aap_ansible_playbo.Checks.AppControlPaths.Harmless.{Harmless, permitting_rules-Clean}
use oscal_aap_ansible_playbo.Checks.AppControlPaths.Permitted.{Permits, permitting_rules-permitted}
use oscal_aap_ansible_playbo.Checks.AppControlPaths.Reads.{Reading, read_paths, fact_guard}
use oscal_aap_ansible_playbo.Checks.AppControlPaths.Details.{unread_name}
use oscal_aap_ansible_playbo.Checks.AppControlPaths.{
  found_verdict, unwritable_verdict, paths_verdict, wdac_result, fails_on_admin, judge_paths,
  application_control_covers_user_writable_paths,
}

-- The search saw everything: the walk was not cut short and every probe could be read.
abbrev pub Complete : Reading → Type 0
Complete reading = (reading.truncated ≡ false) × ((reading.probes.unreadable == 0) ≡ true)

-- A pass: a complete search, under collections that enforce, where no location is writable or every
-- rule of every enforced collection is harmless. A failure: nothing enforces, or some rule of an
-- enforced collection lets a writable location through.
abbrev pub Supports : Reading → Bool → Status → Type 0
Supports reading fail_on_admin status =
    ((status ≡ Status.satisfied)
      × (is_empty reading.enforced ≡ false)
      × Complete reading
      × ((is_empty reading.probes.found ≡ true)
          ⊎ ((collection rule : Value) (rules : List Value)
              → In collection reading.enforced
              → rules_of collection ≡ ok rules
              → In rule rules
              → Harmless reading.windows_root fail_on_admin reading.probes.found collection rule)))
    ⊎ ((status ≡ Status.not_satisfied)
        × ((is_empty reading.enforced ≡ true)
            ⊎ ((collection : Value) × In collection reading.enforced
                × Permits reading.windows_root fail_on_admin reading.probes.found collection)))

Complete-if :
    (reading : Reading)
    → (reading.truncated || not (reading.probes.unreadable == 0)) ≡ false
    → Complete reading
Complete-if reading h = elim (Bool-cases reading.truncated) [
  | inl t ↦ absurd (false≢true (sym (rw t at h)))
  | inr t ↦ (t, not-eq_false _ (rw t at h))
]

module _ (reading : Reading) (r : CheckResult) (k : emits_finding r.status ≡ true) where
  unwritable_verdict-Complete :
      unwritable_verdict reading ≡ ok r → (r.status ≡ Status.satisfied) × Complete reading
  unfolding unwritable_verdict
  unwritable_verdict-Complete h =
      elim (Bool-cases (reading.truncated || not (reading.probes.unreadable == 0))) [
        | inl t ↦ absurd (unassessed-absurd _ _ _ r (rw t at h) k)
        | inr t ↦ (satisfied-status _ _ _ r (rw t at h), Complete-if reading t)
      ]

  found_verdict-cases :
      (found : Found)
      → found_verdict reading found ≡ ok r
      → ((r.status ≡ Status.satisfied)
          × Complete reading
          × (is_empty found.permitted ≡ true)
          × (is_empty found.unreadable_rules ≡ true))
        ⊎ ((r.status ≡ Status.not_satisfied) × (is_empty found.permitted ≡ false))
  unfolding found_verdict
  found_verdict-cases found h = elim (Bool-cases (is_empty found.permitted)) [
    | inr p ↦ elim (Bool-cases (is_empty found.unreadable_rules)) [
      | inl u ↦ inr (not_satisfied-status _ _ _ r (rw (p, u) at h), p)
      | inr u ↦ inr (not_satisfied-status _ _ _ r (rw (p, u) at h), p)
    ]
    | inl p ↦ elim (Bool-cases (is_empty found.unreadable_rules)) [
      | inr u ↦
          let (names, e, q) =
            >>=-eq_ok (filter_map unread_name found.unreadable_rules) _ (rw (p, u) at h) in
          absurd (unassessed-absurd _ _ _ r q k)
      | inl u ↦ elim (Bool-cases (reading.truncated || not (reading.probes.unreadable == 0))) [
        | inl t ↦ absurd (unassessed-absurd _ _ _ r (rw (p, u, t) at h) k)
        | inr t ↦ inl (satisfied-status _ _ _ r (rw (p, u, t) at h), Complete-if reading t, p, u)
      ]
    ]
  ]

  paths_verdict-Supports :
      (fail_on_admin : Bool)
      → paths_verdict reading fail_on_admin ≡ ok r
      → Supports reading fail_on_admin r.status
  unfolding paths_verdict
  paths_verdict-Supports fail_on_admin h = elim (Bool-cases (is_empty reading.enforced)) [
    | inl n ↦ inr (not_satisfied-status _ _ _ r (rw n at h), inl n)
    | inr n ↦ elim (Bool-cases (is_empty reading.probes.found)) [
      | inl p ↦ let (s, c) = unwritable_verdict-Complete (rw (n, p) at h) in inl (s, n, c, inl p)
      | inr p ↦
          let (found, e, q) =
            >>=-eq_ok
              (permitting_rules reading.enforced reading.probes.found reading.windows_root
                fail_on_admin)
              _ (rw (n, p) at h) in
          elim (found_verdict-cases found q) [
            | inl w ↦ inl (
              w.0,
              n,
              w.1,
              inr (λ collection rule rules m g l.
                  permitting_rules-Clean reading.windows_root fail_on_admin reading.probes.found
                    reading.enforced rules collection rule found e (w.2, w.3) m g l),
            )
            | inr w ↦ inr (
              w.0,
              inr (
                  permitting_rules-permitted reading.windows_root fail_on_admin reading.probes.found
                    reading.enforced found e (w.1)),
            )
          ]
    ]
  ]

-- The state and the paths, as the two facts have them, give the reading; WDAC does not enforce.
abbrev pub ReadAs : Value → Value → Value → Reading → Bool → Type 0
ReadAs params state value reading fail_on_admin =
    (applocker : Value) × (wdac : Value) × (root : Value) × (fails_on_admin params
      ≡ ok fail_on_admin)
    × (applocker_of state ≡ ok applocker)
    × (wdac_of state ≡ ok wdac)
    × (wdac_enforcing wdac ≡ ok false)
    × (get (or_else value (dict [])) "windows_root" ≡ ok root)
    × (read_paths applocker (or_else value (dict [])) (to_text (or_else root (str "C:\\Windows")))
        ≡ ok reading)

judge_paths-Supports :
    (params state value : Value) (r : CheckResult)
    → judge_paths params state value ≡ ok r
    → emits_finding r.status ≡ true
    → (reading : Reading) × (fail_on_admin : Bool) × ReadAs params state value reading fail_on_admin
      × Supports reading fail_on_admin r.status
unfolding judge_paths wdac_result
judge_paths-Supports params state value r h k =
    let (fail_on_admin, h1, k1) = >>=-eq_ok (fails_on_admin params) _ h in
    let (applocker, h2, k2) = >>=-eq_ok (applocker_of state) _ k1 in
    let (wdac, h3, k3) = >>=-eq_ok (wdac_of state) _ k2 in
    let (root, h4, k4) = >>=-eq_ok (get (or_else value (dict [])) "windows_root") _ k3 in
    let (wdac_on, h5, k5) = >>=-eq_ok (wdac_enforcing wdac) _ k4 in
    elim (Bool-cases wdac_on) [
      | inl t ↦
          let (running, h6, q) = >>=-eq_ok (get_or wdac "running" (list [])) _ (rw t at k5) in
          absurd (unassessed-absurd _ _ _ r q k)
      | inr t ↦
          let (reading, h6, q) =
            >>=-eq_ok
              (read_paths applocker (or_else value (dict []))
                (to_text (or_else root (str "C:\\Windows"))))
              _ (rw t at k5) in
          (
            reading,
            fail_on_admin,
            (applocker, wdac, root, h1, h2, h3, h5 ∙ ap ok t, h4, h6),
            paths_verdict-Supports reading r k fail_on_admin q,
          )
    ]

-- A fact that was collected, and completely.
abbrev pub Whole : FactBundle → String → Fact → Type 0
Whole bundle key f = (fact bundle key ≡ some f) × (f.partial ≡ false)

fact_guard-cases :
    (bundle : FactBundle) (key : String)
    → ((w : _) × (d : String) × (fact_guard bundle key ≡ some (unassessed w d [])))
      ⊎ ((f : Fact) × (fact_guard bundle key ≡ none) × Whole bundle key f)
unfolding fact_guard
fact_guard-cases bundle key = elim (Option-cases (fact bundle key)) [
  | inl e ↦
      inl
        (collection_error, "fact `" <> (key <> "` absent from the bundle"), rw (e, with_fact) refl)
  | inr (f, e) ↦ elim (Bool-cases f.partial) [
    | inl p ↦ inl (
      partial_population,
      "`"
          <> (key
              <> "` was collected but is incomplete; a host that could not be fully inspected is not a host without application control"),
      rw (e, with_fact, p) refl,
    )
    | inr p ↦ inr (f, rw (e, with_fact, p) refl, (e, p))
  ]
]

-- A finding of ism-1870 rests on two facts that were collected completely, and WDAC does not enforce.
-- A pass has collections that enforce and a search that saw everything, which found no writable
-- location, or else each rule of those collections is not counted: it is no allow rule; it tests no
-- path but has other conditions, which are not looked at; it applies to administrators alone, which
-- the parameters do not count, whatever it covers; or each location found is outside its paths or
-- inside an exception or a deny rule. A failure has no collection that enforces, or a rule of one that
-- lets a writable location through.
pub user_writable_paths-Supports :
    (bundle : FactBundle) (params : Value) (history : FactHistory) (r : CheckResult)
    → application_control_covers_user_writable_paths bundle params history ≡ ok r
    → emits_finding r.status ≡ true
    → (state : Fact) × (paths : Fact) × (reading : Reading) × (fail_on_admin : Bool) × Whole bundle
        "windows.appcontrol.state" state
      × Whole bundle "windows.appcontrol.writable_paths" paths
      × ReadAs params state.value paths.value reading fail_on_admin
      × Supports reading fail_on_admin r.status
unfolding application_control_covers_user_writable_paths
user_writable_paths-Supports bundle params history r h k =
    elim (fact_guard-cases bundle "windows.appcontrol.state") [
      | inl (w, d, e) ↦ absurd (unassessed-absurd w d [] r (rw e at h) k)
      | inr (state, e, s) ↦ elim (fact_guard-cases bundle "windows.appcontrol.writable_paths") [
        | inl (w, d, g) ↦ absurd (unassessed-absurd w d [] r (rw (e, g) at h) k)
        | inr (paths, g, p) ↦
            let (reading, fail_on_admin, x, y) =
              judge_paths-Supports params state.value paths.value r (rw (e, g, s.0, p.0) at h) k in
            (state, paths, reading, fail_on_admin, s, p, x, y)
      ]
    ]
