-- ===== src/Checks/Office/NoFalsePass.antt =====
-- What a pass of ism-1488 rests on: every in-scope application is blocked, in evidence that is whole.
use mathlib.Core.Path.{subst}
use mathlib.Core.Bool.{false≢true}
use oscal_aap_ansible_playbo.Prelude.{
  ◌≡◌, refl, ap, ◌∙◌, ◌⊎◌, inl, inr, Bool, true, false, none, some, List, [], ◌∷◌, ◌++◌, arith, In,
  is_empty, Bool-cases, if◌then◌else◌,
}
use oscal_aap_ansible_playbo.Py.Value.{Value, num, bool, truthy, py_eq}
use oscal_aap_ansible_playbo.Py.Result
use oscal_aap_ansible_playbo.Py.Result.{
  Result, ok, raise, ◌>>=◌, >>=-eq_ok, ok-injective, Returns_inv, filter_map,
}
use oscal_aap_ansible_playbo.Py.Result.Laws
use oscal_aap_ansible_playbo.Py.Access.{get, get_or, index, mem, difference, sorted}
use oscal_aap_ansible_playbo.Py.Access.Sets.{mem→Equal, In-to_set, In-difference_of, In-sorted_of}
use oscal_aap_ansible_playbo.Contract.Terms.{Status}
use oscal_aap_ansible_playbo.Contract.Verdict.{CheckResult, Facts, not_satisfied, unassessed}
use oscal_aap_ansible_playbo.Contract.Bundle.{Fact, FactBundle, FactHistory}
use oscal_aap_ansible_playbo.Checks.Office.Guard.{
  Guarded, go, stop, office_guard, after_guard, profiles_unloaded, in_scope_apps, rows_in_scope,
}
use oscal_aap_ansible_playbo.Checks.Office.Guarded.{Admits, Guards, Stopped, office_guard-Guards}
use oscal_aap_ansible_playbo.Checks.Office.InternetMacros.{
  block_key, blocks_machine, machine_app, machine_wide, is_user_row, row_of, row_failure, judge_app,
  judge_apps, macro_verdict, judge_policy, macro_internet_blocked,
}

-- A row of a user whose value is 1, delivered by Group Policy where that is required.
abbrev pub RowBlocks : Bool → Value → Type 0
RowBlocks require_gpo r =
    (v : Value) × (get r block_key ≡ ok v)
    × (py_eq v (num 1) ≡ true)
    × (require_gpo ≡ true → (g : Value) × (get r "gpo_delivered" ≡ ok g) × (truthy g ≡ true))

-- A row of the rows that blocks the application for the whole machine.
abbrev pub BlockedForMachine : Bool → List Value → Value → Type 0
BlockedForMachine require_gpo rows app =
    (r : Value) × In r rows
    × (blocks_machine require_gpo r ≡ ok true)
    × ((a : Value) × (index r "app" ≡ ok a) × (py_eq a app ≡ true))

-- Some row of a user is about the application, and each such row blocks.
abbrev pub BlockedForUsers : Bool → List Value → Value → Type 0
BlockedForUsers require_gpo rows app =
    ((r : Value) × In r rows × (is_user_row r ≡ ok true) × (row_of app r ≡ ok true))
    × ((r : Value)
        → In r rows
        → is_user_row r ≡ ok true
        → row_of app r ≡ ok true
        → RowBlocks require_gpo r)

never_none : (m : Result Value) (f : Value → Value) → (m >>= λ x. ok (some (f x))) ≡ ok none → ⊥
never_none (ok x) f h = cc
never_none (raise e) f h = cc

-- The test of delivery, where it was made and gave no failure.
was_delivered :
    (r : Value) (f : Value → Value)
    → (get r "gpo_delivered" >>= λ g.
        if truthy g then ok none else (get r "sid" >>= λ sid. ok (some (f sid))))
      ≡ ok none
    → (g : Value) × (get r "gpo_delivered" ≡ ok g) × (truthy g ≡ true)
was_delivered r f h =
    let (g, e, k) = >>=-eq_ok (get r "gpo_delivered") _ h in
    elim (Bool-cases (truthy g)) [
      | inl t ↦ (g, e, t)
      | inr t ↦ absurd (never_none (get r "sid") f (rw t at k))
    ]

row_failure-none : (gpo : Bool) (app r : Value) → row_failure gpo app r ≡ ok none → RowBlocks gpo r
unfolding row_failure
row_failure-none gpo app r h =
    let (v, e, k) = >>=-eq_ok (get r block_key) _ h in
    elim (Bool-cases (py_eq v (num 1))) [
      | inr t ↦ absurd (never_none (get r "sid") _ (rw t at k))
      | inl t ↦ (v, e, t, λ q. was_delivered r _ (rw (t, q) at k))
    ]

-- The judgement of one application whose rows fail nowhere, and of which there are some.
Passed : Bool → List Value → Value → Type 0
Passed gpo user_rows app =
    (one : List Value × List Value) × (judge_app gpo user_rows app ≡ ok one)
    × (is_empty one.0 ≡ true)
    × (is_empty one.1 ≡ true)

append_empty :
    (xs ys : List Value) → is_empty (xs ++ ys) ≡ true → (is_empty xs ≡ true) × (is_empty ys ≡ true)
append_empty [] ys h = (refl, h)
append_empty (x ∷ xs) ys h = cc

judge_apps-Passed :
    (gpo : Bool) (user_rows apps : List Value) (judged : List Value × List Value) (app : Value)
    → judge_apps gpo user_rows apps ≡ ok judged
    → is_empty judged.0 ≡ true
    → is_empty judged.1 ≡ true
    → In app apps
    → Passed gpo user_rows app
unfolding judge_apps Passed
judge_apps-Passed gpo user_rows [] judged app h f n m = absurd m
judge_apps-Passed gpo user_rows (a ∷ apps) judged app h f n m =
    let (one, e, k) = >>=-eq_ok (judge_app gpo user_rows a) _ h in
    let (rest, g, q) = >>=-eq_ok (judge_apps gpo user_rows apps) _ k in
    let w = ok-injective _ _ q in
    let (f0, f1) =
      append_empty one.0 rest.0 (ap (λ (p : List Value × List Value). is_empty p.0) w ∙ f) in
    let (n0, n1) =
      append_empty one.1 rest.1 (ap (λ (p : List Value × List Value). is_empty p.1) w ∙ n) in
    elim m [
      | inl p ↦ (one, ap (judge_app gpo user_rows) p ∙ e, f0, n0)
      | inr i ↦ judge_apps-Passed gpo user_rows apps rest app g f1 n1 i
    ]

first_of : (xs : List Value) → is_empty xs ≡ false → (x : Value) × In x xs
first_of [] h = cc
first_of (x ∷ xs) h = (x, inl refl)

module _ (gpo : Bool) (rows user_rows : List Value) (app : Value)
    (users : Result.filter is_user_row rows ≡ ok user_rows) where
  about_app :
      (app_rows : List Value)
      → Result.filter (row_of app) user_rows ≡ ok app_rows
      → is_empty app_rows ≡ false
      → (failing : List Value) → filter_map (row_failure gpo app) app_rows ≡ ok failing
      → is_empty failing ≡ true
      → BlockedForUsers gpo rows app
  about_app app_rows h ne failing g t =
      let (r, m) = first_of app_rows ne in
      let (n, q) = Laws.In-filter (row_of app) r user_rows app_rows h m in
      let (i, u) = Laws.In-filter is_user_row r rows user_rows users n in
      (
        (r, i, u, q),
        λ s j v w. row_failure-none gpo app s (
            Laws.filter_map-empty (row_failure gpo app) s app_rows failing g t (
              Laws.In-filter_of (row_of app) s user_rows app_rows h
                (Laws.In-filter_of is_user_row s rows user_rows users j v) w)),
      )

  Passed-BlockedForUsers : Passed gpo user_rows app → BlockedForUsers gpo rows app
  unfolding Passed judge_app
  Passed-BlockedForUsers (one, h, f, n) =
      let (app_rows, e, k) = >>=-eq_ok (Result.filter (row_of app) user_rows) _ h in
      elim (Bool-cases (is_empty app_rows)) [
        | inl t ↦ absurd (
            false≢true (
              ap (λ (p : List Value × List Value). is_empty p.1) (ok-injective _ _ (rw t at k))
              ∙ n))
        | inr t ↦
            let (failing, g, q) =
              >>=-eq_ok (filter_map (row_failure gpo app) app_rows) _ (rw t at k) in
            about_app app_rows e t failing g
              (ap (λ (p : List Value × List Value). is_empty p.0) (ok-injective _ _ q) ∙ f)
      ]

machine_app-some :
    (gpo : Bool) (r a : Value)
    → machine_app gpo r ≡ ok (some a)
    → (blocks_machine gpo r ≡ ok true) × (index r "app" ≡ ok a)
unfolding machine_app
machine_app-some gpo r a h = let (b, e, k) = >>=-eq_ok (blocks_machine gpo r) _ h in blocked b e k
  where
    blocked :
        (b : Bool)
        → blocks_machine gpo r ≡ ok b
        → (elim b [ true ↦ (index r "app" >>= λ app. ok (some app)) | false ↦ ok none ])
          ≡ ok (some a)
        → (blocks_machine gpo r ≡ ok true) × (index r "app" ≡ ok a)
    blocked true e k = let (c, f, q) = >>=-eq_ok (index r "app") _ k in (e, f ∙ cc q)
    blocked false e k = cc

machine_wide-Blocked :
    (gpo : Bool) (rows blocked : List Value) (app : Value)
    → machine_wide gpo rows ≡ ok blocked
    → mem app blocked ≡ true
    → BlockedForMachine gpo rows app
unfolding machine_wide
machine_wide-Blocked gpo rows blocked app h t =
    let (apps, e, k) = >>=-eq_ok (filter_map (machine_app gpo) rows) _ h in
    let (b, m, q) = mem→Equal app blocked t in
    let (r, n, w) =
      Laws.In-filter_map (machine_app gpo) b rows apps e (In-to_set b apps blocked k m) in
    let (u, i) = machine_app-some gpo r b w in (r, n, u, (b, i, q))

-- A pass of the last ladder means that nothing failed and that nothing was unseen.
macro_verdict-satisfied :
    (failing no_evidence unloaded : List Value) (facts : Facts) (r : CheckResult)
    → macro_verdict failing no_evidence unloaded facts ≡ ok r
    → r.status ≡ Status.satisfied
    → (is_empty failing ≡ true) × (is_empty no_evidence ≡ true) × (is_empty unloaded ≡ true)
unfolding macro_verdict unassessed not_satisfied
macro_verdict-satisfied failing no_evidence unloaded facts r h s = ground arith

-- The evidence on which a pass rests.
abbrev pub PolicyEvidence : Value → Fact → Type 0
PolicyEvidence params policy =
    (apps : List Value) × (rows : List Value) × (gpo : Value) × (in_scope_apps params ≡ ok apps)
    × (rows_in_scope apps policy ≡ ok rows)
    × (get_or params "require_gpo_delivery" (bool true) ≡ ok gpo)
    × (profiles_unloaded policy ≡ ok [])
    × ((app : Value)
        → In app apps
        → BlockedForMachine (truthy gpo) rows app ⊎ BlockedForUsers (truthy gpo) rows app)

empty-eq_nil : (xs : List Value) → is_empty xs ≡ true → xs ≡ []
empty-eq_nil [] h = refl
empty-eq_nil (x ∷ xs) h = cc

judge_policy-evidence :
    (params : Value) (policy : Fact) (r : CheckResult)
    → judge_policy params policy ≡ ok r
    → r.status ≡ Status.satisfied
    → PolicyEvidence params policy
unfolding judge_policy
judge_policy-evidence params policy r h s =
    let (apps, h1, k1) = >>=-eq_ok (in_scope_apps params) _ h in
    let (gpo, h2, k2) = >>=-eq_ok (get_or params "require_gpo_delivery" (bool true)) _ k1 in
    let (rows, h3, k3) = >>=-eq_ok (rows_in_scope apps policy) _ k2 in
    let (blocked, h4, k4) = >>=-eq_ok (machine_wide (truthy gpo) rows) _ k3 in
    let (user_rows, h5, k5) = >>=-eq_ok (Result.filter is_user_row rows) _ k4 in
    let (open_apps, h6, k6) = >>=-eq_ok (sorted (difference apps blocked)) _ k5 in
    let (judged, h7, k7) = >>=-eq_ok (judge_apps (truthy gpo) user_rows open_apps) _ k6 in
    let (unloaded, h8, k8) = >>=-eq_ok (profiles_unloaded policy) _ k7 in
    let (shown, h9, k9) = >>=-eq_ok (sorted blocked) _ k8 in
    let (total, h10, k10) = >>=-eq_ok (get policy.meta "profiles_total") _ k9 in
    let (loaded, h11, k11) = >>=-eq_ok (get policy.meta "profiles_loaded") _ k10 in
    let (f, n, u) = macro_verdict-satisfied judged.0 judged.1 unloaded _ r k11 s in
    (
      apps,
      rows,
      gpo,
      h1,
      h3,
      h2,
      h8 ∙ ap ok (empty-eq_nil unloaded u),
      λ app m. elim (In-difference_of app apps blocked m) [
        | inl b ↦ inl (machine_wide-Blocked (truthy gpo) rows blocked app h4 b)
        | inr d ↦ inr (
            Passed-BlockedForUsers (truthy gpo) rows user_rows app h5 (
              judge_apps-Passed (truthy gpo) user_rows open_apps judged app h7 f n
                (In-sorted_of app (difference apps blocked) open_apps h6 d)))
      ],
    )

Stopped-no_pass : (r : CheckResult) → Stopped r → r.status ≡ Status.satisfied → ⊥
Stopped-no_pass r (w, inl e) s = cc
Stopped-no_pass r (w, inr e) s = cc

guarded_evidence :
    (bundle : FactBundle) (params : Value) (g : Guarded) (r : CheckResult)
    → Guards bundle g
    → after_guard g (judge_policy params) ≡ ok r
    → r.status ≡ Status.satisfied
    → (policy : Fact) × Admits bundle policy × PolicyEvidence params policy
guarded_evidence bundle params (go policy) r h e s =
    (policy, h, judge_policy-evidence params policy r e s)
guarded_evidence bundle params (stop q) r h e s =
    absurd (Stopped-no_pass r (subst Stopped (ok-injective q r e) h) s)

-- ism-1488 passes only on whole evidence: the inventory and the policy were read completely, Office is
-- installed, every user's hive was loaded, and each application in scope is blocked for the machine,
-- or has rows of users and is blocked in each of them, by Group Policy where that is required.
pub macro_internet_blocked-evidence :
    (bundle : FactBundle) (params : Value) (history : FactHistory) (r : CheckResult)
    → macro_internet_blocked bundle params history ≡ ok r
    → r.status ≡ Status.satisfied
    → (policy : Fact) × Admits bundle policy × PolicyEvidence params policy
unfolding macro_internet_blocked
macro_internet_blocked-evidence bundle params history r h s =
    let (g, e, k) = >>=-eq_ok (office_guard bundle) _ h in
    guarded_evidence bundle params g r (Returns_inv (office_guard-Guards bundle) g e) k s
