-- ===== src/Checks/Office/Evidence.antt =====
-- What a pass of ism-1489, ism-1671 and ism-1672 rests on.
use mathlib.Core.Path.{subst}
use mathlib.Core.Bool.{false≢true}
use oscal_aap_ansible_playbo.Prelude.{
  String, ◌≡◌, refl, sym, ap, ◌∙◌, ◌⊎◌, inl, inr, Bool, true, false, none, some, List, [], ◌∷◌,
  Bool-cases, In, is_empty, if◌then◌else◌,
}
use oscal_aap_ansible_playbo.Py.Value.{Value, truthy, num, is_none, py_eq}
use oscal_aap_ansible_playbo.Py.Result.{
  Result, ok, ◌>>=◌, >>=-eq_ok, ok-injective, Returns_inv, filter_map,
}
use oscal_aap_ansible_playbo.Py.Result.Laws
use oscal_aap_ansible_playbo.Py.Access.{get, get_or, to_set, difference, sorted}
use oscal_aap_ansible_playbo.Py.Access.Sets.{In-difference_of, In-sorted_of, In-to_set, mem→Equal}
use oscal_aap_ansible_playbo.Contract.Terms.{Status, Confidence}
use oscal_aap_ansible_playbo.Contract.Verdict.{CheckResult, Facts, not_satisfied, unassessed}
use oscal_aap_ansible_playbo.Contract.Bundle.{Fact, FactBundle, FactHistory}
use oscal_aap_ansible_playbo.Checks.Office.Guard.{
  Guarded, go, stop, office_guard, after_guard, profiles_unloaded, coverage_gap, in_scope_apps,
  rows_in_scope,
}
use oscal_aap_ansible_playbo.Checks.Office.Guarded.{Admits, Guards, office_guard-Guards}
use oscal_aap_ansible_playbo.Checks.Office.{
  unlocked_row, locked_verdict, judge_locked, macro_settings_locked, enabled_row, disabled_verdict,
  judge_disabled, macros_disabled_without_business_need, apps_of, app_with_value,
}

-- A pass of a check behind the guard is a pass of its body on a policy that the guard admits.
guarded_pass :
    (bundle : FactBundle) (k : Fact → Result CheckResult) (r : CheckResult)
    → (office_guard bundle >>= λ g. after_guard g k) ≡ ok r
    → r.status ≡ Status.satisfied
    → (policy : Fact) × Admits bundle policy × (k policy ≡ ok r)
guarded_pass bundle k r h s =
    let (g, e, q) = >>=-eq_ok (office_guard bundle) _ h in
    on g (Returns_inv (office_guard-Guards bundle) g e) q
  where
    on :
        (g : Guarded)
        → Guards bundle g
        → after_guard g k ≡ ok r
        → (policy : Fact) × Admits bundle policy × (k policy ≡ ok r)
    on (go policy) w q = (policy, w, q)
    on (stop t) (w, inl e) q = let u = ok-injective t r q in cc
    on (stop t) (w, inr e) q = let u = ok-injective t r q in cc

-- `satisfied` is the only way to a pass.
not_satisfied-absurd :
    (d : String) (fs : Facts) (c : Confidence) (r : CheckResult)
    → not_satisfied d fs c ≡ ok r
    → r.status ≡ Status.satisfied
    → ⊥
unfolding not_satisfied
not_satisfied-absurd d [] c r h s = cc
not_satisfied-absurd d (f ∷ fs) c r h s = cc

unassessed-absurd :
    (w : _) (d : String) (fs : Facts) (r : CheckResult)
    → ok (unassessed w d fs) ≡ ok r
    → r.status ≡ Status.satisfied
    → ⊥
unfolding unassessed
unassessed-absurd w d fs r h s = cc

coverage_gap-none :
    (unloaded apps : List Value)
    → is_empty (coverage_gap unloaded apps) ≡ true
    → (unloaded ≡ []) × (apps ≡ [])
unfolding coverage_gap
coverage_gap-none [] [] h = (refl, refl)
coverage_gap-none [] (a ∷ apps) h = cc
coverage_gap-none (u ∷ unloaded) [] h = cc
coverage_gap-none (u ∷ unloaded) (a ∷ apps) h = cc

empty_nil : (xs : List Value) → is_empty xs ≡ true → xs ≡ []
empty_nil [] h = refl
empty_nil (x ∷ xs) h = cc

locked_verdict-pass :
    (u l n : List Value) (fs : Facts) (r : CheckResult)
    → locked_verdict u l n fs ≡ ok r
    → r.status ≡ Status.satisfied
    → (is_empty u ≡ true) × (l ≡ []) × (n ≡ [])
unfolding locked_verdict
locked_verdict-pass u l n fs r h s = elim (Bool-cases (is_empty u)) [
  | inr e ↦ absurd (not_satisfied-absurd _ _ _ r (rw e at h) s)
  | inl e ↦ elim (Bool-cases (is_empty (coverage_gap l n))) [
    | inr g ↦ absurd (unassessed-absurd _ _ _ r (rw (e, g) at h) s)
    | inl g ↦ let (a, b) = coverage_gap-none l n g in (e, a, b)
  ]
]

disabled_verdict-pass :
    (q : Value) (u l n : List Value) (fs : Facts) (r : CheckResult)
    → disabled_verdict q u l n fs ≡ ok r
    → r.status ≡ Status.satisfied
    → (is_empty u ≡ true) × (l ≡ []) × (n ≡ [])
unfolding disabled_verdict
disabled_verdict-pass q u l n fs r h s = elim (Bool-cases (is_empty u)) [
  | inr e ↦ absurd (not_satisfied-absurd _ _ _ r (rw e at h) s)
  | inl e ↦ elim (Bool-cases (is_empty (coverage_gap l n))) [
    | inr g ↦ absurd (unassessed-absurd _ _ _ r (rw (e, g) at h) s)
    | inl g ↦ let (a, b) = coverage_gap-none l n g in (e, a, b)
  ]
]

-- A row of the rows that is about the application, and that has the property.
abbrev pub HasRow : (Value → Type 0) → List Value → Value → Type 0
HasRow P rows app =
    (r : Value) × In r rows × ((a : Value) × (get r "app" ≡ ok a) × (py_eq a app ≡ true)) × P r

-- The evidence is whole: the rows of the applications in scope were read, no hive is left out, every
-- row has the first property, and every application has a row with the second.
abbrev pub Whole : (Value → Type 0) → (Value → Type 0) → Value → Fact → Type 0
Whole P Q params policy =
    (apps : List Value) × (rows : List Value) × (in_scope_apps params ≡ ok apps)
    × (rows_in_scope apps policy ≡ ok rows)
    × (profiles_unloaded policy ≡ ok [])
    × ((r : Value) → In r rows → P r)
    × ((app : Value) → In app apps → HasRow Q rows app)

-- The row is delivered by Group Policy.
abbrev pub Delivered : Value → Type 0
Delivered r = (g : Value) × (get r "gpo_delivered" ≡ ok g) × (truthy g ≡ true)

unlocked_row-none : (r : Value) → unlocked_row r ≡ ok none → Delivered r
unfolding unlocked_row
unlocked_row-none r h =
    let (g, e, k) = >>=-eq_ok (get r "gpo_delivered") _ h in
    elim (Bool-cases (truthy g)) [
      | inl t ↦ (g, e, t)
      | inr t ↦
          let (a, h1, k1) = >>=-eq_ok (get r "app") _ (rw t at k) in
          let (b, h2, k2) = >>=-eq_ok (get r "scope") _ k1 in
          let (c, h3, k3) = >>=-eq_ok (get r "sid") _ k2 in absurd (never k3)
    ]
  where
    never : {x : Value} → ok (some x) ≡ ok none → ⊥
    never q = cc

-- Nothing is left of the difference, so every application is in the set.
covered :
    (apps seen left : List Value) (app : Value)
    → sorted (difference apps seen) ≡ ok left
    → left ≡ []
    → In app apps
    → (a : Value) × In a seen × (py_eq a app ≡ true)
covered apps seen left app h q m = elim (In-difference_of app apps seen m) [
  | inl b ↦ mem→Equal app seen b
  | inr d ↦ absurd (subst (In app) q (In-sorted_of app (difference apps seen) left h d))
]

In-apps_of :
    (rows listed : List Value) (a : Value)
    → apps_of rows ≡ ok listed
    → In a listed
    → (r : Value) × In r rows × (get r "app" ≡ ok a)
unfolding apps_of
In-apps_of [] listed a h m = absurd (subst (In a) (sym (ok-injective _ _ h)) m)
In-apps_of (r ∷ rows) listed a h m =
    let (app, h1, k1) = >>=-eq_ok (get r "app") _ h in
    let (rest, h2, k2) = >>=-eq_ok (apps_of rows) _ k1 in
    elim (subst (In a) (sym (ok-injective _ _ k2)) m) [
      | inl q ↦ (r, inl refl, h1 ∙ ap ok (sym q))
      | inr n ↦ let (s, i, e) = In-apps_of rows rest a h2 n in (s, inr i, e)
    ]

-- The row carries a value; where it carries one, it is the required one.
abbrev pub Valued : Value → Type 0
Valued r = (v : Value) × (get r "vbawarnings" ≡ ok v) × (is_none v ≡ false)

abbrev pub AsRequired : Value → Value → Type 0
AsRequired required r =
    (v : Value) × (get r "vbawarnings" ≡ ok v) × ((is_none v ≡ true) ⊎ (py_eq v required ≡ true))

enabled_row-none : (required r : Value) → enabled_row required r ≡ ok none → AsRequired required r
unfolding enabled_row
enabled_row-none required r h =
    let (v, e, k) = >>=-eq_ok (get r "vbawarnings") _ h in
    elim (Bool-cases (is_none v)) [
      | inl t ↦ (v, e, inl t)
      | inr t ↦ elim (Bool-cases (py_eq v required)) [
        | inl u ↦ (v, e, inr u)
        | inr u ↦
            let (a, h1, k1) = >>=-eq_ok (get r "app") _ (rw (t, u) at k) in
            let (b, h2, k2) = >>=-eq_ok (get r "scope") _ k1 in
            let (c, h3, k3) = >>=-eq_ok (get r "sid") _ k2 in absurd (never k3)
      ]
    ]
  where
    never : {x : Value} → ok (some x) ≡ ok none → ⊥
    never q = cc

app_with_value-some :
    (r a : Value) → app_with_value r ≡ ok (some a) → Valued r × (get r "app" ≡ ok a)
unfolding app_with_value
app_with_value-some r a h =
    let (v, e, k) = >>=-eq_ok (get r "vbawarnings") _ h in
    elim (Bool-cases (is_none v)) [
      | inl t ↦ absurd (never (rw t at k))
      | inr t ↦
          let (b, h1, k1) = >>=-eq_ok (get r "app") _ (rw t at k) in ((v, e, t), h1 ∙ same b k1)
    ]
  where
    never : ok none ≡ ok (some a) → ⊥
    never q = cc

    same : (b : Value) → ok (some b) ≡ ok (some a) → ok b ≡ ok a
    same b q = cc

judge_locked-Whole :
    (params : Value) (policy : Fact) (r : CheckResult)
    → judge_locked params policy ≡ ok r
    → r.status ≡ Status.satisfied
    → Whole Delivered Delivered params policy
unfolding judge_locked
judge_locked-Whole params policy r h s =
    let (apps, h1, k1) = >>=-eq_ok (in_scope_apps params) _ h in
    let (rows, h2, k2) = >>=-eq_ok (rows_in_scope apps policy) _ k1 in
    let (unlocked, h3, k3) = >>=-eq_ok (filter_map unlocked_row rows) _ k2 in
    let (listed, h4, k4) = >>=-eq_ok (apps_of rows) _ k3 in
    let (seen, h5, k5) = >>=-eq_ok (to_set listed) _ k4 in
    let (left, h6, k6) = >>=-eq_ok (sorted (difference apps seen)) _ k5 in
    let (shown, h7, k7) = >>=-eq_ok (sorted seen) _ k6 in
    let (unloaded, h8, k8) = >>=-eq_ok (profiles_unloaded policy) _ k7 in
    let (u, l, n) = locked_verdict-pass unlocked unloaded left _ r k8 s in
    let each = λ (row : Value) (m : In row rows).
      unlocked_row-none row (Laws.filter_map-empty unlocked_row row rows unlocked h3 u m) in
    (
      apps,
      rows,
      h1,
      h2,
      h8 ∙ ap ok l,
      each,
      λ app m.
          let (a, i, e) = covered apps seen left app h6 n m in
          let (row, j, g) = In-apps_of rows listed a h4 (In-to_set a listed seen h5 i) in
          (row, j, (a, g, e), each row j),
    )

if-eq_ok :
    (b : Bool) (x y : Result CheckResult) (r : CheckResult)
    → (if b then x else y) ≡ ok r
    → ((b ≡ true) × (x ≡ ok r)) ⊎ ((b ≡ false) × (y ≡ ok r))
if-eq_ok true x y r h = inl (refl, h)
if-eq_ok false x y r h = inr (refl, h)

judge_disabled-Whole :
    (params : Value) (policy : Fact) (r : CheckResult)
    → judge_disabled params policy ≡ ok r
    → r.status ≡ Status.satisfied
    → (required : Value) × (get_or params "required_vbawarnings" (num 4) ≡ ok required)
      × Whole (AsRequired required) Valued params policy
unfolding judge_disabled
judge_disabled-Whole params policy r h s =
    let (apps, h1, k1) = >>=-eq_ok (in_scope_apps params) _ h in
    let (required, h2, k2) = >>=-eq_ok (get_or params "required_vbawarnings" (num 4)) _ k1 in
    let (rows, h3, k3) = >>=-eq_ok (rows_in_scope apps policy) _ k2 in
    let (enabled, h4, k4) = >>=-eq_ok (filter_map (enabled_row required) rows) _ k3 in
    let (listed, h5, k5) = >>=-eq_ok (filter_map app_with_value rows) _ k4 in
    let (seen, h6, k6) = >>=-eq_ok (to_set listed) _ k5 in
    let (left, h7, k7) = >>=-eq_ok (sorted (difference apps seen)) _ k6 in
    elim (if-eq_ok (is_empty enabled) _ _ r k7) [
      | inr (e, q) ↦
          let (u, l, n) = disabled_verdict-pass required enabled [] left _ r q s in
          absurd (false≢true (sym e ∙ u))
      | inl (e, q) ↦
          let (unloaded, h8, k8) = >>=-eq_ok (profiles_unloaded policy) _ q in
          let (u, l, n) = disabled_verdict-pass required enabled unloaded left _ r k8 s in
          (
            required,
            h2,
            (
              apps,
              rows,
              h1,
              h3,
              h8 ∙ ap ok l,
              λ row m.
                  enabled_row-none required row
                    (Laws.filter_map-empty (enabled_row required) row rows enabled h4 u m),
              λ app m.
                  let (a, i, q) = covered apps seen left app h7 n m in
                  let (row, j, g) =
                    Laws.In-filter_map app_with_value a rows listed h5
                      (In-to_set a listed seen h6 i) in
                  let (w, z) = app_with_value-some row a g in (row, j, (a, z, q), w),
            ),
          )
    ]

-- ism-1489 passes only on whole evidence: the inventory and the policy were read completely, every hive
-- was loaded, each row of an application in scope is delivered by Group Policy, and each such
-- application has a row.
pub macro_settings_locked-Whole :
    (bundle : FactBundle) (params : Value) (history : FactHistory) (r : CheckResult)
    → macro_settings_locked bundle params history ≡ ok r
    → r.status ≡ Status.satisfied
    → (policy : Fact) × Admits bundle policy × Whole Delivered Delivered params policy
unfolding macro_settings_locked
macro_settings_locked-Whole bundle params history r h s =
    let (policy, a, k) = guarded_pass bundle (judge_locked params) r h s in
    (policy, a, judge_locked-Whole params policy r k s)

-- ism-1671 passes only on whole evidence: the inventory and the policy were read completely, every hive
-- was loaded, each row of an application in scope carries the required
-- value or no value, and each such application has a row that carries one.
pub macros_disabled-Whole :
    (bundle : FactBundle) (params : Value) (history : FactHistory) (r : CheckResult)
    → macros_disabled_without_business_need bundle params history ≡ ok r
    → r.status ≡ Status.satisfied
    → (policy : Fact) × Admits bundle policy
      × ((required : Value) × (get_or params "required_vbawarnings" (num 4) ≡ ok required)
          × Whole (AsRequired required) Valued params policy)
unfolding macros_disabled_without_business_need
macros_disabled-Whole bundle params history r h s =
    let (policy, a, k) = guarded_pass bundle (judge_disabled params) r h s in
    (policy, a, judge_disabled-Whole params policy r k s)
