-- ===== src/Checks/Browsers/Npapi.antt =====
-- What a pass of ism-1486 rests on.
use mathlib.Core.Path.{subst}
use oscal_aap_ansible_playbo.Prelude.{
  ℕ, ◌≤◌, String, ◌≡◌, ◌≢◌, refl, sym, ap, ◌∙◌, inl, inr, Bool, true, false, ◌&&◌, Option, none,
  some, List, [], ◌∷◌, ◌++◌, In, is_empty, if◌then◌else◌, lookup, ltb, arith, Bool-cases,
  Option-cases,
}
use oscal_aap_ansible_playbo.Py.Value.{Value, num, py_eq, dict, or_else, truthy}
use oscal_aap_ansible_playbo.Py.Result.{Result, ok, >>=-eq_ok}
use oscal_aap_ansible_playbo.Py.Access.{get}
use oscal_aap_ansible_playbo.Contract.Terms.{Status, emits_finding}
use oscal_aap_ansible_playbo.Contract.Verdict.{CheckResult, Facts}
use oscal_aap_ansible_playbo.Contract.Bundle.{Fact, FactBundle, FactHistory, fact}
use oscal_aap_ansible_playbo.Checks.OsSupport.Evidence.{not_satisfied-status, unassessed-absurd}
use oscal_aap_ansible_playbo.Checks.Browsers.Inventory.{
  Installed, as_dict, installed_browsers, coverage_gap,
}
use oscal_aap_ansible_playbo.Checks.Browsers.Guards.{Whole, policy_fact-Whole, coverage_gap-none}
use oscal_aap_ansible_playbo.Checks.Browsers.Evidence.{Seen, passes-finds, failed-passes}
use oscal_aap_ansible_playbo.Checks.Browsers.Inventory.{major}
use oscal_aap_ansible_playbo.Checks.Browsers.Java.{
  npapi_removed_at, is_below, below_floor, below_threshold, is_ie_mode, java_verdict, judge_java,
  unread_surface, with_surface, java_not_processed,
}

-- A version that is known and not below the floor.
abbrev pub IsPast : ℕ → String → Type 0
IsPast floor version = (n : ℕ) × (major version ≡ some n) × (floor ≤ n)

is_below-IsPast :
    (floor : ℕ) (version : String) → is_below floor version ≡ false → IsPast floor version
unfolding is_below
is_below-IsPast floor version h = elim (Option-cases (major version)) [
  | inl n ↦ cc (rw (n, is_below) at h)
  | inr (m, n) ↦ (m, n, at_least m (rw (n, is_below) at h))
]
  where
    at_least : (m : ℕ) → ltb m floor ≡ false → floor ≤ m
    at_least m e = ground arith

below_floor-IsPast :
    (floor : ℕ) (entries : List (String × String)) (name version : String)
    → is_empty (below_floor floor entries) ≡ true
    → In (name, version) entries
    → IsPast floor version
unfolding below_floor
below_floor-IsPast floor [] name version h m = absurd m
below_floor-IsPast floor ((n, v) ∷ entries) name version h m =
    elim (Bool-cases (is_below floor v)) [
      | inl t ↦ cc (rw (t, below_floor) at h)
      | inr t ↦ elim m [
        | inl q ↦
            subst (IsPast floor) (sym (ap (λ (e : String × String). e.1) q))
              (is_below-IsPast floor v t)
        | inr k ↦ below_floor-IsPast floor entries name version (rw (t, below_floor) at h) k
      ]
    ]

-- Every entry of a browser that once took plug-ins is past the version that removed them.
abbrev pub AllPast : Installed → Type 0
AllPast installed =
    (browser : String) (entries : List (String × String)) (floor : ℕ) (name version : String)
    → In (browser, entries) installed
    → lookup browser npapi_removed_at ≡ some floor
    → In (name, version) entries
    → IsPast floor version

below_threshold-AllPast :
    (installed : Installed) → is_empty (below_threshold installed) ≡ true → AllPast installed
unfolding below_threshold
below_threshold-AllPast [] h browser entries floor name version m e n = absurd m
below_threshold-AllPast ((k, es) ∷ installed) h browser entries floor name version m e n =
    let (a, b) =
      append-empty (elim (lookup k npapi_removed_at) [ none ↦ [] | some x ↦ below_floor x es ])
        (below_threshold installed) h in
    elim m [
      | inr w ↦ below_threshold-AllPast installed b browser entries floor name version w e n
      | inl q ↦
          let p =
            sym (ap (λ (x : String × List (String × String)). lookup x.0 npapi_removed_at) q) ∙ e in
          below_floor-IsPast floor es name version (rw (p, below_threshold) at a)
            (subst (In (name, version)) (ap (λ (x : String × List (String × String)). x.1) q) n)
    ]
  where
    append-empty :
        (xs ys : List String)
        → is_empty (xs ++ ys) ≡ true
        → (is_empty xs ≡ true) × (is_empty ys ≡ true)
    append-empty [] ys h = (refl, h)
    append-empty (x ∷ xs) ys h = cc

java_verdict-pass :
    (installed : Installed) (level javasoft : Value) (coverage : Result (List String))
    (facts : Facts) (r : CheckResult)
    → java_verdict installed (below_threshold installed) level javasoft coverage facts ≡ ok r
    → r.status ≡ Status.satisfied
    → (is_empty installed ≡ false)
      × ((is_ie_mode level && truthy javasoft) ≡ false)
      × AllPast installed
      × ((gaps : List String) × (coverage ≡ ok gaps) × (is_empty gaps ≡ true))
unfolding java_verdict
java_verdict-pass installed level javasoft coverage facts r h s =
    elim (Bool-cases (is_empty installed)) [
      | inl t ↦ absurd (unassessed-absurd _ _ _ r (rw t at h) (passes-finds r s))
      | inr t ↦ elim (Bool-cases (is_ie_mode level && truthy javasoft)) [
        | inl u ↦ absurd (failed-passes r (not_satisfied-status _ _ _ r (rw (t, u) at h)) s)
        | inr u ↦ elim (Bool-cases (is_empty (below_threshold installed))) [
          | inr p ↦ absurd (unassessed-absurd _ _ _ r (rw (t, u, p) at h) (passes-finds r s))
          | inl p ↦
              let (gaps, g, q) = >>=-eq_ok coverage _ (rw (t, u, p) at h) in
              elim (Bool-cases (is_empty gaps)) [
                | inr v ↦ absurd (unassessed-absurd _ _ _ r (rw v at q) (passes-finds r s))
                | inl v ↦ (t, u, below_threshold-AllPast installed p, (gaps, g, v))
              ]
        ]
      ]
    ]

-- A level that is not that of IE mode is neither 1 nor 2.
is_ie_mode-levels :
    (level javasoft : Value)
    → (is_ie_mode level && truthy javasoft) ≡ false
    → truthy javasoft ≡ true
    → (level ≢ num 1) × (level ≢ num 2)
unfolding is_ie_mode py_eq
is_ie_mode-levels level javasoft u t = (λ q. off (num 1) q refl, λ q. off (num 2) q refl)
  where
    off : (v : Value) → level ≡ v → is_ie_mode v ≡ true → ⊥
    off v q w = cc (ap (λ x. is_ie_mode x && truthy javasoft) q, w, t, u)

-- What the surface says: the level of IE mode, and the runtimes of Java.
abbrev pub SurfaceIs : Fact → Value → Value → Type 0
SurfaceIs surface level javasoft =
    (get (or_else surface.value (dict [])) "ie_integration_level" ≡ ok level)
    × ((j : Value) × (get (or_else surface.value (dict [])) "javasoft" ≡ ok j)
        × (as_dict (or_else j (dict [])) ≡ ok javasoft))

judge_java-pass :
    (bundle : FactBundle) (f surface : Fact) (r : CheckResult)
    → judge_java bundle f surface ≡ ok r
    → r.status ≡ Status.satisfied
    → (installed : Installed) × (level : Value) × (javasoft : Value) × SurfaceIs surface level
        javasoft
      × Seen bundle f installed
      × ((is_ie_mode level && truthy javasoft) ≡ false)
      × AllPast installed
unfolding judge_java
judge_java-pass bundle f surface r h s =
    let (installed, h1, k1) = >>=-eq_ok (installed_browsers bundle) _ h in
    let (level, h2, k2) =
      >>=-eq_ok (get (or_else surface.value (dict [])) "ie_integration_level") _ k1 in
    let (j, h3, k3) = >>=-eq_ok (get (or_else surface.value (dict [])) "javasoft") _ k2 in
    let (javasoft, h4, k4) = >>=-eq_ok (as_dict (or_else j (dict []))) _ k3 in
    let (sites, h5, k5) = >>=-eq_ok (get (or_else surface.value (dict [])) "ie_site_list") _ k4 in
    let (t, u, p, (gaps, g, v)) =
      java_verdict-pass installed level javasoft (coverage_gap f bundle) _ r k5 s in
    let (a, b) = coverage_gap-none f bundle gaps g v in
    (installed, level, javasoft, (h2, (j, h3, h4)), (a, b, h1, t), u, p)

with_surface-Whole :
    (bundle : FactBundle) (o : Option Fact) (f : Fact) (r : CheckResult)
    → with_surface bundle o f ≡ ok r
    → emits_finding r.status ≡ true
    → (surface : Fact) × (o ≡ some surface)
      × (surface.partial ≡ false)
      × (judge_java bundle f surface ≡ ok r)
unfolding with_surface unread_surface
with_surface-Whole bundle none f r h e = absurd (unassessed-absurd _ _ _ r h e)
with_surface-Whole bundle (some surface) f r h e =
    let (p, q) = whole surface.partial h in (surface, refl, p, q)
  where
    whole :
        (b : Bool)
        → (if b then ok unread_surface else judge_java bundle f surface) ≡ ok r
        → (b ≡ false) × (judge_java bundle f surface ≡ ok r)
    whole true h = absurd (unassessed-absurd _ _ _ r h e)
    whole false h = (refl, h)

-- A pass of ism-1486 rests on policy and a surface of Java that were read completely, with every hive
-- loaded, and on an inventory with some browser. Where a runtime of Java is registered, the level of
-- Edge is neither 1 nor 2, those of IE mode; and every entry of Chrome and Firefox has a known version
-- that is past the removal of plug-ins.
pub java_not_processed-AllPast :
    (bundle : FactBundle) (params : Value) (history : FactHistory) (r : CheckResult)
    → java_not_processed bundle params history ≡ ok r
    → r.status ≡ Status.satisfied
    → (f : Fact) × (surface : Fact) × (installed : Installed) × (level : Value) × (javasoft : Value)
      × Whole bundle "windows.browsers.policy" f
      × Whole bundle "windows.browsers.java_surface" surface
      × SurfaceIs surface level javasoft
      × Seen bundle f installed
      × ((is_ie_mode level && truthy javasoft) ≡ false)
      × (truthy javasoft ≡ true → (level ≢ num 1) × (level ≢ num 2))
      × AllPast installed
unfolding java_not_processed
java_not_processed-AllPast bundle params history r h s =
    let (f, w, k) =
      policy_fact-Whole bundle (with_surface bundle (fact bundle "windows.browsers.java_surface")) r
        h (passes-finds r s) in
    let (surface, o, p, j) =
      with_surface-Whole bundle (fact bundle "windows.browsers.java_surface") f r k
        (passes-finds r s) in
    let (installed, level, javasoft, a, b, c, d) = judge_java-pass bundle f surface r j s in
    (
      f,
      surface,
      installed,
      level,
      javasoft,
      w,
      (o, p),
      a,
      b,
      c,
      is_ie_mode-levels level javasoft c,
      d,
    )
