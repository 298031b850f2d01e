-- ===== src/Checks/AppControl/Claims.antt =====
-- What the application control checks may and may not claim.
use oscal_aap_ansible_playbo.Prelude.{
  String, ◌≡◌, refl, ap, ◌∙◌, ◌≢◌, ◌⊎◌, inl, inr, Bool, true, false, not, Option, none, some, List,
  [], ◌∷◌, In, is_empty, Bool-cases, if◌then◌else◌, str_eq, str_eq→eq, not-eq_false,
}
use oscal_aap_ansible_playbo.Prelude.Int.{ℤ, pos, ltb_ℤ}
use oscal_aap_ansible_playbo.Py.Value.{Value, num, list}
use oscal_aap_ansible_playbo.Py.Result.{
  Result, ok, raise, ◌>>=◌, >>=-eq_ok, ok-injective, Returns, returned, raised, Returns-bind,
  Returns_inv, returns_rules, filter_map,
}
use oscal_aap_ansible_playbo.Py.Result.Laws
use oscal_aap_ansible_playbo.Py.Access.{get, get_or, iterate_or_empty, to_int}
use oscal_aap_ansible_playbo.Contract.Terms.{Status, UnassessedReason, Confidence}
use oscal_aap_ansible_playbo.Contract.Verdict.{CheckResult, Facts, not_satisfied, unassessed}
use oscal_aap_ansible_playbo.Contract.Evidence.{
  not_satisfied-IsWellFormed, satisfied-IsWellFormed, IsWellFormed, unassessed-IsWellFormed,
}
use oscal_aap_ansible_playbo.Contract.Bundle.{Fact, FactBundle, FactHistory, fact, with_fact}
use oscal_aap_ansible_playbo.Checks.AppControl.State.{
  Guarded, go, stop, after_guard, state_guard, applocker_of, wdac_of, wdac_enforcing,
  enforced_collections, enforces, mode_of, is_usable, enforced_type, type_of, add_texts, audit_only,
}
use oscal_aap_ansible_playbo.Checks.AppControl.{
  types_verdict, judge_types, application_control_covers_required_file_types, implemented_verdict,
  joined, judge_implemented, shown, application_control_implemented,
}

abbrev NoPass : CheckResult → Type 0
NoPass r = (r.status ≢ Status.satisfied) × IsWellFormed r

unassessed-NoPass : (w : UnassessedReason) (d : String) (fs : Facts) → NoPass (unassessed w d fs)
unfolding unassessed
unassessed-NoPass w d fs = ((λ e. cc), unassessed-IsWellFormed w d fs)

not_satisfied-NoPass :
    (d : String) (fs : Facts) (c : Confidence) → Returns NoPass (not_satisfied d fs c)
unfolding not_satisfied
not_satisfied-NoPass d [] c = raised
not_satisfied-NoPass d (f ∷ fs) c = returned ((λ e. cc), ((λ e. cc), refl, (λ e. cc)))

ruleset no_pass = (returns_rules, unassessed-NoPass, not_satisfied-NoPass)

types_verdict-NoPass : (enforced : List String) → Returns NoPass (types_verdict enforced)
unfolding types_verdict
types_verdict-NoPass enforced = search no_pass depth 8

judge_types-NoPass : (f : Fact) → Returns NoPass (judge_types f)
unfolding judge_types
judge_types-NoPass f = search (no_pass, types_verdict-NoPass) depth 12

-- The state fact was read, is complete, and carries an observation.
abbrev pub Admits : FactBundle → Fact → Type 0
Admits bundle f =
    (fact bundle "windows.appcontrol.state" ≡ some f)
    × (is_usable f.value ≡ true)
    × (f.partial ≡ false)

abbrev Guards : FactBundle → Guarded → Type 0
Guards bundle (go f) = Admits bundle f
Guards bundle (stop r) = NoPass r

Guards-if :
    (bundle : FactBundle) (b : Bool) (x y : Guarded)
    → (b ≡ true → Guards bundle x)
    → (b ≡ false → Guards bundle y)
    → Guards bundle (if b then x else y)
Guards-if bundle true x y h k = h refl
Guards-if bundle false x y h k = k refl

Guards-with_fact :
    (bundle : FactBundle) (o : Option Fact) (absent : Guarded) (present : Fact → Guarded)
    → Guards bundle absent
    → ((f : Fact) → o ≡ some f → Guards bundle (present f))
    → Guards bundle (with_fact o absent present)
Guards-with_fact bundle none absent present h k = h
Guards-with_fact bundle (some f) absent present h k = k f refl

state_guard-Guards : (bundle : FactBundle) → Guards bundle (state_guard bundle)
unfolding state_guard
state_guard-Guards bundle =
    Guards-with_fact bundle (fact bundle "windows.appcontrol.state") _ _ (unassessed-NoPass _ _ _)
      λ f e.
        Guards-if bundle (not (is_usable f.value)) _ _ (λ q. unassessed-NoPass _ _ _)
          (λ q.
            Guards-if bundle f.partial _ _ (λ p. unassessed-NoPass _ _ _)
              (λ p. (e, not-eq_false _ q, p)))

after_guard-NoPass :
    (bundle : FactBundle) (g : Guarded) (k : Fact → Result CheckResult)
    → Guards bundle g
    → ((f : Fact) → Returns NoPass (k f))
    → Returns NoPass (after_guard g k)
after_guard-NoPass bundle (go f) k h w = w f
after_guard-NoPass bundle (stop r) k h w = returned h

-- ism-1657 is never reported as met: whatever AppLocker enforces and whatever WDAC does, the result
-- is no pass; and it fits its status.
pub covers_required_file_types-ne_satisfied :
    (bundle : FactBundle) (params : Value) (history : FactHistory)
    → Returns
        (λ r. (r.status ≢ Status.satisfied) × IsWellFormed r)
        (application_control_covers_required_file_types bundle params history)
unfolding application_control_covers_required_file_types
covers_required_file_types-ne_satisfied bundle params history =
    after_guard-NoPass bundle (state_guard bundle) judge_types (state_guard-Guards bundle)
      judge_types-NoPass

-- A collection of the list that is in mode "Enabled" and holds a rule; one in mode "AuditOnly" is none.
abbrev pub Enforcing : Value → Type 0
Enforcing c =
    (mode_of c ≡ ok "Enabled")
    × ((v : Value) × (n : ℤ) × (get_or c "rule_count" (num 0) ≡ ok v)
        × (to_int v ≡ ok n)
        × (ltb_ℤ (pos 0) n ≡ true))

abbrev pub SomeEnforced : Value → Type 0
SomeEnforced applocker =
    (cs : Value) × (collections : List Value) × (c : Value) × (get applocker "collections" ≡ ok cs)
    × (iterate_or_empty cs ≡ ok collections)
    × In c collections
    × Enforcing c

enforces-Enforcing : (c : Value) → enforces c ≡ ok true → Enforcing c
unfolding enforces
enforces-Enforcing c h =
    let (mode, e, k) = >>=-eq_ok (mode_of c) _ h in
    elim (Bool-cases (str_eq mode "Enabled")) [
      | inr t ↦ absurd (never (rw t at k))
      | inl t ↦
          let (v, f, l) = >>=-eq_ok (get_or c "rule_count" (num 0)) _ (rw t at k) in
          let (n, g, q) = >>=-eq_ok (to_int v) _ l in
          (e ∙ ap ok (str_eq→eq mode "Enabled" t), (v, n, f, g, ok-injective _ _ q))
    ]
  where
    never : ok false ≡ ok true → ⊥
    never q = cc

enforced_type-some : (c : Value) (t : String) → enforced_type c ≡ ok (some t) → enforces c ≡ ok true
unfolding enforced_type
enforced_type-some c t h = let (b, e, k) = >>=-eq_ok (enforces c) _ h in on b e k
  where
    on :
        (b : Bool)
        → enforces c ≡ ok b
        → (elim b [ true ↦ (type_of c >>= λ u. ok (some u)) | false ↦ ok none ]) ≡ ok (some t)
        → enforces c ≡ ok true
    on true e k = e
    on false e k = cc

first_text : (ss : List String) → is_empty (add_texts ss) ≡ false → (s : String) × In s ss
unfolding add_texts
first_text [] h = cc
first_text (s ∷ ss) h = (s, inl refl)

enforced_collections-some :
    (applocker : Value) (ts : List String)
    → enforced_collections applocker ≡ ok ts
    → is_empty ts ≡ false
    → SomeEnforced applocker
unfolding enforced_collections
enforced_collections-some applocker ts h ne =
    let (cs, e, k) = >>=-eq_ok (get applocker "collections") _ h in
    let (collections, f, l) = >>=-eq_ok (iterate_or_empty cs) _ k in
    let (types, g, q) = >>=-eq_ok (filter_map enforced_type collections) _ l in
    let (t, m) = first_text types (ap is_empty (ok-injective _ _ q) ∙ ne) in
    let (c, n, w) = Laws.In-filter_map enforced_type t collections types g m in
    (cs, collections, c, e, f, n, enforces-Enforcing c (enforced_type-some c t w))

Returns-any {ℓ} : {A : Type ℓ} {P : A → Type 0} (m : Result A) → ((a : A) → P a) → Returns P m
Returns-any (ok a) h = returned (h a)
Returns-any (raise e) h = raised

abbrev Rests : Bool → List String → CheckResult → Type 0
Rests wdac_on enforced r =
    r.status ≡ Status.satisfied → (wdac_on ≡ true) ⊎ (is_empty enforced ≡ false)

not_satisfied-Rests :
    (w : Bool) (e : List String) (d : String) (fs : Facts) (c : Confidence)
    → Returns (Rests w e) (not_satisfied d fs c)
unfolding not_satisfied
not_satisfied-Rests w e d [] c = raised
not_satisfied-Rests w e d (f ∷ fs) c = returned (λ q. cc)

implemented_verdict-Rests :
    (w : Bool) (e : List String) (a : List Value) (fs : Facts)
    → Returns (Rests w e) (implemented_verdict w e a fs)
unfolding implemented_verdict joined
implemented_verdict-Rests true e a fs = Returns-any _ (λ r q. inl refl)
implemented_verdict-Rests false (t ∷ e) a fs = Returns-any _ (λ r q. inr refl)
implemented_verdict-Rests false [] [] fs = not_satisfied-Rests false [] _ fs _
implemented_verdict-Rests false [] (v ∷ a) fs =
    Returns-bind (joined (v ∷ a)) _ (λ names e. not_satisfied-Rests false [] _ fs _)

abbrev pub Blocking : Fact → Type 0
Blocking f =
    ((wdac : Value) × (wdac_of f.value ≡ ok wdac) × (wdac_enforcing wdac ≡ ok true))
    ⊎ ((applocker : Value) × (applocker_of f.value ≡ ok applocker) × SomeEnforced applocker)

judge_implemented-Blocking :
    (f : Fact) (r : CheckResult)
    → judge_implemented f ≡ ok r
    → r.status ≡ Status.satisfied
    → Blocking f
unfolding judge_implemented
judge_implemented-Blocking f r h s =
    let (applocker, h1, k1) = >>=-eq_ok (applocker_of f.value) _ h in
    let (wdac, h2, k2) = >>=-eq_ok (wdac_of f.value) _ k1 in
    let (enforced, h3, k3) = >>=-eq_ok (enforced_collections applocker) _ k2 in
    let (audit, h4, k4) = >>=-eq_ok (audit_only applocker) _ k3 in
    let (wdac_on, h5, k5) = >>=-eq_ok (wdac_enforcing wdac) _ k4 in
    let (available, h6, k6) = >>=-eq_ok (get applocker "available") _ k5 in
    let (audited, h7, k7) = >>=-eq_ok (shown audit) _ k6 in
    let (rules, h8, k8) = >>=-eq_ok (get_or applocker "rule_count" (num 0)) _ k7 in
    let (running, h9, k9) = >>=-eq_ok (get_or wdac "running" (list [])) _ k8 in
    elim (Returns_inv (implemented_verdict-Rests wdac_on enforced audit _) r k9 s) [
      | inl w ↦ inl (wdac, h2, h5 ∙ ap ok w)
      | inr e ↦ inr (applocker, h1, enforced_collections-some applocker enforced h3 e)
    ]

admitted :
    (bundle : FactBundle) (g : Guarded) (r : CheckResult)
    → Guards bundle g
    → after_guard g judge_implemented ≡ ok r
    → r.status ≡ Status.satisfied
    → (f : Fact) × Admits bundle f × Blocking f
admitted bundle (go f) r k e s = (f, k, judge_implemented-Blocking f r e s)
admitted bundle (stop q) r k e s =
    absurd (k.0 (ap (λ (t : CheckResult). t.status) (ok-injective q r e) ∙ s))

-- A pass of ism-0843 rests on a state that was read completely, and on a policy that blocks: WDAC
-- enforces, or some AppLocker collection with a rule is enabled. Audit mode is no evidence.
pub application_control_implemented-evidence :
    (bundle : FactBundle) (params : Value) (history : FactHistory) (r : CheckResult)
    → application_control_implemented bundle params history ≡ ok r
    → r.status ≡ Status.satisfied
    → (f : Fact) × Admits bundle f × Blocking f
unfolding application_control_implemented
application_control_implemented-evidence bundle params history r h s =
    admitted bundle (state_guard bundle) r (state_guard-Guards bundle) h s

ruleset verdicts =
    (returns_rules, satisfied-IsWellFormed, not_satisfied-IsWellFormed, unassessed-IsWellFormed)

implemented_verdict-IsWellFormed :
    (w : Bool) (e : List String) (a : List Value) (fs : Facts)
    → Returns IsWellFormed (implemented_verdict w e a fs)
unfolding implemented_verdict
implemented_verdict-IsWellFormed w e a fs = search verdicts depth 10

judge_implemented-IsWellFormed : (f : Fact) → Returns IsWellFormed (judge_implemented f)
unfolding judge_implemented
judge_implemented-IsWellFormed f = search (verdicts, implemented_verdict-IsWellFormed) depth 20

after_guard-IsWellFormed :
    (bundle : FactBundle) (g : Guarded) (k : Fact → Result CheckResult)
    → Guards bundle g
    → ((f : Fact) → Returns IsWellFormed (k f))
    → Returns IsWellFormed (after_guard g k)
after_guard-IsWellFormed bundle (go f) k h w = w f
after_guard-IsWellFormed bundle (stop r) k h w = returned h.1

-- Every result that the check of ism-0843 returns fits its status.
pub application_control_implemented-IsWellFormed :
    (bundle : FactBundle) (params : Value) (history : FactHistory)
    → Returns IsWellFormed (application_control_implemented bundle params history)
unfolding application_control_implemented
application_control_implemented-IsWellFormed bundle params history =
    after_guard-IsWellFormed bundle (state_guard bundle) judge_implemented
      (state_guard-Guards bundle) judge_implemented-IsWellFormed
