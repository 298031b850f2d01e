-- ===== src/Checks/Office/Guarded.antt =====
-- What the guard of the Office checks lets through, and what it stops with.
use oscal_aap_ansible_playbo.Prelude.{
  ◌≡◌, refl, ◌⊎◌, inl, inr, Bool, true, false, not, Option, none, some, String, not-eq_false,
  if◌then◌else◌,
}
use oscal_aap_ansible_playbo.Py.Value.{truthy}
use oscal_aap_ansible_playbo.Py.Result.{Result, ok, raised, ◌>>=◌, Returns, returned, returns_rules}
use oscal_aap_ansible_playbo.Contract.Terms.{Status}
use oscal_aap_ansible_playbo.Contract.Verdict.{CheckResult, Facts, unassessed, not_applicable}
use oscal_aap_ansible_playbo.Contract.Evidence.{IsWellFormed, unassessed-IsWellFormed}
use oscal_aap_ansible_playbo.Contract.Bundle.{Fact, FactBundle, fact}
use oscal_aap_ansible_playbo.Checks.Office.Guard.{
  Guarded, go, stop, office_guard, install_guard, policy_guard,
}

-- The inventory was read completely and is not empty, and the policy fact was read completely.
abbrev pub Admits : FactBundle → Fact → Type 0
Admits bundle policy =
    ((install : Fact) × (fact bundle "windows.office.install" ≡ some install)
      × (install.partial ≡ false)
      × (truthy install.value ≡ true))
    × (fact bundle "windows.office.macro_policy" ≡ some policy)
    × (policy.partial ≡ false)

-- What stops a check is no pass and no failure, and fits its status.
abbrev pub Stopped : CheckResult → Type 0
Stopped r = IsWellFormed r × ((r.status ≡ Status.unassessed) ⊎ (r.status ≡ Status.not_applicable))

abbrev pub Guards : FactBundle → Guarded → Type 0
Guards bundle (go policy) = Admits bundle policy
Guards bundle (stop r) = Stopped r

unassessed-Stopped : (w : _) (d : _) (fs : _) → Stopped (unassessed w d fs)
unfolding unassessed
unassessed-Stopped w d fs = (unassessed-IsWellFormed w d fs, inl refl)

Guards-if :
    (bundle : FactBundle) (b : Bool) (x y : Guarded)
    → (b ≡ true → Guards bundle x)
    → (b ≡ false → Guards bundle y)
    → Guards bundle (if b then x else y)
Guards-if bundle true x y h k = h refl
Guards-if bundle false x y h k = k refl

policy_guard-Guards :
    (bundle : FactBundle) (install : Fact)
    → fact bundle "windows.office.install" ≡ some install
    → install.partial ≡ false
    → truthy install.value ≡ true
    → (o : Option Fact) → fact bundle "windows.office.macro_policy" ≡ o
    → Guards bundle (policy_guard o)
unfolding policy_guard
policy_guard-Guards bundle install e p t none n = unassessed-Stopped _ _ _
policy_guard-Guards bundle install e p t (some policy) n =
    Guards-if bundle policy.partial _ _ (λ q. unassessed-Stopped _ _ _)
      (λ q. ((install, e, p, t), n, q))

not_applicable-Stopped : (d : String) (fs : Facts) → Returns Stopped (not_applicable d fs)
unfolding not_applicable
not_applicable-Stopped d fs = search (returns_rules, inl, inr)

stop-Guards :
    (bundle : FactBundle) (m : Result CheckResult)
    → Returns Stopped m
    → Returns (Guards bundle) (m >>= λ r. ok (stop r))
stop-Guards bundle m (returned h) = returned h
stop-Guards bundle m raised = raised

went_on :
    (bundle : FactBundle) (install : Fact)
    → fact bundle "windows.office.install" ≡ some install
    → install.partial ≡ false
    → not (truthy install.value) ≡ false
    → Guards bundle (policy_guard (fact bundle "windows.office.macro_policy"))
went_on bundle install e p t = policy_guard-Guards bundle install e p (not-eq_false _ t) _ refl

install_guard-Guards :
    (bundle : FactBundle) (o : Option Fact)
    → fact bundle "windows.office.install" ≡ o
    → Returns (Guards bundle) (install_guard bundle o)
unfolding install_guard
install_guard-Guards bundle none e = returned (unassessed-Stopped _ _ _)
install_guard-Guards bundle (some install) e =
    search (returns_rules, unassessed-Stopped, stop-Guards, not_applicable-Stopped, went_on) depth 8

-- Where the guard returns, it goes on only with a complete inventory that is not empty and a complete
-- policy fact, and otherwise stops with a result that is neither a pass nor a failure and fits its
-- status.
pub office_guard-Guards : (bundle : FactBundle) → Returns (Guards bundle) (office_guard bundle)
unfolding office_guard
office_guard-Guards bundle = install_guard-Guards bundle (fact bundle "windows.office.install") refl
