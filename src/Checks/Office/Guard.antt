-- ===== src/Checks/Office/Guard.antt =====
-- `_office_guard` and `_coverage_gap` of tools/nobytes_cca/checks/windows/office.py, and the readings
-- of policy rows that its checks share.
use oscal_aap_ansible_playbo.Prelude.{
  String, ◌<>◌, Bool, false, not, Option, none, some, List, [], ◌∷◌, length, is_empty,
  if◌then◌else◌,
}
use oscal_aap_ansible_playbo.Py.Text.{decimal}
use oscal_aap_ansible_playbo.Py.Value.{Value, bool, str, list, truthy, to_text}
use oscal_aap_ansible_playbo.Py.Result
use oscal_aap_ansible_playbo.Py.Result.{Result, ok, raise, ◌>>=◌}
use oscal_aap_ansible_playbo.Py.Access.{get, get_or, iterate, in_set, to_set}
use oscal_aap_ansible_playbo.Contract.Terms.{collection_error}
use oscal_aap_ansible_playbo.Contract.Verdict.{CheckResult, not_applicable, unassessed}
use oscal_aap_ansible_playbo.Contract.Bundle.{Fact, FactBundle, fact}

-- What a guard returns: the policy fact to go on with, or the result to stop with.
pub data Guarded : Type 0 where
  go : Fact → Guarded
  stop : CheckResult → Guarded

unfoldable pub policy_guard : Option Fact → Guarded
policy_guard none = stop (
    unassessed collection_error "Office is installed but macro policy enumeration returned nothing."
      [])
policy_guard (some policy) =
    if policy.partial
    then stop (
        unassessed collection_error
          "Office is installed but macro policy enumeration returned nothing." [])
    else go policy

-- The guard from the installation inventory on. The reading of `partial` comes before that of
-- emptiness.
unfoldable pub install_guard : FactBundle → Option Fact → Result Guarded
unfolding policy_guard
install_guard bundle none =
    ok
      (stop (unassessed collection_error "fact `windows.office.install` absent from the bundle" []))
install_guard bundle (some install) =
    if install.partial
    then (get_or install.meta "collection_error" (str "no reason recorded") >>= λ why. ok (
        stop (
          unassessed collection_error
            ("the Office installation inventory could not be read, so whether Office is present is unknown: "
              <> to_text why)
            [])))
    else if not (truthy install.value)
    then (not_applicable "No Microsoft Office or Microsoft 365 Apps installation detected."
          (("office_installed", bool false) ∷ [])
        >>= λ r. ok (stop r))
    else ok (policy_guard (fact bundle "windows.office.macro_policy"))

-- `_office_guard`.
unfoldable pub office_guard : FactBundle → Result Guarded
unfolding install_guard
office_guard bundle = install_guard bundle (fact bundle "windows.office.install")

-- A check that goes on from the guard.
abbrev pub after_guard : Guarded → (Fact → Result CheckResult) → Result CheckResult
after_guard (stop r) k = ok r
after_guard (go policy) k = k policy

-- `list(policy.meta.get("profiles_unloaded", []))`.
unfoldable pub profiles_unloaded : Fact → Result (List Value)
profiles_unloaded policy = get_or policy.meta "profiles_unloaded" (list []) >>= λ v. iterate v

-- `_coverage_gap`.
unfoldable pub coverage_gap : List Value → List Value → List String
coverage_gap unloaded apps_without_evidence =
    let apps =
      if is_empty apps_without_evidence
      then []
      else (decimal (length apps_without_evidence) <> " application(s) with no policy evidence")
        ∷ [] in
    if is_empty unloaded
    then apps
    else (decimal (length unloaded) <> " user profile hive(s) not loaded") ∷ apps

-- `set(params.get("in_scope_apps", []))`.
unfoldable pub in_scope_apps : Value → Result (List Value)
in_scope_apps params =
    get_or params "in_scope_apps" (list []) >>= λ v. iterate v >>= λ xs. to_set xs

-- `r.get("app") in apps`.
unfoldable pub row_in_scope : List Value → Value → Result Bool
row_in_scope apps r = get r "app" >>= λ app. in_set app apps

-- `[r for r in policy.value if r.get("app") in apps]`.
unfoldable pub rows_in_scope : List Value → Fact → Result (List Value)
unfolding row_in_scope
rows_in_scope apps policy = iterate policy.value >>= λ rows. Result.filter (row_in_scope apps) rows
