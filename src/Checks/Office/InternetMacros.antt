-- ===== src/Checks/Office/InternetMacros.antt =====
-- `macro_internet_blocked` of tools/nobytes_cca/checks/windows/office.py: ism-1488, macros in files
-- from the internet are blocked. Its first lines repeat the guard that the other checks share.
use oscal_aap_ansible_playbo.Prelude.{
  String, ◌<>◌, Bool, true, false, not, ◌||◌, Option, none, some, List, [], ◌∷◌, ◌++◌, length,
  is_empty, if◌then◌else◌,
}
use oscal_aap_ansible_playbo.Py.Text.{decimal}
use oscal_aap_ansible_playbo.Py.Value.{Value, bool, str, list, dict, num, truthy, py_eq}
use oscal_aap_ansible_playbo.Py.Result
use oscal_aap_ansible_playbo.Py.Result.{Result, ok, raise, ◌>>=◌, filter_map}
use oscal_aap_ansible_playbo.Py.Access.{get, get_or, index, in_set, to_set, difference, sorted}
use oscal_aap_ansible_playbo.Contract.Terms.{proxy, partial_population}
use oscal_aap_ansible_playbo.Contract.Verdict.{
  CheckResult, Facts, satisfied, not_satisfied, unassessed,
}
use oscal_aap_ansible_playbo.Contract.Bundle.{Fact, FactBundle, FactHistory}
use oscal_aap_ansible_playbo.Checks.Office.Guard.{
  office_guard, after_guard, profiles_unloaded, in_scope_apps, rows_in_scope,
}

abbrev pub block_key : String
block_key = "blockcontentexecutionfrominternet"

-- `SERVICE_SIDS`.
abbrev pub service_sids : List Value
service_sids = str "S-1-5-18" ∷ str "S-1-5-19" ∷ str "S-1-5-20" ∷ []

-- `r.get(block_key) == 1`.
unfoldable pub blocks : Value → Result Bool
blocks r = get r block_key >>= λ v. ok (py_eq v (num 1))

-- `r.get("gpo_delivered") or not require_gpo`.
unfoldable pub delivered : Bool → Value → Result Bool
delivered require_gpo r = get r "gpo_delivered" >>= λ g. ok (truthy g || not require_gpo)

unfoldable pub has_scope : String → Value → Result Bool
has_scope scope r = get r "scope" >>= λ s. ok (py_eq s (str scope))

-- `a and b`: the second is not read where the first is false.
abbrev pub and_then : Result Bool → Result Bool → Result Bool
and_then m n = m >>= λ b. elim b [ true ↦ n | false ↦ ok false ]

-- The test of `blocked_machine_wide`.
unfoldable pub blocks_machine : Bool → Value → Result Bool
unfolding has_scope blocks delivered
blocks_machine require_gpo r =
    and_then (has_scope "machine" r) (and_then (blocks r) (delivered require_gpo r))

-- The app of a row that blocks for the whole machine.
unfoldable pub machine_app : Bool → Value → Result (Option Value)
unfolding blocks_machine
machine_app require_gpo r = blocks_machine require_gpo r >>= λ b. elim b [
  | true ↦ (index r "app" >>= λ app. ok (some app))
  | false ↦ ok none
]

-- `blocked_machine_wide`.
unfoldable pub machine_wide : Bool → List Value → Result (List Value)
unfolding machine_app
machine_wide require_gpo rows = filter_map (machine_app require_gpo) rows >>= λ apps. to_set apps

-- The test of `user_rows`.
unfoldable pub is_user_row : Value → Result Bool
unfolding has_scope
is_user_row r =
    and_then (has_scope "user" r)
      (get r "sid" >>= λ sid. in_set sid service_sids >>= λ b. ok (not b))

-- `r.get("app") == app`.
unfoldable pub row_of : Value → Value → Result Bool
row_of app r = get r "app" >>= λ a. ok (py_eq a app)

failure : Value → Value → Value → String → Value
failure app sid observed why =
    dict (("app", app) ∷ ("sid", sid) ∷ ("observed", observed) ∷ ("reason", str why) ∷ [])

-- The failure that one row of a user shows, if it shows one.
unfoldable pub row_failure : Bool → Value → Value → Result (Option Value)
unfolding failure
row_failure require_gpo app r = get r block_key >>= λ value.
    if not (py_eq value (num 1))
    then (get r "sid" >>= λ sid. ok (some (failure app sid value "not-blocked")))
    else if require_gpo
    then (get r "gpo_delivered" >>= λ g.
        if truthy g
        then ok none
        else (get r "sid" >>= λ sid. ok (some (failure app sid (num 1) "user-writable-not-gpo"))))
    else ok none

-- `failing` and `no_evidence` of one app.
unfoldable pub judge_app : Bool → List Value → Value → Result (List Value × List Value)
unfolding row_of row_failure
judge_app require_gpo user_rows app = Result.filter (row_of app) user_rows >>= λ app_rows.
    if is_empty app_rows
    then ok ([], app ∷ [])
    else (filter_map (row_failure require_gpo app) app_rows >>= λ failing. ok (failing, []))

-- The loop over the apps that no row blocks for the machine.
unfoldable pub judge_apps : Bool → List Value → List Value → Result (List Value × List Value)
unfolding judge_app
judge_apps require_gpo user_rows [] = ok ([], [])
judge_apps require_gpo user_rows (app ∷ apps) = judge_app require_gpo user_rows app >>= λ one.
    judge_apps require_gpo user_rows apps >>= λ rest. ok (one.0 ++ rest.0, one.1 ++ rest.1)

macro_facts : List Value → List Value → List Value → Value → Value → List Value → Facts
macro_facts blocked failing no_evidence total loaded unloaded =
    ("blocked_machine_wide", list blocked)
    ∷ ("failing", list failing)
    ∷ ("apps_without_evidence", list no_evidence)
    ∷ ("profiles_total", total)
    ∷ ("profiles_loaded", loaded)
    ∷ ("profiles_unloaded", list unloaded)
    ∷ []

-- A failure counts whatever could not be seen; its absence counts only where all was seen.
unfoldable pub macro_verdict : List Value → List Value → List Value → Facts → Result CheckResult
macro_verdict failing no_evidence unloaded facts =
    if not (is_empty failing)
    then not_satisfied
        (decimal (length failing)
          <> " application/profile combination(s) do not block macros in files originating from the internet.")
        facts proxy
    else if not (is_empty no_evidence) || not (is_empty unloaded)
    then ok (
        unassessed partial_population
          ("No failures observed, but "
            <> (decimal (length unloaded)
                <> (" user profile hive(s) were not loaded and "
                    <> (decimal (length no_evidence)
                        <> " in-scope application(s) had no policy evidence in any assessable scope. Not enough to conclude the control is met."))))
          facts)
    else satisfied
        "All in-scope Office applications block macros in files originating from the internet, via GPO-delivered policy."
        facts proxy

-- The body after the guard.
unfoldable pub judge_policy : Value → Fact → Result CheckResult
unfolding machine_wide is_user_row judge_apps macro_facts macro_verdict
judge_policy params policy = in_scope_apps params >>= λ apps.
    get_or params "require_gpo_delivery" (bool true) >>= λ gpo.
    rows_in_scope apps policy >>= λ rows. machine_wide (truthy gpo) rows >>= λ blocked.
    Result.filter is_user_row rows >>= λ user_rows.
    sorted (difference apps blocked) >>= λ open_apps.
    judge_apps (truthy gpo) user_rows open_apps >>= λ judged.
    profiles_unloaded policy >>= λ unloaded. sorted blocked >>= λ blocked_sorted.
    get policy.meta "profiles_total" >>= λ total. get policy.meta "profiles_loaded" >>= λ loaded.
    macro_verdict judged.0 judged.1 unloaded
      (macro_facts blocked_sorted judged.0 judged.1 total loaded unloaded)

unfoldable pub macro_internet_blocked : FactBundle → Value → FactHistory → Result CheckResult
unfolding office_guard judge_policy
macro_internet_blocked bundle params history =
    office_guard bundle >>= λ g. after_guard g (judge_policy params)
