-- ===== src/Checks/Evaluators.antt =====
-- Every evaluator returns results that fit their status: the browsers, the applications and the paths,
-- and all of them together.
use oscal_aap_ansible_playbo.Prelude.{
  String, Bool, true, false, Option, none, some, List, if◌then◌else◌,
}
use oscal_aap_ansible_playbo.Py.Value.{Value}
use oscal_aap_ansible_playbo.Py.Result.{Result, Returns, returned, raised}
use oscal_aap_ansible_playbo.Py.Date.{Date}
use oscal_aap_ansible_playbo.Contract.Verdict.{CheckResult, Facts}
use oscal_aap_ansible_playbo.Contract.Evidence.{IsWellFormed, unassessed-IsWellFormed}
use oscal_aap_ansible_playbo.Contract.Bundle.{Fact, FactBundle, FactHistory, fact, with_fact}
use oscal_aap_ansible_playbo.Checks.WellFormed.{
  verdicts, WellFormed, vendor_supported-IsWellFormed, ie11-IsWellFormed, office-IsWellFormed,
}
use oscal_aap_ansible_playbo.Checks.OsSupport.{vendor_supported}
use oscal_aap_ansible_playbo.Checks.OsState.{ie11_disabled_or_removed}
use oscal_aap_ansible_playbo.Checks.Office.InternetMacros.{macro_internet_blocked}
use oscal_aap_ansible_playbo.Checks.Office.{
  macro_settings_locked, macros_disabled_without_business_need, macro_antivirus_scanning,
}
use oscal_aap_ansible_playbo.Checks.AppControl.{
  application_control_implemented, application_control_covers_required_file_types,
}
use oscal_aap_ansible_playbo.Checks.AppControl.Claims.{
  application_control_implemented-IsWellFormed, covers_required_file_types-ne_satisfied,
}
use oscal_aap_ansible_playbo.Checks.AppSupport.{
  Outcome, support_verdict, judge_inventory, partial_inventory, with_inventory,
  unsupported_applications_removed,
}
use oscal_aap_ansible_playbo.Checks.Browsers.Inventory.{
  Guarded, Installed, go, stop, policy_fact, after_guard,
}
use oscal_aap_ansible_playbo.Checks.Browsers.Ads.{
  Blockers, ads_verdict, judge_ads, advertisements_not_processed,
}
use oscal_aap_ansible_playbo.Checks.Browsers.Java.{
  java_verdict, judge_java, unread_surface, with_surface, java_not_processed,
}
use oscal_aap_ansible_playbo.Checks.Browsers.Locked.{
  Firefox, locked_verdict, judge_locked, security_settings_locked,
}
use oscal_aap_ansible_playbo.Checks.AppControlPaths.Reads.{Reading, fact_guard}
use oscal_aap_ansible_playbo.Checks.AppControlPaths.Rules.{Found}
use oscal_aap_ansible_playbo.Checks.AppControlPaths.{
  found_verdict, unwritable_verdict, paths_verdict, wdac_result, judge_paths, unless_stopped,
  both_facts, application_control_covers_user_writable_paths,
}

support_verdict-IsWellFormed :
    (d : Date) (os : List Outcome) (fs : Facts) → WellFormed (support_verdict d os fs)
unfolding support_verdict
support_verdict-IsWellFormed d os fs = search verdicts depth 9

with_inventory-IsWellFormed :
    (load : String → Result Value) (b : FactBundle) (p : Value) (o : Option Fact)
    → WellFormed (with_inventory load b p o)
unfolding with_inventory judge_inventory partial_inventory
with_inventory-IsWellFormed load b p none = search verdicts depth 9
with_inventory-IsWellFormed load b p (some f) =
    search (verdicts, support_verdict-IsWellFormed) depth 15

abbrev Fits : Guarded → Type 0
Fits (stop r) = IsWellFormed r
Fits (go f) = Unit

Fits-if :
    (b : Bool) (r : CheckResult) (f : Fact) → IsWellFormed r → Fits (if b then stop r else go f)
Fits-if true r f h = h
Fits-if false r f h = tt

Fits-with_fact :
    (o : Option Fact) (r : CheckResult) (next : Fact → Guarded)
    → IsWellFormed r
    → ((f : Fact) → Fits (next f))
    → Fits (with_fact o (stop r) next)
Fits-with_fact none r next h k = h
Fits-with_fact (some f) r next h k = k f

policy_fact-Fits : (b : FactBundle) → Fits (policy_fact b)
unfolding policy_fact
policy_fact-Fits b = search (Fits-if, Fits-with_fact, unassessed-IsWellFormed) depth 6

after_guard-IsWellFormed :
    (g : Guarded) (k : Fact → Result CheckResult)
    → Fits g
    → ((f : Fact) → WellFormed (k f))
    → WellFormed (after_guard g k)
after_guard-IsWellFormed (stop r) k h w = returned h
after_guard-IsWellFormed (go f) k h w = w f

ads_verdict-IsWellFormed :
    (i : Installed) (bs : Blockers) (gaps : List String) (fs : Facts)
    → WellFormed (ads_verdict i bs gaps fs)
unfolding ads_verdict
ads_verdict-IsWellFormed i bs gaps fs = search verdicts depth 9

judge_ads-IsWellFormed :
    (loads : String → Option Value) (b : FactBundle) (f : Fact) → WellFormed (judge_ads loads b f)
unfolding judge_ads
judge_ads-IsWellFormed loads b f = search (verdicts, ads_verdict-IsWellFormed) depth 15

java_verdict-IsWellFormed :
    (i : Installed) (below : List String) (level javasoft : Value) (c : Result (List String))
    (fs : Facts)
    → WellFormed (java_verdict i below level javasoft c fs)
unfolding java_verdict
java_verdict-IsWellFormed i below level javasoft c fs = search verdicts depth 11

with_surface-IsWellFormed :
    (b : FactBundle) (o : Option Fact) (f : Fact) → WellFormed (with_surface b o f)
unfolding with_surface judge_java unread_surface
with_surface-IsWellFormed b none f = search verdicts depth 9
with_surface-IsWellFormed b (some s) f = search (verdicts, java_verdict-IsWellFormed) depth 15

locked_verdict-IsWellFormed :
    (i : Installed) (m : List String) (r : _) (x : Firefox) (c : Result (List String)) (fs : Facts)
    → WellFormed (locked_verdict i m r x c fs)
unfolding locked_verdict
locked_verdict-IsWellFormed i m r x c fs = search verdicts depth 11

judge_locked-IsWellFormed :
    (loads : String → Option Value) (b : FactBundle) (f : Fact)
    → WellFormed (judge_locked loads b f)
unfolding judge_locked
judge_locked-IsWellFormed loads b f = search (verdicts, locked_verdict-IsWellFormed) depth 15

found_verdict-IsWellFormed : (g : Reading) (x : Found) → WellFormed (found_verdict g x)
unfolding found_verdict
found_verdict-IsWellFormed g x = search verdicts depth 11

paths_verdict-IsWellFormed : (g : Reading) (b : Bool) → WellFormed (paths_verdict g b)
unfolding paths_verdict unwritable_verdict
paths_verdict-IsWellFormed g b = search (verdicts, found_verdict-IsWellFormed) depth 11

judge_paths-IsWellFormed : (p s v : Value) → WellFormed (judge_paths p s v)
unfolding judge_paths wdac_result
judge_paths-IsWellFormed p s v = search (verdicts, paths_verdict-IsWellFormed) depth 15

abbrev OptionFits : Option CheckResult → Type 0
OptionFits none = Unit
OptionFits (some r) = IsWellFormed r

OptionFits-if :
    (b : Bool) (r : CheckResult) → IsWellFormed r → OptionFits (if b then some r else none)
OptionFits-if true r h = h
OptionFits-if false r h = tt

OptionFits-with_fact :
    (o : Option Fact) (r : CheckResult) (next : Fact → Option CheckResult)
    → IsWellFormed r
    → ((f : Fact) → OptionFits (next f))
    → OptionFits (with_fact o (some r) next)
OptionFits-with_fact none r next h k = h
OptionFits-with_fact (some f) r next h k = k f

fact_guard-OptionFits : (b : FactBundle) (key : String) → OptionFits (fact_guard b key)
unfolding fact_guard
fact_guard-OptionFits b key =
    search (OptionFits-if, OptionFits-with_fact, unassessed-IsWellFormed) depth 6

unless_stopped-IsWellFormed :
    (o : Option CheckResult) (m : Result CheckResult)
    → OptionFits o
    → WellFormed m
    → WellFormed (unless_stopped o m)
unless_stopped-IsWellFormed none m h w = w
unless_stopped-IsWellFormed (some r) m h w = returned h

both_facts-IsWellFormed :
    (f g : Option Fact) (next : Fact → Fact → Result CheckResult)
    → ((x y : Fact) → WellFormed (next x y))
    → WellFormed (both_facts f g next)
both_facts-IsWellFormed (some f) (some g) next w = w f g
both_facts-IsWellFormed none g next w = raised
both_facts-IsWellFormed (some f) none next w = raised

paths-IsWellFormed :
    (b : FactBundle) (p : Value) (h : FactHistory)
    → WellFormed (application_control_covers_user_writable_paths b p h)
unfolding application_control_covers_user_writable_paths
paths-IsWellFormed b p h =
    unless_stopped-IsWellFormed _ _ (fact_guard-OptionFits b "windows.appcontrol.state") (
      unless_stopped-IsWellFormed _ _ (fact_guard-OptionFits b "windows.appcontrol.writable_paths")
        (both_facts-IsWellFormed _ _ _ (λ x y. judge_paths-IsWellFormed p x.value y.value)))

types-IsWellFormed :
    (b : FactBundle) (p : Value) (h : FactHistory)
    → WellFormed (application_control_covers_required_file_types b p h)
types-IsWellFormed b p h = weaker (covers_required_file_types-ne_satisfied b p h)
  where
    weaker :
        {m : Result CheckResult} {Q : CheckResult → Type 0}
        → Returns (λ r. Q r × IsWellFormed r) m
        → WellFormed m
    weaker (returned h) = returned (h.1)
    weaker raised = raised

-- Every result that an evaluator of a host returns fits its status: those of ism-0843, ism-1485,
-- ism-1486, ism-1488, ism-1489, ism-1501, ism-1585, ism-1654, ism-1657, ism-1671, ism-1672, ism-1704 and
-- ism-1870.
pub evaluators-IsWellFormed :
    (load : String → Result Value) (json_loads : String → Option Value) (b : FactBundle) (p : Value)
    (h : FactHistory)
    → WellFormed (application_control_implemented b p h)
      × WellFormed (advertisements_not_processed json_loads b p h)
      × WellFormed (java_not_processed b p h)
      × WellFormed (macro_internet_blocked b p h)
      × WellFormed (macro_settings_locked b p h)
      × WellFormed (vendor_supported load b p h)
      × WellFormed (security_settings_locked json_loads b p h)
      × WellFormed (ie11_disabled_or_removed b p h)
      × WellFormed (application_control_covers_required_file_types b p h)
      × WellFormed (macros_disabled_without_business_need b p h)
      × WellFormed (macro_antivirus_scanning b p h)
      × WellFormed (unsupported_applications_removed load b p h)
      × WellFormed (application_control_covers_user_writable_paths b p h)
unfolding advertisements_not_processed java_not_processed security_settings_locked
    unsupported_applications_removed
evaluators-IsWellFormed load json_loads b p h =
    let (internet, settings, disabled, scanning) = office-IsWellFormed b p h in
    (
      application_control_implemented-IsWellFormed b p h,
      after_guard-IsWellFormed (policy_fact b) _ (policy_fact-Fits b)
          (judge_ads-IsWellFormed json_loads b),
      after_guard-IsWellFormed (policy_fact b) _ (policy_fact-Fits b)
          (with_surface-IsWellFormed b (fact b "windows.browsers.java_surface")),
      internet,
      settings,
      vendor_supported-IsWellFormed load b p h,
      after_guard-IsWellFormed (policy_fact b) _ (policy_fact-Fits b)
          (judge_locked-IsWellFormed json_loads b),
      ie11-IsWellFormed b p h,
      types-IsWellFormed b p h,
      disabled,
      scanning,
      with_inventory-IsWellFormed load b p (fact b "windows.applications.installed"),
      paths-IsWellFormed b p h,
    )
