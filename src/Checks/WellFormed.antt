-- ===== src/Checks/WellFormed.antt =====
-- Every evaluator returns results that fit their status, or raises.
use oscal_aap_ansible_playbo.Prelude.{String, Bool, List, Option, none, some, ◌≡◌, refl}
use oscal_aap_ansible_playbo.Py.Value.{Value}
use oscal_aap_ansible_playbo.Py.Result.{
  Result, ◌>>=◌, Returns, returned, Returns-bind, Returns_inv, returns_rules,
}
use oscal_aap_ansible_playbo.Contract.Verdict.{CheckResult, Facts}
use oscal_aap_ansible_playbo.Contract.Evidence.{
  IsWellFormed, satisfied-IsWellFormed, not_satisfied-IsWellFormed, not_applicable-IsWellFormed,
  unassessed-IsWellFormed,
}
use oscal_aap_ansible_playbo.Contract.Bundle.{Fact, FactBundle, FactHistory, with_fact}
use oscal_aap_ansible_playbo.Py.Date.{Date}
use oscal_aap_ansible_playbo.Eol.{SupportStatus}
use oscal_aap_ansible_playbo.Checks.OsSupport.{vendor_verdict, vendor_supported}
use oscal_aap_ansible_playbo.Checks.OsState.{ie_verdict, judge_features, ie11_disabled_or_removed}
use oscal_aap_ansible_playbo.Checks.Office.Guard.{Guarded, go, stop, office_guard, after_guard}
use oscal_aap_ansible_playbo.Checks.Office.Guarded.{office_guard-Guards, Guards}
use oscal_aap_ansible_playbo.Checks.Office.{
  locked_verdict, judge_locked, macro_settings_locked, disabled_verdict, judge_disabled,
  macros_disabled_without_business_need, scan_verdict, judge_scanning, macro_antivirus_scanning,
}
use oscal_aap_ansible_playbo.Checks.Office.InternetMacros.{
  macro_verdict, judge_policy, macro_internet_blocked,
}

pub ruleset verdicts = (
  returns_rules, satisfied-IsWellFormed, not_satisfied-IsWellFormed, not_applicable-IsWellFormed,
  unassessed-IsWellFormed,
)

abbrev pub WellFormed : Result CheckResult → Type 0
WellFormed = Returns IsWellFormed

vendor_verdict-IsWellFormed :
    (s : SupportStatus) (product cycle : Value) (as_of : Date) (value params : Value)
    → WellFormed (vendor_verdict s product cycle as_of value params)
unfolding vendor_verdict
vendor_verdict-IsWellFormed s product cycle as_of value params = search verdicts depth 9

pub Returns-with_fact :
    {P : CheckResult → Type 0} (o : Option Fact) (absent : Result CheckResult)
    (present : Fact → Result CheckResult)
    → Returns P absent
    → ((f : Fact) → o ≡ some f → Returns P (present f))
    → Returns P (with_fact o absent present)
Returns-with_fact none absent present h k = h
Returns-with_fact (some f) absent present h k = k f refl

-- Every result that the check of ism-1501 returns fits its status.
pub vendor_supported-IsWellFormed :
    (load : String → Result Value) (b : FactBundle) (p : Value) (h : FactHistory)
    → WellFormed (vendor_supported load b p h)
unfolding vendor_supported
vendor_supported-IsWellFormed load b p h =
    search (verdicts, vendor_verdict-IsWellFormed, Returns-with_fact) depth 12

ie_verdict-IsWellFormed :
    (f i : List Value) (d : Bool) (m : Value) → WellFormed (ie_verdict f i d m)
unfolding ie_verdict
ie_verdict-IsWellFormed f i d m = search verdicts depth 9

judge_features-IsWellFormed : (o : Option Fact) (v : Value) → WellFormed (judge_features o v)
unfolding judge_features
judge_features-IsWellFormed o v = search (verdicts, ie_verdict-IsWellFormed) depth 12

-- Every result that the check of ism-1654 returns fits its status.
pub ie11-IsWellFormed :
    (b : FactBundle) (p : Value) (h : FactHistory) → WellFormed (ie11_disabled_or_removed b p h)
unfolding ie11_disabled_or_removed
ie11-IsWellFormed b p h = search (verdicts, judge_features-IsWellFormed, Returns-with_fact) depth 12

macro_verdict-IsWellFormed :
    (f n u : List Value) (facts : Facts) → WellFormed (macro_verdict f n u facts)
unfolding macro_verdict
macro_verdict-IsWellFormed f n u facts = search verdicts depth 9

judge_policy-IsWellFormed :
    (params : Value) (policy : Fact) → WellFormed (judge_policy params policy)
unfolding judge_policy
judge_policy-IsWellFormed params policy = search (verdicts, macro_verdict-IsWellFormed) depth 20

-- What follows the guard of the Office checks.
Guarded-IsWellFormed :
    (bundle : FactBundle) (g : Guarded) (k : Fact → Result CheckResult)
    → Guards bundle g
    → ((f : Fact) → WellFormed (k f))
    → WellFormed (after_guard g k)
Guarded-IsWellFormed bundle (go f) k h w = w f
Guarded-IsWellFormed bundle (stop r) k h w = returned h.0

after_office_guard :
    (bundle : FactBundle) (k : Fact → Result CheckResult)
    → ((f : Fact) → WellFormed (k f))
    → WellFormed (office_guard bundle >>= λ g. after_guard g k)
after_office_guard bundle k w =
    Returns-bind (office_guard bundle) (λ g. after_guard g k)
      (λ g e. Guarded-IsWellFormed bundle g k (Returns_inv (office_guard-Guards bundle) g e) w)

locked_verdict-IsWellFormed :
    (u l n : List Value) (fs : Facts) → WellFormed (locked_verdict u l n fs)
unfolding locked_verdict
locked_verdict-IsWellFormed u l n fs = search verdicts depth 9

judge_locked-IsWellFormed : (p : Value) (f : Fact) → WellFormed (judge_locked p f)
unfolding judge_locked
judge_locked-IsWellFormed p f = search (verdicts, locked_verdict-IsWellFormed) depth 20

disabled_verdict-IsWellFormed :
    (r : Value) (e u n : List Value) (fs : Facts) → WellFormed (disabled_verdict r e u n fs)
unfolding disabled_verdict
disabled_verdict-IsWellFormed r e u n fs = search verdicts depth 9

judge_disabled-IsWellFormed : (p : Value) (f : Fact) → WellFormed (judge_disabled p f)
unfolding judge_disabled
judge_disabled-IsWellFormed p f = search (verdicts, disabled_verdict-IsWellFormed) depth 20

scan_verdict-IsWellFormed :
    (r : Value) (w : List Value) (fs : Facts) → WellFormed (scan_verdict r w fs)
unfolding scan_verdict
scan_verdict-IsWellFormed r w fs = search verdicts depth 9

judge_scanning-IsWellFormed : (p : Value) (f : Fact) → WellFormed (judge_scanning p f)
unfolding judge_scanning
judge_scanning-IsWellFormed p f = search (verdicts, scan_verdict-IsWellFormed) depth 20

-- Every result that a check of ism-1488, ism-1489, ism-1671 or ism-1672 returns fits its status.
pub office-IsWellFormed :
    (b : FactBundle) (p : Value) (h : FactHistory)
    → WellFormed (macro_internet_blocked b p h)
      × WellFormed (macro_settings_locked b p h)
      × WellFormed (macros_disabled_without_business_need b p h)
      × WellFormed (macro_antivirus_scanning b p h)
unfolding macro_internet_blocked macro_settings_locked macros_disabled_without_business_need
    macro_antivirus_scanning
office-IsWellFormed b p h = (
  after_office_guard b (judge_policy p) (judge_policy-IsWellFormed p),
  after_office_guard b (judge_locked p) (judge_locked-IsWellFormed p),
  after_office_guard b (judge_disabled p) (judge_disabled-IsWellFormed p),
  after_office_guard b (judge_scanning p) (judge_scanning-IsWellFormed p),
)
