-- ===== src/Checks/Browsers/Java.antt =====
-- ism-1486 of tools/nobytes_cca/checks/windows/browsers.py: Java from the internet.
use oscal_aap_ansible_playbo.Prelude.{
  ℕ, String, ◌<>◌, Bool, true, not, ◌&&◌, ◌||◌, Option, none, some, List, [], ◌∷◌, ◌++◌, is_empty,
  if◌then◌else◌, lookup, ltb, str_eq,
}
use oscal_aap_ansible_playbo.Py.Text.{join}
use oscal_aap_ansible_playbo.Py.Value.{
  Value, list, dict, num, strs, or_else, truthy, to_text, py_eq,
}
use oscal_aap_ansible_playbo.Py.Result.{Result, ok, ◌>>=◌}
use oscal_aap_ansible_playbo.Py.Access.{get}
use oscal_aap_ansible_playbo.Contract.Terms.{proxy, partial_population, collection_error}
use oscal_aap_ansible_playbo.Contract.Verdict.{
  CheckResult, Facts, satisfied, not_satisfied, unassessed,
}
use oscal_aap_ansible_playbo.Contract.Bundle.{Fact, FactBundle, FactHistory, fact}
use oscal_aap_ansible_playbo.Checks.Browsers.Inventory.{
  Installed, policy_fact, as_dict, installed_browsers, coverage_gap, names_entries, after_guard,
  major,
}

-- `NPAPI_REMOVED_AT`.
abbrev pub npapi_removed_at : List (String × ℕ)
npapi_removed_at = ("chrome", 45) ∷ ("firefox", 53) ∷ []

-- `major is None or major < floor`.
unfoldable pub is_below : ℕ → String → Bool
unfolding major
is_below floor version = elim (major version) [ none ↦ true | some n ↦ ltb n floor ]

-- The entries of one browser whose version is below a floor, or not known.
unfoldable pub below_floor : ℕ → List (String × String) → List String
unfolding is_below str_eq
below_floor floor [] = []
below_floor floor ((name, version) ∷ entries) =
    let rest = below_floor floor entries in
    if is_below floor version
    then (name <> (" " <> (if str_eq version "" then "(version unknown)" else version))) ∷ rest
    else rest

-- `below_threshold`.
unfoldable pub below_threshold : Installed → List String
unfolding lookup below_floor
below_threshold [] = []
below_threshold ((browser, entries) ∷ found) =
    elim (lookup browser npapi_removed_at) [ none ↦ [] | some floor ↦ below_floor floor entries ]
    ++ below_threshold found

-- `ie_level in (_IE_MODE, _IE_NEEDIE)`.
unfoldable pub is_ie_mode : Value → Bool
unfolding py_eq
is_ie_mode level = py_eq level (num 1) || py_eq level (num 2)

java_facts : Installed → List String → Value → Value → Value → Facts
unfolding names_entries
java_facts installed below level sites javasoft =
    ("installed_browsers", dict (names_entries installed))
    ∷ ("npapi_removed_at", dict (("chrome", num 45) ∷ ("firefox", num 53) ∷ []))
    ∷ ("browsers_below_npapi_threshold", list (strs below))
    ∷ ("edge_ie_integration_level", level)
    ∷ ("edge_ie_site_list", sites)
    ∷ ("java_runtime_registry", javasoft)
    ∷ []

-- The verdict of ism-1486, up to the gaps of coverage.
unfoldable pub java_verdict :
    Installed → List String → Value → Value → Result (List String) → Facts → Result CheckResult
unfolding is_ie_mode
java_verdict installed below level javasoft coverage facts =
    if is_empty installed
    then ok (
        unassessed partial_population
          "No application inventory. This control is answered from which browsers are installed and at what version, so without it there is nothing to judge."
          facts)
    else if is_ie_mode level && truthy javasoft
    then not_satisfied
        ("Edge Internet Explorer mode is enabled (InternetExplorerIntegrationLevel="
          <> (to_text level
              <> ") and a Java runtime is registered. IE mode runs the Trident engine, which supports ActiveX controls, and the Internet Explorer Java plug-in is an ActiveX control rather than NPAPI — so a site on the IE-mode site list can still process Java. ism-1654 does not cover this: it speaks to Internet Explorer 11 as a browser, not to the MSHTML engine."))
        facts proxy
    else if not (is_empty below)
    then ok (
        unassessed partial_population
          ("Browser(s) at or below the version where NPAPI was removed: "
            <> (join ", " below
                <> ". Whether a Java plug-in is actually registered for them is not readable from the collected state."))
          facts)
    else (coverage >>= λ gaps.
        if is_empty gaps
        then satisfied
            "Every installed browser is past the version at which NPAPI — and with it the Java plug-in — was removed (Chrome 45, Firefox 53), and Edge Internet Explorer mode is not enabled. The control is met by construction rather than by configuration, and this is the evidence of that construction."
            facts proxy
        else ok (unassessed partial_population (join "; " gaps) facts))

unfoldable pub judge_java : FactBundle → Fact → Fact → Result CheckResult
unfolding java_facts java_verdict below_threshold as_dict
judge_java bundle f surface = installed_browsers bundle >>= λ installed.
    get (or_else surface.value (dict [])) "ie_integration_level" >>= λ level.
    get (or_else surface.value (dict [])) "javasoft" >>= λ j.
    as_dict (or_else j (dict [])) >>= λ javasoft.
    get (or_else surface.value (dict [])) "ie_site_list" >>= λ sites.
    java_verdict installed (below_threshold installed) level javasoft (coverage_gap f bundle)
      (java_facts installed (below_threshold installed) level sites javasoft)

unfoldable pub unread_surface : CheckResult
unread_surface =
    unassessed collection_error
      "the Edge IE-mode and Java runtime surface could not be read, and it is the only path by which a modern browser still processes Java"
      []

-- From `java_fact = …` on.
unfoldable pub with_surface : FactBundle → Option Fact → Fact → Result CheckResult
unfolding judge_java unread_surface
with_surface bundle none f = ok unread_surface
with_surface bundle (some surface) f =
    if surface.partial then ok unread_surface else judge_java bundle f surface

-- `java_not_processed`.
unfoldable pub java_not_processed : FactBundle → Value → FactHistory → Result CheckResult
unfolding with_surface
java_not_processed bundle params history =
    after_guard (policy_fact bundle)
      (with_surface bundle (fact bundle "windows.browsers.java_surface"))
