-- ===== src/Registry/Loading.antt =====
-- `_to_check` and `Registry.load` of tools/nobytes_cca/registry.py. The files are given as the parsed
-- documents of the paths, in the order of the paths; in them the schema's types hold: what it declares
-- as a text is one, and a number of hours or days is not negative. Any other document raises here.
use oscal_aap_ansible_playbo.Prelude.{
  ℕ, String, ◌<>◌, Option, none, some, List, [], ◌∷◌, is_empty, if◌then◌else◌, lookup, insert,
  mem_text,
}
use oscal_aap_ansible_playbo.Prelude.Int.{ℤ, pos, negsuc}
use oscal_aap_ansible_playbo.Py.Value.{
  Value, null, str, obj, list, dict, or_else, truthy, type_name, entries,
}
use oscal_aap_ansible_playbo.Py.Result.{Result, Exn, ok, raise, ◌>>=◌, filter_map}
use oscal_aap_ansible_playbo.Py.Access.{
  get, get_or, index, iterate, iterate_or_empty, to_int, type_error, value_error,
}
use oscal_aap_ansible_playbo.Contract.Terms.{
  Assessability, Confidence, EvidenceTier, Method, Scope, direct, proxy, partial,
}
use oscal_aap_ansible_playbo.Registry.{ControlBinding, Attestation, Check, Registry}

-- A value that the schema declares as a text, or as a count.
text_of : Value → Result String
text_of (str s) = ok s
text_of v = raise (type_error ("expected a text, not " <> type_name v))

count_of : ℤ → Result ℕ
count_of (pos n) = ok n
count_of (negsuc n) = raise (value_error "expected a count")

-- `data[key]` and `data.get(key, "")`, as texts.
text_at : Value → String → Result String
unfolding text_of
text_at doc key = index doc key >>= λ v. text_of v

text_or_empty : Value → String → Result String
unfolding text_of
text_or_empty doc key = get_or doc key (str "") >>= λ v. text_of v

count_at : Value → String → Result ℕ
unfolding count_of
count_at doc key = index doc key >>= λ v. to_int v >>= λ n. count_of n

each_text : Value → Result (Option String)
unfolding text_of
each_text v = text_of v >>= λ s. ok (some s)

-- `tuple(facts.get(key) or ())`.
texts_at : Value → String → Result (List String)
unfolding each_text
texts_at doc key = get doc key >>= λ v. iterate_or_empty v >>= λ vs. filter_map each_text vs

-- A member of an enumeration by its value.
member : {A : Type 0} → String → List (String × A) → String → Result A
unfolding lookup
member name members v = elim (lookup v members) [
  | some a ↦ ok a
  | none ↦ raise (value_error ("'" <> (v <> ("' is not a valid " <> name))))
]

unfoldable pub method_of : String → Result Method
unfolding member
method_of =
    member "Method"
      (("TEST", Method.test) ∷ ("EXAMINE", Method.examine) ∷ ("INTERVIEW", Method.interview) ∷ [])

unfoldable pub confidence_of : String → Result Confidence
unfolding member
confidence_of = member "Confidence" (
    ("direct", direct)
    ∷ ("proxy", proxy)
    ∷ ("partial", partial)
    ∷ ("attested", Confidence.attested)
    ∷ [])

unfoldable pub scope_of : String → Result Scope
unfolding member
scope_of = member "Scope" (("subject", Scope.subject) ∷ ("aggregate", Scope.aggregate) ∷ [])

unfoldable pub tier_of : String → Result EvidenceTier
unfolding member
tier_of = member "EvidenceTier" (
    ("passive", EvidenceTier.passive)
    ∷ ("active", EvidenceTier.active)
    ∷ ("mutating", EvidenceTier.mutating)
    ∷ [])

unfoldable pub assessability_of : String → Result Assessability
unfolding member
assessability_of =
    member "Assessability"
      (("automated", Assessability.automated) ∷ ("attested", Assessability.attested) ∷ [])

-- `ControlBinding(…)`.
unfoldable pub to_binding : Value → Result (Option ControlBinding)
unfolding text_at
to_binding c = text_at c "id" >>= λ id. text_at c "statement_id" >>= λ statement.
    text_at c "control_revision" >>= λ revision. text_at c "statement_sha256" >>= λ sha.
    text_at c "coverage" >>= λ coverage. text_at c "rationale" >>= λ rationale. ok (
      some (record {
        control_id = id;
        statement_id = statement;
        control_revision = revision;
        statement_sha256 = sha;
        coverage = coverage;
        rationale = rationale;
      }))

abbrev attestation_fields : List String
attestation_fields = "source" ∷ "owner" ∷ "renewal_days" ∷ "why_not_observable" ∷ []

foreign_fields : List (String × Value) → List String
unfolding mem_text
foreign_fields [] = []
foreign_fields ((k, v) ∷ kvs) =
    if mem_text k attestation_fields then foreign_fields kvs else k ∷ foreign_fields kvs

keywords_of : Value → Result (List (String × Value))
keywords_of (obj fs) = ok (entries fs)
keywords_of v = raise (type_error ("argument after ** must be a mapping, not " <> type_name v))

-- `Attestation(**data)`, which takes its four fields and no other.
unfoldable pub to_attestation : Value → Result (Option Attestation)
unfolding keywords_of foreign_fields text_at count_at
to_attestation doc =
    if truthy doc
    then (keywords_of doc >>= λ kvs.
        if is_empty (foreign_fields kvs)
        then (text_at doc "source" >>= λ source. text_at doc "owner" >>= λ owner.
            count_at doc "renewal_days" >>= λ days. text_at doc "why_not_observable" >>= λ why. ok (
              some (record {
                source = source;
                owner = owner;
                renewal_days = days;
                why_not_observable = why;
              })))
        else raise (type_error "Attestation got an unexpected keyword argument"))
    else ok none

some_value : Value → Option Value
some_value null = none
some_value v = some v

-- `_to_check`.
unfoldable pub to_check : Value → String → Result Check
unfolding text_at text_or_empty count_at texts_at each_text method_of confidence_of scope_of tier_of
    assessability_of to_binding to_attestation some_value
to_check doc path = get doc "collect" >>= λ c. get (or_else c (dict [])) "facts" >>= λ f.
    get doc "attestation" >>= λ attestation_data. text_at doc "id" >>= λ id.
    text_at doc "version" >>= λ version. text_at doc "title" >>= λ title.
    text_at doc "platform_family" >>= λ family. text_at doc "component" >>= λ component.
    index doc "controls" >>= λ cs. iterate cs >>= λ controls.
    filter_map to_binding controls >>= λ bindings. text_at doc "method" >>= λ m.
    method_of m >>= λ method. text_at doc "confidence" >>= λ n. confidence_of n >>= λ confidence.
    text_at doc "scope" >>= λ s. scope_of s >>= λ scope. text_at doc "evidence_tier" >>= λ t.
    tier_of t >>= λ tier. count_at doc "freshness_hours" >>= λ freshness.
    count_at doc "history_window_days" >>= λ window. text_at doc "assessability" >>= λ a.
    assessability_of a >>= λ assessability. text_or_empty (or_else c (dict [])) "role" >>= λ role.
    texts_at (or_else f (dict [])) "required" >>= λ required.
    texts_at (or_else f (dict [])) "optional" >>= λ optional.
    text_or_empty doc "evaluator" >>= λ evaluator.
    get_or doc "parameters" (dict []) >>= λ parameters.
    text_or_empty doc "not_applicable_when" >>= λ not_applicable_when.
    get_or doc "references" (list []) >>= λ r. iterate r >>= λ rs.
    filter_map each_text rs >>= λ references. get doc "remediation" >>= λ remediation.
    to_attestation attestation_data >>= λ attestation. ok (record {
      id = id;
      version = version;
      title = title;
      platform_family = family;
      component = component;
      controls = bindings;
      method = method;
      confidence = confidence;
      scope = scope;
      evidence_tier = tier;
      freshness_hours = freshness;
      history_window_days = window;
      assessability = assessability;
      collect_role = role;
      required_facts = required;
      optional_facts = optional;
      evaluator = evaluator;
      parameters = parameters;
      not_applicable_when = not_applicable_when;
      references = references;
      remediation = some_value remediation;
      attestation = attestation;
      source_file = path;
    })

duplicate_id : String → Check → String → Exn
duplicate_id id other path =
    value_error
      ("duplicate check id '" <> (id <> ("': " <> (other.source_file <> (" and " <> path)))))

-- A check that was read is added under its id, unless the id is taken.
unfoldable pub add_check : Check → String → Registry → Result Registry
unfolding lookup insert duplicate_id
add_check check path checks = elim (lookup check.id checks) [
  | some other ↦ raise (duplicate_id check.id other path)
  | none ↦ ok (insert check.id check checks)
]

-- The loop over the files. A file with no document is passed over; no `.yml` file is named schema.json.
unfoldable pub load_files : List (String × Value) → Registry → Result Registry
unfolding to_check add_check
load_files [] checks = ok checks
load_files ((path, doc) ∷ files) checks =
    (if truthy doc then (to_check doc path >>= λ check. add_check check path checks) else ok checks)
    >>= λ next. load_files files next

nothing_found : String → Exn
nothing_found directory = record {
  kind = "FileNotFoundError";
  message =
      "No checks found under "
      <> (directory
          <> ". Either the check registry is empty or the project root resolved wrongly -- set CCA_PROJECT_ROOT to the checkout containing oscal/ and checks/.");
}

-- `Registry.load`.
unfoldable pub load_registry : String → List (String × Value) → Result Registry
unfolding load_files nothing_found
load_registry directory files = load_files files [] >>= λ checks.
    if is_empty checks then raise (nothing_found directory) else ok checks
