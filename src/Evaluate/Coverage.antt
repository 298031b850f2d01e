-- ===== src/Evaluate/Coverage.antt =====
-- `unassessed_controls` and `coverage_summary` of tools/nobytes_cca/evaluate.py.
use oscal_aap_ansible_playbo.Prelude.{
  ℕ, ◌+◌, ◌-◌, String, Bool, not, ◌&&◌, none, some, List, [], ◌∷◌, ◌++◌, lookup, insert, filter,
  if◌then◌else◌, mem_text, unique, length,
}
use oscal_aap_ansible_playbo.Py.Access.{sort_texts, str_lt}
use oscal_aap_ansible_playbo.Contract.Terms.{
  Confidence, UnassessedReason, emits_finding, requires_attestation, not_implemented,
  no_subject_in_scope, evaluation_error, direct, proxy, partial, attested,
}
use oscal_aap_ansible_playbo.Registry.{
  Check, Registry, ControlBinding, is_automated, checks, binds, control_ids, automated_controls,
  attested_controls,
}
use oscal_aap_ansible_playbo.Evaluate.{Evaluation}

-- The controls that some evaluation with a finding binds.
unfoldable pub determined : List Evaluation → List String
unfolding emits_finding
determined [] = []
determined (ev ∷ evs) =
    (if emits_finding ev.result.status then control_ids ev.check.controls else []) ++ determined evs

-- The evaluations of the checks that bind a control.
unfoldable pub relevant : String → List Evaluation → List Evaluation
unfolding binds
relevant control_id evs = filter (λ ev. binds control_id ev.check) evs

unfoldable pub reasons : List Evaluation → List UnassessedReason
reasons [] = []
reasons (ev ∷ evs) = elim ev.result.reason [ none ↦ reasons evs | some r ↦ r ∷ reasons evs ]

abbrev pub first_reason : List UnassessedReason → UnassessedReason
first_reason [] = evaluation_error
first_reason (r ∷ rs) = r

-- The reason of a control that some check attempts.
unfoldable pub attempted_reason : List Evaluation → UnassessedReason
unfolding reasons
attempted_reason [] = no_subject_in_scope
attempted_reason (ev ∷ evs) = first_reason (reasons (ev ∷ evs))

-- The `if` ladder for one control that is not determined.
unfoldable pub reason_for : Registry → List Evaluation → String → UnassessedReason
unfolding attempted_reason
reason_for registry evs control_id =
    let attempted = mem_text control_id (automated_controls registry) in
    if mem_text control_id (attested_controls registry) && not attempted
    then requires_attestation
    else if not attempted
    then not_implemented
    else attempted_reason (relevant control_id evs)

unfoldable pub unassessed_loop :
    Registry
    → List Evaluation
    → List String
    → List (String × UnassessedReason)
    → List (String × UnassessedReason)
unassessed_loop registry evs [] out = out
unassessed_loop registry evs (c ∷ cs) out =
    unassessed_loop registry evs cs
      (if mem_text c (determined evs) then out else insert c (reason_for registry evs c) out)

unfoldable pub unassessed_controls :
    List String → Registry → List Evaluation → List (String × UnassessedReason)
unfolding unassessed_loop
unassessed_controls baseline registry evs = unassessed_loop registry evs baseline []

-- `Confidence.value`.
abbrev pub confidence_text : Confidence → String
confidence_text direct = "direct"
confidence_text proxy = "proxy"
confidence_text partial = "partial"
confidence_text attested = "attested"

-- `by_confidence[key] = by_confidence.get(key, 0) + 1`.
count_up : String → List (String × ℕ) → List (String × ℕ)
count_up key d = elim (lookup key d) [ none ↦ insert key 1 d | some n ↦ insert key (n + 1) d ]

count_bindings : List String → String → List ControlBinding → List (String × ℕ) → List (String × ℕ)
unfolding count_up
count_bindings baseline key [] d = d
count_bindings baseline key (b ∷ bs) d =
    count_bindings baseline key bs (if mem_text b.control_id baseline then count_up key d else d)

unfoldable pub count_by_confidence :
    List String → List Check → List (String × ℕ) → List (String × ℕ)
unfolding count_bindings
count_by_confidence baseline [] d = d
count_by_confidence baseline (c ∷ cs) d = count_by_confidence baseline cs (
    if is_automated c
    then count_bindings baseline (confidence_text c.confidence) c.controls d
    else d)

insert_entry : String × ℕ → List (String × ℕ) → List (String × ℕ)
insert_entry e [] = e ∷ []
insert_entry e (f ∷ fs) = if str_lt f.0 e.0 then f ∷ insert_entry e fs else e ∷ (f ∷ fs)

-- `dict(sorted(d.items()))`.
unfoldable pub sort_entries : List (String × ℕ) → List (String × ℕ)
unfolding insert_entry
sort_entries [] = []
sort_entries (e ∷ es) = insert_entry e (sort_entries es)

pub record Coverage : Type 0 where
  pub catalog_version : String
  pub baseline_size : ℕ
  pub controls_with_a_check : ℕ
  pub controls_without_a_check : ℕ
  pub controls_attested : ℕ
  pub controls_unaccounted : ℕ
  pub by_confidence : List (String × ℕ)
  pub covered : List String
  pub attested : List String
  pub uncovered : List String

abbrev pub is_covered : Registry → String → Bool
is_covered registry c = mem_text c (automated_controls registry)

abbrev pub is_attested : Registry → String → Bool
is_attested registry c = mem_text c (attested_controls registry) && not (is_covered registry c)

-- `accounted`: the set of the covered and the attested controls.
abbrev pub accounted : Registry → List String → List String
accounted registry baseline = unique (
    sort_texts (filter (is_covered registry) baseline)
    ++ sort_texts (filter (is_attested registry) baseline))

-- `coverage_summary`, given the catalog's version. The two subtractions of counts cannot go below
-- zero, since each list is drawn from the baseline.
unfoldable pub coverage_summary : String → Registry → List String → Coverage
unfolding count_by_confidence
coverage_summary version registry baseline =
    let in_baseline_automated = sort_texts (filter (is_covered registry) baseline) in
    let in_baseline_attested = sort_texts (filter (is_attested registry) baseline) in
    let known = accounted registry baseline in
    record {
      catalog_version = version;
      baseline_size = length baseline;
      controls_with_a_check = length in_baseline_automated;
      controls_without_a_check = length baseline - length in_baseline_automated;
      controls_attested = length in_baseline_attested;
      controls_unaccounted = length baseline - length known;
      by_confidence = sort_entries (count_by_confidence baseline (checks registry) []);
      covered = in_baseline_automated;
      attested = in_baseline_attested;
      uncovered = sort_texts (filter (λ c. not (mem_text c known)) baseline);
    }
