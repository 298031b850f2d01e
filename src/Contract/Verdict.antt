-- ===== src/Contract/Verdict.antt =====
-- The vocabulary of a verdict and `class CheckResult` of tools/nobytes_cca/contract.py. A result is
-- built by the class methods alone; two of them raise, so they return a `Result`.
use oscal_aap_ansible_playbo.Prelude.{
  String, Option, none, some, List, [], ◌∷◌, if◌then◌else◌, str_eq,
}
use oscal_aap_ansible_playbo.Contract.Terms.{
  Status, Confidence, UnassessedReason, evaluation_error, capped_by,
}
use oscal_aap_ansible_playbo.Py.Text.{strip}
use oscal_aap_ansible_playbo.Py.Value.{Value}
use oscal_aap_ansible_playbo.Py.Result.{Result, ok, raise}
use oscal_aap_ansible_playbo.Py.Access.{value_error}

-- The observations that a result carries, in the order of the dict.
abbrev pub Facts : Type 0
Facts = List (String × Value)

pub record CheckResult : Type 0 where
  pub status : Status
  pub detail : String
  pub confidence : Option Confidence
  pub reason : Option UnassessedReason
  pub facts : Facts

unfoldable pub satisfied : String → Facts → Confidence → Result CheckResult
satisfied detail [] confidence = raise (
    value_error
      "CheckResult.satisfied() requires supporting facts: a verdict without a recorded observation is an assertion, not assurance")
satisfied detail (f ∷ fs) confidence = ok (record {
  status = Status.satisfied;
  detail = detail;
  confidence = some confidence;
  reason = none;
  facts = f ∷ fs;
})

unfoldable pub not_satisfied : String → Facts → Confidence → Result CheckResult
not_satisfied detail [] confidence =
    raise (value_error "CheckResult.not_satisfied() requires supporting facts")
not_satisfied detail (f ∷ fs) confidence = ok (record {
  status = Status.not_satisfied;
  detail = detail;
  confidence = some confidence;
  reason = none;
  facts = f ∷ fs;
})

unfoldable pub not_applicable : String → Facts → Result CheckResult
unfolding strip str_eq
not_applicable detail facts =
    if str_eq (strip detail) ""
    then raise (value_error "not_applicable() requires a justification")
    else ok (record {
      status = Status.not_applicable;
      detail = detail;
      confidence = none;
      reason = none;
      facts = facts;
    })

unfoldable pub unassessed : UnassessedReason → String → Facts → CheckResult
unassessed reason detail facts = record {
  status = Status.unassessed;
  detail = detail;
  confidence = none;
  reason = some reason;
  facts = facts;
}

unfoldable pub error : String → Facts → CheckResult
error detail facts = record {
  status = Status.error;
  detail = detail;
  confidence = none;
  reason = some evaluation_error;
  facts = facts;
}

abbrev pub cap : Option Confidence → Confidence → Option Confidence
cap none ceiling = none
cap (some c) ceiling = some (capped_by c ceiling)

-- `CheckResult.with_confidence_ceiling`. A result without a confidence is returned as it is.
unfoldable pub with_confidence_ceiling : CheckResult → Confidence → CheckResult
unfolding capped_by
with_confidence_ceiling r ceiling = record r { confidence = cap r.confidence ceiling }
