-- ===== src/Contract/Terms.antt =====
-- The enumerations of tools/nobytes_cca/contract.py.
use oscal_aap_ansible_playbo.Prelude.{ℕ, Bool, true, false, leb, if◌then◌else◌}

pub data Status : Type 0 where
  satisfied not_satisfied not_applicable unassessed error : Status

pub data Confidence : Type 0 where
  direct proxy partial attested : Confidence

pub data UnassessedReason : Type 0 where
  not_implemented out_of_scope unreachable insufficient_privilege : UnassessedReason
  insufficient_history partial_population unsupported_platform : UnassessedReason
  collection_error requires_attestation no_subject_in_scope : UnassessedReason
  evaluation_error requires_interview requires_external_system : UnassessedReason
  evidence_expired deferred_by_policy : UnassessedReason

-- `Status.emits_finding`.
unfoldable pub emits_finding : Status → Bool
emits_finding Status.satisfied = true
emits_finding Status.not_satisfied = true
emits_finding Status.not_applicable = true
emits_finding Status.unassessed = false
emits_finding Status.error = false

-- `Confidence.rank`: a lower rank is a stronger claim.
unfoldable pub rank : Confidence → ℕ
rank direct = 0
rank proxy = 1
rank partial = 2
rank attested = 3

-- `Confidence.capped_by`.
unfoldable pub capped_by : Confidence → Confidence → Confidence
unfolding rank
capped_by c ceiling = if leb (rank ceiling) (rank c) then c else ceiling

-- `Assessability`, `Method`, `Scope` and `EvidenceTier`.
pub data Assessability : Type 0 where
  automated attested : Assessability

pub data Method : Type 0 where
  test examine interview : Method

pub data Scope : Type 0 where
  subject aggregate : Scope

pub data EvidenceTier : Type 0 where
  passive active mutating : EvidenceTier
