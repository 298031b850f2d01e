-- ===== src/Contract/Evidence.antt =====
-- Every class method builds a result whose parts fit its status, and the ceiling keeps them so.
use oscal_aap_ansible_playbo.Prelude.{
  ◌≤◌, String, ◌≡◌, refl, ◌≢◌, ◌⊎◌, Option, none, some, [], ◌∷◌, arith,
}
use oscal_aap_ansible_playbo.Py.Result.{Returns, returned, raised, Returns-if}
use oscal_aap_ansible_playbo.Contract.Terms.{
  Status, Confidence, UnassessedReason, evaluation_error, rank, capped_by,
}
use oscal_aap_ansible_playbo.Contract.Verdict.{
  Facts, CheckResult, satisfied, not_satisfied, not_applicable, unassessed, error, cap,
  with_confidence_ceiling,
}

-- Which parts go with a status. A claim that the control is met or not met carries observations and
-- a confidence; a result with no determination carries the reason, and no confidence.
abbrev pub Fits : Status → Option Confidence → Option UnassessedReason → Facts → Type 0
Fits Status.satisfied c r fs = (c ≢ none) × (r ≡ none) × (fs ≢ [])
Fits Status.not_satisfied c r fs = (c ≢ none) × (r ≡ none) × (fs ≢ [])
Fits Status.not_applicable c r fs = (c ≡ none) × (r ≡ none)
Fits Status.unassessed c r fs = (c ≡ none) × (r ≢ none)
Fits Status.error c r fs = (c ≡ none) × (r ≡ some evaluation_error)

abbrev pub IsWellFormed : CheckResult → Type 0
IsWellFormed r = Fits r.status r.confidence r.reason r.facts

pub satisfied-IsWellFormed :
    (d : String) (fs : Facts) (c : Confidence) → Returns IsWellFormed (satisfied d fs c)
unfolding satisfied
satisfied-IsWellFormed d [] c = raised
satisfied-IsWellFormed d (f ∷ fs) c = returned ((λ h. cc), refl, (λ h. cc))

pub not_satisfied-IsWellFormed :
    (d : String) (fs : Facts) (c : Confidence) → Returns IsWellFormed (not_satisfied d fs c)
unfolding not_satisfied
not_satisfied-IsWellFormed d [] c = raised
not_satisfied-IsWellFormed d (f ∷ fs) c = returned ((λ h. cc), refl, (λ h. cc))

pub not_applicable-IsWellFormed :
    (d : String) (fs : Facts) → Returns IsWellFormed (not_applicable d fs)
unfolding not_applicable
not_applicable-IsWellFormed d fs = search (raised, returned, Returns-if)

pub unassessed-IsWellFormed :
    (reason : UnassessedReason) (d : String) (fs : Facts) → IsWellFormed (unassessed reason d fs)
unfolding unassessed
unassessed-IsWellFormed reason d fs = (refl, λ h. cc)

pub error-IsWellFormed : (d : String) (fs : Facts) → IsWellFormed (error d fs)
unfolding error
error-IsWellFormed d fs = (refl, refl)

Fits-cap :
    (s : Status) (c : Option Confidence) (ceiling : Confidence) (r : Option UnassessedReason)
    (fs : Facts)
    → Fits s c r fs
    → Fits s (cap c ceiling) r fs
Fits-cap s none ceiling r fs h = h
Fits-cap Status.satisfied (some c) ceiling r fs h = (λ e. cc, h.1, h.2)
Fits-cap Status.not_satisfied (some c) ceiling r fs h = (λ e. cc, h.1, h.2)
Fits-cap Status.not_applicable (some c) ceiling r fs h = cc (h.0)
Fits-cap Status.unassessed (some c) ceiling r fs h = cc (h.0)
Fits-cap Status.error (some c) ceiling r fs h = cc (h.0)

pub with_confidence_ceiling-IsWellFormed :
    (r : CheckResult) (ceiling : Confidence)
    → IsWellFormed r
    → IsWellFormed (with_confidence_ceiling r ceiling)
unfolding with_confidence_ceiling
with_confidence_ceiling-IsWellFormed r ceiling h =
    Fits-cap r.status r.confidence ceiling r.reason r.facts h

-- The weaker of two claims.
abbrev pub Weaker : Option Confidence → Confidence → Option Confidence → Type 0
Weaker none ceiling d = d ≡ none
Weaker (some c) ceiling none = ⊥
Weaker (some c) ceiling (some d) =
    (rank c ≤ rank d) × (rank ceiling ≤ rank d) × ((d ≡ c) ⊎ (d ≡ ceiling))

cap-Weaker : (c : Option Confidence) (ceiling : Confidence) → Weaker c ceiling (cap c ceiling)
unfolding capped_by
cap-Weaker none ceiling = refl
cap-Weaker (some c) ceiling = ground arith

-- The ceiling changes nothing but the confidence, keeps its absence, and otherwise leaves the weaker
-- of the two claims.
pub with_confidence_ceiling_lem :
    (r : CheckResult) (ceiling : Confidence)
    → let s = with_confidence_ceiling r ceiling in
      (s.status ≡ r.status)
      × (s.detail ≡ r.detail)
      × (s.reason ≡ r.reason)
      × (s.facts ≡ r.facts)
      × Weaker r.confidence ceiling s.confidence
unfolding with_confidence_ceiling
with_confidence_ceiling_lem r ceiling = (refl, refl, refl, refl, cap-Weaker r.confidence ceiling)
