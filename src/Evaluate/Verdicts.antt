-- ===== src/Evaluate/Verdicts.antt =====
-- What `evaluate_check` reports, on each path through its guards.
use mathlib.Core.Path.{subst}
use mathlib.Core.Bool.{false≢true}
use oscal_aap_ansible_playbo.Prelude.{
  ◌+◌, ◌*◌, ◌≤◌, ◌<◌, String, ◌≡◌, refl, sym, ap, ◌∙◌, ◌<>◌, ◌↔◌, ◌⊎◌, inl, inr, true, false,
  Option, none, some, arith, Bool-cases, Option-cases, All,
}
use oscal_aap_ansible_playbo.Py.Result.{
  Exn, Result, ok, raise, ◌>>=◌, >>=-eq_ok, Returns, Returns-bind, Returns_inv,
}
use oscal_aap_ansible_playbo.Contract.Terms.{
  Status, Confidence, evaluation_error, emits_finding, rank,
}
use oscal_aap_ansible_playbo.Contract.Verdict.{
  CheckResult, unassessed, error, with_confidence_ceiling,
}
use oscal_aap_ansible_playbo.Contract.Bundle.{
  Instant, hour, FactBundle, FactHistory, require, spans,
}
use oscal_aap_ansible_playbo.Contract.Evidence.{
  IsWellFormed, Weaker, unassessed-IsWellFormed, error-IsWellFormed,
  with_confidence_ceiling-IsWellFormed, with_confidence_ceiling_lem,
}
use oscal_aap_ansible_playbo.Contract.Guards.{
  IsComplete, require-none_iff, require-Stops, require-IsWellFormed,
}
use oscal_aap_ansible_playbo.Registry.{Check, Evaluator, is_automated, resolve, evaluator_named}
use oscal_aap_ansible_playbo.Evaluate.{
  is_fresh, is_short, or_empty, or_error, attested_result, short_history_result, evaluate_check,
}

module _ (import_function : String → String → Result (Option Evaluator)) (check : Check)
    (bundle : FactBundle) (history : Option FactHistory) where
  unassessed_finds : emits_finding Status.unassessed ≡ false
  unfolding emits_finding
  unassessed_finds = refl

  abbrev seen : FactHistory
  seen = or_empty history

  abbrev outcome : CheckResult
  outcome = (evaluate_check import_function check bundle history).result

  -- The window is met, or the check has none.
  abbrev pub HasHistory : Type 0
  HasHistory = (check.history_window_days ≡ 0) ⊎ (spans seen check.history_window_days ≡ true)

  -- The evaluator was found, was called on the facts, and returned the result.
  abbrev pub Returned : CheckResult → Type 0
  Returned r =
      (f : Evaluator) × (evaluator_named import_function check.evaluator ≡ ok f)
      × (f bundle check.parameters seen ≡ ok r)

  -- All that a determination rests on.
  abbrev pub Judged : CheckResult → Type 0
  Judged r =
      (is_automated check ≡ true)
      × All (IsComplete bundle) check.required_facts
      × HasHistory
      × Returned r

  HasHistory_of : is_short check seen ≡ false → HasHistory
  HasHistory_of h = ground arith

  not_short : HasHistory → is_short check seen ≡ false
  not_short h = ground arith

  finding_from :
      (m : Result CheckResult)
      → emits_finding (or_error check m).status ≡ true
      → (r : CheckResult) × (m ≡ ok r) × (or_error check m ≡ r)
  unfolding or_error error emits_finding
  finding_from (ok r) h = (r, refl, refl)
  finding_from (raise e) h = cc

  abbrev attempt : Result CheckResult
  attempt = resolve import_function check >>= λ f. f bundle check.parameters seen

  Returned-of : (r : CheckResult) → is_automated check ≡ true → attempt ≡ ok r → Returned r
  unfolding resolve
  Returned-of r a h =
      let (f, e, g) = >>=-eq_ok (resolve import_function check) _ h in (f, rw (a, resolve) at e, g)

  attempt_of : (r : CheckResult) → is_automated check ≡ true → Returned r → attempt ≡ ok r
  unfolding resolve
  attempt_of r a (f, e, g) = rw (a, resolve, e) g

  or_error-ok :
      (r : CheckResult) → is_automated check ≡ true → Returned r → or_error check attempt ≡ r
  unfolding or_error
  or_error-ok r a m = rw (attempt_of r a m)

  short-status : (short_history_result check seen).status ≡ Status.unassessed
  unfolding short_history_result unassessed
  short-status = refl

  -- The verdict of an automated check whose guards pass.
  attempted :
      is_automated check ≡ true
      → require bundle check.required_facts ≡ none
      → is_short check seen ≡ false
      → outcome ≡ with_confidence_ceiling (or_error check attempt) check.confidence
  unfolding evaluate_check
  attempted a g s = simp (a, g, s)

  not_automated : is_automated check ≡ false → outcome.status ≡ Status.unassessed
  unfolding evaluate_check unassessed with_confidence_ceiling
  not_automated a = rw a

  stopped :
      (g : CheckResult)
      → is_automated check ≡ true
      → require bundle check.required_facts ≡ some g
      → outcome ≡ with_confidence_ceiling g check.confidence
  unfolding evaluate_check
  stopped g a e = simp (a, e)

  short :
      is_automated check ≡ true
      → require bundle check.required_facts ≡ none
      → is_short check seen ≡ true
      → outcome ≡ with_confidence_ceiling (short_history_result check seen) check.confidence
  unfolding evaluate_check
  short a g s = simp (a, g, s)

  -- The four ways through the guards.
  ways :
      (is_automated check ≡ false)
      ⊎ ((g : CheckResult) × (is_automated check ≡ true)
          × (require bundle check.required_facts ≡ some g))
      ⊎ ((is_automated check ≡ true)
          × (require bundle check.required_facts ≡ none)
          × (is_short check seen ≡ true))
      ⊎ ((is_automated check ≡ true)
          × (require bundle check.required_facts ≡ none)
          × (is_short check seen ≡ false))
  ways = elim (Bool-cases (is_automated check)) [
    | inr a ↦ inl a
    | inl a ↦ elim (Option-cases (require bundle check.required_facts)) [
      | inr (g, e) ↦ inr (inl (g, a, e))
      | inl e ↦ elim (Bool-cases (is_short check seen)) [
        | inl s ↦ inr (inr (inl (a, e, s)))
        | inr s ↦ inr (inr (inr (a, e, s)))
      ]
    ]
  ]

  abbrev capped : CheckResult → CheckResult
  capped r = with_confidence_ceiling r check.confidence

  fits : (r : CheckResult) → IsWellFormed r → IsWellFormed (capped r)
  fits r h = with_confidence_ceiling-IsWellFormed r check.confidence h

  unautomated : is_automated check ≡ false → outcome ≡ capped (attested_result check)
  unfolding evaluate_check
  unautomated a = simp a

  Weaker-ceiling :
      (c : Option Confidence) (d : Confidence)
      → Weaker c check.confidence (some d)
      → rank check.confidence ≤ rank d
  Weaker-ceiling none d h = cc
  Weaker-ceiling (some c) d h = h.1

  capped_ceiling :
      (r : CheckResult) (c : Confidence)
      → (capped r).confidence ≡ some c
      → rank check.confidence ≤ rank c
  capped_ceiling r c h = Weaker-ceiling r.confidence c (
      subst (Weaker r.confidence check.confidence) h
        (with_confidence_ceiling_lem r check.confidence).4)

  capped-status : (r : CheckResult) → (capped r).status ≡ r.status
  capped-status r = (with_confidence_ceiling_lem r check.confidence).0

  no_finding :
      (r : CheckResult)
      → outcome ≡ capped r
      → r.status ≡ Status.unassessed
      → emits_finding outcome.status ≡ false
  unfolding emits_finding
  no_finding r e h = rw (e, capped-status r, h)

  Judged-of :
      is_automated check ≡ true
      → require bundle check.required_facts ≡ none
      → is_short check seen ≡ false
      → emits_finding outcome.status ≡ true
      → (r : CheckResult) × Judged r × (outcome ≡ capped r)
  Judged-of a g s h =
      let e = attempted a g s in
      let k : emits_finding (or_error check attempt).status ≡ true =
        subst (λ t. emits_finding t ≡ true) (capped-status _)
          (subst (λ t. emits_finding t.status ≡ true) e h) in
      let (r, m, q) = finding_from attempt k in
      (
        r,
        (a, (require-none_iff bundle check.required_facts).0 g, HasHistory_of s, Returned-of r a m),
        e ∙ ap capped q,
      )

  -- A determination is reported only where the check is automated, every required fact was collected
  -- completely, the history covers the window, and the evaluator itself returned a result; the report
  -- is that result under the ceiling.
  pub evaluate_check-Judged :
      emits_finding outcome.status ≡ true
      → (r : CheckResult) × Judged r × (outcome ≡ with_confidence_ceiling r check.confidence)
  evaluate_check-Judged h = elim ways [
    | inl a ↦ absurd (false≢true (sym (ap emits_finding (not_automated a) ∙ unassessed_finds) ∙ h))
    | inr (inl (g, a, e)) ↦
        absurd (false≢true (sym (no_finding g (stopped g a e) (require-Stops bundle _ g e).0) ∙ h))
    | inr (inr (inl (a, e, s))) ↦
        absurd (false≢true (sym (no_finding _ (short a e s) short-status) ∙ h))
    | inr (inr (inr (a, e, s))) ↦ Judged-of a e s h
  ]

  -- Where the check is automated, its required facts are complete, the history covers the window and
  -- the evaluator returns a result, the report is exactly that result under the ceiling.
  pub evaluate_check-Returned :
      (r : CheckResult) → Judged r → outcome ≡ with_confidence_ceiling r check.confidence
  evaluate_check-Returned r (a, c, h, m) =
      attempted a ((require-none_iff bundle check.required_facts).1 c) (not_short h)
      ∙ ap capped (or_error-ok r a m)

  -- An `error` that names the evaluator and the exception.
  abbrev pub Reports : Exn → CheckResult → Type 0
  Reports e r =
      (r.status ≡ Status.error)
      × (r.reason ≡ some evaluation_error)
      × (r.confidence ≡ none)
      × (r.detail ≡ check.evaluator <> (" raised " <> (e.kind <> (": " <> e.message))))

  -- The evaluator cannot be found, or raises when it is called.
  abbrev pub Raised : Exn → Type 0
  Raised e =
      (evaluator_named import_function check.evaluator ≡ raise e)
      ⊎ ((f : Evaluator) × (evaluator_named import_function check.evaluator ≡ ok f)
          × (f bundle check.parameters seen ≡ raise e))

  Reports-raise : (e : Exn) → Reports e (capped (or_error check (raise e)))
  unfolding or_error error with_confidence_ceiling
  Reports-raise e = (refl, refl, refl, refl)

  attempt_raises : (e : Exn) → is_automated check ≡ true → Raised e → attempt ≡ raise e
  unfolding resolve
  attempt_raises e a (inl m) = rw (a, resolve, m)
  attempt_raises e a (inr (f, m, g)) = rw (a, resolve, m) g

  -- Where the guards pass, an evaluator that cannot be found or that raises gives an `error`, which
  -- names it and the exception: no pass, and no finding against the subject.
  pub evaluate_check-raise :
      (e : Exn)
      → is_automated check ≡ true
      → All (IsComplete bundle) check.required_facts
      → HasHistory
      → Raised e
      → Reports e outcome
  evaluate_check-raise e a c h m =
      let shown = attempted a ((require-none_iff bundle check.required_facts).1 c) (not_short h) in
      subst (Reports e) (sym (shown ∙ ap (λ t. capped (or_error check t)) (attempt_raises e a m)))
        (Reports-raise e)

  -- A reported confidence is never a stronger claim than the ceiling that the registry declares,
  -- whatever the evaluator claimed.
  pub evaluate_check-ceiling :
      (c : Confidence) → outcome.confidence ≡ some c → rank check.confidence ≤ rank c
  unfolding evaluate_check
  evaluate_check-ceiling c h = capped_ceiling _ c h

  attested-IsWellFormed : IsWellFormed (attested_result check)
  unfolding attested_result
  attested-IsWellFormed = unassessed-IsWellFormed _ _ _

  or_error-IsWellFormed :
      (m : Result CheckResult) → Returns IsWellFormed m → IsWellFormed (or_error check m)
  unfolding or_error
  or_error-IsWellFormed (ok r) h = Returns_inv h r refl
  or_error-IsWellFormed (raise e) h = error-IsWellFormed _ _

  short-IsWellFormed : IsWellFormed (short_history_result check seen)
  unfolding short_history_result
  short-IsWellFormed = unassessed-IsWellFormed _ _ _

  attempt-IsWellFormed :
      ((f : Evaluator)
        → evaluator_named import_function check.evaluator ≡ ok f
        → Returns IsWellFormed (f bundle check.parameters seen))
      → is_automated check ≡ true
      → Returns IsWellFormed attempt
  unfolding resolve
  attempt-IsWellFormed h a =
      Returns-bind (resolve import_function check) _ (λ f e. h f (rw (a, resolve) at e))

  -- If the evaluator's results fit their status, so does every report, on each path through the guards.
  pub evaluate_check-IsWellFormed :
      ((f : Evaluator)
        → evaluator_named import_function check.evaluator ≡ ok f
        → Returns IsWellFormed (f bundle check.parameters seen))
      → IsWellFormed outcome
  evaluate_check-IsWellFormed h = elim ways [
    | inl a ↦ subst IsWellFormed (sym (unautomated a)) (fits _ attested-IsWellFormed)
    | inr (inl (g, a, e)) ↦
        subst IsWellFormed (sym (stopped g a e)) (fits _ (require-IsWellFormed bundle _ g e))
    | inr (inr (inl (a, e, s))) ↦ subst IsWellFormed (sym (short a e s)) (fits _ short-IsWellFormed)
    | inr (inr (inr (a, e, s))) ↦
        subst IsWellFormed (sym (attempted a e s))
          (fits _ (or_error-IsWellFormed attempt (attempt-IsWellFormed h a)))
  ]

  -- An evaluation is fresh from its collection, and for the hours that the check declares.
  pub is_fresh_iff :
      (at : Instant)
      → (is_fresh (evaluate_check import_function check bundle history) at ≡ true)
        ↔ ((bundle.collected ≤ at) × (at < bundle.collected + check.freshness_hours * hour))
  unfolding evaluate_check is_fresh
  is_fresh_iff at = (λ h. ground arith, λ h. ground arith)
