-- ===== src/Evaluate/Reasons.antt =====
-- What the reason says that is given for a control with no determination.
use mathlib.Core.Path.{subst}
use mathlib.Core.Bool.{false≢true}
use oscal_aap_ansible_playbo.Prelude.{
  String, ◌≡◌, refl, sym, ap, ◌∙◌, ◌⊎◌, inl, inr, true, false, none, some, List, [], ◌∷◌, arith, In,
  Bool-cases, Option-cases, mem_text, mem_text→In, In→mem_text, In-filter, In-filter_of,
}
use oscal_aap_ansible_playbo.Contract.Terms.{
  UnassessedReason, requires_attestation, not_implemented, no_subject_in_scope, evaluation_error,
}
use oscal_aap_ansible_playbo.Registry.{Registry, binds, automated_controls, attested_controls}
use oscal_aap_ansible_playbo.Registry.Iteration.{
  HasAutomated, HasAttested, automated_controls_iff, attested_controls_iff,
}
use oscal_aap_ansible_playbo.Evaluate.{Evaluation}
use oscal_aap_ansible_playbo.Evaluate.Coverage.{
  relevant, reasons, first_reason, attempted_reason, reason_for,
}

module _ (evs : List Evaluation) where
  -- Every evaluation of a check that binds the control.
  abbrev pub Binding : String → Evaluation → Type 0
  Binding c ev = In ev evs × (binds c ev.check ≡ true)

  -- Why a control that some automated check binds is not determined: no evaluation was of such a
  -- check; or one of those evaluations gives the reason; or none of them gives any.
  abbrev pub Attempted : String → UnassessedReason → Type 0
  Attempted c r =
      ((r ≡ no_subject_in_scope) × ((ev : Evaluation) → Binding c ev → ⊥))
      ⊎ ((ev : Evaluation) × Binding c ev × (ev.result.reason ≡ some r))
      ⊎ ((r ≡ evaluation_error)
          × ((ev : Evaluation) × Binding c ev)
          × ((ev : Evaluation) → Binding c ev → ev.result.reason ≡ none))

reasons_cases :
    (evs : List Evaluation)
    → ((ev : Evaluation) × In ev evs × (ev.result.reason ≡ some (first_reason (reasons evs))))
      ⊎ ((first_reason (reasons evs) ≡ evaluation_error)
          × ((ev : Evaluation) → In ev evs → ev.result.reason ≡ none))
unfolding reasons
reasons_cases [] = inr (refl, λ ev m. absurd m)
reasons_cases (e ∷ evs) = elim (Option-cases e.result.reason) [
  | inr (r, q) ↦ inl (e, inl refl, rw (q, reasons) refl)
  | inl q ↦ elim (reasons_cases evs) [
    | inl (d, m, p) ↦ inl (d, inr m, rw (q, reasons) p)
    | inr (p, h) ↦ inr (
      rw (q, reasons) p,
      λ ev m. elim m [ inl w ↦ ap (λ (x : Evaluation). x.result.reason) w ∙ q | inr n ↦ h ev n ],
    )
  ]
]

attempted_cases :
    (evs : List Evaluation)
    → ((attempted_reason evs ≡ no_subject_in_scope) × ((ev : Evaluation) → In ev evs → ⊥))
      ⊎ ((ev : Evaluation) × In ev evs × (ev.result.reason ≡ some (attempted_reason evs)))
      ⊎ ((attempted_reason evs ≡ evaluation_error)
          × ((ev : Evaluation) × In ev evs)
          × ((ev : Evaluation) → In ev evs → ev.result.reason ≡ none))
unfolding attempted_reason
attempted_cases [] = inl (refl, λ ev m. absurd m)
attempted_cases (e ∷ evs) = elim (reasons_cases (e ∷ evs)) [
  | inl w ↦ inr (inl w)
  | inr (q, h) ↦ inr (inr (q, (e, inl refl), h))
]

module _ (evs : List Evaluation) where
  In-relevant : (c : String) (ev : Evaluation) → In ev (relevant c evs) → Binding evs c ev
  unfolding relevant
  In-relevant c ev m = In-filter (λ (e : Evaluation). binds c e.check) ev evs m

  In-relevant_of : (c : String) (ev : Evaluation) → Binding evs c ev → In ev (relevant c evs)
  unfolding relevant
  In-relevant_of c ev (m, b) = In-filter_of (λ (e : Evaluation). binds c e.check) ev evs m b

  attempted_lem : (c : String) → Attempted evs c (attempted_reason (relevant c evs))
  attempted_lem c = elim (attempted_cases (relevant c evs)) [
    | inl (q, h) ↦ inl (q, λ ev b. h ev (In-relevant_of c ev b))
    | inr (inl (ev, m, q)) ↦ inr (inl (ev, In-relevant c ev m, q))
    | inr (inr (q, (ev, m), h)) ↦
        inr (inr (q, (ev, In-relevant c ev m), λ d b. h d (In-relevant_of c d b)))
  ]

module _ (registry : Registry) (evs : List Evaluation) where
  -- What each reason says of the control.
  abbrev pub Explains : String → UnassessedReason → Type 0
  Explains c r =
      ((r ≡ requires_attestation) × HasAttested registry c × ¬ HasAutomated registry c)
      ⊎ ((r ≡ not_implemented) × (¬ HasAttested registry c) × ¬ HasAutomated registry c)
      ⊎ (HasAutomated registry c × Attempted evs c r)

  not_In : (c : String) (ids : List String) → mem_text c ids ≡ false → ¬ In c ids
  not_In c ids e m = false≢true (sym e ∙ In→mem_text c ids m)

  attempted_reason_for :
      (c : String)
      → mem_text c (automated_controls registry) ≡ true
      → attempted_reason (relevant c evs) ≡ reason_for registry evs c
  unfolding reason_for
  attempted_reason_for c a = ground arith

  -- The reason that is given for a control explains it.
  pub reason_for-Explains : (c : String) → Explains c (reason_for registry evs c)
  unfolding reason_for
  reason_for-Explains c = elim (Bool-cases (mem_text c (automated_controls registry))) [
    | inl a ↦ inr (
        inr (
          (automated_controls_iff registry c).0 (mem_text→In c _ a),
          subst (Attempted evs c) (attempted_reason_for c a) (attempted_lem evs c),
        ))
    | inr a ↦
        let no_automated : ¬ HasAutomated registry c =
          λ h. not_In c _ a ((automated_controls_iff registry c).1 h) in
        elim (Bool-cases (mem_text c (attested_controls registry))) [
          | inl t ↦
              inl
                (rw (a, t), (attested_controls_iff registry c).0 (mem_text→In c _ t), no_automated)
          | inr t ↦ inr (
              inl (
                rw (a, t),
                (λ h. not_In c _ t ((attested_controls_iff registry c).1 h)),
                no_automated,
              ))
        ]
  ]
