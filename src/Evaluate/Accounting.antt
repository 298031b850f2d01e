-- ===== src/Evaluate/Accounting.antt =====
-- Every control of the baseline is either determined or listed with the reason why it is not.
use mathlib.Core.Path.{subst}
use mathlib.Core.Bool.{false≢true}
use oscal_aap_ansible_playbo.Prelude.{
  String, ◌≡◌, refl, sym, ap, ◌∙◌, ◌⊎◌, inl, inr, true, false, not, ◌&&◌, none, some, List, [], ◌∷◌,
  arith, In, Bool-cases, str_eq, str_eq→eq, In-append, In-append_left, In-append_right, lookup,
  insert, mem_text, mem_text→In, In→mem_text, if◌then◌else◌, lookup-insert_self, lookup-insert_ne,
}
use oscal_aap_ansible_playbo.Contract.Terms.{UnassessedReason, emits_finding}
use oscal_aap_ansible_playbo.Registry.{Registry, control_ids}
use oscal_aap_ansible_playbo.Evaluate.{Evaluation}
use oscal_aap_ansible_playbo.Evaluate.Reasons.{Explains, reason_for-Explains}
use oscal_aap_ansible_playbo.Evaluate.Coverage.{
  determined, reason_for, unassessed_loop, unassessed_controls,
}

-- An evaluation with a finding, of a check that binds the control.
abbrev pub IsDetermined : List Evaluation → String → Type 0
IsDetermined evs id =
    (ev : Evaluation) × In ev evs
    × (emits_finding ev.result.status ≡ true)
    × In id (control_ids ev.check.controls)

determined→IsDetermined :
    (evs : List Evaluation) (id : String) → In id (determined evs) → IsDetermined evs id
unfolding determined
determined→IsDetermined [] id h = absurd h
determined→IsDetermined (ev ∷ evs) id h = elim (Bool-cases (emits_finding ev.result.status)) [
  | inl e ↦ elim (In-append id (control_ids ev.check.controls) (determined evs) (rw e at h)) [
    | inl m ↦ (ev, inl refl, e, m)
    | inr m ↦ let (d, n, f, b) = determined→IsDetermined evs id m in (d, inr n, f, b)
  ]
  | inr e ↦ let (d, n, f, b) = determined→IsDetermined evs id (rw e at h) in (d, inr n, f, b)
]

IsDetermined→determined :
    (evs : List Evaluation) (id : String) → IsDetermined evs id → In id (determined evs)
unfolding determined
IsDetermined→determined [] id (d, n, f, b) = absurd n
IsDetermined→determined (ev ∷ evs) id (d, inl q, f, b) = In-append_left id _ (determined evs) (
    rw (ap (λ (e : Evaluation). emits_finding e.result.status) (sym q) ∙ f)
      (subst (λ (e : Evaluation). In id (control_ids e.check.controls)) q b))
IsDetermined→determined (ev ∷ evs) id (d, inr n, f, b) =
    In-append_right id _ (determined evs) (IsDetermined→determined evs id (d, n, f, b))

module _ (registry : Registry) (evs : List Evaluation) where
  abbrev reason_of : String → UnassessedReason
  reason_of = reason_for registry evs

  abbrev step : String → List (String × UnassessedReason) → List (String × UnassessedReason)
  step i out = if mem_text i (determined evs) then out else insert i (reason_of i) out

  step_self :
      (c : String) (out : List (String × UnassessedReason))
      → lookup c (step c out)
        ≡ (if not (mem_text c (determined evs)) then some (reason_of c) else lookup c out)
  step_self c out = elim (Bool-cases (mem_text c (determined evs))) [
    | inl e ↦ rw e
    | inr e ↦ rw e (lookup-insert_self c (reason_of c) out)
  ]

  step_ne :
      (i c : String) (out : List (String × UnassessedReason))
      → str_eq i c ≡ false
      → lookup c (step i out) ≡ lookup c out
  step_ne i c out h = elim (Bool-cases (mem_text i (determined evs))) [
    | inl e ↦ rw e
    | inr e ↦ rw e (lookup-insert_ne c i (reason_of i) out h)
  ]

  -- What the loop leaves under a key.
  lookup-loop :
      (ids : List String) (out : List (String × UnassessedReason)) (c : String)
      → lookup c (unassessed_loop registry evs ids out) ≡ (
          if mem_text c ids && not (mem_text c (determined evs))
          then some (reason_of c)
          else lookup c out)
  unfolding unassessed_loop mem_text
  lookup-loop [] out c = refl
  lookup-loop (i ∷ ids) out c = elim (Bool-cases (str_eq i c)) [
    | inl e ↦ ground (
      arith,
      lookup-loop ids (step i out) c,
      subst
          (λ (j : String).
            lookup c (step j out)
            ≡ (if not (mem_text c (determined evs)) then some (reason_of c) else lookup c out))
          (sym (str_eq→eq i c e)) (step_self c out),
      e,
    )
    | inr e ↦ ground (arith, lookup-loop ids (step i out) c, step_ne i c out e, e)
  ]

  lookup-unassessed :
      (ids : List String) (c : String)
      → lookup c (unassessed_controls ids registry evs)
        ≡ (if mem_text c ids && not (mem_text c (determined evs)) then some (reason_of c) else none)
  unfolding unassessed_controls lookup
  lookup-unassessed ids c = lookup-loop ids [] c

  -- No control of a baseline is lost: it is determined by an evaluation with a finding, or it is listed
  -- with a reason that explains it; never both.
  pub unassessed_controls-Explains :
      (ids : List String) (c : String)
      → In c ids
      → (IsDetermined evs c × (lookup c (unassessed_controls ids registry evs) ≡ none))
        ⊎ ((¬ IsDetermined evs c)
            × ((r : UnassessedReason) × (lookup c (unassessed_controls ids registry evs) ≡ some r)
                × Explains registry evs c r))
  unassessed_controls-Explains ids c m = elim (Bool-cases (mem_text c (determined evs))) [
    | inl d ↦ inl (
      determined→IsDetermined evs c (mem_text→In c _ d),
      lookup-unassessed ids c ∙ rw (In→mem_text c ids m, d),
    )
    | inr d ↦ inr (
      (λ h. false≢true (sym d ∙ In→mem_text c _ (IsDetermined→determined evs c h))),
      (
        reason_for registry evs c,
        lookup-unassessed ids c ∙ rw (In→mem_text c ids m, d),
        reason_for-Explains registry evs c,
      ),
    )
  ]

  -- Nothing outside the baseline is listed.
  pub unassessed_controls-none :
      (ids : List String) (c : String)
      → ¬ In c ids
      → lookup c (unassessed_controls ids registry evs) ≡ none
  unassessed_controls-none ids c n = elim (Bool-cases (mem_text c ids)) [
    | inl e ↦ absurd (n (mem_text→In c ids e))
    | inr e ↦ lookup-unassessed ids c ∙ rw e
  ]
