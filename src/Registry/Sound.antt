-- ===== src/Registry/Sound.antt =====
-- What a registry without problems is.
use oscal_aap_ansible_playbo.Prelude.{
  Option, ◌*◌, String, ◌≡◌, refl, ap, ◌∙◌, ◌↔◌, ◌⊎◌, inl, inr, true, false, ◌==◌, some, List, [],
  ◌∷◌, ◌++◌, In, arith, Bool-cases, Option-cases, if◌then◌else◌, str_eq, str_eq→eq, eq→str_eq,
}
use oscal_aap_ansible_playbo.Py.Value.{str, py_eq}
use oscal_aap_ansible_playbo.Py.Result.{Result, ok, raise, >>=-eq_ok, ok-injective}
use oscal_aap_ansible_playbo.Catalog.{Control, Catalog, control_at, version, statement_sha256}
use oscal_aap_ansible_playbo.Registry.{
  ControlBinding, Attestation, Check, Registry, Evaluator, is_automated, resolve, checks,
}
use oscal_aap_ansible_playbo.Registry.Iteration.{Registered, In-checks_iff}
use oscal_aap_ansible_playbo.Registry.Validation.{
  gathered, not_in_catalog, statement_problem, drift_problem, binding_problems, is_resolve_error,
  resolve_problems, renewal_problem, attestation_problems, check_problems, validate,
}

append-empty : (xs ys : List String) → xs ++ ys ≡ [] → (xs ≡ []) × (ys ≡ [])
append-empty [] ys h = (refl, h)
append-empty (x ∷ xs) ys h = cc

-- No item has a problem.
gathered-none_iff :
    {A : Type 0} (f : A → Result (List String)) (xs : List A)
    → (gathered f xs ≡ ok []) ↔ ((x : A) → In x xs → f x ≡ ok [])
unfolding gathered
gathered-none_iff f [] = (λ h x m. absurd m, λ h. refl)
gathered-none_iff f (x ∷ xs) = (
  λ h.
      let (ps, e, k) = >>=-eq_ok (f x) _ h in
      let (qs, g, q) = >>=-eq_ok (gathered f xs) _ k in
      let (a, b) = append-empty ps qs (ok-injective _ _ q) in
      λ y m. elim m [
        | inl w ↦ ap f w ∙ (e ∙ ap ok a)
        | inr n ↦ (gathered-none_iff f xs).0 (g ∙ ap ok b) y n
      ],
  λ h. rw (h x (inl refl), (gathered-none_iff f xs).1 (λ y m. h y (inr m))) refl,
)

module _ (import_function : String → String → Result (Option Evaluator))
    (sha256_hex : String → String) (catalog : Catalog) where
  -- A binding names a control of the catalog, its statement, and the hash of its present prose.
  abbrev pub IsCurrent : ControlBinding → Type 0
  IsCurrent b =
      (control : Control) × (control_at catalog b.control_id ≡ some control)
      × (py_eq (str b.statement_id) control.statement_id ≡ true)
      × (b.statement_sha256 ≡ statement_sha256 sha256_hex control)

  -- Every binding is current. An automated check has an evaluator that resolves; an attested one has an
  -- attestation that is renewed as often as the check is fresh.
  abbrev pub IsSound : Check → Type 0
  IsSound c =
      ((b : ControlBinding) → In b c.controls → IsCurrent b)
      × (((is_automated c ≡ true) × ((f : Evaluator) × (resolve import_function c ≡ ok f)))
          ⊎ ((is_automated c ≡ false)
              × ((a : Attestation) × (c.attestation ≡ some a)
                  × (c.freshness_hours ≡ a.renewal_days * 24))))

  no_statement_problem :
      (c : Check) (b : ControlBinding) (control : Control)
      → statement_problem c b control ≡ []
      → py_eq (str b.statement_id) control.statement_id ≡ true
  unfolding statement_problem
  no_statement_problem c b control h =
      elim (Bool-cases (py_eq (str b.statement_id) control.statement_id)) [
        | inl t ↦ t
        | inr t ↦ cc (rw t at h)
      ]

  no_drift :
      (c : Check) (b : ControlBinding) (control : Control)
      → drift_problem sha256_hex c b control ≡ []
      → b.statement_sha256 ≡ statement_sha256 sha256_hex control
  unfolding drift_problem
  no_drift c b control h =
      elim (Bool-cases (str_eq b.statement_sha256 (statement_sha256 sha256_hex control))) [
        | inl t ↦ str_eq→eq _ _ t
        | inr t ↦ cc (rw t at h)
      ]

  binding_problems-none_iff :
      (c : Check) (b : ControlBinding)
      → (binding_problems sha256_hex catalog c b ≡ ok []) ↔ IsCurrent b
  unfolding binding_problems not_in_catalog statement_problem drift_problem
  binding_problems-none_iff c b = (
    λ h. elim (Option-cases (control_at catalog b.control_id)) [
      | inl n ↦ let (v, e, q) = >>=-eq_ok (version catalog) _ (rw (n, binding_problems) at h) in cc
      | inr (control, e) ↦
          let (p, q) =
            append-empty (statement_problem c b control) (drift_problem sha256_hex c b control)
              (ok-injective _ _ (rw (e, binding_problems) at h)) in
          (control, e, no_statement_problem c b control p, no_drift c b control q)
    ],
    λ (control, e, s, t). rw (e, binding_problems, s, eq→str_eq _ _ t) refl,
  )

  resolve_problems-none_iff :
      (c : Check) (m : Result Evaluator)
      → (resolve_problems c m ≡ ok []) ↔ ((f : Evaluator) × (m ≡ ok f))
  unfolding resolve_problems
  resolve_problems-none_iff c (ok f) = (λ h. (f, refl), λ h. refl)
  resolve_problems-none_iff c (raise e) = (
    λ h. elim (Bool-cases (is_resolve_error e)) [ inl t ↦ cc (rw t at h) | inr t ↦ cc (rw t at h) ],
    λ (f, h). cc,
  )

  same_hours :
      (c : Check) (a : Attestation)
      → renewal_problem c a ≡ []
      → c.freshness_hours ≡ a.renewal_days * 24
  unfolding renewal_problem
  same_hours c a h = elim (Bool-cases (c.freshness_hours == a.renewal_days * 24)) [
    | inl t ↦ ground arith
    | inr t ↦ cc (rw t at h)
  ]

  no_renewal :
      (c : Check) (a : Attestation)
      → c.freshness_hours ≡ a.renewal_days * 24
      → renewal_problem c a ≡ []
  unfolding renewal_problem
  no_renewal c a t = ground arith

  attestation_problems-none_iff :
      (c : Check)
      → (attestation_problems c ≡ [])
        ↔ ((a : Attestation) × (c.attestation ≡ some a) × (c.freshness_hours ≡ a.renewal_days * 24))
  unfolding attestation_problems renewal_problem
  attestation_problems-none_iff c = (
    λ h. elim (Option-cases c.attestation) [
      | inl n ↦ cc (rw (n, attestation_problems) at h)
      | inr (a, e) ↦ (a, e, same_hours c a (rw (e, attestation_problems) at h))
    ],
    λ (a, e, t). rw (e, attestation_problems) (no_renewal c a t),
  )

  check_problems-none_iff :
      (c : Check) → (check_problems import_function sha256_hex catalog c ≡ ok []) ↔ IsSound c
  unfolding check_problems
  check_problems-none_iff c = (
    λ h.
        let (ps, e, k) =
          >>=-eq_ok (gathered (binding_problems sha256_hex catalog c) c.controls) _ h in
        let (qs, g, q) = >>=-eq_ok (if is_automated c then _ else _) _ k in
        let (a, b) = append-empty ps qs (ok-injective _ _ q) in
        (
          λ x m. (binding_problems-none_iff c x).0 (
              (gathered-none_iff (binding_problems sha256_hex catalog c) c.controls).0 (e ∙ ap ok a)
                x m),
          elim (Bool-cases (is_automated c)) [
            | inl t ↦ inl (
              t,
              (resolve_problems-none_iff c (resolve import_function c)).0 (rw t at (g ∙ ap ok b)),
            )
            | inr t ↦
                inr (
                  t,
                  (attestation_problems-none_iff c).0 (ok-injective _ _ (rw t at (g ∙ ap ok b))),
                )
          ],
        ),
    λ (s, t).
        rw
          ((gathered-none_iff (binding_problems sha256_hex catalog c) c.controls).1
            (λ x m. (binding_problems-none_iff c x).1 (s x m)))
          (elim t [
            | inl (u, w) ↦
                rw (u, (resolve_problems-none_iff c (resolve import_function c)).1 w) refl
            | inr (u, w) ↦ rw (u, (attestation_problems-none_iff c).1 w) refl
          ]),
  )

  -- Validating finds no problem exactly where every registered check is sound.
  pub validate-none_iff :
      (registry : Registry)
      → (validate import_function sha256_hex registry catalog ≡ ok [])
        ↔ ((c : Check) → Registered registry c → IsSound c)
  unfolding validate
  validate-none_iff registry = (
    λ h c r.
        (check_problems-none_iff c).0
          ((gathered-none_iff _ (checks registry)).0 h c ((In-checks_iff registry c).1 r)),
    λ h.
        (gathered-none_iff _ (checks registry)).1
          (λ c m. (check_problems-none_iff c).1 (h c ((In-checks_iff registry c).0 m))),
  )
