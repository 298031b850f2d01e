-- ===== src/Registry/Iteration.antt =====
-- Walking a registry meets exactly its checks.
use oscal_aap_ansible_playbo.Prelude.{
  String, ◌≡◌, refl, ◌↔◌, inl, inr, Bool, true, false, some, List, [], ◌∷◌, In, lookup, not-eq_true,
  ap, Bool-cases, In-append, In-append_left, In-append_right, not,
}
use oscal_aap_ansible_playbo.Py.Dict.{In-in_key_order_iff}
use oscal_aap_ansible_playbo.Registry.{
  Check, Registry, checks, is_automated, controls_of, control_ids, automated_controls,
  attested_controls,
}

-- The check stands in the registry, under some id.
abbrev pub Registered : Registry → Check → Type 0
Registered r c = (k : String) × (lookup k r ≡ some c)

-- Iteration yields every registered check, and nothing else.
pub In-checks_iff : (r : Registry) (c : Check) → In c (checks r) ↔ Registered r c
unfolding checks
In-checks_iff r c = In-in_key_order_iff r c

-- A check of the list that passes the test and binds the control.
abbrev pub Bound : (Check → Bool) → List Check → String → Type 0
Bound p cs id = (c : Check) × In c cs × (p c ≡ true) × In id (control_ids c.controls)

Bound-there :
    (p : Check → Bool) (d : Check) (cs : List Check) (id : String)
    → Bound p cs id
    → Bound p (d ∷ cs) id
Bound-there p d cs id (c, m, t, b) = (c, inr m, t, b)

pub In-controls_of :
    (p : Check → Bool) (cs : List Check) (id : String) → In id (controls_of p cs) → Bound p cs id
unfolding controls_of
In-controls_of p [] id h = absurd h
In-controls_of p (c ∷ cs) id h = elim (Bool-cases (p c)) [
  | inl e ↦ elim (In-append id (control_ids c.controls) (controls_of p cs) (rw e at h)) [
    | inl m ↦ (c, inl refl, e, m)
    | inr m ↦ Bound-there p c cs id (In-controls_of p cs id m)
  ]
  | inr e ↦ Bound-there p c cs id (In-controls_of p cs id (rw e at h))
]

pub In-controls_of_of :
    (p : Check → Bool) (cs : List Check) (id : String) → Bound p cs id → In id (controls_of p cs)
unfolding controls_of
In-controls_of_of p [] id (c, m, t, b) = absurd m
In-controls_of_of p (d ∷ cs) id (c, inl q, t, b) =
    rw (← q, t) (In-append_left id (control_ids c.controls) (controls_of p cs) b)
In-controls_of_of p (d ∷ cs) id (c, inr m, t, b) =
    In-append_right id _ (controls_of p cs) (In-controls_of_of p cs id (c, m, t, b))

-- A registered check that binds the control and is automated, or is declared attested.
abbrev pub HasAutomated : Registry → String → Type 0
HasAutomated r id =
    (c : Check) × Registered r c × (is_automated c ≡ true) × In id (control_ids c.controls)

abbrev pub HasAttested : Registry → String → Type 0
HasAttested r id =
    (c : Check) × Registered r c × (is_automated c ≡ false) × In id (control_ids c.controls)

-- A control counts as automated exactly where some registered automated check binds it.
pub automated_controls_iff :
    (r : Registry) (id : String) → In id (automated_controls r) ↔ HasAutomated r id
unfolding automated_controls
automated_controls_iff r id = (
  λ m.
      let (c, n, t, b) = In-controls_of is_automated (checks r) id m in
      (c, (In-checks_iff r c).0 n, t, b),
  λ (c, n, t, b). In-controls_of_of is_automated (checks r) id (c, (In-checks_iff r c).1 n, t, b),
)

-- A control counts as attested exactly where some registered check that is declared attested binds it.
pub attested_controls_iff :
    (r : Registry) (id : String) → In id (attested_controls r) ↔ HasAttested r id
unfolding attested_controls
attested_controls_iff r id = (
  λ m.
      let (c, n, t, b) = In-controls_of (λ c. not (is_automated c)) (checks r) id m in
      (c, (In-checks_iff r c).0 n, not-eq_true _ t, b),
  λ (c, n, t, b).
      In-controls_of_of (λ c. not (is_automated c)) (checks r) id
        (c, (In-checks_iff r c).1 n, ap not t, b),
)

-- A control counts as automated exactly where some registered automated check binds it, and as attested
-- exactly where some registered check that is declared attested does.
pub controls_iff :
    (r : Registry) (id : String)
    → (In id (automated_controls r) ↔ HasAutomated r id)
      × (In id (attested_controls r) ↔ HasAttested r id)
controls_iff r id = (automated_controls_iff r id, attested_controls_iff r id)
