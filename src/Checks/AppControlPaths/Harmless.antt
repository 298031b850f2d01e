-- ===== src/Checks/AppControlPaths/Harmless.antt =====
-- The rules that ism-1870 does not count: where the search found nothing, each rule is one of these.
use mathlib.Core.Path.{subst}
use mathlib.Core.Bool.{false≢true}
use oscal_aap_ansible_playbo.Prelude.{
  String, ◌≡◌, sym, ap, ◌∙◌, ◌⊎◌, inl, inr, Bool, true, false, not, ◌&&◌, List, [], ◌∷◌, In,
  is_empty, if◌then◌else◌, Bool-cases, &&-eq_true, not-eq_true,
}
use oscal_aap_ansible_playbo.Prelude.Int.{ℤ, pos, eqb_ℤ}
use oscal_aap_ansible_playbo.Py.Value.{Value, num, str, or_else}
use oscal_aap_ansible_playbo.Py.Result.{ok, >>=-eq_ok, ok-injective, filter_map}
use oscal_aap_ansible_playbo.Py.Result.Laws
use oscal_aap_ansible_playbo.Py.Access.{get_or, to_int}
use oscal_aap_ansible_playbo.Checks.AppControl.State.{type_of}
use oscal_aap_ansible_playbo.Checks.AppControlPaths.Paths.{is_admin_sid}
use oscal_aap_ansible_playbo.Checks.AppControlPaths.Rules.{
  Hit, Found, entry_text, judge_location, judge_unparsed, filed, judge_parsed, judge_rule,
  judge_collection, action_is, conditions, denies_of, rules_of, permitting_rules,
}
use oscal_aap_ansible_playbo.Checks.AppControlPaths.Gathered.{
  Clean, gather-Clean, KeptOut, judge_location-none,
}

module _ (windows_root : String) (fail_on_admin : Bool) (locations : List Value) where
  -- A rule that is not counted: it is no allow rule; it tests no path, and its other conditions are not
  -- looked at; it applies to administrators alone, which the parameters do not count, whatever it
  -- covers; or each writable location is kept out of it.
  pub data Harmless (collection rule : Value) : Type 0 where
    not_allow : action_is "allow" rule ≡ ok false → Harmless collection rule
    other_conditions :
        (v : Value) (n : ℤ)
        → conditions "paths" rule ≡ ok []
        → get_or rule "non_path_conditions" (num 0) ≡ ok v
        → to_int (or_else v (num 0)) ≡ ok n
        → eqb_ℤ n (pos 0) ≡ false
        → Harmless collection rule
    admin_only :
        (sid : String)
        → entry_text "sid" rule ≡ ok sid
        → is_admin_sid sid ≡ true
        → fail_on_admin ≡ false
        → Harmless collection rule
    kept_out :
        (ps es ds : List Value)
        → conditions "paths" rule ≡ ok ps
        → conditions "exceptions" rule ≡ ok es
        → denies_of collection ≡ ok ds
        → ((location : Value) → In location locations → KeptOut windows_root ps es ds location)
        → Harmless collection rule

  filed-Clean :
      (admin : Bool) (hits : List Hit)
      → Clean (filed windows_root fail_on_admin locations admin hits)
      → ((admin ≡ true) × (fail_on_admin ≡ false)) ⊎ (is_empty hits ≡ true)
  unfolding filed
  filed-Clean admin hits c = elim (Bool-cases (admin && not fail_on_admin)) [
    | inl t ↦ inl ((&&-eq_true _ _ t).0, not-eq_true _ ((&&-eq_true _ _ t).1))
    | inr t ↦ inr (rw t at (c.0))
  ]

  judge_parsed-Clean :
      (ctype : String) (collection rule : Value) (ps : List Value) (a : Found)
      → conditions "paths" rule ≡ ok ps
      → judge_parsed windows_root fail_on_admin locations ctype collection rule ps ≡ ok a
      → Clean a
      → Harmless collection rule
  unfolding judge_parsed
  judge_parsed-Clean ctype collection rule ps a p h c =
      let (sid, h1, k1) = >>=-eq_ok (entry_text "sid" rule) _ h in
      let (es, h2, k2) = >>=-eq_ok (conditions "exceptions" rule) _ k1 in
      let (ds, h3, k3) = >>=-eq_ok (denies_of collection) _ k2 in
      let (hits, h4, k4) =
        >>=-eq_ok (filter_map (judge_location windows_root ctype rule sid ps es ds) locations) _
          k3 in
      elim (filed-Clean (is_admin_sid sid) hits (subst Clean (sym (ok-injective _ _ k4)) c)) [
        | inl (t, u) ↦ admin_only sid h1 t u
        | inr n ↦ kept_out ps es ds p h2 h3 (λ location m.
            judge_location-none windows_root ctype rule sid ps es ds location
              (Laws.filter_map-empty _ location locations hits h4 n m))
      ]

  judge_unparsed-Clean :
      (ctype : String) (collection rule : Value) (a : Found)
      → conditions "paths" rule ≡ ok []
      → judge_unparsed windows_root ctype rule ≡ ok a
      → Clean a
      → Harmless collection rule
  unfolding judge_unparsed
  judge_unparsed-Clean ctype collection rule a p h c =
      let (v, h1, k1) = >>=-eq_ok (get_or rule "non_path_conditions" (num 0)) _ h in
      let (n, h2, k2) = >>=-eq_ok (to_int (or_else v (num 0))) _ k1 in
      elim (Bool-cases (eqb_ℤ n (pos 0))) [
        | inr t ↦ other_conditions v n p h1 h2 t
        | inl t ↦
            let (name, h3, q) = >>=-eq_ok (get_or rule "name" (str "")) _ (rw t at k2) in
            absurd (
              false≢true
                (ap (λ (s : Found). is_empty s.unreadable_rules) (ok-injective _ _ q) ∙ c.1))
      ]

  judge_rule-Clean :
      (ctype : String) (collection rule : Value) (a : Found)
      → judge_rule windows_root fail_on_admin locations ctype collection rule ≡ ok a
      → Clean a
      → Harmless collection rule
  unfolding judge_rule
  judge_rule-Clean ctype collection rule a h c =
      let (allow, e, k) = >>=-eq_ok (action_is "allow" rule) _ h in
      elim (Bool-cases allow) [
        | inr t ↦ not_allow (e ∙ ap ok t)
        | inl t ↦ let (ps, f, l) = >>=-eq_ok (conditions "paths" rule) _ (rw t at k) in on ps f l
      ]
    where
      on :
          (ps : List Value)
          → conditions "paths" rule ≡ ok ps
          → (if is_empty ps
              then judge_unparsed windows_root ctype rule
              else judge_parsed windows_root fail_on_admin locations ctype collection rule ps)
            ≡ ok a
          → Harmless collection rule
      on [] f l = judge_unparsed-Clean ctype collection rule a f l c
      on (p ∷ ps) f l = judge_parsed-Clean ctype collection rule (p ∷ ps) a f l c

  -- Where nothing was found and nothing was left unread, every rule of every collection is harmless.
  pub permitting_rules-Clean :
      (collections rules : List Value) (collection rule : Value) (t : Found)
      → permitting_rules collections locations windows_root fail_on_admin ≡ ok t
      → Clean t
      → In collection collections
      → rules_of collection ≡ ok rules
      → In rule rules
      → Harmless collection rule
  unfolding permitting_rules judge_collection
  permitting_rules-Clean collections rules collection rule t h c m e n =
      let (a, f, d) = gather-Clean _ collection collections t h c m in
      let (ctype, h1, k1) = >>=-eq_ok (type_of collection) _ f in
      let (rs, h2, k2) = >>=-eq_ok (rules_of collection) _ k1 in
      let (b, g, x) =
        gather-Clean _ rule rs a k2 d (subst (In rule) (ok-injective _ _ (sym e ∙ h2)) n) in
      judge_rule-Clean ctype collection rule b g x
