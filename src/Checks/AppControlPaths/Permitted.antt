-- ===== src/Checks/AppControlPaths/Permitted.antt =====
-- The rules that let a writable location through: a search that found something has one.
use mathlib.Core.Bool.{false≢true}
use oscal_aap_ansible_playbo.Prelude.{
  String, ◌≡◌, refl, sym, ap, ◌∙◌, inl, inr, Bool, true, false, not, ◌&&◌, List, [], ◌∷◌, In,
  is_empty, if◌then◌else◌, Bool-cases,
}
use oscal_aap_ansible_playbo.Prelude.Int.{pos, eqb_ℤ}
use oscal_aap_ansible_playbo.Py.Value.{Value, num, str, or_else}
use oscal_aap_ansible_playbo.Py.Result.{ok, >>=-eq_ok, ok-injective, filter_map}
use oscal_aap_ansible_playbo.Py.Result.Laws
use oscal_aap_ansible_playbo.Py.Access.{get_or, to_int}
use oscal_aap_ansible_playbo.Checks.AppControl.State.{type_of}
use oscal_aap_ansible_playbo.Checks.AppControlPaths.Paths.{is_admin_sid}
use oscal_aap_ansible_playbo.Checks.AppControlPaths.Rules.{
  Hit, Found, entry_text, judge_location, judge_unparsed, filed, judge_parsed, judge_rule,
  judge_collection, action_is, conditions, denies_of, rules_of, permitting_rules,
}
use oscal_aap_ansible_playbo.Checks.AppControlPaths.Gathered.{
  gather-permitted, LetThrough, judge_location-some,
}

module _ (windows_root : String) (fail_on_admin : Bool) (locations : List Value) where
  -- An allow rule of a collection that lets a writable location through, and that is not set aside as
  -- one for administrators.
  abbrev pub Permits : Value → Type 0
  Permits collection =
      (rules : List Value) × (rule : Value) × (location : Value) × (sid : String) × (ps : List
        Value)
      × (es : List Value) × (ds : List Value) × (rules_of collection ≡ ok rules)
      × In rule rules
      × In location locations
      × (action_is "allow" rule ≡ ok true)
      × (entry_text "sid" rule ≡ ok sid)
      × ((is_admin_sid sid && not fail_on_admin) ≡ false)
      × (conditions "paths" rule ≡ ok ps)
      × (conditions "exceptions" rule ≡ ok es)
      × (denies_of collection ≡ ok ds)
      × LetThrough windows_root ps es ds location

  filed-permitted :
      (admin : Bool) (hits : List Hit)
      → is_empty ((filed windows_root fail_on_admin locations admin hits).permitted) ≡ false
      → ((admin && not fail_on_admin) ≡ false) × (is_empty hits ≡ false)
  unfolding filed
  filed-permitted admin hits c = elim (Bool-cases (admin && not fail_on_admin)) [
    | inl t ↦ absurd (false≢true (sym (rw t at c)))
    | inr t ↦ (t, rw t at c)
  ]

  some_member : (hits : List Hit) → is_empty hits ≡ false → (hit : Hit) × In hit hits
  some_member [] h = cc
  some_member (hit ∷ hits) h = (hit, inl refl)

  none_permitted :
      (a b : Found) → ok a ≡ ok b → is_empty a.permitted ≡ true → is_empty b.permitted ≡ false → ⊥
  none_permitted a b q n c =
      false≢true (sym c ∙ (ap (λ (s : Found). is_empty s.permitted) (sym (ok-injective _ _ q)) ∙ n))

  judge_unparsed-permitted :
      (ctype : String) (rule : Value) (a : Found)
      → judge_unparsed windows_root ctype rule ≡ ok a
      → is_empty a.permitted ≡ false
      → ⊥
  unfolding judge_unparsed
  judge_unparsed-permitted ctype rule a h c =
      let (v, h1, k1) = >>=-eq_ok (get_or rule "non_path_conditions" (num 0)) _ h in
      let (n, h2, k2) = >>=-eq_ok (to_int (or_else v (num 0))) _ k1 in
      elim (Bool-cases (eqb_ℤ n (pos 0))) [
        | inr t ↦ none_permitted _ a (rw t at k2) refl c
        | inl t ↦
            let (name, h3, q) = >>=-eq_ok (get_or rule "name" (str "")) _ (rw t at k2) in
            none_permitted _ a q refl c
      ]

  module _ (ctype : String) (collection rule : Value) (rules : List Value) (a : Found)
      (r : rules_of collection ≡ ok rules) (m : In rule rules)
      (allow : action_is "allow" rule ≡ ok true) (c : is_empty a.permitted ≡ false) where
    judge_parsed-permitted :
        (ps : List Value)
        → conditions "paths" rule ≡ ok ps
        → judge_parsed windows_root fail_on_admin locations ctype collection rule ps ≡ ok a
        → Permits collection
    unfolding judge_parsed
    judge_parsed-permitted ps p h =
        let (sid, h1, k1) = >>=-eq_ok (entry_text "sid" rule) _ h in
        let (es, h2, k2) = >>=-eq_ok (conditions "exceptions" rule) _ k1 in
        let (ds, h3, k3) = >>=-eq_ok (denies_of collection) _ k2 in
        let (hits, h4, k4) =
          >>=-eq_ok (filter_map (judge_location windows_root ctype rule sid ps es ds) locations) _
            k3 in
        let (adm, ne) =
          filed-permitted (is_admin_sid sid) hits
            (ap (λ (s : Found). is_empty s.permitted) (ok-injective _ _ k4) ∙ c) in
        let (hit, n) = some_member hits ne in
        let (location, l, w) = Laws.In-filter_map _ hit locations hits h4 n in
        (
          rules,
          rule,
          location,
          sid,
          ps,
          es,
          ds,
          r,
          m,
          l,
          allow,
          h1,
          adm,
          p,
          h2,
          h3,
          judge_location-some windows_root ctype rule sid ps es ds location hit w,
        )

    after_conditions :
        (ps : List Value)
        → conditions "paths" rule ≡ ok ps
        → (if is_empty ps
            then judge_unparsed windows_root ctype rule
            else judge_parsed windows_root fail_on_admin locations ctype collection rule ps)
          ≡ ok a
        → Permits collection
    after_conditions [] p h = absurd (judge_unparsed-permitted ctype rule a h c)
    after_conditions (q ∷ ps) p h = judge_parsed-permitted (q ∷ ps) p h

  judge_rule-permitted :
      (ctype : String) (collection rule : Value) (rules : List Value) (a : Found)
      → rules_of collection ≡ ok rules
      → In rule rules
      → judge_rule windows_root fail_on_admin locations ctype collection rule ≡ ok a
      → is_empty a.permitted ≡ false
      → Permits collection
  unfolding judge_rule
  judge_rule-permitted ctype collection rule rules a r m h c =
      let (allow, e, k) = >>=-eq_ok (action_is "allow" rule) _ h in
      elim (Bool-cases allow) [
        | inr t ↦ absurd (none_permitted _ a (rw t at k) refl c)
        | inl t ↦
            let (ps, f, l) = >>=-eq_ok (conditions "paths" rule) _ (rw t at k) in
            after_conditions ctype collection rule rules a r m (e ∙ ap ok t) c ps f l
      ]

  -- Where something was found, some rule of some collection lets a location through.
  pub permitting_rules-permitted :
      (collections : List Value) (t : Found)
      → permitting_rules collections locations windows_root fail_on_admin ≡ ok t
      → is_empty t.permitted ≡ false
      → (collection : Value) × In collection collections × Permits collection
  unfolding permitting_rules judge_collection
  permitting_rules-permitted collections t h c =
      let (collection, a, m, f, n) = gather-permitted _ collections t h c in
      let (ctype, h1, k1) = >>=-eq_ok (type_of collection) _ f in
      let (rules, h2, k2) = >>=-eq_ok (rules_of collection) _ k1 in
      let (rule, b, l, g, w) = gather-permitted _ rules a k2 n in
      (collection, m, judge_rule-permitted ctype collection rule rules b h2 l g w)
