-- ===== src/PsObject/Honest.antt =====
-- What `ps_object` recovers where a mapping is expected, and when.
use mathlib.Core.Path.{subst}
use oscal_aap_ansible_playbo.Prelude.{
  String, ◌≡◌, refl, ◌≢◌, ◌⊎◌, inl, inr, sym, ◌∙◌, eq→str_eq, Bool, true, false, ◌<>◌,
  if◌then◌else◌, str_eq, str_eq→eq,
}
use oscal_aap_ansible_playbo.Py.Text.{strip}
use oscal_aap_ansible_playbo.Py.Value.{
  Value, Items, Fields, null, bool, int, str, arr, obj, nil, cons,
}
use oscal_aap_ansible_playbo.Py.Result.{Result, ok, raise, ok-injective}
use oscal_aap_ansible_playbo.PsObject.{
  Recovery, fail, recovered, shaped, settled, parsed_text, parsed_first, parsed_output, ps_object,
}

module _ (json_loads : String → Result Value) where
  -- The value is the first item of the output: a mapping as it is, or what a text parses to.
  abbrev pub Emits : Value → Value → Type 0
  Emits (arr (cons (obj fs) rest)) v = v ≡ obj fs
  Emits (arr (cons (str s) rest)) v = (strip s ≢ "") × (json_loads (strip s) ≡ ok v)
  Emits _ v = ⊥

  -- The mapping is the value, or the only element of it.
  abbrev pub Unwraps : Value → Fields → Type 0
  Unwraps v fs = (v ≡ obj fs) ⊎ (v ≡ arr (cons (obj fs) nil))

  abbrev pub Emitted : Value → Fields → Type 0
  Emitted output fs = (v : Value) × Emits output v × Unwraps v fs

  abbrev pub Told : (Fields → Type 0) → Recovery → Type 0
  Told P r =
      ((fs : Fields) × P fs × (r ≡ recovered (obj fs)))
      ⊎ ((e : String) × (r ≡ fail e) × ((fs : Fields) → P fs → ⊥))

  refused :
      {v : Value} {e : String}
      → ((fs : Fields) → v ≢ obj fs)
      → ((fs : Fields) → v ≢ arr (cons (obj fs) nil))
      → Told (Unwraps v) (fail e)
  refused k l = inr (_, refl, λ fs u. elim u [ inl p ↦ k fs p | inr p ↦ l fs p ])

  settled-Told : (v : Value) → Told (Unwraps v) (settled "mapping" v)
  unfolding settled shaped str_eq
  settled-Told (obj fs) = inl (fs, inl refl, refl)
  settled-Told (str s) = refused (λ fs h. cc) (λ fs h. cc)
  settled-Told null = refused (λ fs h. cc) (λ fs h. cc)
  settled-Told (int n) = refused (λ fs h. cc) (λ fs h. cc)
  settled-Told (bool b) = refused (λ fs h. cc) (λ fs h. cc)
  settled-Told (arr nil) = refused (λ fs h. cc) (λ fs h. cc)
  settled-Told (arr (cons (obj fs) nil)) = inl (fs, inr refl, refl)
  settled-Told (arr (cons (obj gs) (cons x xs))) = refused (λ fs h. cc) (λ fs h. cc)
  settled-Told (arr (cons (str s) xs)) = refused (λ fs h. cc) (λ fs h. cc)
  settled-Told (arr (cons null xs)) = refused (λ fs h. cc) (λ fs h. cc)
  settled-Told (arr (cons (int n) xs)) = refused (λ fs h. cc) (λ fs h. cc)
  settled-Told (arr (cons (bool b) xs)) = refused (λ fs h. cc) (λ fs h. cc)
  settled-Told (arr (cons (arr ys) xs)) = refused (λ fs h. cc) (λ fs h. cc)

  Told-map :
      {P Q : Fields → Type 0} {r : Recovery}
      → ((fs : Fields) → P fs → Q fs)
      → ((fs : Fields) → Q fs → P fs)
      → Told P r
      → Told Q r
  Told-map f g (inl (fs, p, e)) = inl (fs, f fs p, e)
  Told-map f g (inr (e, k, l)) = inr (e, k, λ fs q. l fs (g fs q))

  parsed_text-Told :
      (s : String) (rest : Items)
      → Told (Emitted (arr (cons (str s) rest))) (parsed_text json_loads "mapping" s)
  unfolding parsed_text
  parsed_text-Told s rest = go _ _ refl refl
    where
      no_value : {x : _} {v : Value} → raise x ≡ ok v → ⊥
      no_value e = cc

      go :
          (b : Bool) (r : Result Value)
          → str_eq (strip s) "" ≡ b
          → json_loads (strip s) ≡ r
          → Told (Emitted (arr (cons (str s) rest))) (
              if b then fail "the collector emitted an empty string" else elim r [
                | ok v ↦ settled "mapping" v
                | raise e ↦ fail ("the collector's output is not valid JSON: " <> e.message)
              ])
      go true r h k = inr (_, refl, λ fs (v, (blank, e), u). blank (str_eq→eq _ _ h))
      go false (raise x) h k = inr (_, refl, λ fs (v, (blank, e), u). no_value (sym k ∙ e))
      go false (ok v) h k =
          Told-map (λ fs u. (v, ((λ e. differ (eq→str_eq _ _ e)), k), u))
            (λ fs (w, (blank, e), u).
              subst (λ x. Unwraps x fs) (sym (ok-injective v w (sym k ∙ e))) u)
            (settled-Told v)
        where
          differ : str_eq (strip s) "" ≡ true → ⊥
          differ e = cc

  parsed_first-Told :
      (first : Value) (rest : Items)
      → Told (Emitted (arr (cons first rest))) (parsed_first json_loads "mapping" first)
  unfolding parsed_first
  parsed_first-Told (obj gs) rest =
      Told-map (λ fs u. (obj gs, refl, u)) (λ fs (v, e, u). subst (λ x. Unwraps x fs) e u)
        (settled-Told (obj gs))
  parsed_first-Told (str s) rest = parsed_text-Told s rest
  parsed_first-Told null rest = inr (_, refl, λ fs (v, e, u). e)
  parsed_first-Told (int n) rest = inr (_, refl, λ fs (v, e, u). e)
  parsed_first-Told (bool b) rest = inr (_, refl, λ fs (v, e, u). e)
  parsed_first-Told (arr xs) rest = inr (_, refl, λ fs (v, e, u). e)

  parsed_output-Told :
      (output : Value) → Told (Emitted output) (parsed_output json_loads "mapping" output)
  unfolding parsed_output
  parsed_output-Told null = inr (_, refl, λ fs (v, e, u). e)
  parsed_output-Told (int n) = inr (_, refl, λ fs (v, e, u). e)
  parsed_output-Told (bool b) = inr (_, refl, λ fs (v, e, u). e)
  parsed_output-Told (str s) = inr (_, refl, λ fs (v, e, u). e)
  parsed_output-Told (obj gs) = inr (_, refl, λ fs (v, e, u). e)
  parsed_output-Told (arr nil) = inr (_, refl, λ fs (v, e, u). e)
  parsed_output-Told (arr (cons first rest)) = parsed_first-Told first rest

  -- Where a mapping is expected, every output has a result. It is ok, with a mapping that the first item
  -- of the output is, parses to, or parses to a list of alone; or it is not, with the empty mapping,
  -- and then the first item gives no such mapping.
  pub ps_object-Told :
      (output : Value)
      → (r : Recovery) × (ps_object json_loads output "mapping" ≡ ok r) × Told (Emitted output) r
  unfolding ps_object str_eq
  ps_object-Told output = (_, refl, parsed_output-Told output)
