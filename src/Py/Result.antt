-- ===== src/Py/Result.antt =====
-- A computation that may raise. An exception is its class name and its message, which is all that
-- the program reads of one.
pub mod Laws
use mathlib.Core.Path.{subst}
use oscal_aap_ansible_playbo.Prelude.{
  prepend, String, ◌≡◌, refl, Bool, true, false, Option, none, some, List, [], ◌∷◌, if◌then◌else◌,
}

pub record Exn : Type 0 where
  pub kind : String
  pub message : String

pub data Result {ℓ} (X : Type ℓ) : Type ℓ where
  raise : Exn → Result X
  ok : X → Result X

infixl 5 ◌>>=◌
abbrev pub ◌>>=◌ {ℓ κ} :
    {X : Type ℓ} {Y : Type κ} → (first : Result X) (next : X → Result Y) → Result Y
raise exn >>= next = raise exn
ok x >>= next = next x

pub ok-injective {ℓ} : {A : Type ℓ} (a b : A) → ok a ≡ ok b → a ≡ b
ok-injective a b e = cc

pub >>=-eq_ok {ℓ κ} :
    {X : Type ℓ} {Y : Type κ} (first : Result X) (next : X → Result Y) {y : Y}
    → first >>= next ≡ ok y
    → (x : X) × (first ≡ ok x) × (next x ≡ ok y)
>>=-eq_ok (raise exn) next h = cc
>>=-eq_ok (ok x) next h = (x, refl, h)

-- A property of every value that is returned. Nothing is said where the computation raises.
pub data Returns {ℓ} {A : Type ℓ} (P : A → Type 0) : Result A → Type ℓ where
  returned : {a : A} → P a → Returns P (ok a)
  raised : {e : Exn} → Returns P (raise e)

pub Returns-if {ℓ} :
    {A : Type ℓ} {P : A → Type 0} (b : Bool) (m n : Result A)
    → (b ≡ true → Returns P m)
    → (b ≡ false → Returns P n)
    → Returns P (if b then m else n)
Returns-if true m n h k = h refl
Returns-if false m n h k = k refl

pub Returns-bind {ℓ κ} :
    {A : Type ℓ} {B : Type κ} {P : B → Type 0} (m : Result A) (f : A → Result B)
    → ((a : A) → m ≡ ok a → Returns P (f a))
    → Returns P (m >>= f)
Returns-bind (ok a) f h = h a refl
Returns-bind (raise e) f h = raised

pub Returns_inv {ℓ} :
    {A : Type ℓ} {P : A → Type 0} {m : Result A} → Returns P m → (a : A) → m ≡ ok a → P a
Returns_inv {P = Q} (returned {a = b} h) a e = subst Q (ok-injective b a e) h
Returns_inv raised a e = cc

pub ruleset returns_rules = (returned, raised, Returns-if, Returns-bind)

module _ {ℓ κ} {A : Type ℓ} {B : Type κ} where
  -- `[y for x in xs if …]`, where one body makes the test and the element. The first exception
  -- ends the comprehension.
  unfoldable pub filter_map : (A → Result (Option B)) → List A → Result (List B)
  filter_map f [] = ok []
  filter_map f (x ∷ xs) = f x >>= λ o. filter_map f xs >>= λ ys. ok (prepend o ys)

module _ {ℓ} {A : Type ℓ} where
  -- `[x for x in xs if p(x)]`.
  unfoldable pub filter : (A → Result Bool) → List A → Result (List A)
  filter p [] = ok []
  filter p (x ∷ xs) = p x >>= λ b. filter p xs >>= λ ys. ok (if b then x ∷ ys else ys)

  -- `any(p(x) for x in xs)`, which stops at the first that passes.
  unfoldable pub any : (A → Result Bool) → List A → Result Bool
  any p [] = ok false
  any p (x ∷ xs) = p x >>= λ b. elim b [ true ↦ ok true | false ↦ any p xs ]

  -- `next((x for x in xs if p(x)), None)`.
  unfoldable pub find : (A → Result Bool) → List A → Result (Option A)
  find p [] = ok none
  find p (x ∷ xs) = p x >>= λ b. elim b [ true ↦ ok (some x) | false ↦ find p xs ]
