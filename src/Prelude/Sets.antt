-- ===== src/Prelude/Sets.antt =====
-- Lists of texts as Python's sets of texts.
use Prim.Native.String.{String}
use mathlib.Core.Path.{◌≡◌, sym}
use mathlib.Core.Logic.{inl, inr}
use mathlib.Core.Bool.{Bool, true, false, ◌||◌}
use native.Mathlib.Omega.{arith}
use mathlib.Core.List.{List, [], ◌∷◌}
use oscal_aap_ansible_playbo.Prelude.Tests.{
  if◌then◌else◌, str_eq, str_eq→eq, str_eq_refl, Bool-cases,
}
use oscal_aap_ansible_playbo.Prelude.Lists.{In}

-- `s in xs`.
unfoldable pub mem_text : String → List String → Bool
mem_text s [] = false
mem_text s (t ∷ ts) = str_eq t s || mem_text s ts

-- `set(xs)`: each text once, where it stands last.
unfoldable pub unique : List String → List String
unfolding mem_text
unique [] = []
unique (s ∷ ss) = if mem_text s ss then unique ss else s ∷ unique ss

pub mem_text→In : (s : String) (ts : List String) → mem_text s ts ≡ true → In s ts
unfolding mem_text
mem_text→In s [] h = cc
mem_text→In s (t ∷ ts) h = elim (Bool-cases (str_eq t s)) [
  | inl e ↦ inl (sym (str_eq→eq t s e))
  | inr e ↦ inr (mem_text→In s ts (rw e at h))
]

pub In→mem_text : (s : String) (ts : List String) → In s ts → mem_text s ts ≡ true
unfolding mem_text
In→mem_text s [] m = absurd m
In→mem_text s (t ∷ ts) (inl q) = rw (q, str_eq_refl t)
In→mem_text s (t ∷ ts) (inr m) = ground (arith, In→mem_text s ts m)
