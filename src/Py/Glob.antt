-- ===== src/Py/Glob.antt =====
-- `fnmatch.fnmatchcase` of the standard library: `*`, `?` and sets of characters in brackets.
use Prim.Native.Char.{Char, code}
use Prim.Native.String.{[], ◌∷◌}
use mathlib.Core.List.{List}
use oscal_aap_ansible_playbo.Prelude.{
  ℕ, ◌+◌, ◌-◌, String, Bool, false, not, ◌&&◌, ◌||◌, Option, none, some, leb, ◌==◌, if◌then◌else◌,
  str_eq,
}
use oscal_aap_ansible_playbo.Py.Text.{take}

-- One item of a pattern; a set is the text between its brackets.
pub data Token : Type 0 where
  star any_char : Token
  letter : Char → Token
  set_of : String → Token

-- The place of the bracket that closes a set, from the place of the text.
closing : ℕ → String → Option ℕ
closing n [] = none
closing n (c ∷ s) = let rest = closing (n + 1) s in if code c == 93 then some n else rest

-- A bracket that comes first, or behind `!`, belongs to the set.
set_end : String → Option ℕ
unfolding closing
set_end (a ∷ (b ∷ s)) =
    if code a == 33
    then (if code b == 93 then closing 2 s else closing 1 (b ∷ s))
    else if code a == 93
    then closing 1 (b ∷ s)
    else closing 0 (a ∷ (b ∷ s))
set_end s = none

-- The token that starts with a character, and how many characters of the rest it takes.
token_at : Char → String → Token × ℕ
unfolding set_end
token_at c s =
    if code c == 42
    then (star, 0)
    else if code c == 63
    then (any_char, 0)
    else if code c == 91
    then elim (set_end s) [ none ↦ (letter c, 0) | some n ↦ (set_of (take n s), n + 1) ]
    else (letter c, 0)

-- The tokens of a pattern, given how many characters belong to the token in front.
tokens : ℕ → String → List Token
unfolding token_at
tokens skip [] = List.[]
tokens skip (c ∷ s) =
    let here = token_at c s in
    let rest = tokens (if skip == 0 then here.1 else skip - 1) s in
    if skip == 0 then List.◌∷◌ here.0 rest else rest

-- Whether a set without its `!` holds a character; `a-z` is a range.
holds : String → Char → Bool
holds [] x = false
holds (a ∷ []) x = code a == code x
holds (a ∷ (b ∷ [])) x = code a == code x || code b == code x
holds (a ∷ (b ∷ (c ∷ s))) x =
    if code b == 45
    then (leb (code a) (code x) && leb (code x) (code c)) || holds s x
    else code a == code x || holds (b ∷ (c ∷ s)) x

in_set : String → Char → Bool
unfolding holds
in_set [] x = false
in_set (a ∷ s) x = if code a == 33 then not (holds s x) else holds (a ∷ s) x

-- A test of some suffix of a text.
some_suffix : (String → Bool) → String → Bool
some_suffix p [] = p []
some_suffix p (c ∷ s) = p (c ∷ s) || some_suffix p s

matches : List Token → String → Bool
unfolding some_suffix in_set
matches List.[] s = str_eq s ""
matches (List.◌∷◌ star ts) s = some_suffix (matches ts) s
matches (List.◌∷◌ t ts) [] = false
matches (List.◌∷◌ any_char ts) (c ∷ s) = matches ts s
matches (List.◌∷◌ (letter a) ts) (c ∷ s) = code a == code c && matches ts s
matches (List.◌∷◌ (set_of cs) ts) (c ∷ s) = in_set cs c && matches ts s

-- `fnmatch.fnmatchcase(name, pattern)`.
unfoldable pub fnmatchcase : String → String → Bool
unfolding tokens matches
fnmatchcase name pattern = matches (tokens 0 pattern) name
