-- ===== src/Py/Text.antt =====
-- The methods of Python's `str` that the program calls. Case and white space are those of ASCII.
use Prim.Native.Char.{Char, code}
use Prim.Native.String.{[], ◌∷◌, count}
use mathlib.Core.List.{List}
use mathlib.Core.Logic.{dite}
use mathlib.Core.WellFounded.{Acc, WellFounded}
use native.Mathlib.Decide.{dec_lt}
use oscal_aap_ansible_playbo.Prelude.{
  ℕ, zero, suc, ◌+◌, ◌-◌, ◌/◌, ◌%◌, ◌<◌, String, ◌<>◌, Bool, true, false, ◌&&◌, ◌||◌, arith, leb,
  ◌==◌, if◌then◌else◌, str_eq,
}

-- The letter of `to` at the place where `c` stands in `from`, or `c` itself.
unfoldable pub translate : String → String → Char → Char
translate (f ∷ fs) (t ∷ ts) c = if code f == code c then t else translate fs ts c
translate [] ts c = c
translate fs ts c = c

unfoldable pub map_chars : (Char → Char) → String → String
map_chars f [] = []
map_chars f (c ∷ s) = f c ∷ map_chars f s

-- `s.lower()` and `s.upper()`.
unfoldable pub lower : String → String
unfolding map_chars translate
lower = map_chars (translate "ABCDEFGHIJKLMNOPQRSTUVWXYZ" "abcdefghijklmnopqrstuvwxyz")

unfoldable pub upper : String → String
unfolding map_chars translate
upper = map_chars (translate "abcdefghijklmnopqrstuvwxyz" "ABCDEFGHIJKLMNOPQRSTUVWXYZ")

unfoldable pub is_space : Char → Bool
is_space c = (leb 9 (code c) && leb (code c) 13) || (leb 28 (code c) && leb (code c) 32)

unfoldable pub lstrip : String → String
lstrip [] = []
lstrip (c ∷ s) = if is_space c then lstrip s else c ∷ s

-- `s.rstrip(chars)` for the characters that pass the test.
unfoldable pub rstrip : (Char → Bool) → String → String
rstrip p [] = []
rstrip p (c ∷ s) = let r = rstrip p s in if p c && str_eq r [] then [] else c ∷ r

-- `s.strip()`.
unfoldable pub strip : String → String
unfolding lstrip rstrip is_space str_eq
strip s = rstrip is_space (lstrip s)

-- `s.startswith(p)`, with the prefix first.
unfoldable pub has_prefix : String → String → Bool
has_prefix [] s = true
has_prefix (p ∷ ps) [] = false
has_prefix (p ∷ ps) (c ∷ s) = code p == code c && has_prefix ps s

-- `sub in s`.
unfoldable pub contains : String → String → Bool
unfolding has_prefix
contains sub [] = has_prefix sub []
contains sub (c ∷ s) = has_prefix sub (c ∷ s) || contains sub s

-- `s.endswith(p)`, with the suffix first.
unfoldable pub has_suffix : String → String → Bool
unfolding str_eq
has_suffix p [] = str_eq p []
has_suffix p (c ∷ s) = str_eq p (c ∷ s) || has_suffix p s

-- `s.split(sep)[0]`, for a separator of one character.
unfoldable pub before : Char → String → String
before sep [] = []
before sep (c ∷ s) = if code c == code sep then [] else c ∷ before sep s

-- `s.rsplit(sep, 1)[-1]`, for a separator of one character: what stands behind its last place.
unfoldable pub after_last : Char → String → String → String
after_last sep whole [] = whole
after_last sep whole (c ∷ s) = after_last sep (if code c == code sep then s else whole) s

-- `sep.join(parts)`.
unfoldable pub join : String → List String → String
join sep List.[] = []
join sep (List.◌∷◌ s List.[]) = s
join sep (List.◌∷◌ s rest) = s <> (sep <> join sep rest)

Acc-below : (k n : ℕ) → n < k → Acc ◌<◌ n
Acc-below zero n h = elim h [ ]
Acc-below (suc k) n h = Acc.intro n (λ m hm. Acc-below k m (omega arith))

unfoldable pub lt_wf : WellFounded ◌<◌
unfolding Acc-below
lt_wf = record { apply = λ n. Acc-below (suc n) n (omega arith) }

nth_char : String → ℕ → Char
nth_char [] n = Prim.Native.Char.nul
nth_char (c ∷ s) zero = c
nth_char (c ∷ s) (suc n) = nth_char s n

digit : ℕ → Char
unfolding nth_char
digit n = nth_char "0123456789" (n % 10)

decimal_acc : (n : ℕ) → Acc ◌<◌ n → String → String
decimal_acc n (Acc.intro _ smaller) acc =
    dite (dec_lt 9 n) (λ h. decimal_acc (n / 10) (smaller (n / 10) (omega arith)) (digit n ∷ acc))
      (λ _. digit n ∷ acc)

-- `str(n)` of a count.
unfoldable pub decimal : ℕ → String
unfolding decimal_acc digit lt_wf dec_lt
decimal n = decimal_acc n (lt_wf.apply n) []

zeros : ℕ → String → String
zeros zero s = s
zeros (suc w) s = "0" <> zeros w s

-- `n` in decimal, with zeros in front up to the width: `f"{n:04d}"` at width 4.
unfoldable pub padded : ℕ → ℕ → String
unfolding decimal zeros
padded width n = let s = decimal n in zeros (width - count s) s

-- `s[:n]`.
unfoldable pub take : ℕ → String → String
take zero s = []
take (suc n) [] = []
take (suc n) (c ∷ s) = c ∷ take n s

-- `s.partition(sep)[0]`, for a separator of one character: what stands in front of its first place,
-- or the whole text.
unfoldable pub before_first : Char → String → String
before_first sep [] = []
before_first sep (c ∷ s) =
    let rest = before_first sep s in if code c == code sep then [] else c ∷ rest

-- `s.partition(sep)[2]`, for a separator of one character: what stands behind its first place.
unfoldable pub after_first : Char → String → String
after_first sep [] = []
after_first sep (c ∷ s) = if code c == code sep then s else after_first sep s

-- `s.count(sep)`, for one character.
unfoldable pub occurrences : Char → String → ℕ
occurrences sep [] = 0
occurrences sep (c ∷ s) = (if code c == code sep then 1 else 0) + occurrences sep s

-- `sep.join(s.split(sep)[:-1])`: what stands in front of the last place of the separator.
unfoldable pub before_last : Char → String → String
unfolding occurrences
before_last sep [] = []
before_last sep (c ∷ s) =
    let rest = before_last sep s in
    if code c == code sep && occurrences sep s == 0
    then []
    else if occurrences sep (c ∷ s) == 0
    then []
    else c ∷ rest
