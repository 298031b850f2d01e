-- ===== src/Redact/Sid.antt =====
-- `_SID_RE`: `^S-1-\d+(-\d+){2,}$`, in any case. As in Python, the last `$` lets one line feed follow.
-- Digits and letters are those of ASCII; `\d` and IGNORECASE also take a few others in Python.
use Prim.Native.Char.{code}
use oscal_aap_ansible_playbo.Prelude.{
  ℕ, ◌+◌, String, Bool, true, false, ◌&&◌, ◌||◌, ◌==◌, leb, if◌then◌else◌,
}
use Prim.Native.String.{[], ◌∷◌}

is_end : String → Bool
is_end [] = true
is_end (c ∷ s) = false

-- The groups of digits, given how many are finished and whether the last one holds a digit. A dash
-- finishes a group; the text ends in a group, with two groups in front of it or more.
unfoldable pub groups : ℕ → Bool → String → Bool
unfolding is_end
groups n open_group [] = open_group && leb 2 n
groups n open_group (c ∷ s) =
    let next = leb 48 (code c) && leb (code c) 57 in
    let rest = groups (if next then n else n + 1) next s in
    if next
    then rest
    else if code c == 45
    then open_group && rest
    else code c == 10 && is_end s && open_group && leb 2 n

-- What follows "S-1-".
unfoldable pub looks_like_sid : String → Bool
unfolding groups
looks_like_sid (s ∷ (d ∷ (one ∷ (e ∷ rest)))) =
    (code s == 83 || code s == 115)
    && code d == 45
    && code one == 49
    && code e == 45
    && groups 0 false rest
looks_like_sid s = false
