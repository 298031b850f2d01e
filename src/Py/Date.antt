-- ===== src/Py/Date.antt =====
-- `datetime.date` as the program uses it. A date is its proleptic ordinal: 1 January of year 1 is day
-- 1, as in `date.toordinal`.
use Prim.Native.Char.{code}
use Prim.Native.String.{[], ◌∷◌, count}
use oscal_aap_ansible_playbo.Prelude.{
  ℕ, zero, suc, ◌+◌, ◌-◌, ◌*◌, ◌/◌, ◌%◌, String, ◌<>◌, Bool, not, ◌&&◌, ◌||◌, Option, none, some,
  leb, ltb, ◌==◌, if◌then◌else◌,
}
use oscal_aap_ansible_playbo.Py.Text.{padded}
use oscal_aap_ansible_playbo.Py.Access.{digits}

-- A moment is a count of microseconds since the start of year 1, in UTC.
abbrev pub Instant : Type 0
Instant = ℕ

abbrev pub hour : ℕ
hour = 3_600_000_000

abbrev pub day : ℕ
day = 86_400_000_000

abbrev pub Date : Type 0
Date = ℕ

-- `moment.date()`.
unfoldable pub date_of : Instant → Date
date_of moment = moment / day + 1

unfoldable pub is_leap : ℕ → Bool
is_leap y = y % 4 == 0 && (not (y % 100 == 0) || y % 400 == 0)

unfoldable pub days_in_month : ℕ → ℕ → ℕ
unfolding is_leap
days_in_month y m =
    if m == 2
    then (if is_leap y then 29 else 28)
    else if m == 4 || m == 6 || m == 9 || m == 11
    then 30
    else 31

unfoldable pub days_before_month : ℕ → ℕ → ℕ
unfolding days_in_month
days_before_month y zero = 0
days_before_month y (suc zero) = 0
days_before_month y (suc (suc m)) = days_before_month y (suc m) + days_in_month y (suc m)

unfoldable pub ordinal : ℕ → ℕ → ℕ → Date
unfolding days_before_month
ordinal y m d = let p = y - 1 in p * 365 + p / 4 - p / 100 + p / 400 + days_before_month y m + d

-- The first characters of a text, and the rest, where it is long enough.
unfoldable pub split_at : ℕ → String → Option (String × String)
split_at zero s = some ("", s)
split_at (suc n) [] = none
split_at (suc n) (c ∷ s) = elim (split_at n s) [ none ↦ none | some (a, b) ↦ some (c ∷ a, b) ]

unfoldable pub after_dash : String → Option String
after_dash [] = none
after_dash (c ∷ s) = if code c == b'-' then some s else none

infixl 5 ◌>>=◌
abbrev ◌>>=◌ {ℓ κ} : {A : Type ℓ} {B : Type κ} → Option A → (A → Option B) → Option B
none >>= f = none
some a >>= f = f a

abbrev in_range : ℕ → ℕ → ℕ → Bool
in_range y m d = leb 1 y && (leb 1 m && (leb m 12 && (leb 1 d && leb d (days_in_month y m))))

-- The date of three numbers, where there is such a day.
unfoldable pub checked : ℕ → ℕ → ℕ → Option Date
unfolding ordinal days_in_month
checked y m d = if in_range y m d then some (ordinal y m d) else none

-- `date.fromisoformat`, in the form YYYY-MM-DD. `none` stands for its `ValueError`.
unfoldable pub from_isoformat : String → Option Date
unfolding split_at after_dash digits checked
from_isoformat s = do
  (year, rest) ← split_at 4 s
  rest ← after_dash rest
  (month, rest) ← split_at 2 rest
  rest ← after_dash rest
  (date, rest) ← split_at 2 rest
  y ← digits 0 year
  m ← digits 0 month
  d ← digits 0 date
  if count rest == 0 then checked y m d else none

-- The year and the day of the year, from 0, of a date, by the cycles of 400, 100, 4 and 1 years.
unfoldable pub year_and_day : Date → ℕ × ℕ
year_and_day date =
    let n = date - 1 in
    let n400 = n / 146097 in
    let r400 = n % 146097 in
    let n100 = r400 / 36524 in
    let r100 = r400 % 36524 in
    let n4 = r100 / 1461 in
    let r4 = r100 % 1461 in
    let n1 = r4 / 365 in
    let year = n400 * 400 + n100 * 100 + n4 * 4 + n1 + 1 in
    if n1 == 4 || n100 == 4 then (year - 1, 365) else (year, r4 % 365)

-- The month and the day of the month, from the months left to try.
unfoldable pub month_and_day : ℕ → ℕ → ℕ → ℕ → ℕ × ℕ
unfolding days_in_month
month_and_day zero y m n = (m, n + 1)
month_and_day (suc left) y m n =
    let rest = month_and_day left y (m + 1) (n - days_in_month y m) in
    if ltb n (days_in_month y m) then (m, n + 1) else rest

-- `date.isoformat`.
unfoldable pub isoformat : Date → String
unfolding year_and_day month_and_day padded
isoformat date =
    let (y, n) = year_and_day date in
    let (m, d) = month_and_day 11 y 1 n in
    padded 4 y <> ("-" <> (padded 2 m <> ("-" <> padded 2 d)))
