-- ===== src/Py/Tests.antt =====
-- Runs of the run time's functions on small inputs.
use oscal_aap_ansible_playbo.Prelude.{◌≡◌, refl, true, some, none, [], ◌∷◌}
use oscal_aap_ansible_playbo.Py.Text.{before_first, lower, strip, contains, join, decimal, padded}
use oscal_aap_ansible_playbo.Prelude.Int.{negsuc}
use oscal_aap_ansible_playbo.Py.Result.{ok, raise}
use oscal_aap_ansible_playbo.Py.Access.{text_to_int}
use oscal_aap_ansible_playbo.Py.Date.{ordinal, isoformat, from_isoformat}

lower_text : lower "Enterprise N" ≡ "enterprise n"
unfolding lower
lower_text = refl

strip_text : strip "  a b \t" ≡ "a b"
unfolding strip
strip_text = refl

contains_text : contains "internet-explorer" "x-internet-explorer-amd64" ≡ true
unfolding contains
contains_text = refl

join_texts : join ", " ("a" ∷ "b" ∷ []) ≡ "a, b"
unfolding join
join_texts = refl

decimal_text : decimal 2024 ≡ "2024"
unfolding decimal
decimal_text = refl

padded_text : padded 4 7 ≡ "0007"
unfolding padded
padded_text = refl

dates : isoformat (ordinal 2020 12 31) ≡ "2020-12-31"
unfolding isoformat ordinal
dates = refl

leap_dates : isoformat (ordinal 2024 2 29) ≡ "2024-02-29"
unfolding isoformat ordinal
leap_dates = refl

read_date : from_isoformat "2021-01-12" ≡ some (ordinal 2021 1 12)
unfolding from_isoformat
read_date = refl

read_no_date : from_isoformat "2021-02-29" ≡ none
unfolding from_isoformat
read_no_date = refl

signed_number : text_to_int " -1_000 " ≡ ok (negsuc 999)
unfolding text_to_int
signed_number = refl

double_underscore :
    text_to_int "1__0"
    ≡ raise
        (record { kind = "ValueError"; message = "invalid literal for int() with base 10: '1__0'" })
unfolding text_to_int
double_underscore = refl

no_separator : before_first ":" "module" ≡ "module"
unfolding before_first
no_separator = refl
