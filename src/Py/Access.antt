-- ===== src/Py/Access.antt =====
-- Reading values the way the program does, with the exception that Python raises where a value has
-- another type. Sets are lists without repetition, in the order of insertion; the program sorts
-- every set before it shows or walks it.
pub mod Sorted
pub mod Sets
use oscal_aap_ansible_playbo.Prelude.{
  String, ◌<>◌, Bool, true, false, ◌||◌, List, [], ◌∷◌, ◌++◌, if◌then◌else◌,
}
use Prim.Native.Char.{code}
use oscal_aap_ansible_playbo.Prelude.{none, Option, some, str_eq, leb, ◌==◌, ◌&&◌, ◌+◌, ◌*◌, ◌-◌, ℕ}
use mathlib.Core.Option
use oscal_aap_ansible_playbo.Py.Text.{strip}
use Prim.Native.String.{compare}
use Prim.Native.Nat.{Ordering}
use oscal_aap_ansible_playbo.Prelude.Int.{ℤ, ltb_ℤ, pos, negated}
use oscal_aap_ansible_playbo.Py.Value.{
  Value, Fields, null, bool, int, str, arr, obj, end, field, items, value_at, py_eq, type_name,
  of_bool, truthy,
}
use oscal_aap_ansible_playbo.Py.Result.{Exn, Result, ok, raise, ◌>>=◌}

abbrev pub type_error : String → Exn
type_error m = record { kind = "TypeError"; message = m }

abbrev pub attribute_error : String → Exn
attribute_error m = record { kind = "AttributeError"; message = m }

abbrev pub value_error : String → Exn
value_error m = record { kind = "ValueError"; message = m }

abbrev pub key_error : String → Exn
key_error k = record { kind = "KeyError"; message = "'" <> (k <> "'") }

-- `v.name` where the type of `v` has no such attribute.
abbrev pub no_attribute : Value → String → Exn
no_attribute v name = record {
  kind = "AttributeError";
  message = "'" <> (type_name v <> ("' object has no attribute '" <> (name <> "'")));
}

-- `v.get(k, default)`.
unfoldable pub get_or : Value → String → Value → Result Value
unfolding value_at
get_or (obj fs) k d = elim (value_at k fs) [ none ↦ ok d | some v ↦ ok v ]
get_or v k d = raise (no_attribute v "get")

-- `v.get(k)`.
abbrev pub get : Value → String → Result Value
get v k = get_or v k null

-- `v[k]`.
unfoldable pub index : Value → String → Result Value
unfolding value_at
index (obj fs) k = elim (value_at k fs) [ none ↦ raise (key_error k) | some v ↦ ok v ]
index v k = raise (type_error ("'" <> (type_name v <> "' object is not subscriptable")))

-- The characters of a text, as texts.
abbrev pub chars : String → List Value
chars String.[] = []
chars (String.◌∷◌ c s) = str (String.◌∷◌ c String.[]) ∷ chars s

abbrev keys : Fields → List Value
keys end = []
keys (field k v fs) = str k ∷ keys fs

-- `for x in v`.
unfoldable pub iterate : Value → Result (List Value)
iterate (arr xs) = ok (items xs)
iterate (obj fs) = ok (keys fs)
iterate (str s) = ok (chars s)
iterate v = raise (type_error ("'" <> (type_name v <> "' object is not iterable")))

-- `v or []`, walked.
unfoldable pub iterate_or_empty : Value → Result (List Value)
unfolding truthy iterate
iterate_or_empty v = if truthy v then iterate v else ok []

-- Lists and dicts cannot stand in a set.
unfoldable pub hashable : Value → Result Value
hashable (arr xs) = raise (type_error "unhashable type: 'list'")
hashable (obj fs) = raise (type_error "unhashable type: 'dict'")
hashable v = ok v

unfoldable pub mem : Value → List Value → Bool
unfolding py_eq
mem v [] = false
mem v (x ∷ xs) = py_eq x v || mem v xs

-- `v in s`, for a set.
unfoldable pub in_set : Value → List Value → Result Bool
unfolding mem hashable
in_set v s = hashable v >>= λ w. ok (mem w s)

-- `s | {v}`.
unfoldable pub add : Value → List Value → List Value
unfolding mem
add v s = if mem v s then s else s ++ (v ∷ [])

unfoldable pub add_all : List Value → List Value → Result (List Value)
unfolding add hashable
add_all [] s = ok s
add_all (v ∷ vs) s = hashable v >>= λ w. add_all vs (add w s)

-- `set(xs)`.
unfoldable pub to_set : List Value → Result (List Value)
unfolding add_all
to_set vs = add_all vs []

-- `a - b`, for sets.
unfoldable pub difference : List Value → List Value → List Value
unfolding mem
difference [] b = []
difference (v ∷ a) b = if mem v b then difference a b else v ∷ difference a b

-- The strict order of texts by code points.
abbrev pub str_lt : String → String → Bool
str_lt s t = elim (compare s t) [ Ordering.lt ↦ true | _ ↦ false ]

-- `v < w`, for values that can stand in a set.
unfoldable pub less : Value → Value → Result Bool
less (str s) (str t) = ok (str_lt s t)
less (int n) (int m) = ok (ltb_ℤ n m)
less (bool a) (int m) = ok (ltb_ℤ (of_bool a) m)
less (int n) (bool b) = ok (ltb_ℤ n (of_bool b))
less (bool a) (bool b) = ok (ltb_ℤ (of_bool a) (of_bool b))
less v w = raise (
    type_error (
      "'<' not supported between instances of '"
      <> (type_name v <> ("' and '" <> (type_name w <> "'")))))

-- One step of a stable insertion sort, from the right.
unfoldable pub insert_sorted : Value → List Value → Result (List Value)
unfolding less
insert_sorted v [] = ok (v ∷ [])
insert_sorted v (x ∷ xs) = less x v >>= λ b. elim b [
  | true ↦ insert_sorted v xs >>= λ ys. ok (x ∷ ys)
  | false ↦ ok (v ∷ (x ∷ xs))
]

-- `sorted(xs)`.
unfoldable pub sorted : List Value → Result (List Value)
unfolding insert_sorted
sorted [] = ok []
sorted (v ∷ vs) = sorted vs >>= λ s. insert_sorted v s

-- The number that a text of ASCII digits writes, after those read so far.
unfoldable pub digits : ℕ → String → Option ℕ
digits n String.[] = some n
digits n (String.◌∷◌ c s) =
    let rest = digits (n * 10 + (code c - 48)) s in
    if leb 48 (code c) && leb (code c) 57 then rest else none

no_int : String → Exn
no_int s = value_error ("invalid literal for int() with base 10: '" <> (s <> "'"))

-- The same for digits that single underscores may part; the flag says that a digit was just read.
unfoldable pub parted_digits : Bool → ℕ → String → Option ℕ
parted_digits after n String.[] = if after then some n else none
parted_digits after n (String.◌∷◌ c s) =
    let digit = leb 48 (code c) && leb (code c) 57 in
    let rest = parted_digits digit (if digit then n * 10 + (code c - 48) else n) s in
    if digit || (code c == 95 && after) then rest else none

-- The digits of a number and its sign.
unfoldable pub signed : String → Option ℤ
unfolding parted_digits
signed String.[] = none
signed (String.◌∷◌ c s) =
    if code c == 45
    then Option.map negated (parted_digits false 0 s)
    else if code c == 43
    then Option.map pos (parted_digits false 0 s)
    else Option.map pos (parted_digits false 0 (String.◌∷◌ c s))

-- `int(s)` for a text: a decimal number with white space around it, a sign or none, and single
-- underscores between its digits.
unfoldable pub text_to_int : String → Result ℤ
unfolding signed strip no_int
text_to_int s = elim (signed (strip s)) [ none ↦ raise (no_int s) | some n ↦ ok n ]

-- `int(v)`.
unfoldable pub to_int : Value → Result ℤ
unfolding text_to_int
to_int (int n) = ok n
to_int (bool b) = ok (of_bool b)
to_int (str s) = text_to_int s
to_int v = raise (
    type_error (
      "int() argument must be a string, a bytes-like object or a real number, not '"
      <> (type_name v <> "'")))

-- `sorted(ss)`, for texts.
unfoldable pub insert_text : String → List String → List String
insert_text s [] = s ∷ []
insert_text s (t ∷ ts) = if str_lt t s then t ∷ insert_text s ts else s ∷ (t ∷ ts)

unfoldable pub sort_texts : List String → List String
unfolding insert_text
sort_texts [] = []
sort_texts (s ∷ ss) = insert_text s (sort_texts ss)

-- `v` as the text whose method is called; any other value has no such method.
unfoldable pub as_text : Value → String → Result String
as_text (str s) method = ok s
as_text v method = raise (no_attribute v method)

-- `f"{x}"` of an optional text.
unfoldable pub option_text : Option String → String
option_text none = "None"
option_text (some s) = s

-- An optional text as a value.
unfoldable pub option_value : Option String → Value
option_value none = null
option_value (some s) = str s
