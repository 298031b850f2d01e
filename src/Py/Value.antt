-- ===== src/Py/Value.antt =====
-- The values that a JSON or YAML document gives, with the tests that Python makes on them. Numbers
-- are integers: no document that the evaluator reads holds a fraction.
use oscal_aap_ansible_playbo.Prelude.{
  ℕ, suc, String, ◌<>◌, Bool, true, false, not, ◌&&◌, Option, none, some, List, [], ◌∷◌, ◌==◌,
  if◌then◌else◌, str_eq,
}
use oscal_aap_ansible_playbo.Prelude.Int.{ℤ, pos, negsuc, eqb_ℤ}
use oscal_aap_ansible_playbo.Py.Text.{decimal, join}

mutual
  pub data Fields : Type 0 where
    field : String → Value → Fields → Fields
    end : Fields

  pub data Value : Type 0 where
    str : String → Value
    int : ℤ → Value
    bool : Bool → Value
    obj : Fields → Value
    null : Value
    arr : Items → Value

  pub data Items : Type 0 where
    cons : Value → Items → Items
    nil : Items

abbrev pub items : Items → List Value
items nil = []
items (cons x xs) = x ∷ items xs

abbrev pub entries : Fields → List (String × Value)
entries end = []
entries (field k v fs) = (k, v) ∷ entries fs

abbrev pub to_items : List Value → Items
to_items [] = nil
to_items (x ∷ xs) = cons x (to_items xs)

abbrev pub to_fields : List (String × Value) → Fields
to_fields [] = end
to_fields ((k, v) ∷ d) = field k v (to_fields d)

-- A list, a dict, a list of strings and a count as values.
abbrev pub list : List Value → Value
list xs = arr (to_items xs)

abbrev pub dict : List (String × Value) → Value
dict d = obj (to_fields d)

abbrev pub strs : List String → List Value
strs [] = []
strs (s ∷ ss) = str s ∷ strs ss

abbrev pub num : ℕ → Value
num n = int (pos n)

-- `bool(v)`: what `if v`, `not v` and `v or w` test.
unfoldable pub truthy : Value → Bool
truthy null = false
truthy (bool b) = b
truthy (int (pos n)) = not (n == 0)
truthy (int (negsuc n)) = true
truthy (str s) = not (str_eq s "")
truthy (arr nil) = false
truthy (arr (cons x xs)) = true
truthy (obj end) = false
truthy (obj (field k v fs)) = true

-- `v or w`.
unfoldable pub or_else : Value → Value → Value
unfolding truthy
or_else v w = if truthy v then v else w

-- `v is None`.
abbrev pub is_none : Value → Bool
is_none null = true
is_none _ = false

-- `v is True`, `v is False`.
abbrev pub is_true : Value → Bool
is_true (bool b) = b
is_true _ = false

abbrev pub is_false : Value → Bool
is_false (bool b) = not b
is_false _ = false

-- The first value under a key.
unfoldable pub value_at : String → Fields → Option Value
value_at k end = none
value_at k (field j v fs) = if str_eq j k then some v else value_at k fs

unfoldable pub count_fields : Fields → ℕ
count_fields end = 0
count_fields (field k v fs) = suc (count_fields fs)

-- A bool is the integer 0 or 1.
abbrev pub of_bool : Bool → ℤ
of_bool true = pos 1
of_bool false = pos 0

-- `v == w`. Dicts are compared without regard to order.
unfoldable mutual
  unfolding value_at count_fields str_eq

  pub py_eq : Value → Value → Bool
  py_eq null null = true
  py_eq (bool a) (bool b) = eqb_ℤ (of_bool a) (of_bool b)
  py_eq (bool a) (int n) = eqb_ℤ (of_bool a) n
  py_eq (int n) (bool b) = eqb_ℤ n (of_bool b)
  py_eq (int n) (int m) = eqb_ℤ n m
  py_eq (str s) (str t) = str_eq s t
  py_eq (arr xs) (arr ys) = items_eq xs ys
  py_eq (obj fs) (obj gs) = count_fields fs == count_fields gs && fields_eq fs gs
  py_eq _ _ = false

  pub items_eq : Items → Items → Bool
  items_eq nil nil = true
  items_eq (cons x xs) (cons y ys) = py_eq x y && items_eq xs ys
  items_eq _ _ = false

  pub fields_eq : Fields → Fields → Bool
  fields_eq end gs = true
  fields_eq (field k v fs) gs = elim (value_at k gs) [
    | none ↦ false
    | some w ↦ py_eq v w && fields_eq fs gs
  ]

abbrev pub type_name : Value → String
type_name null = "NoneType"
type_name (bool b) = "bool"
type_name (int n) = "int"
type_name (str s) = "str"
type_name (arr xs) = "list"
type_name (obj fs) = "dict"

unfoldable pub int_text : ℤ → String
unfolding decimal
int_text (pos n) = decimal n
int_text (negsuc n) = "-" <> decimal (suc n)

-- `repr(v)`. Inside a container a text stands in single quotes; Python's escapes of quotes and of
-- unprintable characters are not modelled.
unfoldable mutual
  unfolding int_text join

  pub repr : Value → String
  repr null = "None"
  repr (bool true) = "True"
  repr (bool false) = "False"
  repr (int n) = int_text n
  repr (str s) = "'" <> (s <> "'")
  repr (arr xs) = "[" <> (join ", " (repr_items xs) <> "]")
  repr (obj fs) = "{" <> (join ", " (repr_fields fs) <> "}")

  pub repr_items : Items → List String
  repr_items nil = []
  repr_items (cons x xs) = repr x ∷ repr_items xs

  pub repr_fields : Fields → List String
  repr_fields end = []
  repr_fields (field k v fs) = ("'" <> (k <> ("': " <> repr v))) ∷ repr_fields fs

-- `str(v)`.
unfoldable pub to_text : Value → String
unfolding repr
to_text (str s) = s
to_text null = "None"
to_text (bool true) = "True"
to_text (bool false) = "False"
to_text (int n) = int_text n
to_text (arr xs) = repr (arr xs)
to_text (obj fs) = repr (obj fs)
