-- ===== src/PsObject.antt =====
-- collections/ansible_collections/nobytes/compliance/plugins/filter/ps_object.py: the document that a
-- collector emitted, from the `output` list of its task. `json_loads` is a parameter; the exception
-- that it raises is a ValueError.
pub mod Honest
use oscal_aap_ansible_playbo.Prelude.{
  String, ◌<>◌, Bool, true, false, not, ◌&&◌, ◌||◌, if◌then◌else◌, str_eq, Option, some, none,
  length,
}
use oscal_aap_ansible_playbo.Py.Text.{strip, decimal}
use oscal_aap_ansible_playbo.Py.Value.{
  Value, Items, null, str, arr, obj, nil, cons, end, items, repr, type_name,
}
use oscal_aap_ansible_playbo.Py.Result.{Result, ok, raise}

-- The mapping with its three keys.
pub record Recovery : Type 0 where
  pub is_ok : Bool
  pub error : String
  pub value : Value

abbrev pub fail : String → Recovery
fail e = record { is_ok = false; error = e; value = obj end }

abbrev pub recovered : Value → Recovery
recovered v = record { is_ok = true; error = ""; value = v }

abbrev is_mapping : Value → Bool
is_mapping (obj fs) = true
is_mapping _ = false

abbrev only_mapping : Items → Option Value
only_mapping (cons (obj fs) nil) = some (obj fs)
only_mapping _ = none

-- The last test, on what was parsed or unwrapped.
unfoldable pub shaped : String → Value → Recovery
unfolding str_eq
shaped expect v =
    if str_eq expect "mapping" && not (is_mapping v)
    then fail ("expected a mapping, got " <> type_name v)
    else recovered v

-- What is made of the parsed value.
unfoldable pub settled : String → Value → Recovery
unfolding shaped str_eq decimal
settled expect (arr xs) =
    if str_eq expect "any" then recovered (arr xs) else elim (only_mapping xs) [
      | some v ↦ shaped expect v
      | none ↦
          fail ("expected one mapping, got a " <> (decimal (length (items xs)) <> "-element array"))
    ]
settled expect v = shaped expect v

unfoldable pub parsed_text : (String → Result Value) → String → String → Recovery
unfolding settled str_eq strip
parsed_text json_loads expect s =
    if str_eq (strip s) ""
    then fail "the collector emitted an empty string"
    else elim (json_loads (strip s)) [
      | ok v ↦ settled expect v
      | raise e ↦ fail ("the collector's output is not valid JSON: " <> e.message)
    ]

-- What is made of the first item.
unfoldable pub parsed_first : (String → Result Value) → String → Value → Recovery
unfolding parsed_text
parsed_first json_loads expect (obj fs) = settled expect (obj fs)
parsed_first json_loads expect (str s) = parsed_text json_loads expect s
parsed_first json_loads expect v = fail ("expected a JSON string or mapping, got " <> type_name v)

abbrev not_a_list : Value → Recovery
not_a_list v = fail (
    "expected win_powershell's `output` list, got "
    <> (type_name v <> " -- pass `<register>.output`, not the register itself"))

unfoldable pub parsed_output : (String → Result Value) → String → Value → Recovery
unfolding parsed_first
parsed_output json_loads expect null = fail "the task registered no output at all"
parsed_output json_loads expect (obj fs) = not_a_list (obj fs)
parsed_output json_loads expect (str s) = not_a_list (str s)
parsed_output json_loads expect (arr nil) =
    fail "the collector produced no output; check the task's `error`"
parsed_output json_loads expect (arr (cons first rest)) = parsed_first json_loads expect first
parsed_output json_loads expect v = fail ("`output` is not iterable (" <> (type_name v <> ")"))

-- `ps_object(output, expect)`.
unfoldable pub ps_object : (String → Result Value) → Value → String → Result Recovery
unfolding parsed_output str_eq repr
ps_object json_loads output expect =
    if str_eq expect "mapping" || str_eq expect "any"
    then ok (parsed_output json_loads expect output)
    else raise (record {
      kind = "AnsibleFilterError";
      message = "ps_object: expect must be 'mapping' or 'any', got " <> repr (str expect);
    })
