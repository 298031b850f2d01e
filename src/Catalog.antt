-- ===== src/Catalog.antt =====
-- tools/nobytes_cca/catalog.py: the controls of the Information Security Manual, by their ids. The
-- document of a release is parsed JSON, in which the id of a control is a text.
pub mod Index
pub mod Complete
pub mod Baseline
use oscal_aap_ansible_playbo.Prelude.{
  String, ◌<>◌, Bool, true, false, not, ◌&&◌, ◌||◌, Option, none, some, List, [], ◌∷◌,
  if◌then◌else◌, lookup, insert, prepend, filter, map, str_eq,
}
use oscal_aap_ansible_playbo.Py.Text.{strip}
use oscal_aap_ansible_playbo.Py.Value.{
  Value, Items, Fields, null, bool, int, str, arr, obj, nil, cons, end, field, list, dict, or_else,
  value_at, to_text, py_eq, type_name, truthy,
}
use oscal_aap_ansible_playbo.Py.Result.{Result, Exn, ok, raise, ◌>>=◌, filter_map}
use oscal_aap_ansible_playbo.Py.Dict.{in_key_order}
use oscal_aap_ansible_playbo.Py.Access.{
  get, get_or, index, iterate, sorted, sort_texts, as_text, mem, chars, type_error, key_error,
}

pub record Control : Type 0 where
  pub id : String
  pub control_class : String
  pub statement : String
  pub statement_id : Value
  pub revision : Value
  pub updated : Value
  pub applicability : List Value
  pub essential_eight : List Value
  pub sort_id : Value

-- `Control.statement_sha256`.
unfoldable pub statement_sha256 : (String → String) → Control → String
statement_sha256 sha256_hex c = sha256_hex c.statement

-- `Control.applies_at` and `Control.in_e8`.
unfoldable pub applies_at : String → Control → Bool
applies_at classification c = mem (str classification) c.applicability

unfoldable pub in_e8 : String → Control → Bool
in_e8 level c = mem (str level) c.essential_eight

prop_value : String → Value → Result (Option Value)
unfolding py_eq
prop_value name p = get p "name" >>= λ n.
    if py_eq n (str name) then (index p "value" >>= λ v. ok (some v)) else ok none

-- `_props`.
unfoldable pub props : Value → String → Result (List Value)
unfolding prop_value
props node name =
    get_or node "props" (list []) >>= λ v. iterate v >>= λ ps. filter_map (prop_value name) ps

-- `_first`.
unfoldable pub first : List Value → Value
first [] = str ""
first (v ∷ vs) = v

first_char : List Value → Value
unfolding first
first_char vs = first vs

-- `parts[0] if parts else {}`.
unfoldable pub first_part : Value → Result Value
unfolding truthy first_char
first_part (arr nil) = ok (dict [])
first_part (arr (cons v vs)) = ok v
first_part (str s) = ok (if truthy (str s) then first_char (chars s) else dict [])
first_part (obj fs) = if truthy (obj fs) then raise (key_error "0") else ok (dict [])
first_part v =
    if truthy v
    then raise (type_error ("'" <> (type_name v <> "' object is not subscriptable")))
    else ok (dict [])

unfoldable pub class_text : Option Value → Option String
unfolding str_eq
class_text (some (str s)) =
    if str_eq s "ISM-control" || str_eq s "ISM-principle" then some s else none
class_text o = none

-- `node.get("class") in ("ISM-control", "ISM-principle")`.
unfoldable pub class_of : Fields → Option String
unfolding value_at class_text
class_of fs = class_text (value_at "class" fs)

-- `node["id"]`, the key of a control in the index.
unfoldable pub id_of : Fields → Option Value
unfolding value_at
id_of fs = value_at "id" fs

unfoldable pub id_text : Value → Result String
id_text (str s) = ok s
id_text v = raise (type_error ("an id of type " <> type_name v))

-- The control that a node describes.
unfoldable pub read_control : Fields → String → Value → Result Control
unfolding id_text first_part props first
read_control fs class id = get (obj fs) "parts" >>= λ parts. first_part parts >>= λ part.
    get part "prose" >>= λ prose. as_text (or_else prose (str "")) "strip" >>= λ statement.
    get_or part "id" (str (to_text id <> "_smt")) >>= λ statement_id.
    props (obj fs) "revision" >>= λ revision. props (obj fs) "updated" >>= λ updated.
    props (obj fs) "applicability" >>= λ applicability. sorted applicability >>= λ applies.
    props (obj fs) "essential-eight-applicability" >>= λ eight. sorted eight >>= λ levels.
    props (obj fs) "sort-id" >>= λ sort_id. id_text id >>= λ key. ok (record {
      id = key;
      control_class = class;
      statement = strip statement;
      statement_id = statement_id;
      revision = first revision;
      updated = first updated;
      applicability = applies;
      essential_eight = levels;
      sort_id = first sort_id;
    })

abbrev pub Index : Type 0
Index = List (String × Control)

-- What a dict adds to the index.
unfoldable pub index_node : Fields → Index → Result Index
unfolding class_of id_of read_control insert
index_node fs controls = elim (class_of fs) [
  | none ↦ ok controls
  | some class ↦ elim (id_of fs) [
    | none ↦ ok controls
    | some id ↦ (read_control fs class id >>= λ c. ok (insert c.id c controls))
  ]
]

-- `walk`.
unfoldable mutual
  unfolding index_node

  pub walk : Value → Index → Result Index
  walk (obj fs) controls = index_node fs controls >>= λ d. walk_fields fs d
  walk (arr xs) controls = walk_items xs controls
  walk v controls = ok controls

  pub walk_fields : Fields → Index → Result Index
  walk_fields end controls = ok controls
  walk_fields (field k v fs) controls = walk v controls >>= λ d. walk_fields fs d

  pub walk_items : Items → Index → Result Index
  walk_items nil controls = ok controls
  walk_items (cons v xs) controls = walk v controls >>= λ d. walk_items xs d

pub record Catalog : Type 0 where
  pub document : Value
  pub controls : Index

-- `Catalog.__init__`.
unfoldable pub catalog_of : Value → Result Catalog
unfolding walk
catalog_of document =
    walk document [] >>= λ controls. ok (record { document = document; controls = controls })

-- `Catalog.version`.
unfoldable pub version : Catalog → Result Value
version c = index c.document "metadata" >>= λ metadata. index metadata "version"

-- `Catalog.get`.
unfoldable pub control_at : Catalog → String → Option Control
unfolding lookup
control_at c control_id = lookup control_id c.controls

-- `Catalog.require`.
unfoldable pub require_control : Catalog → String → Result Control
unfolding control_at version
require_control c control_id = elim (control_at c control_id) [
  | some control ↦ ok control
  | none ↦
      (version c >>= λ v. raise (
        key_error (
          "'"
          <> (control_id
              <> ("' is not in ISM catalog "
                  <> (to_text v
                      <> ". Either it is a typo, or ASD withdrew it in a later release."))))))
]

-- `Catalog.__iter__`.
unfoldable pub controls : Catalog → List Control
controls c = in_key_order c.controls

-- `not wanted or test(wanted)`, for an optional text.
unfoldable pub passes : (String → Control → Bool) → Option String → Control → Bool
unfolding str_eq
passes test none control = true
passes test (some wanted) control = str_eq wanted "" || test wanted control

-- The tests of the loop of `baseline`.
unfoldable pub is_selected : Option String → Option String → Control → Bool
unfolding passes in_e8 applies_at str_eq
is_selected e8 classification control =
    str_eq control.control_class "ISM-control"
    && passes in_e8 e8 control
    && passes applies_at classification control

-- `Catalog.baseline`.
unfoldable pub baseline : Catalog → Option String → Option String → List String
unfolding controls is_selected
baseline c e8 classification =
    sort_texts (
      map (λ (control : Control). control.id) (filter (is_selected e8 classification) (controls c)))
