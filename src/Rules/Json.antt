-- ===== src/Rules/Json.antt =====
-- pkg/component/file_rules.go: dotted paths into JSON objects. An object is the list of its fields,
-- whose keys differ from each other.
pub mod Paths
use sitectl.Prelude.{
  Bool, true, false, ◌||◌, Option, none, some, List, [], ◌∷◌, if◌then◌else◌, is_empty, nat_eq,
}
use sitectl.Result.{Result, ok, err, ◌>>=◌}
use sitectl.Text.{Text, codes, ◌==◌, trim_space, strip_prefix, split}
use sitectl.Rules.{
  Value, null, boolean, number, text, sequence, object, Fields, no_fields, field, Error,
  invalid_path, empty_path, not_an_object,
}

unfoldable pub check_segments : Text → List Text → Result Error (List Text)
unfolding trim_space
check_segments path [] = ok []
check_segments path (part ∷ parts) =
    let later = check_segments path parts in
    if is_empty (trim_space part) then err (invalid_path path) else later >>= (λ ps. ok (part ∷ ps))

-- parseFileRulePath
unfoldable pub parse_file_rule_path : Text → Result Error (List Text)
unfolding ◌==◌ strip_prefix split check_segments
parse_file_rule_path path =
    if is_empty path || path == codes "." then ok [] else elim (strip_prefix (codes ".") path) [
      | none ↦ err (invalid_path path)
      | some trimmed ↦
          if is_empty trimmed
          then ok []
          else check_segments path (split (λ c. nat_eq c b'.') trimmed)
    ]

unfoldable pub get_field : Text → Fields → Option Value
get_field key no_fields = none
get_field key (field k v fs) = let rest = get_field key fs in if k == key then some v else rest

unfoldable pub put_field : Text → Value → Fields → Fields
put_field key v no_fields = field key v no_fields
put_field key v (field k old fs) =
    let rest = field k old (put_field key v fs) in if k == key then field k v fs else rest

unfoldable pub drop_field : Text → Fields → Fields
drop_field key no_fields = no_fields
drop_field key (field k v fs) =
    let rest = drop_field key fs in if k == key then rest else field k v rest

-- The object at a key that has to be one, and a new one where there is none
unfoldable pub child_object : Text → Option Value → Result Error Fields
child_object segment none = ok no_fields
child_object segment (some (object fs)) = ok fs
child_object segment (some null) = err (not_an_object segment)
child_object segment (some (boolean _)) = err (not_an_object segment)
child_object segment (some (number _)) = err (not_an_object segment)
child_object segment (some (text _)) = err (not_an_object segment)
child_object segment (some (sequence _)) = err (not_an_object segment)

-- setJSONObjectPath, for a path that is not empty
unfoldable pub set_json_object_path : List Text → Value → Fields → Result Error Fields
set_json_object_path [] v root = err empty_path
set_json_object_path (key ∷ []) v root = ok (put_field key v root)
set_json_object_path (key ∷ next ∷ path) v root =
    child_object key (get_field key root)
    >>= (λ child. set_json_object_path (next ∷ path) v child)
    >>= (λ child'. ok (put_field key (object child') root))

abbrev pub fields_of : Option Value → Option Fields
fields_of (some (object fs)) = some fs
fields_of _ = none

-- deleteJSONObjectPath, for a path that is not empty
unfoldable pub delete_json_object_path : List Text → Fields → Fields
delete_json_object_path [] root = root
delete_json_object_path (key ∷ []) root = drop_field key root
delete_json_object_path (key ∷ next ∷ path) root = elim (fields_of (get_field key root)) [
  | none ↦ root
  | some child ↦ put_field key (object (delete_json_object_path (next ∷ path) child)) root
]

-- The walk of jsonFileRuleValue
unfoldable pub walk : List Text → Value → Option Value
walk [] v = some v
walk (key ∷ path) v = elim (fields_of (some v)) [
  | none ↦ none
  | some fs ↦ elim (get_field key fs) [ none ↦ none | some next ↦ walk path next ]
]
