-- ===== src/Rules/Files.antt =====
-- pkg/component/file_rules.go: applying file rules to the files of a project, and evaluating them.
-- `decode` is json.Unmarshal, `encode` json.MarshalIndent of an object that is nil or not, `sprint`
-- fmt.Sprint.
pub mod Applied
use sitectl.Prelude.{
  Bool, true, false, not, ◌&&◌, ◌||◌, Option, none, some, is_some, List, [], ◌∷◌, ◌++◌,
  if◌then◌else◌, is_empty, map,
}
use sitectl.Result.{Result, ok, err, ◌>>=◌}
use sitectl.Text.{Text, codes, ◌==◌, trim_space}
use sitectl.Rules.{
  RuleOp, op_set, op_delete, op_restore, op_replace, op_contains, op_not_contains, op_other, Value,
  null, boolean, number, text, sequence, object, Fields, no_fields, Error, empty_path,
  unsupported_op, no_targets, decode_failed, encode_failed, nil_map_write, FileRule, Check, check,
  RuleCheckResult, file_absent, file_missing, path_set, path_differs, path_exists, path_absent,
  path_missing, path_not_absent, block_present, block_missing, block_absent, block_not_absent,
  unsupported, match_rule_files, synthetic_rule_targets,
}
use sitectl.Rules.Json.{parse_file_rule_path, set_json_object_path, delete_json_object_path, walk}
use sitectl.Rules.Blocks.{newline, ensure_marked_block, remove_marked_block, text_file_rule_present}

-- What is done to a file that was read
pub data Change : Type 0 where
  keep_file : Change
  write_file : Text → Change

-- isJSONFileRule
abbrev pub is_json_file_rule : FileRule → Bool
is_json_file_rule rule = not (is_empty (trim_space rule.path))

-- fileRuleDisplayPath
unfoldable pub file_rule_display_path : FileRule → Text
unfolding trim_space
file_rule_display_path rule =
    if is_json_file_rule rule
    then rule.path
    else if not (is_empty (trim_space rule.start_marker))
    then rule.start_marker
    else codes "."

-- A decoded value as a Go map: null leaves the map nil.
abbrev pub root_object : Option Value → Result Error (Option Fields)
root_object none = err decode_failed
root_object (some (object fs)) = ok (some fs)
root_object (some null) = ok none
root_object (some (boolean _)) = err decode_failed
root_object (some (number _)) = err decode_failed
root_object (some (text _)) = err decode_failed
root_object (some (sequence _)) = err decode_failed

abbrev pub not_empty : List Text → Result Error (List Text)
not_empty [] = err empty_path
not_empty (key ∷ path) = ok (key ∷ path)

-- The path of a JSON rule
unfoldable pub json_path : Text → Result Error (List Text)
unfolding parse_file_rule_path
json_path path = parse_file_rule_path path >>= not_empty

-- Setting a field of a nil map is a panic in Go.
unfoldable pub edit_object :
    RuleOp → List Text → Value → Option Fields → Result Error (Option Fields)
unfolding set_json_object_path delete_json_object_path
edit_object op_set path v none = err nil_map_write
edit_object op_restore path v none = err nil_map_write
edit_object op_delete path v none = ok none
edit_object op_set path v (some fs) = set_json_object_path path v fs >>= (λ fs'. ok (some fs'))
edit_object op_restore path v (some fs) = set_json_object_path path v fs >>= (λ fs'. ok (some fs'))
edit_object op_delete path v (some fs) = ok (some (delete_json_object_path path fs))
edit_object op_replace path v root = err (unsupported_op op_replace)
edit_object op_contains path v root = err (unsupported_op op_contains)
edit_object op_not_contains path v root = err (unsupported_op op_not_contains)
edit_object (op_other s) path v root = err (unsupported_op (op_other s))

-- applyTextFileRule
unfoldable pub apply_text_file_rule : Text → FileRule → Result Error Text
unfolding ensure_marked_block remove_marked_block
apply_text_file_rule body rule = elim rule.op [
  | op_set ↦ ok (ensure_marked_block body rule)
  | op_restore ↦ ok (ensure_marked_block body rule)
  | op_delete ↦ ok (remove_marked_block body rule).0
  | op_replace ↦ err (unsupported_op op_replace)
  | op_contains ↦ err (unsupported_op op_contains)
  | op_not_contains ↦ err (unsupported_op op_not_contains)
  | op_other s ↦ err (unsupported_op (op_other s))
]

abbrev pub is_delete : RuleOp → Bool
is_delete op_delete = true
is_delete _ = false

abbrev pub or_failed : {A : Type 0} → Error → Option A → Result Error A
or_failed e none = err e
or_failed e (some a) = ok a

-- The write of applyFileRule, unless the file has that text
abbrev pub change_to : Text → Text → Change
change_to body updated = if body == updated then keep_file else write_file updated

-- The checks on what was found
unfoldable pub check_found : (Value → Text) → RuleOp → Value → Option Value → Check
unfolding ◌==◌
check_found sprint op_set expected none = check false path_missing
check_found sprint op_set expected (some v) =
    if sprint v == sprint expected
    then check true (path_set expected)
    else check false (path_differs expected v)
check_found sprint op_restore expected none = check false path_missing
check_found sprint op_restore expected (some v) = check true path_exists
check_found sprint op_delete expected none = check true path_absent
check_found sprint op_delete expected (some v) = check false path_not_absent
check_found sprint op_replace expected found = check false unsupported
check_found sprint op_contains expected found = check false unsupported
check_found sprint op_not_contains expected found = check false unsupported
check_found sprint (op_other s) expected found = check false unsupported

unfoldable pub check_block : RuleOp → Bool → Check
check_block op_set present = if present then check true block_present else check false block_missing
check_block op_restore present =
    if present then check true block_present else check false block_missing
check_block op_delete present =
    if present then check false block_not_absent else check true block_absent
check_block op_replace present = check false unsupported
check_block op_contains present = check false unsupported
check_block op_not_contains present = check false unsupported
check_block (op_other s) present = check false unsupported

abbrev pub data_of : Option Text → Text
data_of none = []
data_of (some body) = body

module _ (decode : Text → Option Value) (encode : Option Fields → Option Text) where
  -- The object of a file, where a file without text has none of its fields yet
  unfoldable pub read_object : Text → Result Error (Option Fields)
  unfolding trim_space
  read_object body =
      if is_empty (trim_space body) then ok (some no_fields) else root_object (decode body)

  -- applyJSONFileRule
  unfoldable pub apply_json_file_rule : Text → FileRule → Result Error Text
  unfolding json_path edit_object read_object
  apply_json_file_rule body rule = do
    path ← json_path rule.path
    root ← read_object body
    root' ← edit_object rule.op path rule.value root
    printed ← or_failed encode_failed (encode root')
    ok (printed ++ newline)

  unfoldable pub updated_text : Text → FileRule → Result Error Text
  unfolding apply_json_file_rule apply_text_file_rule
  updated_text body rule =
      if is_json_file_rule rule
      then apply_json_file_rule body rule
      else apply_text_file_rule body rule

  -- applyFileRule on what ReadFile returned, none for a file that does not exist
  unfoldable pub apply_file_rule : Option Text → FileRule → Result Error Change
  unfolding updated_text ◌==◌
  apply_file_rule contents rule =
      if not (is_some contents) && is_delete rule.op
      then ok keep_file
      else updated_text (data_of contents) rule >>= (λ t. ok (change_to (data_of contents) t))

module _ (decode : Text → Option Value) (sprint : Value → Text) where
  -- jsonFileRuleValue
  unfoldable pub json_file_rule_value : Text → Text → Result Error (Option Value)
  unfolding json_path walk
  json_file_rule_value body path = do
    segments ← json_path path
    root ← or_failed decode_failed (decode body)
    ok (walk segments root)

  -- evaluateFileRule on what was read. Equal values print alike, so that the test of the printed
  -- values covers reflect.DeepEqual.
  unfoldable pub evaluate_file_rule : Option Text → FileRule → Result Error Check
  unfolding json_file_rule_value check_found check_block text_file_rule_present
  evaluate_file_rule none rule =
      ok (if is_delete rule.op then check true file_absent else check false file_missing)
  evaluate_file_rule (some body) rule =
      if is_json_file_rule rule
      then json_file_rule_value body rule.path
        >>= (λ v. ok (check_found sprint rule.op rule.value v))
      else ok (check_block rule.op (text_file_rule_present body rule))
