-- ===== src/Rules/Yaml.antt =====
-- pkg/component/status.go: a YAML rule on one file. `decode` is yaml.Unmarshal and `sprint` fmt.Sprint.
use sitectl.Prelude.{
  Bool, true, false, not, ◌||◌, Option, none, some, is_some, if◌then◌else◌, is_empty, keep, nat_eq,
}
use sitectl.Result.{Result, ok, ◌>>=◌}
use sitectl.Text.{Text, codes, ◌==◌, trim_space, has_prefix, trim_prefix, contains, split}
use sitectl.Rules.{
  RuleOp, op_set, op_delete, op_restore, op_replace, op_contains, op_not_contains, op_other, Value,
  null, boolean, number, text, sequence, object, Values, no_values, item, Fields, no_fields, field,
  Error, decode_failed, YamlRule, Check, check, file_absent, file_and_path_absent, file_missing,
  file_exists, file_not_absent, path_set, path_differs, path_exists, path_absent, path_missing,
  path_not_absent, key_found, key_absent, key_present, key_missing, no_old_value, value_unreplaced,
  value_replaced, value_contained, value_not_contained, value_not_found, unsupported,
}
use sitectl.Rules.Json.{walk}
use sitectl.Rules.Files.{or_failed}

unfoldable mutual
  unfolding ◌==◌

  -- recursiveKeyExists
  pub recursive_key_exists : Text → Value → Bool
  recursive_key_exists target null = false
  recursive_key_exists target (boolean b) = false
  recursive_key_exists target (number n) = false
  recursive_key_exists target (text s) = false
  recursive_key_exists target (sequence vs) = key_in_values target vs
  recursive_key_exists target (object fs) = key_in_fields target fs

  pub key_in_values : Text → Values → Bool
  key_in_values target no_values = false
  key_in_values target (item v vs) = recursive_key_exists target v || key_in_values target vs

  pub key_in_fields : Text → Fields → Bool
  key_in_fields target no_fields = false
  key_in_fields target (field k v fs) =
      k == target || recursive_key_exists target v || key_in_fields target fs

-- yamlPathValue on a decoded file
unfoldable pub yaml_path_value : Text → Value → Option Value
unfolding walk split trim_prefix
yaml_path_value path root =
    if path == codes "."
    then some root
    else walk
        (keep (λ part. not (is_empty part))
          (split (λ c. nat_eq c b'.') (trim_prefix path (codes "."))))
        root

-- The checks of a whole file
unfoldable pub check_file : RuleOp → Bool → Check
check_file op_delete exists = if exists then check false file_not_absent else check true file_absent
check_file op_restore exists = if exists then check true file_exists else check false file_missing
check_file _ exists = check false unsupported

-- The checks of a key anywhere in a file
unfoldable pub check_key : RuleOp → Text → Bool → Check
check_key op_delete key found =
    if found then check false (key_found key) else check true (key_absent key)
check_key op_restore key found =
    if found then check true (key_present key) else check false (key_missing key)
check_key _ key found = check false unsupported

-- A file that does not exist passes what deletes from it.
unfoldable pub check_absent : RuleOp → Check
check_absent op_delete = check true file_and_path_absent
check_absent _ = check false file_missing

-- The check of an old value anywhere in a file
unfoldable pub check_replaced : Text → Text → Check
unfolding contains
check_replaced old body =
    if is_empty old
    then check true no_old_value
    else if contains body old
    then check false (value_unreplaced old)
    else check true (value_replaced old)

module _ (sprint : Value → Text) where
  unfoldable mutual
    unfolding contains

    -- yamlValueContains for a needle without blanks around it that is not empty. A decoded sequence
    -- is never a Go []string.
    pub value_has : Text → Value → Bool
    value_has needle (text s) = contains s needle
    value_has needle (sequence vs) = values_have needle vs
    value_has needle null = contains (sprint null) needle
    value_has needle (boolean b) = contains (sprint (boolean b)) needle
    value_has needle (number n) = contains (sprint (number n)) needle
    value_has needle (object fs) = contains (sprint (object fs)) needle

    pub values_have : Text → Values → Bool
    values_have needle no_values = false
    values_have needle (item v vs) = value_has needle v || values_have needle vs

  -- yamlValueContains
  unfoldable pub yaml_value_contains : Value → Text → Bool
  unfolding value_has trim_space
  yaml_value_contains v needle = is_empty (trim_space needle) || value_has (trim_space needle) v

  -- The checks of the value at a path
  unfoldable pub check_value : YamlRule → Option Value → Check
  unfolding yaml_value_contains
  check_value rule found = elim rule.op [
    | op_set ↦ elim found [
      | none ↦ check false path_missing
      | some v ↦
          if sprint v == sprint rule.value
          then check true (path_set rule.value)
          else check false (path_differs rule.value v)
    ]
    | op_delete ↦ if is_some found then check false path_not_absent else check true path_absent
    | op_restore ↦ if is_some found then check true path_exists else check false path_missing
    | op_replace ↦ elim found [
      | none ↦ check true (value_replaced (sprint rule.old))
      | some v ↦
          if sprint v == sprint rule.old
          then check false (value_unreplaced (sprint rule.old))
          else check true (value_replaced (sprint rule.old))
    ]
    | op_contains ↦ elim found [
      | none ↦ check false path_missing
      | some v ↦
          if yaml_value_contains v (sprint rule.value)
          then check true (value_contained (sprint rule.value))
          else check false (value_not_found (sprint rule.value))
    ]
    | op_not_contains ↦ elim found [
      | none ↦ check true path_absent
      | some v ↦
          if yaml_value_contains v (sprint rule.value)
          then check false (value_contained (sprint rule.value))
          else check true (value_not_contained (sprint rule.value))
    ]
    | op_other s ↦ check false unsupported
  ]

abbrev any_key : Text
any_key = codes ".**."

abbrev replaces_anywhere : YamlRule → Bool
replaces_anywhere rule = elim rule.op [ op_replace ↦ rule.path == codes ".**" | _ ↦ false ]

module _ (decode : Text → Option Value) (sprint : Value → Text) where
  -- evaluateRuleForFile at a path below the whole file, which exists
  unfoldable pub evaluate_in_file : YamlRule → Text → Result Error Check
  unfolding check_value yaml_path_value recursive_key_exists check_key check_replaced
  evaluate_in_file rule body =
      let key = trim_prefix rule.path any_key in
      if replaces_anywhere rule
      then ok (check_replaced (sprint rule.old) body)
      else if has_prefix rule.path any_key
      then or_failed decode_failed (decode body)
        >>= (λ root. ok (check_key rule.op key (recursive_key_exists key root)))
      else or_failed decode_failed (decode body)
        >>= (λ root. ok (check_value sprint rule (yaml_path_value rule.path root)))

  -- evaluateRuleForFile on what was read
  unfoldable pub evaluate_rule_for_file : YamlRule → Option Text → Result Error Check
  unfolding evaluate_in_file check_file check_absent
  evaluate_rule_for_file rule contents =
      if rule.path == codes "." then ok (check_file rule.op (is_some contents)) else elim contents [
        | none ↦ ok (check_absent rule.op)
        | some body ↦ evaluate_in_file rule body
      ]
