-- ===== src/Rules.antt =====
-- pkg/component/types.go, status.go and file_rules.go: the rules that tell a component's states apart
-- in the files of a project. A Go `any` that a decoder made is a tree; `sprint` is fmt.Sprint and
-- `glob` is filepath.Match on a pattern and a name.
pub mod Json
pub mod Blocks
pub mod Files
pub mod State
pub mod Yaml
pub mod Detect
pub mod Matching
mod Tests
use sitectl.Prelude.{
  Bool, true, false, not, ◌&&◌, ◌||◌, nat_eq, Option, none, some, List, [], ◌∷◌, if◌then◌else◌,
  is_empty, any,
}
use sitectl.Text.{Text, ◌==◌, trim_space, contains_any}

-- RuleOp
pub data RuleOp : Type 0 where
  op_set op_delete op_restore op_replace op_contains op_not_contains : RuleOp
  op_other : Text → RuleOp

mutual
  pub data Value : Type 0 where
    null : Value
    boolean : Bool → Value
    number : Text → Value
    text : Text → Value
    sequence : Values → Value
    object : Fields → Value

  pub data Values : Type 0 where
    no_values : Values
    item : Value → Values → Values

  pub data Fields : Type 0 where
    no_fields : Fields
    field : Text → Value → Fields → Fields

pub data Error : Type 0 where
  invalid_path : Text → Error
  empty_path : Error
  not_an_object : Text → Error
  nil_map_write : Error
  unsupported_op : RuleOp → Error
  no_targets : Error
  decode_failed encode_failed read_failed list_failed write_failed : Error

-- YAMLRule, without the sources of a copy
pub record YamlRule : Type 0 where
  pub files : List Text
  pub exclude : List Text
  pub op : RuleOp
  pub path : Text
  pub value : Value
  pub old : Value

-- FileRule
pub record FileRule : Type 0 where
  pub files : List Text
  pub op : RuleOp
  pub path : Text
  pub value : Value
  pub start_marker : Text
  pub end_marker : Text
  pub content : Text

-- The details of a check, as the texts that are shown for it
pub data Detail : Type 0 where
  file_absent file_and_path_absent file_missing file_exists file_not_absent : Detail
  path_set : Value → Detail
  path_differs : Value → Value → Detail
  path_exists path_absent path_missing path_not_absent : Detail
  key_found key_absent key_present key_missing : Text → Detail
  no_old_value : Detail
  value_unreplaced value_replaced : Text → Detail
  value_contained value_not_contained value_not_found : Text → Detail
  block_present block_missing block_absent block_not_absent : Detail
  unsupported : Detail

pub record Check : Type 0 where
  pub match : Bool
  pub detail : Detail

abbrev pub check : Bool → Detail → Check
check b d = record { match = b; detail = d }

-- RuleCheckResult
pub record RuleCheckResult : Type 0 where
  pub domain : Text
  pub file : Text
  pub op : RuleOp
  pub path : Text
  pub result : Check

-- hasGlob, hasGlobMeta
unfoldable pub has_glob : Text → Bool
unfolding contains_any
has_glob pattern = contains_any pattern (λ c. nat_eq c b'*' || nat_eq c b'?' || nat_eq c b'[')

-- syntheticRuleTargets
unfoldable pub synthetic_rule_targets : List Text → List Text
unfolding has_glob
synthetic_rule_targets [] = []
synthetic_rule_targets (p ∷ ps) =
    let rest = synthetic_rule_targets ps in if is_empty p || has_glob p then rest else p ∷ rest

-- Whether a list of texts has one
abbrev pub member : Text → List Text → Bool
member s texts = any (λ t. s == t) texts

module _ (glob : Text → Text → Bool) where
  -- matchesAnyPattern; a malformed pattern matches nothing.
  unfoldable pub matches_any_pattern : Text → List Text → Bool
  matches_any_pattern name patterns = any (λ p. not (is_empty p) && glob p name) patterns

  -- The loop of matchRuleFiles, with the files that were matched already
  unfoldable pub match_loop : List Text → List Text → List Text → List Text → List Text
  unfolding matches_any_pattern
  match_loop seen patterns exclude [] = []
  match_loop seen patterns exclude (file ∷ files) =
      let skipped = match_loop seen patterns exclude files in
      let later = match_loop (file ∷ seen) patterns exclude files in
      if not (matches_any_pattern file patterns) || matches_any_pattern file exclude
      then skipped
      else if member file seen
      then skipped
      else file ∷ later

  -- matchRuleFiles
  unfoldable pub match_rule_files : List Text → List Text → List Text → List Text
  unfolding match_loop
  match_rule_files available patterns exclude =
      if is_empty patterns then [] else match_loop [] patterns exclude available
