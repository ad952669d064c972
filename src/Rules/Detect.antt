-- ===== src/Rules/Detect.antt =====
-- pkg/component/status.go: the YAML rules of a state over the files of a project, and the state that a
-- component is detected in. `list_files` and `read_file` are those of the context, with no files for a
-- root and none for a file that does not exist; `path_of` is filepath.Join of a root and a file;
-- `sort` is sort.Slice by domain, file, path and operation.
pub mod Counts
use sitectl.Prelude.{
  ℕ, suc, Bool, true, false, not, ◌&&◌, ◌||◌, Option, none, some, List, [], ◌∷◌, ◌++◌,
  if◌then◌else◌, is_empty, any, all, keep, length, nat_eq, ltb, map, reverse,
}
use sitectl.Result.{Result, ok, err, ◌>>=◌}
use sitectl.Text.{Text, codes, ◌==◌, trim_space, has_prefix}
use sitectl.Rules.{
  Value, Error, YamlRule, FileRule, Check, RuleCheckResult, has_glob, member, match_rule_files,
  synthetic_rule_targets,
}
use sitectl.Rules.Yaml.{evaluate_rule_for_file}
use sitectl.Rules.State.{Cache, read_cached_file, evaluate_file_state}

-- DomainSpec, by the rules of its parts
pub record DomainSpec : Type 0 where
  pub compose : List YamlRule
  pub drupal : List YamlRule
  pub files : List FileRule

-- StateCheck, without the state that it is for
pub record StateCheck : Type 0 where
  pub passed : ℕ
  pub failed : ℕ
  pub results : List RuleCheckResult

-- DetectedState
pub data DetectedState : Type 0 where
  detected_on detected_off drifted : DetectedState

pub record ComponentStatus : Type 0 where
  pub name : Text
  pub state : DetectedState
  pub on : StateCheck
  pub off : StateCheck

-- defaultComposeRuleFiles
abbrev pub default_compose_rule_files : List Text
default_compose_rule_files =
    codes "docker-compose.yml"
    ∷ codes "docker-compose.yaml"
    ∷ codes "compose.yml"
    ∷ codes "compose.yaml"
    ∷ []

-- composeCandidateRuleFiles
unfoldable pub compose_candidate_rule_files : List Text → Bool
unfolding trim_space ◌==◌
compose_candidate_rule_files files =
    nat_eq (length files) (length default_compose_rule_files)
    && all (λ c. member c (map trim_space files)) default_compose_rule_files

-- ruleNeedsFileListing
unfoldable pub rule_needs_file_listing : YamlRule → Bool
unfolding has_glob
rule_needs_file_listing rule = not (is_empty rule.exclude) || any has_glob rule.files

abbrev has_suffix : Text → Text → Bool
has_suffix s suffix = has_prefix (reverse s) (reverse suffix)

-- listYAMLFiles, on what ListFiles returned
unfoldable pub list_yaml_files : Result Error (List Text) → Result Error (List Text)
unfolding has_prefix
list_yaml_files listed = listed >>= (λ files.
    ok (keep (λ f. has_suffix f (codes ".yml") || has_suffix f (codes ".yaml")) files))

-- The counts of evaluateDomainSpec
unfoldable pub count : Bool → List RuleCheckResult → ℕ
count wanted [] = 0
count wanted (r ∷ rs) =
    let rest = count wanted rs in
    elim r.result.match [
      | true ↦ if wanted then suc rest else rest
      | false ↦ if wanted then rest else suc rest
    ]

-- The switch of DetectComponentStatus
unfoldable pub detect : StateCheck → StateCheck → DetectedState
detect on off =
    if nat_eq on.failed 0 && ltb 0 off.failed
    then detected_on
    else if nat_eq off.failed 0 && ltb 0 on.failed
    then detected_off
    else drifted

module _ (glob : Text → Text → Bool) where
  abbrev pub or_synthetic : YamlRule → List Text → List Text
  or_synthetic rule matched =
      if is_empty matched
      then if compose_candidate_rule_files rule.files
        then codes "docker-compose.yml" ∷ []
        else synthetic_rule_targets rule.files
      else matched

  -- The files of a rule; they are listed only if the rule asks for it. The source lists them once and
  -- keeps the list, which is the same each time.
  unfoldable pub rule_files : Result Error (List Text) → YamlRule → Result Error (List Text)
  unfolding compose_candidate_rule_files rule_needs_file_listing list_yaml_files match_rule_files
  rule_files listed rule =
      if rule_needs_file_listing rule || compose_candidate_rule_files rule.files
      then list_yaml_files listed >>= (λ available.
        ok (or_synthetic rule (match_rule_files glob available rule.files rule.exclude)))
      else ok (or_synthetic rule [])

module _ (decode_yaml : Text → Option Value) (decode_json : Text → Option Value)
    (sprint : Value → Text) (glob : Text → Text → Bool) (path_of : Text → Text → Text)
    (list_files : Text → Result Error (List Text)) (read_file : Text → Result Error (Option Text))
    (sort : List RuleCheckResult → List RuleCheckResult) where
  abbrev pub yaml_result : Text → YamlRule → Text → Check → RuleCheckResult
  yaml_result domain rule rel c = record {
    domain = domain;
    file = rel;
    op = rule.op;
    path = rule.path;
    result = c;
  }

  -- The inner loop of evaluateYAMLState
  unfoldable pub evaluate_yaml_files :
      Text → Text → YamlRule → List Text → Cache → Result Error (List RuleCheckResult × Cache)
  unfolding read_cached_file evaluate_rule_for_file
  evaluate_yaml_files root domain rule [] cache = ok ([], cache)
  evaluate_yaml_files root domain rule (rel ∷ rels) cache =
      read_cached_file read_file (path_of root rel) cache >>= (λ (r : Option Text × Cache).
        evaluate_rule_for_file decode_yaml sprint rule r.0 >>= (λ (c : Check).
          evaluate_yaml_files root domain rule rels r.1
          >>= (λ (rest : List RuleCheckResult × Cache).
              ok (yaml_result domain rule rel c ∷ rest.0, rest.1))))

  unfoldable pub evaluate_yaml_rules :
      Text → Text → List YamlRule → Cache → Result Error (List RuleCheckResult)
  unfolding evaluate_yaml_files rule_files
  evaluate_yaml_rules root domain [] cache = ok []
  evaluate_yaml_rules root domain (rule ∷ rules) cache =
      rule_files glob (list_files root) rule >>= (λ (rels : List Text).
        evaluate_yaml_files root domain rule rels cache >>= (λ (r : List RuleCheckResult × Cache).
          evaluate_yaml_rules root domain rules r.1
          >>= (λ (rest : List RuleCheckResult). ok (r.0 ++ rest))))

  -- evaluateYAMLState
  unfoldable pub evaluate_yaml_state :
      Text → Text → List YamlRule → Result Error (List RuleCheckResult)
  unfolding evaluate_yaml_rules
  evaluate_yaml_state root domain rules =
      evaluate_yaml_rules root domain rules [] >>= (λ results. ok (sort results))

  abbrev pub state_check : List RuleCheckResult → StateCheck
  state_check results = record {
    passed = count true results;
    failed = count false results;
    results = results;
  }

  -- evaluateDomainSpec
  unfoldable pub evaluate_domain_spec : Text → Text → DomainSpec → Result Error StateCheck
  unfolding evaluate_yaml_state evaluate_file_state count
  evaluate_domain_spec compose_root drupal_root spec = do
    compose ← evaluate_yaml_state compose_root (codes "compose") spec.compose
    drupal ← evaluate_yaml_state drupal_root (codes "drupal") spec.drupal
    files ←
        evaluate_file_state decode_json sprint glob (path_of compose_root) (list_files compose_root)
          read_file spec.files
    ok (state_check (sort ((compose ++ drupal) ++ files)))

  -- DetectComponentStatus, at the roots that its options choose
  unfoldable pub detect_component_status :
      Text → Text → Text → DomainSpec → DomainSpec → Result Error ComponentStatus
  unfolding evaluate_domain_spec detect
  detect_component_status compose_root drupal_root name on off = do
    on_check ← evaluate_domain_spec compose_root drupal_root on
    off_check ← evaluate_domain_spec compose_root drupal_root off
    ok (record { name = name; state = detect on_check off_check; on = on_check; off = off_check })
