-- ===== src/Rules/State.antt =====
-- pkg/component/file_rules.go and status.go: the file rules of a state over the files of a project.
-- A project is a store that `list_files`, `read_file` and `write_file` act on, as the context does;
-- `target` is the path of a file below the root. Paths are written with slashes.
pub mod Cached
use sitectl.Prelude.{Bool, Option, none, some, List, [], ◌∷◌, ◌++◌, if◌then◌else◌, is_empty}
use sitectl.Result.{Result, ok, err, ◌>>=◌}
use sitectl.Text.{Text, codes, ◌==◌}
use sitectl.Rules.{
  Value, Fields, Error, no_targets, FileRule, Check, RuleCheckResult, match_rule_files,
  synthetic_rule_targets,
}
use sitectl.Rules.Files.{
  Change, keep_file, write_file, apply_file_rule, evaluate_file_rule, file_rule_display_path,
}

-- What was read so far, with none for a file that does not exist
abbrev pub Cache : Type 0
Cache = List (Text × Option Text)

unfoldable pub cached : Text → Cache → Option (Option Text)
unfolding ◌==◌
cached path [] = none
cached path ((p, contents) ∷ cache) =
    let rest = cached path cache in if p == path then some contents else rest

module _ (glob : Text → Text → Bool) where
  abbrev pub targets_among : FileRule → List Text → List Text
  targets_among rule available =
      let matched = match_rule_files glob available rule.files [] in
      if is_empty matched then synthetic_rule_targets rule.files else matched

  -- fileRuleTargets, on what ListFiles returned, no files for a root that does not exist
  unfoldable pub file_rule_targets : Result Error (List Text) → FileRule → Result Error (List Text)
  unfolding match_rule_files synthetic_rule_targets
  file_rule_targets listed rule =
      if is_empty rule.files
      then err no_targets
      else listed >>= (λ available. ok (targets_among rule available))

module _ (read_file : Text → Result Error (Option Text)) where
  abbrev pub read_behind : Text → Cache → Option (Option Text) → Result Error (Option Text × Cache)
  read_behind path cache (some contents) = ok (contents, cache)
  read_behind path cache none =
      read_file path >>= (λ contents. ok (contents, (path, contents) ∷ cache))

  -- readCachedFile; an error is not kept.
  unfoldable pub read_cached_file : Text → Cache → Result Error (Option Text × Cache)
  unfolding cached
  read_cached_file path cache = read_behind path cache (cached path cache)

module _ (decode : Text → Option Value) (sprint : Value → Text) (glob : Text → Text → Bool)
    (target : Text → Text) where
  abbrev pub file_result : FileRule → Text → Check → RuleCheckResult
  file_result rule rel c = record {
    domain = codes "files";
    file = rel;
    op = rule.op;
    path = file_rule_display_path rule;
    result = c;
  }

  -- The inner loop of evaluateFileState
  unfoldable pub evaluate_targets :
      (Text → Result Error (Option Text))
      → FileRule
      → List Text
      → Cache
      → Result Error (List RuleCheckResult × Cache)
  unfolding read_cached_file evaluate_file_rule file_rule_display_path
  evaluate_targets read_file rule [] cache = ok ([], cache)
  evaluate_targets read_file rule (rel ∷ rels) cache =
      read_cached_file read_file (target rel) cache >>= (λ (r : Option Text × Cache).
        evaluate_file_rule decode sprint r.0 rule >>= (λ (c : Check).
          evaluate_targets read_file rule rels r.1 >>= (λ (rest : List RuleCheckResult × Cache).
            ok (file_result rule rel c ∷ rest.0, rest.1))))

  -- evaluateFileState behind its start with an empty cache
  unfoldable pub evaluate_rules :
      Result Error (List Text)
      → (Text → Result Error (Option Text))
      → List FileRule
      → Cache
      → Result Error (List RuleCheckResult)
  unfolding evaluate_targets file_rule_targets
  evaluate_rules listed read_file [] cache = ok []
  evaluate_rules listed read_file (rule ∷ rules) cache =
      file_rule_targets glob listed rule >>= (λ (rels : List Text).
        evaluate_targets read_file rule rels cache >>= (λ (r : List RuleCheckResult × Cache).
          evaluate_rules listed read_file rules r.1
          >>= (λ (rest : List RuleCheckResult). ok (r.0 ++ rest))))

  -- evaluateFileState
  unfoldable pub evaluate_file_state :
      Result Error (List Text)
      → (Text → Result Error (Option Text))
      → List FileRule
      → Result Error (List RuleCheckResult)
  unfolding evaluate_rules
  evaluate_file_state listed read_file rules = evaluate_rules listed read_file rules []

module _ (decode : Text → Option Value) (encode : Option Fields → Option Text)
    (glob : Text → Text → Bool) (target : Text → Text) {Store : Type 0}
    (list_files : Store → Result Error (List Text))
    (read_file : Store → Text → Result Error (Option Text))
    (write_file_to : Store → Text → Text → Result Error Store) where
  unfoldable pub write_change : Store → Text → Change → Result Error Store
  write_change store path keep_file = ok store
  write_change store path (write_file t) = write_file_to store path t

  -- The inner loop of applyFileState. The store is what it is behind the last write, also after an
  -- error.
  unfoldable pub apply_targets : FileRule → List Text → Store → Store × Result Error (Unit {0})
  unfolding write_change apply_file_rule
  apply_targets rule [] store = (store, ok tt)
  apply_targets rule (rel ∷ rels) store =
      elim (read_file store (target rel)
        >>= (λ contents. apply_file_rule decode encode contents rule)
        >>= (λ c. write_change store (target rel) c)) [
          | ok store' ↦ apply_targets rule rels store'
          | err e ↦ (store, err e)
        ]

  -- applyFileState
  unfoldable pub apply_file_state : List FileRule → Store → Store × Result Error (Unit {0})
  unfolding apply_targets file_rule_targets
  apply_file_state [] store = (store, ok tt)
  apply_file_state (rule ∷ rules) store = elim (file_rule_targets glob (list_files store) rule) [
    | err e ↦ (store, err e)
    | ok rels ↦
        let (store', r) = apply_targets rule rels store in
        elim r [ ok u ↦ apply_file_state rules store' | err e ↦ (store', err e) ]
  ]
