-- ===== src/Manager/Compose.antt =====
-- pkg/component/manager.go: the compose file of a component that is enabled or disabled. `parse` is
-- ParseComposeProject's reading of a document and `bytes` its printing; `read_file` and `write_file`
-- are those of the context, at the path that composePath chooses.
use sitectl.Prelude.{
  Bool, true, not, ◌&&◌, Option, none, some, is_some, List, [], ◌∷◌, if◌then◌else◌, is_empty,
}
use sitectl.Result.{Result, ok, err}
use sitectl.Text.{Text, codes}
use sitectl.Yaml.{Node}
use sitectl.Document.{Document}
use sitectl.Rules.{Value, Fields}
use sitectl.Rules.Detect.{default_compose_rule_files}
use sitectl.Service.{ComposeSpec}
use sitectl.Project.{Project}
use sitectl.Project.Operations.{
  RuleError, remove_service, prune_unused_resources, add_definitions, apply_rules,
}
use sitectl.Manager.{Error, step_failed, Step}

-- composePath: the context's file, or the first candidate that exists
unfoldable pub first_there : (Text → Bool) → List Text → Text
first_there exists [] = codes "docker-compose.yml"
first_there exists (c ∷ cs) = let rest = first_there exists cs in if exists c then c else rest

unfoldable pub compose_path : List Text → (Text → Bool) → Text
unfolding first_there
compose_path [] exists = first_there exists default_compose_rule_files
compose_path (file ∷ files) exists = file

module _ {W : Type 0} (read_file : W → Result Error Text) (write_file : Text → Step W)
    (parse : Text → Option Document) (bytes : Document → Option Text)
    (decoded : Document → Option Fields) (node_of : Value → Option Node)
    (sort_names : List Text → List Text) where
  -- ParseComposeProject
  abbrev opened : Document → Project
  opened doc = record { doc = doc; root = none; root_dirty = true }

  unfoldable pub remove_services : List Text → Project → Project
  remove_services [] p = p
  remove_services (name ∷ names) p = remove_services names (remove_service decoded name p).0

  -- The edits of applyComposeDisable and of applyComposeEnable
  unfoldable pub disabled : ComposeSpec → Project → Project × Result RuleError (Unit {0})
  unfolding remove_services
  disabled spec p =
      let p' = remove_services spec.remove_services p in
      apply_rules node_of sort_names spec.rules
        (if spec.prune_unused_resource then prune_unused_resources decoded p' else p')

  unfoldable pub enabled : ComposeSpec → Project → Project × Result RuleError (Unit {0})
  enabled spec p =
      let p' = elim spec.definitions as (λ _. Project) [
        | none ↦ p
        | some d ↦ add_definitions node_of sort_names d p
      ] in
      apply_rules node_of sort_names spec.rules p'

  abbrev written : W → Project × Result RuleError (Unit {0}) → W × Result Error (Unit {0})
  written w (p, err e) = (w, err step_failed)
  written w (p, ok u) = elim (bytes p.doc) [ none ↦ (w, err step_failed) | some t ↦ write_file t w ]

  -- The file, read, edited and written
  unfoldable pub rewrite : (Project → Project × Result RuleError (Unit {0})) → Step W
  rewrite edit w = elim (read_file w) [
    | err e ↦ (w, err e)
    | ok body ↦ elim (parse body) [
      | none ↦ (w, err step_failed)
      | some doc ↦ written w (edit (opened doc))
    ]
  ]

  -- applyComposeDisable
  unfoldable pub apply_compose_disable : ComposeSpec → Step W
  unfolding rewrite disabled
  apply_compose_disable spec w =
      if is_empty spec.remove_services && is_empty spec.rules
      then (w, ok tt)
      else rewrite (disabled spec) w

  -- applyComposeEnable
  unfoldable pub apply_compose_enable : ComposeSpec → Step W
  unfolding rewrite enabled
  apply_compose_enable spec w =
      if not (is_some spec.definitions) && is_empty spec.rules
      then (w, ok tt)
      else rewrite (enabled spec) w
