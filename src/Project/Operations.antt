-- ===== src/Project/Operations.antt =====
-- pkg/component/compose.go: the operations of a Docker Compose project. A nil map is one without
-- fields. Where the source loops over a Go map, the order is that of the map's fields.
use sitectl.Prelude.{
  Bool, true, false, not, ◌&&◌, ◌||◌, Option, none, some, is_some, List, [], ◌∷◌, ◌++◌,
  if◌then◌else◌, is_empty, keep,
}
use sitectl.Result.{Result, ok, err}
use sitectl.Text.{Text, codes, ◌==◌, trim_space}
use sitectl.Yaml.{Node, set_mapping_value}
use sitectl.Document.{Document}
use sitectl.Document.Path.{Error}
use sitectl.Document.Edits.{set_value, delete_path}
use sitectl.Rules.{
  RuleOp, op_set, op_delete, op_restore, op_replace, op_contains, op_not_contains, op_other, Value,
  Fields, no_fields, YamlRule,
}
use sitectl.Rules.Json.{get_field}
use sitectl.Project.{
  Project, Definitions, delete_document_section_entry, in_document_section,
  remove_document_service_dependency_references, apply_document_mutation, mutate_node, keys,
}
use sitectl.Project.Resources.{
  Section, volumes, networks, secrets, configs, section_name, is_used, nested_map,
}

pub data RuleError : Type 0 where
  rule_failed : Error → RuleError
  rule_unsupported : RuleOp → RuleError

-- The map of a section of the definitions
unfoldable pub definition_section : Text → Definitions → Fields
definition_section name d =
    if name == codes "services"
    then d.services
    else if name == codes "networks"
    then d.networks
    else if name == codes "volumes"
    then d.volumes
    else if name == codes "secrets"
    then d.secrets
    else if name == codes "configs"
    then d.configs
    else no_fields

-- ComposeDefinitions.Definition
unfoldable pub definition : Text → Text → Definitions → Option Value
unfolding definition_section get_field
definition section name d = get_field name (definition_section section d)

module _ (decoded : Document → Option Fields) where
  -- rootMap, with none for an error
  unfoldable pub root_map : Project → Project × Option Fields
  root_map p = if not p.root_dirty && is_some p.root then (p, p.root) else elim (decoded p.doc) [
    | none ↦ (p, none)
    | some fs ↦ (record p { root = some fs; root_dirty = false }, some fs)
  ]

  abbrev pub has_field : Text → Text → Option Fields → Bool
  has_field section name none = false
  has_field section name (some root) = is_some (get_field name (nested_map section root))

  abbrev remove_from : Text → Node → Node
  remove_from name node =
      remove_document_service_dependency_references name
        (delete_document_section_entry (codes "services") name node).0

  -- RemoveService, and whether there was one
  unfoldable pub remove_service : Text → Project → Project × Bool
  unfolding root_map get_field
  remove_service name p =
      let (p', root) = root_map p in
      if has_field (codes "services") name root
      then (mutate_node (remove_from name) p', true)
      else (p', false)

  -- DeleteDefinition, and whether there was one
  unfoldable pub delete_definition : Text → Text → Project → Project × Bool
  unfolding root_map get_field
  delete_definition section name p =
      let (p', root) = root_map p in
      if is_empty (trim_space section) || is_empty (trim_space name)
      then (p, false)
      else if has_field section name root
      then (mutate_node (λ n. (delete_document_section_entry section name n).0) p', true)
      else (p', false)

  -- The names that PruneUnusedResources removes from a section
  unfoldable pub unused : Fields → Section → List Text
  unfolding is_used get_field
  unused root section =
      keep (λ name. not (is_used root section name)) (keys (nested_map (section_name section) root))

  unfoldable pub delete_names : Text → List Text → Node → Node
  unfolding delete_document_section_entry
  delete_names section [] node = node
  delete_names section (name ∷ names) node =
      delete_names section names (delete_document_section_entry section name node).0

  unfoldable pub delete_unused : Fields → List Section → Node → Node
  unfolding delete_names unused
  delete_unused root [] node = node
  delete_unused root (s ∷ ss) node =
      delete_unused root ss (delete_names (section_name s) (unused root s) node)

  abbrev pub sections : List Section
  sections = volumes ∷ networks ∷ secrets ∷ configs ∷ []

  abbrev pub all_unused : Fields → List Text
  all_unused root =
      unused root volumes ++ (unused root networks ++ (unused root secrets ++ unused root configs))

  -- PruneUnusedResources
  unfoldable pub prune_unused_resources : Project → Project
  unfolding root_map delete_unused unused
  prune_unused_resources p =
      let (p', root) = root_map p in
      elim root [
        | none ↦ p'
        | some r ↦ if is_empty (all_unused r) then p' else mutate_node (delete_unused r sections) p'
      ]

module _ (node_of : Value → Option Node) (sort_names : List Text → List Text) where
  abbrev entry_node : Text → Fields → Option Node
  entry_node name entries = elim (get_field name entries) [ none ↦ none | some v ↦ node_of v ]

  unfoldable pub put_entries : List Text → Fields → Node → Node
  unfolding get_field set_mapping_value
  put_entries [] entries target = target
  put_entries (name ∷ names) entries target =
      put_entries names entries (elim (entry_node name entries) as (λ _. Node) [
        | none ↦ target
        | some node ↦ set_mapping_value target name node
      ])

  abbrev has_text : Text → Bool
  has_text s = not (is_empty (trim_space s))

  -- mergeIntoDocumentSection, with sortedComposeDefinitionNames
  unfoldable pub merge_into_document_section : Text → Fields → Node → Node
  unfolding put_entries in_document_section
  merge_into_document_section section entries doc =
      if is_empty (keys entries)
      then doc
      else in_document_section section
          (put_entries (sort_names (keep has_text (keys entries))) entries) doc

  -- AddDefinitions
  unfoldable pub add_definitions : Definitions → Project → Project
  unfolding merge_into_document_section
  add_definitions d p =
      mutate_node
        (λ n. merge_into_document_section (codes "configs") d.configs (
          merge_into_document_section (codes "secrets") d.secrets (
            merge_into_document_section (codes "volumes") d.volumes (
              merge_into_document_section (codes "networks") d.networks
                (merge_into_document_section (codes "services") d.services n)))))
        p

  -- setDocumentSectionEntry
  unfoldable pub set_document_section_entry : Text → Text → Value → Node → Node
  unfolding in_document_section set_mapping_value
  set_document_section_entry section name v doc = elim (node_of v) [
    | none ↦ doc
    | some node ↦
        if has_text section && has_text name
        then in_document_section section (λ target. set_mapping_value target name node) doc
        else doc
  ]

  -- SetDefinition
  unfoldable pub set_definition : Text → Text → Value → Project → Project
  unfolding set_document_section_entry
  set_definition section name v p =
      if has_text section && has_text name
      then mutate_node (set_document_section_entry section name v) p
      else p

  abbrev wrapped : Project × Result Error (Unit {0}) → Project × Result RuleError (Unit {0})
  wrapped (p, ok u) = (p, ok u)
  wrapped (p, err e) = (p, err (rule_failed e))

  -- A turn of the loop of ApplyRules
  unfoldable pub apply_rule : YamlRule → Project → Project × Result RuleError (Unit {0})
  apply_rule rule p = elim rule.op [
    | op_set ↦ wrapped (apply_document_mutation (λ d. set_value d rule.path (node_of rule.value)) p)
    | op_restore ↦
        wrapped (apply_document_mutation (λ d. set_value d rule.path (node_of rule.value)) p)
    | op_delete ↦ wrapped (apply_document_mutation (λ d. delete_path d rule.path) p)
    | op_replace ↦ (p, err (rule_unsupported op_replace))
    | op_contains ↦ (p, err (rule_unsupported op_contains))
    | op_not_contains ↦ (p, err (rule_unsupported op_not_contains))
    | op_other s ↦ (p, err (rule_unsupported (op_other s)))
  ]

  -- ApplyRules
  unfoldable pub apply_rules : List YamlRule → Project → Project × Result RuleError (Unit {0})
  unfolding apply_rule
  apply_rules [] p = (p, ok tt)
  apply_rules (rule ∷ rules) p =
      let (p', r) = apply_rule rule p in
      let rest = apply_rules rules p' in elim r [ ok u ↦ rest | err e ↦ (p', err e) ]
