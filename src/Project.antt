-- ===== src/Project.antt =====
-- pkg/component/compose.go: a Docker Compose project, its document and the map that is decoded from it
-- and kept until the document changes. `decoded` is Bytes and yaml.Unmarshal into a map, which is none
-- where one of them fails; `node_of` is yamlNodeForValue and `sort_names` sort.Strings. The document
-- is always there: ParseComposeProject makes it.
pub mod Resources
pub mod Operations
pub mod Entries
pub mod References
pub mod Used
pub mod Pruned
mod Tests
use sitectl.Prelude.{
  Bool, true, false, not, ◌&&◌, ◌||◌, Option, none, some, is_some, List, [], ◌∷◌, ◌++◌,
  if◌then◌else◌, is_empty, keep, String, any,
}
use sitectl.Result.{Result, ok, err}
use sitectl.Text.{Text, codes, ◌==◌, trim_space}
use sitectl.Yaml.{
  Node, Nodes, nil, cons, mk, mapping, is_mapping, is_scalar, is_sequence, value, content,
  with_content, mapping_value, delete_mapping_key, set_mapping_value, as_mapping, empty_mapping,
}
use sitectl.Document.{Document, mapping_root, with_root, ensure_mapping_root, first_child}
use sitectl.Document.Path.{Error}
use sitectl.Rules.{
  RuleOp, op_set, op_delete, op_restore, op_replace, op_contains, op_not_contains, op_other, Value,
  Fields, no_fields, field, YamlRule,
}
use sitectl.Rules.Json.{get_field, fields_of}
use sitectl.Project.Resources.{Section, volumes, networks, secrets, configs, section_name, is_used}

-- ComposeProject
pub record Project : Type 0 where
  pub doc : Document
  pub root : Option Fields
  pub root_dirty : Bool

-- ComposeDefinitions
pub record Definitions : Type 0 where
  pub services : Fields
  pub networks : Fields
  pub volumes : Fields
  pub secrets : Fields
  pub configs : Fields

abbrev pub set_node : Node → Document → Document
set_node node doc = record doc { node = node }

abbrev pub has_entries : Node → Bool
has_entries (mk k t v s nil) = false
has_entries (mk k t v s (cons n ns)) = true

-- A section without an entry; a section goes with its last entry.
abbrev pub without_entry : Text → Text → Node → Node → Node
without_entry section name root target =
    let target' = delete_mapping_key target name in
    if has_entries target'
    then set_mapping_value root section target'
    else delete_mapping_key root section

-- deleteDocumentSectionEntry on the root, and whether there was an entry
unfoldable pub delete_entry : Text → Text → Node → Node × Bool
unfolding mapping_value delete_mapping_key set_mapping_value
delete_entry section name root = elim (mapping_value root section) [
  | none ↦ (root, false)
  | some target ↦
      if is_mapping target && is_some (mapping_value target name)
      then (without_entry section name root target, true)
      else (root, false)
]

-- deleteDocumentSectionEntry
unfoldable pub delete_document_section_entry : Text → Text → Node → Node × Bool
unfolding delete_entry trim_space
delete_document_section_entry section name doc =
    if is_empty (trim_space section) || is_empty (trim_space name)
    then (doc, false)
    else elim (mapping_root doc) [
      | none ↦ (doc, false)
      | some root ↦
          let (root', deleted) = delete_entry section name root in (with_root doc root', deleted)
    ]

-- ensureDocumentSection, and then the edit of the section
unfoldable pub in_document_section : Text → (Node → Node) → Node → Node
unfolding mapping_value set_mapping_value as_mapping
in_document_section section edit doc =
    let doc' = ensure_mapping_root doc in
    let root = first_child doc' in
    let target = elim (mapping_value root section) as (λ _. Node) [
      | none ↦ empty_mapping
      | some t ↦ as_mapping t
    ] in
    with_root doc' (set_mapping_value root section (edit target))

-- The loop of removeDocumentServiceDependencyReferences over the items of a sequence
unfoldable pub drop_named : Text → Nodes → Nodes
unfolding ◌==◌
drop_named name nil = nil
drop_named name (cons item items) =
    let rest = drop_named name items in
    if is_scalar item && value item == name then rest else cons item rest

-- A service's dependencies without a name, or none where it was the only one
abbrev pub with_dependencies : Node → Node → Node
with_dependencies service depends_on =
    if has_entries depends_on
    then set_mapping_value service (codes "depends_on") depends_on
    else delete_mapping_key service (codes "depends_on")

unfoldable pub drop_dependency : Text → Node → Node
unfolding mapping_value delete_mapping_key set_mapping_value drop_named
drop_dependency name service =
    if is_mapping service
    then elim (mapping_value service (codes "depends_on")) [
      | none ↦ service
      | some d ↦
          if is_sequence d
          then with_dependencies service (with_content d (drop_named name (content d)))
          else if is_mapping d
          then with_dependencies service (delete_mapping_key d name)
          else service
    ]
    else service

-- The loop over the values of the services
unfoldable pub drop_dependencies : Text → Nodes → Nodes
unfolding drop_dependency
drop_dependencies name nil = nil
drop_dependencies name (cons k nil) = cons k nil
drop_dependencies name (cons k (cons service rest)) =
    cons k (cons (drop_dependency name service) (drop_dependencies name rest))

-- removeDocumentServiceDependencyReferences
unfoldable pub remove_document_service_dependency_references : Text → Node → Node
unfolding drop_dependencies mapping_value set_mapping_value
remove_document_service_dependency_references name doc = elim (mapping_root doc) [
  | none ↦ doc
  | some root ↦ elim (mapping_value root (codes "services")) [
    | none ↦ doc
    | some services ↦
        if is_mapping services
        then with_root doc (
            set_mapping_value root (codes "services")
              (with_content services (drop_dependencies name (content services))))
        else doc
  ]
]

-- applyDocumentMutation: the map is decoded again after a mutation, but not after one that failed.
abbrev pub apply_document_mutation :
    (Document → Document × Result Error (Unit {0})) → Project → Project × Result Error (Unit {0})
apply_document_mutation mutate p =
    let (doc', r) = mutate p.doc in
    elim r [
      | ok u ↦ (record p { doc = doc'; root_dirty = true }, ok u)
      | err e ↦ (record p { doc = doc' }, err e)
    ]

-- applyDocumentMutationBestEffort of a mutation of the node, which does not fail
abbrev pub mutate_node : (Node → Node) → Project → Project
mutate_node f p = record p { doc = set_node (f p.doc.node) p.doc; root_dirty = true }

abbrev pub keys : Fields → List Text
keys no_fields = []
keys (field k v fs) = k ∷ keys fs
