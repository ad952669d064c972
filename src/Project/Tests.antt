-- ===== src/Project/Tests.antt =====
-- A project with two volumes, one of which a service mounts.
use sitectl.Prelude.{◌≡◌, ◌⊎◌, refl, true, false, ◌&&◌, Option, none, some, [], if◌then◌else◌}
use sitectl.Text.{Text, codes, ◌==◌}
use sitectl.Yaml.{
  Node, Nodes, value, scalar, mk, mapping, sequence, document, nil, cons, str_scalar,
}
use sitectl.Document.{Document, mapping_root}
use sitectl.Rules.{
  Value, Values, Fields, no_fields, field, text, object, sequence, item, no_values, null, member,
}
use sitectl.Project.{Project, keys}
use sitectl.Project.Resources.{volumes, section_name, nested_map}
use sitectl.Project.Operations.{root_map, prune_unused_resources}
use sitectl.Rules.Json.{fields_of}
use sitectl.Project.References.{IsReferred}
use sitectl.Project.Entries.{doc_entry, HasMapRoot, has_text}
use sitectl.Project.Pruned.{doc_entry-prune_unused_resources}

abbrev pair : Text → Node → Nodes → Nodes
pair key n rest = cons (str_scalar key) (cons n rest)

abbrev map_node : Nodes → Node
map_node c = mk mapping (codes "!!map") [] 0 c

abbrev null_node : Node
null_node = mk scalar (codes "!!null") [] 0 nil

abbrev db : Node
db = map_node (
    pair (codes "volumes")
      (mk sequence (codes "!!seq") [] 0 (cons (str_scalar (codes "data:/var")) nil)) nil)

abbrev root_node : Node
root_node = map_node (
    pair (codes "services") (map_node (pair (codes "db") db nil)) (
      pair (codes "volumes")
        (map_node (pair (codes "data") null_node (pair (codes "old") null_node nil))) nil))

-- A decoder of mappings, sequences, strings and null
unfoldable mutual
  decode_node : Node → Value
  decode_node (mk mapping t v s c) = object (decode_pairs c)
  decode_node (mk sequence t v s c) = sequence (decode_items c)
  decode_node (mk scalar t v s c) = if t == codes "!!null" then null else text v
  decode_node (mk k t v s c) = null

  decode_pairs : Nodes → Fields
  decode_pairs (cons k (cons v rest)) = field (value k) (decode_node v) (decode_pairs rest)
  decode_pairs rest = no_fields

  decode_items : Nodes → Values
  decode_items nil = no_values
  decode_items (cons n ns) = item (decode_node n) (decode_items ns)

unfoldable decoded : Document → Option Fields
unfolding decode_node sitectl.Document.mapping_root
decoded d = elim (mapping_root d.node) [
  | none ↦ none
  | some root ↦ fields_of (some (decode_node root))
]

abbrev decoded_root : Fields
decoded_root =
    field (codes "services")
      (object (
        field (codes "db")
          (object (
            field (codes "volumes") (sequence (item (text (codes "data:/var")) no_values))
              no_fields))
          no_fields))
      (field (codes "volumes")
        (object (field (codes "data") null (field (codes "old") null no_fields))) no_fields)

abbrev project : Project
project = record {
  doc = record {
    node = mk document [] [] 0 (cons root_node nil);
    explicit_doc_start = false;
    explicit_merge_tag = false;
  };
  root = none;
  root_dirty = true;
}

has_root : HasMapRoot project.doc.node
unfolding sitectl.Document.mapping_root
has_root = tt

is_decoded : (root_map decoded project).1 ≡ some decoded_root
unfolding root_map decoded ◌==◌
is_decoded = refl

abbrev pruned : Node
pruned = (prune_unused_resources decoded project).doc.node

doc_entry-prune_unused_resources_example :
    (IsReferred decoded_root volumes (codes "old")
      × (doc_entry (section_name volumes) (codes "old") pruned
          ≡ doc_entry (section_name volumes) (codes "old") project.doc.node))
    ⊎ ((IsReferred decoded_root volumes (codes "old") → ⊥)
        × (doc_entry (section_name volumes) (codes "old") pruned ≡ (
            if has_text (codes "old")
              && member (codes "old") (keys (nested_map (section_name volumes) decoded_root))
            then none
            else doc_entry (section_name volumes) (codes "old") project.doc.node)))
doc_entry-prune_unused_resources_example =
    doc_entry-prune_unused_resources decoded decoded_root project volumes (codes "old") has_root
      is_decoded
