-- ===== src/Yaml.antt =====
-- pkg/yamlnode/yamlnode.go: YAML nodes, and the lookups and edits that the other packages use.
-- A node is a tree: the code never puts one node below two parents, so a write through a pointer
-- to a child is a write of the child in its parent. The functions that mutate return the new node.
-- Comments, anchors and positions are not part of the model; the code reads none of them.
pub mod Mapping
pub mod Update
use sitectl.Prelude.{
  ℕ, ◌-◌, Bool, true, false, not, ◌&&◌, ◌||◌, Option, none, some, List, [], ◌∷◌, String,
  if◌then◌else◌, is_empty,
}
use sitectl.Text.{Text, codes, ◌==◌, trim_space, fields}

pub data Kind : Type 0 where
  document sequence mapping scalar alias : Kind

mutual
  -- kind, tag, value, style bits, content
  pub data Node : Type 0 where
    mk : Kind → Text → Text → ℕ → Nodes → Node

  pub data Nodes : Type 0 where
    nil : Nodes
    cons : Node → Nodes → Nodes

abbrev pub kind : Node → Kind
kind (mk k tag value style content) = k

abbrev pub tag : Node → Text
tag (mk k t value style content) = t

abbrev pub value : Node → Text
value (mk k tag v style content) = v

abbrev pub style : Node → ℕ
style (mk k tag value s content) = s

abbrev pub content : Node → Nodes
content (mk k tag value style c) = c

abbrev pub with_content : Node → Nodes → Node
with_content (mk k tag value style old) c = mk k tag value style c

abbrev pub with_value : Node → Text → Node
with_value (mk k tag old style c) v = mk k tag v style c

abbrev pub is_mapping : Node → Bool
is_mapping (mk mapping tag value style content) = true
is_mapping (mk _ tag value style content) = false

abbrev pub is_scalar : Node → Bool
is_scalar (mk scalar tag value style content) = true
is_scalar (mk _ tag value style content) = false

abbrev pub is_sequence : Node → Bool
is_sequence (mk sequence tag value style content) = true
is_sequence (mk _ tag value style content) = false

abbrev pub is_document : Node → Bool
is_document (mk document tag value style content) = true
is_document (mk _ tag value style content) = false

abbrev pub append_nodes : Nodes → Nodes → Nodes
append_nodes nil ns = ns
append_nodes (cons m ms) ns = cons m (append_nodes ms ns)

abbrev pub str_scalar : Text → Node
str_scalar v = mk scalar (codes "!!str") v 0 nil

abbrev pub empty_mapping : Node
empty_mapping = mk mapping (codes "!!map") [] 0 nil

-- EmptyDocument
abbrev pub empty_document : Node
empty_document = mk document [] [] 0 (cons empty_mapping nil)

-- DocumentMapping; the caller's nil document is the caller's case
unfoldable pub document_mapping : Node → Option Node
document_mapping (mk document t v s nil) = none
document_mapping (mk document t v s (cons root rest)) = if is_mapping root then some root else none
document_mapping (mk mapping t v s c) = some (mk mapping t v s c)
document_mapping (mk _ t v s c) = none

-- EnsureDocumentMapping: the document afterwards, whose first child is the mapping returned
unfoldable pub ensure_document_mapping : Node → Node
ensure_document_mapping (mk k t v s nil) = mk document t v s (cons empty_mapping nil)
ensure_document_mapping (mk k t v s (cons root rest)) =
    mk document t v s (if is_mapping root then cons root rest else cons empty_mapping nil)

-- The loops over a mapping's content, which holds keys and values in turn; a last key without a
-- value is passed over.
unfoldable pub lookup_pairs : Nodes → Text → Option Node
lookup_pairs nil key = none
lookup_pairs (cons k nil) key = none
lookup_pairs (cons k (cons v rest)) key =
    let later = lookup_pairs rest key in if value k == key then some v else later

-- MappingValue
unfoldable pub mapping_value : Node → Text → Option Node
unfolding lookup_pairs
mapping_value (mk mapping t v s c) key = lookup_pairs c key
mapping_value (mk _ t v s c) key = none

unfoldable pub delete_pairs : Nodes → Text → Nodes
delete_pairs nil key = nil
delete_pairs (cons k nil) key = nil
delete_pairs (cons k (cons v rest)) key =
    let later = delete_pairs rest key in if value k == key then later else cons k (cons v later)

-- DeleteMappingKey
unfoldable pub delete_mapping_key : Node → Text → Node
unfolding delete_pairs
delete_mapping_key (mk mapping t v s c) key = mk mapping t v s (delete_pairs c key)
delete_mapping_key (mk k t v s c) key = mk k t v s c

-- A new pair goes behind all of the content, also behind a last key without a value.
unfoldable pub set_pairs : Nodes → Text → Node → Nodes
set_pairs nil key new = cons (str_scalar key) (cons new nil)
set_pairs (cons k nil) key new = cons k (cons (str_scalar key) (cons new nil))
set_pairs (cons k (cons v rest)) key new =
    let later = set_pairs rest key new in
    if value k == key then cons k (cons new rest) else cons k (cons v later)

-- SetMappingValue, which does not look at the node's kind
unfoldable pub set_mapping_value : Node → Text → Node → Node
unfolding set_pairs
set_mapping_value (mk k t v s c) key new = mk k t v s (set_pairs c key new)

-- A node made a mapping with no entries, unless it is a mapping
unfoldable pub as_mapping : Node → Node
as_mapping (mk mapping t v s c) = mk mapping t v s c
as_mapping (mk _ t v s c) = mk mapping (codes "!!map") v s nil

-- EnsureMappingValue: the node afterwards; the value returned is the mapping at `key` in it
unfoldable pub ensure_mapping_value : Node → Text → Node
unfolding as_mapping mapping_value set_mapping_value
ensure_mapping_value node key =
    let m = as_mapping node in
    elim (mapping_value m key) [
      | some found ↦ set_mapping_value m key (as_mapping found)
      | none ↦
          with_content m (append_nodes (content m) (cons (str_scalar key) (cons empty_mapping nil)))
    ]

-- ScalarValue
unfoldable pub scalar_value : Node → Text
scalar_value (mk scalar t v s c) = trim_space v
scalar_value (mk _ t v s c) = []

unfoldable pub scalar_values : Nodes → List Text
unfolding scalar_value
scalar_values nil = []
scalar_values (cons n ns) =
    let rest = scalar_values ns in if is_empty (scalar_value n) then rest else scalar_value n ∷ rest

-- StringValues, StringFieldValues
unfoldable pub string_values : Node → List Text
unfolding scalar_values
string_values (mk scalar t v s c) = if is_empty (trim_space v) then [] else trim_space v ∷ []
string_values (mk sequence t v s c) = scalar_values c
string_values (mk _ t v s c) = []

unfoldable pub string_field_values : Node → List Text
unfolding scalar_values
string_field_values (mk scalar t v s c) = fields v
string_field_values (mk sequence t v s c) = scalar_values c
string_field_values (mk _ t v s c) = []
