-- ===== src/Document/Edits.antt =====
-- The operations of YAMLDocument: HasPath, SetString, SetValue, DeletePath, AppendUniqueString,
-- RemoveString and RemoveMatchingString.
mod Local
mod Access
mod Below
mod Inside
pub mod Writes
pub mod Removes
pub mod Listed
pub mod Script
mod Tests
use sitectl.Prelude.{
  ℕ, Bool, true, false, ◌&&◌, ◌||◌, Option, none, some, List, [], ◌∷◌, if◌then◌else◌, is_empty,
  is_some, nat_eq,
}
use sitectl.Result.{Result, ok, err}
use sitectl.Text.{Text, codes, ◌==◌, trim_space}
use sitectl.Yaml.{
  scalar, sequence, Node, Nodes, mk, nil, cons, value, style, with_content, with_value, is_mapping,
  is_scalar, append_nodes, str_scalar, mapping_value, delete_mapping_key, set_mapping_value,
}
use sitectl.Document.{
  Document, double_quoted, is_block, mapping_root, with_root, ensure_mapping_root, first_child,
  Edit, ensure_path, within_path, init, last,
}
use sitectl.Document.Path.{
  Error, root_not_supported, not_a_sequence, nil_matcher, bad_value, parse_yaml_path,
}
use sitectl.Document.Scalar.{
  scalar_string_contains, append_scalar_string, remove_scalar_string,
  remove_scalar_strings_matching,
}

-- Every operation parses its path first; the path of the root is refused.
pub on_segments :
    {A : Type 0}
    → Document
    → Text
    → (Text → List Text → Document × Result Error A)
    → Document × Result Error A
on_segments d path k = elim (parse_yaml_path path) [
  | err e ↦ (d, err e)
  | ok [] ↦ (d, err (root_not_supported path))
  | ok (first ∷ rest) ↦ k first rest
]

-- An edit of the mapping above the last segment, with the mappings on the way created.
pub edit_below : {A : Type 0} → (Text → Edit A) → Document → Text → Document × Result Error A
edit_below edit d path = on_segments d path λ first rest.
    let ensured = ensure_mapping_root d.node in
    let (root, r) =
      ensure_path (edit (last first rest)) path (init first rest) (first_child ensured) in
    (record d { node = with_root ensured root }, r)

-- An edit of the mapping above the last segment, where it is there.
pub edit_within :
    {A : Type 0} → (Text → Node → Node × A) → A → Document → Text → Document × Result Error A
edit_within edit missing d path = on_segments d path λ first rest. elim (mapping_root d.node) [
  | none ↦ (d, ok missing)
  | some root ↦
      let (root', r) = within_path (edit (last first rest)) missing (init first rest) root in
      (record d { node = with_root d.node root' }, ok r)
]

-- SetString keeps the style of the value that it replaces, and quotes otherwise.
pub string_style : Option Node → ℕ
string_style none = double_quoted
string_style (some existing) = if nat_eq (style existing) 0 then double_quoted else style existing

pub string_node : Option Node → Text → Node
unfolding string_style
string_node existing v = mk scalar (codes "!!str") v (string_style existing) nil

pub put_string : Text → Text → Edit (Unit {0})
unfolding string_node mapping_value set_mapping_value
put_string v key target =
    (set_mapping_value target key (string_node (mapping_value target key) v), ok tt)

pub set_string : Document → Text → Text → Document × Result Error (Unit {0})
unfolding edit_below on_segments ensure_path ensure_mapping_root first_child init last
    parse_yaml_path put_string
set_string d path v = edit_below (put_string v) d path

-- SetValue; `encoded` is yamlNodeForValue of the value, which goes through the YAML library.
pub put_value : Option Node → Text → Text → Edit (Unit {0})
unfolding set_mapping_value
put_value none path key target = (target, err (bad_value path))
put_value (some encoded) path key target = (set_mapping_value target key encoded, ok tt)

pub set_value : Document → Text → Option Node → Document × Result Error (Unit {0})
unfolding edit_below on_segments ensure_path ensure_mapping_root first_child init last
    parse_yaml_path put_value
set_value d path encoded = edit_below (put_value encoded path) d path

pub remove_key : Text → Node → Node × Unit {0}
unfolding delete_mapping_key
remove_key key target = (delete_mapping_key target key, tt)

pub delete_path : Document → Text → Document × Result Error (Unit {0})
unfolding edit_within on_segments mapping_root within_path init last parse_yaml_path remove_key
delete_path d path = edit_within remove_key tt d path

-- The loop of HasPath
pub walk : Node → Text → List Text → Bool
unfolding mapping_value
walk current segment [] = is_some (mapping_value current segment)
walk current segment (following ∷ rest) = elim (mapping_value current segment) [
  | none ↦ false
  | some next ↦ if is_mapping next then walk next following rest else false
]

pub has_path : Document → Text → Result Error Bool
has_path d path = elim (parse_yaml_path path) [
  | err e ↦ err e
  | ok [] ↦ ok (is_some (mapping_root d.node))
  | ok (first ∷ rest) ↦ elim (mapping_root d.node) [
    | none ↦ ok false
    | some root ↦ ok (walk root first rest)
  ]
]

-- A child of the sequence is the string
pub holds : Text → Nodes → Bool
unfolding ◌==◌
holds v nil = false
holds v (cons n ns) = is_scalar n && value n == v || holds v ns

pub str_sequence : Nodes → Node
str_sequence items = mk sequence (codes "!!seq") [] 0 items

-- What AppendUniqueString makes of its target: none for the error, otherwise the target afterwards,
-- which is also what stands at the key
pub append_to : Text → Option Node → Option Node
unfolding holds str_sequence scalar_string_contains append_scalar_string ◌==◌
append_to v none = some (str_sequence (cons (str_scalar v) nil))
append_to v (some (mk scalar t old s c)) =
    if old == v
    then some (mk scalar t old s c)
    else if is_block s
    then some
        (mk scalar t (if scalar_string_contains old v then old else append_scalar_string old v) s c)
    else some (str_sequence (cons (str_scalar old) (cons (str_scalar v) nil)))
append_to v (some (mk sequence t old s items)) = some (
    mk sequence t old s
      (if holds v items then items else append_nodes items (cons (str_scalar v) nil)))
append_to v (some _) = none

pub put_unique : Text → Text → Text → Edit (Unit {0})
unfolding append_to mapping_value set_mapping_value
put_unique v path key target = elim (append_to v (mapping_value target key)) [
  | none ↦ (target, err (not_a_sequence path))
  | some new ↦ (set_mapping_value target key new, ok tt)
]

pub append_unique_string : Document → Text → Text → Document × Result Error (Unit {0})
unfolding edit_below on_segments ensure_path ensure_mapping_root first_child init last
    parse_yaml_path put_unique
append_unique_string d path v = edit_below (put_unique v path) d path

-- The children of a sequence that are not scalars passing the test
pub drop_items : (Text → Bool) → Nodes → Nodes
drop_items match nil = nil
drop_items match (cons n ns) =
    let rest = drop_items match ns in if is_scalar n && match (value n) then rest else cons n rest

pub any_item : (Text → Bool) → Nodes → Bool
any_item match nil = false
any_item match (cons n ns) = is_scalar n && match (value n) || any_item match ns

-- A sequence that loses its last item loses its key too.
pub put_items : Text → Node → Node → Nodes → Node
unfolding delete_mapping_key set_mapping_value
put_items key parent target nil = delete_mapping_key parent key
put_items key parent target (cons n ns) =
    set_mapping_value parent key (with_content target (cons n ns))

-- A block scalar's text after a removal; the key goes with the last of the text.
pub put_text : Text → Node → Node → Text → Node
unfolding delete_mapping_key set_mapping_value trim_space
put_text key parent target updated =
    if is_empty (trim_space updated)
    then delete_mapping_key parent key
    else set_mapping_value parent key (with_value target updated)

-- RemoveString below `parent`
pub remove_value : Text → Text → Node → Option Node → Node
unfolding ◌==◌ put_items put_text drop_items remove_scalar_string delete_mapping_key
remove_value v key parent none = parent
remove_value v key parent (some (mk scalar t old s c)) =
    if old == v
    then delete_mapping_key parent key
    else if is_block s && (remove_scalar_string old v).1
    then put_text key parent (mk scalar t old s c) (remove_scalar_string old v).0
    else parent
remove_value v key parent (some (mk sequence t old s items)) =
    put_items key parent (mk sequence t old s items) (drop_items (λ item. item == v) items)
remove_value v key parent (some _) = parent

pub remove_string : Document → Text → Text → Document × Result Error (Unit {0})
unfolding edit_within on_segments mapping_root within_path init last parse_yaml_path remove_value
    mapping_value
remove_string d path v =
    edit_within (λ key parent. (remove_value v key parent (mapping_value parent key), tt)) tt d path

-- RemoveMatchingString below `parent`, and whether it changed something
pub remove_matches : (Text → Bool) → Text → Node → Option Node → Node × Bool
unfolding put_items put_text drop_items any_item remove_scalar_strings_matching delete_mapping_key
remove_matches match key parent none = (parent, false)
remove_matches match key parent (some (mk scalar t old s c)) =
    if match old
    then (delete_mapping_key parent key, true)
    else if (remove_scalar_strings_matching old match).1
    then (
      put_text key parent (mk scalar t old s c) (remove_scalar_strings_matching old match).0,
      true,
    )
    else (parent, false)
remove_matches match key parent (some (mk sequence t old s items)) =
    if any_item match items
    then (put_items key parent (mk sequence t old s items) (drop_items match items), true)
    else (parent, false)
remove_matches match key parent (some _) = (parent, false)

-- `match` is none for a nil function.
pub remove_matching_string : Document → Text → Option (Text → Bool) → Document × Result Error Bool
unfolding edit_within on_segments mapping_root within_path init last parse_yaml_path remove_matches
    mapping_value
remove_matching_string d path none = (d, err (nil_matcher path))
remove_matching_string d path (some match) =
    edit_within (λ key parent. remove_matches match key parent (mapping_value parent key)) false d
      path
