-- ===== src/Document.antt =====
-- pkg/component/yaml_mutator.go: the editable YAML document and its operations on dotted paths.
-- An operation returns the document as it leaves it, beside its result: an error does not undo what
-- was written before it.
pub mod Scalar
pub mod Path
pub mod Edits
pub mod Touch
pub mod Find
pub mod Descent
pub mod Within
use sitectl.Prelude.{
  ℕ, Bool, true, false, not, ◌&&◌, ◌||◌, Option, none, some, List, [], ◌∷◌, ◌++◌, String,
  if◌then◌else◌, is_empty, is_some, nat_eq,
}
use sitectl.Result.{Result, ok, err, ◌>>=◌}
use sitectl.Text.{Text, codes, ◌==◌, trim_space, trim_left, has_prefix, contains, strip_prefix}
use sitectl.Yaml.{
  Kind, document, sequence, mapping, scalar, Node, Nodes, mk, nil, cons, kind, value, style,
  content, with_content, with_value, is_mapping, is_scalar, is_sequence, is_document, append_nodes,
  str_scalar, empty_mapping, empty_document, mapping_value, delete_mapping_key, set_mapping_value,
  as_mapping,
}
use Path.{Error, root_not_supported, not_a_mapping, not_a_sequence, nil_matcher, parse_yaml_path}
use Scalar.{
  scalar_string_contains, append_scalar_string, remove_scalar_string,
  remove_scalar_strings_matching,
}

pub record Document : Type 0 where
  pub node : Node
  pub explicit_doc_start : Bool
  pub explicit_merge_tag : Bool

-- yaml.Style, a set of bits
abbrev pub double_quoted : ℕ
double_quoted = 2

abbrev is_block : ℕ → Bool
is_block s = nat_eq s 16 || nat_eq s 8

-- d.node.Content[0], if it is a mapping
unfoldable pub mapping_root : Node → Option Node
mapping_root (mk k t v s nil) = none
mapping_root (mk k t v s (cons root rest)) = if is_mapping root then some root else none

abbrev pub with_root : Node → Node → Node
with_root (mk k t v s nil) root = mk k t v s nil
with_root (mk k t v s (cons old rest)) root = mk k t v s (cons root rest)

pub ensure_mapping_root : Node → Node
unfolding as_mapping
ensure_mapping_root (mk k t v s nil) = mk k t v s (cons empty_mapping nil)
ensure_mapping_root (mk k t v s (cons root rest)) = mk k t v s (cons (as_mapping root) rest)

pub first_child : Node → Node
first_child (mk k t v s nil) = empty_mapping
first_child (mk k t v s (cons root rest)) = root

-- An edit of a mapping: the mapping afterwards, and the result.
abbrev pub Edit : Type 0 → Type 0
Edit A = Node → Node × Result Error A

-- ensurePath, and then the caller's edit of the mapping that it returns
pub ensure_path : {A : Type 0} → Edit A → Text → List Text → Edit A
unfolding mapping_value set_mapping_value
ensure_path edit path [] current = edit current
ensure_path edit path (segment ∷ rest) current = elim (mapping_value current segment) [
  | none ↦
      let (child, r) = ensure_path edit path rest empty_mapping in
      (set_mapping_value current segment child, r)
  | some next ↦
      let (child, r) = ensure_path edit path rest next in
      if is_mapping next
      then (set_mapping_value current segment child, r)
      else (current, err (not_a_mapping path segment))
]

-- The loop of deletePathFromMapping, RemoveString and RemoveMatchingString, which creates nothing:
-- the edit of the mapping at the path, and `missing` where there is none.
pub within_path : {A : Type 0} → (Node → Node × A) → A → List Text → Node → Node × A
unfolding mapping_value set_mapping_value
within_path edit missing [] current = edit current
within_path edit missing (segment ∷ rest) current = elim (mapping_value current segment) [
  | none ↦ (current, missing)
  | some next ↦
      let (child, r) = within_path edit missing rest next in
      if is_mapping next then (set_mapping_value current segment child, r) else (current, missing)
]

-- segments[:len-1] and segments[len-1] of first ∷ rest
pub init : Text → List Text → List Text
init first [] = []
init first (s ∷ rest) = first ∷ init s rest

pub last : Text → List Text → Text
last first [] = first
last first (s ∷ rest) = last s rest
