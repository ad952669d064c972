-- ===== src/Document/Path.antt =====
-- Dotted paths: parseYAMLPath, and the errors of the document's operations.
pub mod RoundTrip
use sitectl.Prelude.{ℕ, Bool, ◌||◌, none, some, List, [], ◌∷◌, if◌then◌else◌, is_empty, nat_eq}
use sitectl.Result.{Result, ok, err, ◌>>=◌}
use sitectl.Text.{Text, ◌==◌, strip_prefix, split, contains_any}

pub data Error : Type 0 where
  invalid_path : Text → Error
  unsupported_segment : Text → Text → Error
  root_not_supported : Text → Error
  not_a_mapping : Text → Text → Error
  not_a_sequence : Text → Error
  nil_matcher : Text → Error
  bad_value : Text → Error
  decode_failed marshal_failed : Error

abbrev pub dot : ℕ
dot = b'.'

-- The test of strings.ContainsAny(part, "[]*")
abbrev pub is_meta : ℕ → Bool
is_meta c = nat_eq c b'[' || nat_eq c b']' || nat_eq c b'*'

unfoldable pub check_parts : Text → List Text → Result Error (List Text)
unfolding contains_any
check_parts path [] = ok []
check_parts path (part ∷ rest) =
    let later = check_parts path rest in
    if is_empty part
    then err (invalid_path path)
    else if contains_any part is_meta
    then err (unsupported_segment part path)
    else (do parts ← later; ok (part ∷ parts))

unfoldable pub parse_yaml_path : Text → Result Error (List Text)
unfolding ◌==◌ strip_prefix split check_parts
parse_yaml_path path =
    if is_empty path || path == dot ∷ [] then ok [] else elim (strip_prefix (dot ∷ []) path) [
      | none ↦ err (invalid_path path)
      | some trimmed ↦
          if is_empty trimmed then ok [] else check_parts path (split (λ c. nat_eq c dot) trimmed)
    ]
