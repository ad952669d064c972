-- ===== src/Document/Edits/Tests.antt =====
-- Runs of the operations on a small compose file, and the properties there.
use sitectl.Prelude.{
  is_some, All, Bool, true, false, not, ◌||◌, ◌&&◌, none, some, List, [], ◌∷◌, ◌≡◌, refl, arith,
}
use sitectl.Result.{ok, err}
use sitectl.Text.{Text, codes, ◌==◌, has_prefix, contains_any}
use sitectl.Yaml.{
  document, mapping, scalar, sequence, Node, Nodes, mk, nil, cons, str_scalar, is_scalar, tag,
  value, content, style,
}
use sitectl.Document.{Document}
use sitectl.Document.Path.{parse_yaml_path, not_a_mapping}
use sitectl.Document.Path.RoundTrip.{path_of, IsSegment, parse-path_of, path_of-parse}
use sitectl.Document.Edits.{
  set_string, append_unique_string, remove_string, delete_path, has_path, remove_matching_string,
}
use sitectl.Document.Edits.Access.{at, IsDocument}
use sitectl.Document.Edits.Writes.{
  IsStyled, at-set_string, set_string_error, append_unique_string_error,
}
use sitectl.Document.Edits.Removes.{has_path-at, has_path-delete_path}
use sitectl.Document.Edits.Listed.{
  listed, IsListed, listed-append_unique_string, listed-remove_string,
  listed-remove_matching_string, remove_matching_string-unchanged,
}
use sitectl.Document.Edits.Script.{
  Command, set_text, delete, perform_all, perform_all-IsDocument, at-perform_all, path_of_command,
  spares,
}

abbrev map_of : Nodes → Node
map_of c = mk mapping (codes "!!map") [] 0 c

abbrev ports : Node
ports = mk sequence (codes "!!seq") [] 0 (cons (str_scalar (codes "80:80")) nil)

-- web: {image: nginx, ports: [80:80]}
abbrev compose : Document
compose = record {
  node = mk document [] [] 0 (
      cons
        (map_of (
          cons (str_scalar (codes "web")) (
            cons
              (map_of (
                cons (str_scalar (codes "image")) (
                  cons (str_scalar (codes "nginx"))
                    (cons (str_scalar (codes "ports")) (cons ports nil)))))
              nil)))
        nil);
  explicit_doc_start = false;
  explicit_merge_tag = false;
}

abbrev image_path : Text
image_path = codes ".web.image"

abbrev ports_path : Text
ports_path = codes ".web.ports"

image_parsed : parse_yaml_path image_path ≡ ok (codes "web" ∷ codes "image" ∷ [])
unfolding parse_yaml_path
image_parsed = refl

ports_parsed : parse_yaml_path ports_path ≡ ok (codes "web" ∷ codes "ports" ∷ [])
unfolding parse_yaml_path
ports_parsed = refl

image_set : (set_string compose image_path (codes "caddy")).1 ≡ ok tt
unfolding set_string
image_set = refl

at-set_string_example :
    (n : Node) × (at
        (set_string compose image_path (codes "caddy")).0
        (codes "web" ∷ codes "image" ∷ [])
      ≡ some n)
    × (is_scalar n ≡ true)
    × (tag n ≡ codes "!!str")
    × (value n ≡ codes "caddy")
    × (content n ≡ nil)
    × IsStyled (at compose (codes "web" ∷ codes "image" ∷ [])) (style n)
at-set_string_example =
    at-set_string compose image_path (codes "caddy") (codes "web") (codes "image" ∷ []) image_parsed
      (omega arith) image_set

below_scalar :
    (set_string compose (codes ".web.image.tag") []).1
    ≡ err (not_a_mapping (codes ".web.image.tag") (codes "image"))
unfolding set_string
below_scalar = refl

set_string_error_example : (set_string compose (codes ".web.image.tag") []).0 ≡ compose
set_string_error_example =
    set_string_error compose (codes ".web.image.tag") []
      (not_a_mapping (codes ".web.image.tag") (codes "image")) below_scalar

appended_below_scalar :
    (append_unique_string compose (codes ".web.image.tag") []).1
    ≡ err (not_a_mapping (codes ".web.image.tag") (codes "image"))
unfolding append_unique_string
appended_below_scalar = refl

append_unique_string_error_example :
    (append_unique_string compose (codes ".web.image.tag") []).0 ≡ compose
append_unique_string_error_example =
    append_unique_string_error compose (codes ".web.image.tag") []
      (not_a_mapping (codes ".web.image.tag") (codes "image")) appended_below_scalar

has_path-at_example :
    has_path compose image_path ≡ ok (is_some (at compose (codes "web" ∷ codes "image" ∷ [])))
has_path-at_example = has_path-at compose image_path (codes "web") (codes "image" ∷ []) image_parsed

has_path-delete_path_example :
    ((delete_path compose image_path).1 ≡ ok tt)
    × (at (delete_path compose image_path).0 (codes "web" ∷ codes "image" ∷ []) ≡ none)
    × (has_path (delete_path compose image_path).0 image_path ≡ ok false)
has_path-delete_path_example =
    has_path-delete_path compose image_path (codes "web") (codes "image" ∷ []) image_parsed
      (omega arith)

ports-IsListed : IsListed (at compose (codes "web" ∷ codes "ports" ∷ []))
unfolding at ◌==◌ sitectl.Yaml.mapping_value
ports-IsListed = tt

port_appended : (append_unique_string compose ports_path (codes "443:443")).1 ≡ ok tt
unfolding append_unique_string
port_appended = refl

listed-append_unique_string_example :
    listed (codes "443:443") (
      at
        (append_unique_string compose ports_path (codes "443:443")).0
        (codes "web" ∷ codes "ports" ∷ []))
    ≡ (codes "443:443" == codes "443:443"
        || listed (codes "443:443") (at compose (codes "web" ∷ codes "ports" ∷ [])))
listed-append_unique_string_example =
    listed-append_unique_string compose ports_path (codes "443:443") (codes "web")
      (codes "ports" ∷ []) (codes "443:443") ports_parsed (omega arith) ports-IsListed port_appended

port_removed : (remove_string compose ports_path (codes "80:80")).1 ≡ ok tt
unfolding remove_string
port_removed = refl

listed-remove_string_example :
    listed
      (codes "80:80")
      (at (remove_string compose ports_path (codes "80:80")).0 (codes "web" ∷ codes "ports" ∷ []))
    ≡ (not (codes "80:80" == codes "80:80")
        && listed (codes "80:80") (at compose (codes "web" ∷ codes "ports" ∷ [])))
listed-remove_string_example =
    listed-remove_string compose ports_path (codes "80:80") (codes "web") (codes "ports" ∷ [])
      (codes "80:80") ports_parsed (omega arith) ports-IsListed port_removed

abbrev is_http : Text → Bool
is_http item = has_prefix item (codes "80:")

matching_removed : (remove_matching_string compose ports_path (some is_http)).1 ≡ ok true
unfolding remove_matching_string has_prefix
matching_removed = refl

listed-remove_matching_string_example :
    listed (codes "80:80") (
      at
        (remove_matching_string compose ports_path (some is_http)).0
        (codes "web" ∷ codes "ports" ∷ []))
    ≡ (not (is_http (codes "80:80"))
        && listed (codes "80:80") (at compose (codes "web" ∷ codes "ports" ∷ [])))
listed-remove_matching_string_example =
    listed-remove_matching_string compose ports_path (codes "web") (codes "ports" ∷ []) is_http true
      (codes "80:80") ports_parsed (omega arith) ports-IsListed matching_removed

abbrev is_https : Text → Bool
is_https item = has_prefix item (codes "443:")

none_removed : (remove_matching_string compose ports_path (some is_https)).1 ≡ ok false
unfolding remove_matching_string has_prefix
none_removed = refl

remove_matching_string-unchanged_example :
    at
      (remove_matching_string compose ports_path (some is_https)).0
      (codes "web" ∷ codes "ports" ∷ [])
    ≡ at compose (codes "web" ∷ codes "ports" ∷ [])
remove_matching_string-unchanged_example =
    remove_matching_string-unchanged compose ports_path (codes "web") (codes "ports" ∷ []) is_https
      ports_parsed (omega arith) none_removed

abbrev script : List Command
script = set_text image_path (codes "caddy") ∷ delete (codes ".db") ∷ []

script-spares : All (λ c. spares (codes "web" ∷ codes "ports" ∷ []) c ≡ true) script
unfolding spares path_of_command parse_yaml_path
script-spares = (refl, (refl, tt))

perform_all-IsDocument_example : IsDocument (perform_all compose script).node
perform_all-IsDocument_example = perform_all-IsDocument compose script (omega arith) (tt, (tt, tt))

at-perform_all_example :
    at (perform_all compose script) (codes "web" ∷ codes "ports" ∷ [])
    ≡ at compose (codes "web" ∷ codes "ports" ∷ [])
at-perform_all_example =
    at-perform_all compose script (codes "web" ∷ codes "ports" ∷ []) (omega arith) (tt, (tt, tt))
      script-spares

web_segments : All IsSegment (codes "web" ∷ codes "image" ∷ [])
unfolding contains_any
web_segments = (
  record { nonempty = refl; plain = refl; undotted = refl },
  (record { nonempty = refl; plain = refl; undotted = refl }, tt),
)

parse-path_of_example :
    parse_yaml_path (path_of (codes "web" ∷ codes "image" ∷ []))
    ≡ ok (codes "web" ∷ codes "image" ∷ [])
parse-path_of_example = parse-path_of (codes "web") (codes "image" ∷ []) web_segments

path_of-parse_example :
    (image_path ≡ path_of (codes "web" ∷ codes "image" ∷ []))
    × All IsSegment (codes "web" ∷ codes "image" ∷ [])
path_of-parse_example = path_of-parse image_path (codes "web") (codes "image" ∷ []) image_parsed
