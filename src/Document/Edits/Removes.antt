-- ===== src/Document/Edits/Removes.antt =====
-- DeletePath, RemoveString, RemoveMatchingString and HasPath: what is at the path afterwards.
use sitectl.Prelude.{
  false, none, List, [], ◌∷◌, ◌≡◌, refl, ap, arith, inl, inr, Bool-cases, Option-cases, is_some,
  ◌∙◌,
}
use sitectl.Result.{ok}
use sitectl.Text.{Text}
use sitectl.Text.Equality.{eq_refl}
use sitectl.Yaml.{Node, mapping_value, delete_mapping_key, is_mapping}
use sitectl.Yaml.Update.{mapping_value-delete}
use sitectl.Document.{Document, last, mapping_root}
use sitectl.Document.Path.{parse_yaml_path}
use sitectl.Document.Find.{find, find_not_mapping}
use sitectl.Document.Edits.{remove_key, delete_path, walk, has_path}
use sitectl.Document.Edits.Access.{at, IsDocument, at_root, at-none}
use sitectl.Document.Edits.Local.{remove_key-IsLocal}
use sitectl.Document.Edits.Inside.{inside_ok, inside_makes}

walk-find : (n : Node) (s : Text) (rest : List Text) → walk n s rest ≡ is_some (find n (s ∷ rest))
unfolding walk find
walk-find n s [] = ground arith
walk-find n s (t ∷ rest) = elim (Option-cases (mapping_value n s)) [
  | inl e ↦ rw (e, walk, find)
  | inr (next, e) ↦ elim (Bool-cases (is_mapping next)) [
    | inl m ↦ rw (e, walk, find) (rw m (walk-find next t rest))
    | inr m ↦ rw (e, walk, find) (rw (m, find_not_mapping next t rest m))
  ]
]

-- HasPath answers whether a value stands at the path, for every path of at least one segment.
pub has_path-at :
    (d : Document) (path first : Text) (rest : List Text)
    → parse_yaml_path path ≡ ok (first ∷ rest)
    → has_path d path ≡ ok (is_some (at d (first ∷ rest)))
unfolding has_path
has_path-at d path first rest parsed = elim (Option-cases (mapping_root d.node)) [
  | inl h ↦ rw (parsed, has_path) (rw (h, at-none d (first ∷ rest) h))
  | inr (root, h) ↦
      rw (parsed, has_path)
        (rw (h, at_root d root (first ∷ rest) h) (ap ok (walk-find root first rest)))
]

mapping_value-delete_self :
    (n : Node) (key : Text) → mapping_value (delete_mapping_key n key) key ≡ none
mapping_value-delete_self n key = ground (arith, mapping_value-delete n key key, eq_refl key)

-- In a well-formed document and for a path of at least one segment: DeletePath succeeds, and then
-- nothing stands at the path: HasPath says no.
pub has_path-delete_path :
    (d : Document) (path first : Text) (rest : List Text)
    → parse_yaml_path path ≡ ok (first ∷ rest)
    → IsDocument d.node
    → ((delete_path d path).1 ≡ ok tt)
      × (at (delete_path d path).0 (first ∷ rest) ≡ none)
      × (has_path (delete_path d path).0 path ≡ ok false)
unfolding delete_path
has_path-delete_path d path first rest parsed well =
    let gone : at (delete_path d path).0 (first ∷ rest) ≡ none =
      inside_makes remove_key tt d path first rest parsed (remove_key-IsLocal (last first rest))
        well (λ old new _. new ≡ none) tt refl
        (λ n m w. unfold remove_key in mapping_value-delete_self n (last first rest))
        (inside_ok remove_key tt d path first rest parsed).1 in
    (
      (inside_ok remove_key tt d path first rest parsed).1,
      gone,
      has_path-at (delete_path d path).0 path first rest parsed ∙ ap (λ o. ok (is_some o)) gone,
    )
