-- ===== src/Document/Edits/Writes.antt =====
-- SetString, SetValue and AppendUniqueString: what stands at the path afterwards.
use sitectl.Prelude.{
  ℕ, true, arith, ◌≢◌, Option, none, some, List, ◌∷◌, ◌≡◌, refl, inl, inr, Option-cases,
}
use sitectl.Result.{ok, err}
use sitectl.Text.{Text, codes}
use sitectl.Yaml.{Node, nil, mapping_value, is_scalar, tag, value, content, style}
use sitectl.Yaml.Mapping.{IsMap}
use sitectl.Yaml.Update.{mapping_value-set_self}
use sitectl.Document.{Document, last}
use sitectl.Document.Path.{Error, parse_yaml_path}
use sitectl.Document.Edits.{
  string_style, string_node, put_string, set_string, append_to, put_unique, append_unique_string,
  edit_below,
}
use sitectl.Document.Edits.Access.{at, IsDocument}
use sitectl.Document.Edits.Local.{put_string-IsLocal, put_unique-IsLocal}
use sitectl.Document.Edits.Below.{parse_cases, unnamed, below_makes, below_error}

put_unique_makes :
    (v path key : Text) (n : Node)
    → IsMap n
    → (put_unique v path key n).1 ≡ ok tt
    → mapping_value (put_unique v path key n).0 key ≡ append_to v (mapping_value n key)
unfolding put_unique
put_unique_makes v path key n m r = elim (Option-cases (append_to v (mapping_value n key))) [
  | inl p ↦ absurd (cc (rw (p, put_unique) at r))
  | inr (new, p) ↦ rw (p, put_unique) (mapping_value-set_self n key new m)
]

put_unique_clean :
    (v path key : Text) (n : Node) (e : Error)
    → (put_unique v path key n).1 ≡ err e
    → (put_unique v path key n).0 ≡ n
unfolding put_unique
put_unique_clean v path key n e r = elim (Option-cases (append_to v (mapping_value n key))) [
  | inl p ↦ rw (p, put_unique)
  | inr (new, p) ↦ absurd (cc (rw (p, put_unique) at r))
]

put_unique_fresh :
    (v path key : Text) (n : Node)
    → mapping_value n key ≡ none
    → (a : Unit {0}) × ((put_unique v path key n).1 ≡ ok a)
unfolding put_unique
put_unique_fresh v path key n h = (tt, rw (h, put_unique) (unfold append_to in refl))

-- The style of a string that is written where a node stood or none did; 2 is DoubleQuotedStyle.
abbrev pub IsStyled : Option Node → ℕ → Type 0
IsStyled none written = written ≡ 2
IsStyled (some old) written = (style old ≡ 0 → written ≡ 2) × (style old ≢ 0 → written ≡ style old)

string_style-IsStyled : (old : Option Node) → IsStyled old (string_style old)
unfolding string_style
string_style-IsStyled none = refl
string_style-IsStyled (some old) = ((λ e. ground arith), λ ne. ground arith)

module _ (d : Document) (path v first : Text) (rest : List Text)
    (parsed : parse_yaml_path path ≡ ok (first ∷ rest)) (well : IsDocument d.node) where
  set_string_makes :
      (set_string d path v).1 ≡ ok tt
      → at (set_string d path v).0 (first ∷ rest) ≡ some (string_node (at d (first ∷ rest)) v)
  unfolding set_string
  set_string_makes h =
      below_makes (put_string v) d path first rest parsed (put_string-IsLocal v (last first rest))
        well (λ old new. new ≡ some (string_node old v)) tt
        (λ n m _. unfold put_string in mapping_value-set_self n (last first rest) _ m) h

  -- In a well-formed document and for a path of at least one segment: if SetString succeeds, the
  -- path holds a scalar without children afterwards, with the string tag and that value. Its style
  -- is that of the node that stood there, if this had any; it is double-quoted, if that node was
  -- plain (style 0) or there was none.
  pub at-set_string :
      (set_string d path v).1 ≡ ok tt
      → (n : Node) × (at (set_string d path v).0 (first ∷ rest) ≡ some n)
        × (is_scalar n ≡ true)
        × (tag n ≡ codes "!!str")
        × (value n ≡ v)
        × (content n ≡ nil)
        × IsStyled (at d (first ∷ rest)) (style n)
  unfolding string_node
  at-set_string h =
      let old = at d (first ∷ rest) in
      (string_node old v, set_string_makes h, refl, refl, refl, refl, string_style-IsStyled old)

  -- In a well-formed document and for a path of at least one segment: if AppendUniqueString
  -- succeeds, the path holds what `append_to` makes of the value that stood there.
  pub at-append_unique_string :
      (append_unique_string d path v).1 ≡ ok tt
      → at (append_unique_string d path v).0 (first ∷ rest) ≡ append_to v (at d (first ∷ rest))
  unfolding append_unique_string
  at-append_unique_string h =
      below_makes (put_unique v path) d path first rest parsed
        (put_unique-IsLocal v path (last first rest)) well (λ old new. new ≡ append_to v old) tt
        (λ n m r. put_unique_makes v path (last first rest) n m r) h

write_error_at :
    (d : Document) (path v first : Text) (rest : List Text) (e : Error)
    → parse_yaml_path path ≡ ok (first ∷ rest)
    → ((set_string d path v).1 ≡ err e → (set_string d path v).0 ≡ d)
      × ((append_unique_string d path v).1 ≡ err e → (append_unique_string d path v).0 ≡ d)
unfolding set_string append_unique_string
write_error_at d path v first rest e parsed = (
  below_error (put_string v) d path first rest parsed (unfold put_string in λ n f h. cc)
      (unfold put_string in λ n h. (tt, refl)) e,
  below_error (put_unique v path) d path first rest parsed
      (put_unique_clean v path (last first rest)) (put_unique_fresh v path (last first rest)) e,
)

-- On any document and path: if SetString fails, it has written nothing.
pub set_string_error :
    (d : Document) (path v : Text) (e : Error)
    → (set_string d path v).1 ≡ err e
    → (set_string d path v).0 ≡ d
unfolding set_string edit_below
set_string_error d path v e h = elim (parse_cases (parse_yaml_path path)) [
  | inl (f, p) ↦ unnamed d path _ (inl (f, p))
  | inr (inl p) ↦ unnamed d path _ (inr p)
  | inr (inr (first, rest, p)) ↦ (write_error_at d path v first rest e p).0 h
]

-- On any document and path: if AppendUniqueString fails, it has written nothing.
pub append_unique_string_error :
    (d : Document) (path v : Text) (e : Error)
    → (append_unique_string d path v).1 ≡ err e
    → (append_unique_string d path v).0 ≡ d
unfolding append_unique_string edit_below
append_unique_string_error d path v e h = elim (parse_cases (parse_yaml_path path)) [
  | inl (f, p) ↦ unnamed d path _ (inl (f, p))
  | inr (inl p) ↦ unnamed d path _ (inr p)
  | inr (inr (first, rest, p)) ↦ (write_error_at d path v first rest e p).1 h
]
