-- ===== src/Document/Edits/Below.antt =====
-- An edit below created mappings, on the whole document: what it leaves at its path, beside it, and
-- on an error.
use sitectl.Prelude.{
  true, Option, none, some, List, [], ◌∷◌, ◌≡◌, refl, sym, ap, ◌∙◌, ◌⊎◌, inl, inr, subst,
}
use sitectl.Result.{Result, ok, err}
use sitectl.Text.{Text}
use sitectl.Yaml.{Node, mapping_value}
use sitectl.Yaml.Mapping.{IsMap, IsWellFormed}
use sitectl.Yaml.Update.{is_mapping-IsMap}
use sitectl.Document.{
  Document, mapping_root, with_root, ensure_mapping_root, first_child, Edit, ensure_path, init,
  last,
}
use sitectl.Document.Path.{Error, parse_yaml_path}
use sitectl.Document.Touch.{IsLocal}
use sitectl.Document.Find.{find, diverges}
use sitectl.Document.Descent.{ensure_keeps, ensure_frame, ensure_makes, ensure_fresh, ensure_error}
use sitectl.Document.Edits.{on_segments, edit_below}
use sitectl.Document.Edits.Access.{
  at, IsDocument, init-last, at_root, with_root_self, mapping_root-ensured, ensured-IsMap,
  IsDocument-with_root, IsDocument-ensured, ensured_root, find-ensured,
}

pub parse_cases :
    (r : Result Error (List Text))
    → ((e : Error) × (r ≡ err e))
      ⊎ ((r ≡ ok []) ⊎ ((first : Text) × (rest : List Text) × (r ≡ ok (first ∷ rest))))
parse_cases (err e) = inl (e, refl)
parse_cases (ok []) = inr (inl refl)
parse_cases (ok (first ∷ rest)) = inr (inr (first, rest, refl))

-- A path that names no segment changes nothing.
pub unnamed :
    {A : Type 0} (d : Document) (path : Text) (k : Text → List Text → Document × Result Error A)
    → ((e : Error) × (parse_yaml_path path ≡ err e)) ⊎ (parse_yaml_path path ≡ ok [])
    → (on_segments d path k).0 ≡ d
unfolding on_segments
unnamed d path k (inl (e, p)) = rw (p, on_segments)
unnamed d path k (inr p) = rw (p, on_segments)

pub on_segments_lem :
    {A : Type 0} (d : Document) (path first : Text) (rest : List Text)
    (k : Text → List Text → Document × Result Error A)
    → parse_yaml_path path ≡ ok (first ∷ rest)
    → on_segments d path k ≡ k first rest
unfolding on_segments
on_segments_lem d path first rest k parsed = rw (parsed, on_segments)

module _ {A : Type 0} (edit : Text → Edit A) (d : Document) (path first : Text) (rest : List Text)
    (parsed : parse_yaml_path path ≡ ok (first ∷ rest)) where
  abbrev start : Node
  start = first_child (ensure_mapping_root d.node)

  abbrev descent : Node × Result Error A
  descent = ensure_path (edit (last first rest)) path (init first rest) start

  below_lem :
      edit_below edit d path
      ≡ (record d { node = with_root (ensure_mapping_root d.node) descent.0 }, descent.1)
  unfolding edit_below
  below_lem = on_segments_lem d path first rest _ parsed

  module _ (local : IsLocal (last first rest) (λ n. (edit (last first rest) n).0))
      (well : IsDocument d.node) where
    kept : IsMap descent.0 × IsWellFormed descent.0
    kept =
        ensure_keeps (edit (last first rest)) path (last first rest) local (init first rest) start
          (ensured-IsMap d.node well).0 (ensured-IsMap d.node well).1

    at-below : (q : List Text) → at (edit_below edit d path).0 q ≡ find descent.0 q
    at-below q = rw below_lem (
        at_root _ descent.0 q
          (mapping_root-ensured d.node descent.0 (is_mapping-IsMap descent.0 kept.0)))

    pub below-IsDocument : IsDocument (edit_below edit d path).0.node
    below-IsDocument = rw below_lem (
        IsDocument-with_root (ensure_mapping_root d.node) descent.0 (IsDocument-ensured d.node well)
          kept.1)

    pub below_frame :
        (q : List Text)
        → diverges (first ∷ rest) q ≡ true
        → at (edit_below edit d path).0 q ≡ at d q
    below_frame [] h = cc
    below_frame (t ∷ q) h =
        at-below (t ∷ q)
        ∙ ensure_frame (edit (last first rest)) path (last first rest) local (init first rest)
            (t ∷ q) start (ensured-IsMap d.node well).0 (ensured-IsMap d.node well).1
            (rw (init-last first rest) h)
        ∙ find-ensured d t q

    -- What the edit makes of the old value, in a `Makes` that holds of the result.
    pub below_makes :
        (Makes : Option Node → Option Node → Type 0) (a : A)
        → ((n : Node)
            → IsMap n
            → (edit (last first rest) n).1 ≡ ok a
            → Makes
                (mapping_value n (last first rest))
                (mapping_value (edit (last first rest) n).0 (last first rest)))
        → (edit_below edit d path).1 ≡ ok a
        → Makes (at d (first ∷ rest)) (at (edit_below edit d path).0 (first ∷ rest))
    below_makes Makes a makes h =
        subst (λ new. Makes (at d (first ∷ rest)) new) (sym (at-below (first ∷ rest)))
          (subst (λ old. Makes old (find descent.0 (first ∷ rest))) (find-ensured d first rest)
            (subst (λ q. Makes (find start q) (find descent.0 q)) (init-last first rest)
              (ensure_makes (edit (last first rest)) path (last first rest) local Makes a makes
                (init first rest) start (ensured-IsMap d.node well).0 (ensured-IsMap d.node well).1
                (rw below_lem at h))))

  pub below_error :
      ((n : Node) (e : Error)
        → (edit (last first rest) n).1 ≡ err e
        → (edit (last first rest) n).0 ≡ n)
      → ((n : Node)
          → mapping_value n (last first rest) ≡ none
          → (a : A) × ((edit (last first rest) n).1 ≡ ok a))
      → (e : Error) → (edit_below edit d path).1 ≡ err e
      → (edit_below edit d path).0 ≡ d
  below_error clean fresh e h =
      let failed : descent.1 ≡ err e = rw below_lem at h in
      elim (ensured_root d.node) [
        | inr (p, bare) ↦ absurd (
            ensure_fresh (edit (last first rest)) path (last first rest) clean fresh
              (init first rest) start e bare failed)
        | inl (root, p, same, child) ↦ rw below_lem (
            unchanged (ensure_mapping_root d.node) root descent.0 same p (
              ensure_error (edit (last first rest)) path (last first rest) clean fresh
                (init first rest) start e failed
              ∙ ap first_child same
              ∙ child))
      ]
    where
      unchanged :
          (ensured root root' : Node)
          → ensured ≡ d.node
          → mapping_root d.node ≡ some root
          → root' ≡ root
          → record d { node = with_root ensured root' } ≡ d
      unchanged ensured root root' same p eq =
          ap (λ n. record d { node = n })
            (ap (λ n. with_root n root') same
              ∙ ap (λ r. with_root d.node r) eq
              ∙ with_root_self d.node root p)
