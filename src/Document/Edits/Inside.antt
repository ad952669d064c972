-- ===== src/Document/Edits/Inside.antt =====
-- An edit of what is there, on the whole document: what it leaves at its path and beside it.
use sitectl.Prelude.{
  true, Option, none, some, List, ◌∷◌, ◌≡◌, sym, ap, ◌∙◌, inl, inr, Option-cases, subst,
}
use sitectl.Result.{Result, ok}
use sitectl.Text.{Text}
use sitectl.Yaml.{Node, mapping_value}
use sitectl.Yaml.Mapping.{IsMap, IsWellFormed}
use sitectl.Yaml.Update.{is_mapping-IsMap}
use sitectl.Document.{Document, mapping_root, with_root, within_path, init, last}
use sitectl.Document.Path.{Error, parse_yaml_path}
use sitectl.Document.Touch.{IsLocal}
use sitectl.Document.Find.{find, diverges}
use sitectl.Document.Within.{within-Keeps, within_frame, within_makes}
use sitectl.Document.Edits.{edit_within}
use sitectl.Document.Edits.Access.{
  at, IsDocument, init-last, at_root, at-none, mapping_root-IsMap, mapping_root-with_root,
  IsDocument-with_root,
}
use sitectl.Document.Edits.Below.{on_segments_lem}

ok_inj : {A : Type 0} {a b : A} (r : Result Error A) → r ≡ ok a → r ≡ ok b → b ≡ a
ok_inj r p q = cc

transfer :
    {A : Type 0} (Makes : Option Node → Option Node → A → Type 0) {o o' n n' : Option Node}
    {a b : A}
    → o ≡ o'
    → n ≡ n'
    → a ≡ b
    → Makes o' n' b
    → Makes o n a
transfer Makes p q r m = rw (p, q, r) m

module _ {A : Type 0} (edit : Text → Node → Node × A) (missing : A) (d : Document)
    (path first : Text) (rest : List Text) (parsed : parse_yaml_path path ≡ ok (first ∷ rest)) where
  abbrev descent : Node → Node × A
  descent root = within_path (edit (last first rest)) missing (init first rest) root

  inside_none : mapping_root d.node ≡ none → edit_within edit missing d path ≡ (d, ok missing)
  unfolding edit_within
  inside_none h = on_segments_lem d path first rest _ parsed ∙ rw h

  inside_root :
      (root : Node)
      → mapping_root d.node ≡ some root
      → edit_within edit missing d path
        ≡ (record d { node = with_root d.node (descent root).0 }, ok (descent root).1)
  unfolding edit_within
  inside_root root h = on_segments_lem d path first rest _ parsed ∙ rw h

  -- The operation cannot fail.
  pub inside_ok : (a : A) × ((edit_within edit missing d path).1 ≡ ok a)
  inside_ok = elim (Option-cases (mapping_root d.node)) [
    | inl h ↦ (missing, ap (λ r. r.1) (inside_none h))
    | inr (root, h) ↦ ((descent root).1, ap (λ r. r.1) (inside_root root h))
  ]

  module _ (local : IsLocal (last first rest) (λ n. (edit (last first rest) n).0))
      (well : IsDocument d.node) where
    kept :
        (root : Node)
        → mapping_root d.node ≡ some root
        → IsMap (descent root).0 × IsWellFormed (descent root).0
    kept root h =
        let (m, w) = mapping_root-IsMap d.node root well h in
        within-Keeps (edit (last first rest)) missing (last first rest) local (init first rest) root
          m w

    at-inside :
        (root : Node) (q : List Text)
        → mapping_root d.node ≡ some root
        → at (edit_within edit missing d path).0 q ≡ find (descent root).0 q
    at-inside root q h = rw (inside_root root h) (
        at_root _ (descent root).0 q (
          mapping_root-with_root d.node root (descent root).0 h
            (is_mapping-IsMap (descent root).0 (kept root h).0)))

    pub inside-IsDocument : IsDocument (edit_within edit missing d path).0.node
    inside-IsDocument = elim (Option-cases (mapping_root d.node)) [
      | inl h ↦ rw (inside_none h) well
      | inr (root, h) ↦
          rw (inside_root root h)
            (IsDocument-with_root d.node (descent root).0 well (kept root h).1)
    ]

    pub inside_frame :
        (q : List Text)
        → diverges (first ∷ rest) q ≡ true
        → at (edit_within edit missing d path).0 q ≡ at d q
    inside_frame q h = elim (Option-cases (mapping_root d.node)) [
      | inl p ↦ ap (λ r. at r.0 q) (inside_none p)
      | inr (root, p) ↦
          let (m, w) = mapping_root-IsMap d.node root well p in
          at-inside root q p
          ∙ within_frame (edit (last first rest)) missing (last first rest) local (init first rest)
              q root m w (rw (init-last first rest) h)
          ∙ sym (at_root d root q p)
    ]

    pub inside_makes :
        (Makes : Option Node → Option Node → A → Type 0) (a : A)
        → Makes none none missing
        → ((n : Node)
            → IsMap n
            → IsWellFormed n
            → Makes
                (mapping_value n (last first rest))
                (mapping_value (edit (last first rest) n).0 (last first rest))
                (edit (last first rest) n).1)
        → (edit_within edit missing d path).1 ≡ ok a
        → Makes (at d (first ∷ rest)) (at (edit_within edit missing d path).0 (first ∷ rest)) a
    inside_makes Makes a stays makes h = elim (Option-cases (mapping_root d.node)) [
      | inl p ↦
          transfer Makes (at-none d (first ∷ rest) p)
            (ap (λ r. at r.0 (first ∷ rest)) (inside_none p) ∙ at-none d (first ∷ rest) p)
            (ok_inj _ (ap (λ r. r.1) (inside_none p)) h) stays
      | inr (root, p) ↦
          let (m, w) = mapping_root-IsMap d.node root well p in
          transfer Makes (at_root d root (first ∷ rest) p) (at-inside root (first ∷ rest) p)
            (ok_inj _ (ap (λ r. r.1) (inside_root root p)) h)
            (subst (λ q. Makes (find root q) (find (descent root).0 q) (descent root).1)
              (init-last first rest)
              (within_makes (edit (last first rest)) missing (last first rest) Makes stays makes
                (init first rest) root m w))
    ]
