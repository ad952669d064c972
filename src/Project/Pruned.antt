-- ===== src/Project/Pruned.antt =====
-- pkg/component/compose.go: what the pruning of unused resources leaves of a document.
use sitectl.Prelude.{
  ◌≡◌, ◌⊎◌, refl, sym, ap, ◌∙◌, subst, Bool, true, false, not, ◌&&◌, ◌||◌, Bool-cases, inl, inr,
  Option, Option-cases, none, some, is_some, List, [], ◌∷◌, ◌++◌, if◌then◌else◌, is_empty, any,
  keep, arith,
}
use sitectl.Text.{Text, ◌==◌, trim_space}
use sitectl.Text.Equality.{eq_refl, Text-cases, ne→eq_false}
use sitectl.Yaml.{Node}
use sitectl.Document.{Document}
use sitectl.Rules.{Fields, member}
use sitectl.Project.Entries.{doc_entry, HasMapRoot, has_text, entry-delete_document}
use sitectl.Project.{Project, delete_document_section_entry, keys}
use sitectl.Project.Resources.{
  Section, volumes, networks, secrets, configs, section_name, is_used, nested_map,
}
use sitectl.Project.References.{IsReferred}
use sitectl.Project.Used.{is_used_iff}
use sitectl.Project.Operations.{
  root_map, unused, delete_names, delete_unused, all_unused, sections, prune_unused_resources,
}

same_name :
    (a x c m : Bool) (o : Option Node)
    → (if (a && x) && (c && m) then none else if (a && x) && (c && true) then none else o)
      ≡ (if (a && x) && (c && (true || m)) then none else o)
same_name a x c m o = ground arith

other_name :
    (a x y c m : Bool) (o : Option Node)
    → (if (a && x) && (c && m) then none else if (a && y) && (c && false) then none else o)
      ≡ (if (a && x) && (c && (false || m)) then none else o)
other_name a x y c m o = ground arith

-- A name is deleted first, and then the other names.
one_more :
    (s' s n n' : Text) (names : List Text) (o : Option Node)
    → (if (has_text s' && has_text n) && (s' == s && member n names)
        then none
        else if (has_text s' && has_text n') && (s' == s && n' == n)
        then none
        else o)
      ≡ (if (has_text s' && has_text n) && (s' == s && member n (n' ∷ names)) then none else o)
one_more s' s n n' names o = elim (Text-cases n n') [
  | inl e ↦
      subst
        (λ x.
          (if (has_text s' && has_text n) && (s' == s && member n names)
            then none
            else if (has_text s' && has_text x) && (s' == s && x == n)
            then none
            else o)
          ≡ (if (has_text s' && has_text n) && (s' == s && member n (x ∷ names)) then none else o))
        e (rw (eq_refl n) (same_name (has_text s') (has_text n) (s' == s) (member n names) o))
  | inr ne ↦
      rw (ne→eq_false n n' ne, ne→eq_false n' n (λ e. ne (sym e)))
        (other_name (has_text s') (has_text n) (has_text n') (s' == s) (member n names) o)
]

-- The entries of a document behind the deletion of names from a section
entry-delete_names :
    (decoded : Document → Option Fields) (s' s n : Text) (names : List Text) (doc : Node)
    → HasMapRoot doc
    → (doc_entry s n (delete_names decoded s' names doc) ≡ (
        if (has_text s' && has_text n) && (s' == s && member n names)
        then none
        else doc_entry s n doc))
      × HasMapRoot (delete_names decoded s' names doc)
unfolding delete_names
entry-delete_names decoded s' s n [] doc m = (ground arith, m)
entry-delete_names decoded s' s n (n' ∷ names) doc m =
    let (law, m') = entry-delete_document s' n' s n doc m in
    let (rest, m'') =
      entry-delete_names decoded s' s n names (delete_document_section_entry s' n' doc).0 m' in
    (
      rest
          ∙ ap (λ o. if (has_text s' && has_text n) && (s' == s && member n names) then none else o)
              law
          ∙ one_more s' s n n' names (doc_entry s n doc),
      m'',
    )

module _ (decoded : Document → Option Fields) (r : Fields) where
  -- Whether a name is among those that are removed from one of the sections
  abbrev goes : List Section → Text → Text → Bool
  goes ss section n = any (λ s. section_name s == section && member n (unused decoded r s)) ss

  section_has_text : (s : Section) → has_text (section_name s) ≡ true
  unfolding trim_space
  section_has_text volumes = refl
  section_has_text networks = refl
  section_has_text secrets = refl
  section_has_text configs = refl

  then_others :
      (t h g : Bool) (o : Option Node)
      → (if t && g then none else if (true && t) && h then none else o)
        ≡ (if t && (h || g) then none else o)
  then_others t h g o = ground arith

  entry-delete_unused :
      (ss : List Section) (section n : Text) (doc : Node)
      → HasMapRoot doc
      → doc_entry section n (delete_unused decoded r ss doc)
        ≡ (if has_text n && goes ss section n then none else doc_entry section n doc)
  unfolding delete_unused
  entry-delete_unused [] section n doc m = ground arith
  entry-delete_unused (s ∷ ss) section n doc m =
      let (law, m') =
        entry-delete_names decoded (section_name s) section n (unused decoded r s) doc m in
      entry-delete_unused ss section n
        (delete_names decoded (section_name s) (unused decoded r s) doc) m'
      ∙ ap (λ o. if has_text n && goes ss section n then none else o)
          (law
            ∙ ap
                (λ b.
                  if (b && has_text n)
                    && (section_name s == section && member n (unused decoded r s))
                  then none
                  else doc_entry section n doc)
                (section_has_text s))
      ∙ then_others (has_text n) (section_name s == section && member n (unused decoded r s))
          (goes ss section n) (doc_entry section n doc)

  -- Only the section of that name is asked.
  goes-sections :
      (s : Section) (n : Text)
      → goes (sections decoded) (section_name s) n ≡ member n (unused decoded r s)
  unfolding ◌==◌
  goes-sections volumes n = ground arith
  goes-sections networks n = ground arith
  goes-sections secrets n = ground arith
  goes-sections configs n = ground arith

  member-keep :
      (p : Text → Bool) (n : Text) (names : List Text)
      → member n (keep p names) ≡ (member n names && p n)
  member-keep p n [] = refl
  member-keep p n (x ∷ names) =
      let ih = member-keep p n names in
      elim (Text-cases n x) [
        | inr ne ↦
            let f = ne→eq_false n x ne in
            elim (Bool-cases (p x)) [ inl h ↦ rw h (rw f ih) | inr h ↦ rw (h, f) ih ]
        | inl e ↦
            subst (λ y. member n (keep p (y ∷ names)) ≡ (member n (y ∷ names) && p n)) e
              (elim (Bool-cases (p n)) [
                | inl h ↦ rw h (rw (eq_refl n) refl)
                | inr h ↦ rw h (rw (ih, h) (ground arith))
              ])
      ]

  is_empty-append :
      (xs ys : List Text) → is_empty (xs ++ ys) ≡ true → (xs ≡ []) × (is_empty ys ≡ true)
  is_empty-append [] ys h = (refl, h)
  is_empty-append (x ∷ xs) ys h = cc

  delete_none :
      (s : Section) (ss : List Section) (node : Node)
      → unused decoded r s ≡ []
      → delete_unused decoded r (s ∷ ss) node ≡ delete_unused decoded r ss node
  unfolding delete_unused delete_names
  delete_none s ss node h = rw h refl

  no_sections : (node : Node) → delete_unused decoded r [] node ≡ node
  unfolding delete_unused
  no_sections node = refl

  -- Where nothing is unused, nothing is deleted.
  delete_unused_none :
      (node : Node)
      → is_empty (all_unused decoded r) ≡ true
      → delete_unused decoded r (sections decoded) node ≡ node
  delete_unused_none node h =
      let (v, h₁) =
        is_empty-append (unused decoded r volumes)
          (unused decoded r networks ++ (unused decoded r secrets ++ unused decoded r configs)) h in
      let (n, h₂) =
        is_empty-append (unused decoded r networks)
          (unused decoded r secrets ++ unused decoded r configs) h₁ in
      let (s, h₃) = is_empty-append (unused decoded r secrets) (unused decoded r configs) h₂ in
      let c = all_gone (unused decoded r configs) h₃ in
      delete_none volumes (networks ∷ secrets ∷ configs ∷ []) node v
      ∙ delete_none networks (secrets ∷ configs ∷ []) node n
      ∙ delete_none secrets (configs ∷ []) node s
      ∙ delete_none configs [] node c
      ∙ no_sections node
    where
      all_gone : (xs : List Text) → is_empty xs ≡ true → xs ≡ []
      all_gone [] h = refl
      all_gone (x ∷ xs) h = cc

  root_map-doc : (p : Project) → (root_map decoded p).0.doc ≡ p.doc
  unfolding root_map
  root_map-doc p = elim (Bool-cases (not p.root_dirty && is_some p.root)) [
    | inl e ↦ rw (e, root_map) refl
    | inr e ↦ elim (Option-cases (decoded p.doc)) [
      | inl d ↦ rw (e, root_map) (rw (d, root_map) refl)
      | inr (fs, d) ↦ rw (e, root_map) (rw (d, root_map) refl)
    ]
  ]

  prune_unused_resources-node :
      (p : Project)
      → (root_map decoded p).1 ≡ some r
      → (prune_unused_resources decoded p).doc.node
        ≡ delete_unused decoded r (sections decoded) p.doc.node
  unfolding prune_unused_resources
  prune_unused_resources-node p h = elim (Bool-cases (is_empty (all_unused decoded r))) [
    | inl e ↦
        rw (h, e, prune_unused_resources)
          (ap (λ d. d.node) (root_map-doc p) ∙ sym (delete_unused_none p.doc.node e))
    | inr e ↦
        rw (h, e, prune_unused_resources)
          (ap (λ d. delete_unused decoded r (sections decoded) d.node) (root_map-doc p))
  ]

  pruned_entry :
      (p : Project) (s : Section) (n : Text)
      → HasMapRoot p.doc.node
      → (root_map decoded p).1 ≡ some r
      → doc_entry (section_name s) n (prune_unused_resources decoded p).doc.node ≡ (
          if has_text n && (member n (keys (nested_map (section_name s) r)) && not (is_used r s n))
          then none
          else doc_entry (section_name s) n p.doc.node)
  unfolding unused
  pruned_entry p s n m h =
      ap (doc_entry (section_name s) n) (prune_unused_resources-node p h)
      ∙ entry-delete_unused (sections decoded) (section_name s) n p.doc.node m
      ∙ ap (λ b. if has_text n && b then none else doc_entry (section_name s) n p.doc.node)
          (goes-sections s n
            ∙ member-keep (λ name. not (is_used r s name)) n (keys (nested_map (section_name s) r)))

  -- In a project whose document has a mapping of whole pairs at its root, if it has a mapping there,
  -- and whose map can be decoded: an entry of the volumes, networks, secrets or configs to which a
  -- service refers stands in the document behind the pruning as it stood before; an entry to which
  -- none refers is gone if the map has it in the section and its name is not blank, and else stands
  -- as before. The references are those of a service's own volumes, networks, secrets and configs: a
  -- secret of its build and the default network are none.
  pub doc_entry-prune_unused_resources :
      (p : Project) (s : Section) (n : Text)
      → HasMapRoot p.doc.node
      → (root_map decoded p).1 ≡ some r
      → (IsReferred r s n
          × (doc_entry (section_name s) n (prune_unused_resources decoded p).doc.node
              ≡ doc_entry (section_name s) n p.doc.node))
        ⊎ ((IsReferred r s n → ⊥)
            × (doc_entry (section_name s) n (prune_unused_resources decoded p).doc.node ≡ (
                if has_text n && member n (keys (nested_map (section_name s) r))
                then none
                else doc_entry (section_name s) n p.doc.node)))
  doc_entry-prune_unused_resources p s n m h =
      let law = pruned_entry p s n m h in
      let kept = doc_entry (section_name s) n p.doc.node in
      let (found, referred) = is_used_iff r s n in
      elim (Bool-cases (is_used r s n)) [
        | inl e ↦ inl (found e, rw e at law ∙ left_alone (has_text n) _ kept)
        | inr e ↦ inr ((λ x. absurd (cc (referred x))), rw e at law ∙ taken (has_text n) _ kept)
      ]
    where
      left_alone : (t k : Bool) (o : Option Node) → (if t && (k && false) then none else o) ≡ o
      left_alone t k o = ground arith

      taken :
          (t k : Bool) (o : Option Node)
          → (if t && (k && true) then none else o) ≡ (if t && k then none else o)
      taken t k o = ground arith
