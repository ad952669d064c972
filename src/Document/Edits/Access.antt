-- ===== src/Document/Edits/Access.antt =====
-- What an operation on a path reads and writes of the whole document.
use sitectl.Prelude.{
  true, Option, none, some, List, [], ◌∷◌, ◌++◌, ◌≡◌, refl, sym, ap, ◌∙◌, ◌⊎◌, arith, inl, inr,
  Bool-cases,
}
use sitectl.Text.{Text}
use sitectl.Yaml.{document, Node, mk, nil, cons, mapping, is_mapping, mapping_value, as_mapping}
use sitectl.Yaml.Mapping.{IsMap, IsWellFormed, AllWellFormed}
use sitectl.Yaml.Update.{IsMap-is_mapping, IsMap-as_mapping, IsWellFormed-as_mapping}
use sitectl.Document.{
  Document, mapping_root, with_root, ensure_mapping_root, first_child, init, last,
}
use sitectl.Document.Find.{find}

-- The value at a path of keys below the root
unfoldable pub at : Document → List Text → Option Node
unfolding mapping_root find
at d q = elim (mapping_root d.node) [ none ↦ none | some root ↦ find root q ]

-- A document node whose trees are well formed
abbrev pub IsDocument : Node → Type 0
IsDocument (mk document t v s c) = AllWellFormed c
IsDocument (mk _ t v s c) = ⊥

pub init-last : (s : Text) (rest : List Text) → init s rest ++ last s rest ∷ [] ≡ s ∷ rest
unfolding init last
init-last s [] = refl
init-last s (t ∷ rest) = ap (λ l. s ∷ l) (init-last t rest)

pub at_root :
    (d : Document) (root : Node) (q : List Text)
    → mapping_root d.node ≡ some root
    → at d q ≡ find root q
unfolding at
at_root d root q h = rw (h, at)

pub at-none : (d : Document) (q : List Text) → mapping_root d.node ≡ none → at d q ≡ none
unfolding at
at-none d q h = rw (h, at)

pub mapping_root-IsMap :
    (n root : Node) → IsDocument n → mapping_root n ≡ some root → IsMap root × IsWellFormed root
unfolding mapping_root
mapping_root-IsMap (mk document t v s nil) root w h = cc
mapping_root-IsMap (mk document t v s (cons r rest)) root w h = elim (Bool-cases (is_mapping r)) [
  | inl e ↦ let same : r ≡ root = ground arith in rw (← same) (IsMap-is_mapping r w.0 e, w.0)
  | inr e ↦ absurd (ground arith)
]
mapping_root-IsMap (mk _ t v s c) root w h = elim w [ ]

pub mapping_root-with_root :
    (n root root' : Node)
    → mapping_root n ≡ some root
    → is_mapping root' ≡ true
    → mapping_root (with_root n root') ≡ some root'
unfolding mapping_root
mapping_root-with_root (mk k t v s nil) root root' h m = cc
mapping_root-with_root (mk k t v s (cons r rest)) root root' h m = rw m

pub with_root_self : (n root : Node) → mapping_root n ≡ some root → with_root n root ≡ n
unfolding mapping_root
with_root_self (mk k t v s nil) root h = refl
with_root_self (mk k t v s (cons r rest)) root h = ground arith

pub mapping_root-ensured :
    (n root' : Node)
    → is_mapping root' ≡ true
    → mapping_root (with_root (ensure_mapping_root n) root') ≡ some root'
unfolding mapping_root ensure_mapping_root
mapping_root-ensured (mk k t v s nil) root' m = rw m
mapping_root-ensured (mk k t v s (cons r rest)) root' m = rw m

pub ensured-IsMap :
    (n : Node)
    → IsDocument n
    → IsMap (first_child (ensure_mapping_root n))
      × IsWellFormed (first_child (ensure_mapping_root n))
unfolding first_child ensure_mapping_root
ensured-IsMap (mk document t v s nil) w = (tt, (tt, tt))
ensured-IsMap (mk document t v s (cons r rest)) w =
    (IsMap-as_mapping r w.0, IsWellFormed-as_mapping r w.0)
ensured-IsMap (mk _ t v s c) w = elim w [ ]

pub IsDocument-with_root :
    (n root : Node) → IsDocument n → IsWellFormed root → IsDocument (with_root n root)
IsDocument-with_root (mk document t v s nil) root w wr = tt
IsDocument-with_root (mk document t v s (cons r rest)) root w wr = (wr, w.1)
IsDocument-with_root (mk _ t v s c) root w wr = elim w [ ]

pub IsDocument-ensured : (n : Node) → IsDocument n → IsDocument (ensure_mapping_root n)
unfolding ensure_mapping_root
IsDocument-ensured (mk document t v s nil) w = ((tt, tt), tt)
IsDocument-ensured (mk document t v s (cons r rest)) w = (IsWellFormed-as_mapping r w.0, w.1)
IsDocument-ensured (mk _ t v s c) w = elim w [ ]

-- Where the root is a mapping it stays; otherwise the new root has no keys.
pub ensured_root :
    (n : Node)
    → ((root : Node) × (mapping_root n ≡ some root)
        × (ensure_mapping_root n ≡ n)
        × (first_child n ≡ root))
      ⊎ ((mapping_root n ≡ none)
          × ((k : Text) → mapping_value (first_child (ensure_mapping_root n)) k ≡ none))
unfolding mapping_root ensure_mapping_root first_child mapping_value as_mapping
ensured_root (mk k t v s nil) = inr (refl, λ k. refl)
ensured_root (mk k t v s (cons (mk mapping t' v' s' c) rest)) =
    inl (mk mapping t' v' s' c, refl, refl, refl)
ensured_root (mk k t v s (cons (mk _ t' v' s' c) rest)) = inr (refl, λ j. refl)

pub find_bare :
    (n : Node) (s : Text) (q : List Text)
    → ((k : Text) → mapping_value n k ≡ none)
    → find n (s ∷ q) ≡ none
unfolding find
find_bare n s q h = rw (h s, find)

-- Making the root a mapping changes nothing that is found.
pub find-ensured :
    (d : Document) (s : Text) (q : List Text)
    → find (first_child (ensure_mapping_root d.node)) (s ∷ q) ≡ at d (s ∷ q)
find-ensured d s q = elim (ensured_root d.node) [
  | inl (root, h, same, child) ↦ rw (same, child) (sym (at_root d root (s ∷ q) h))
  | inr (h, bare) ↦ find_bare _ s q bare ∙ sym (at-none d (s ∷ q) h)
]
