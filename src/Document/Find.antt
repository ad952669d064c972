-- ===== src/Document/Find.antt =====
-- Reading along a path, and what the two descents of the operations leave there.
use sitectl.Prelude.{
  Bool, true, false, Option, none, some, List, [], ◌∷◌, ◌++◌, ◌≡◌, inl, inr, Option-cases,
  if◌then◌else◌, arith,
}
use sitectl.Text.{Text, ◌==◌}
use sitectl.Text.Equality.{eq_refl, eq_iff}
use sitectl.Yaml.{Node, empty_mapping, is_mapping, mapping_value, set_mapping_value}
use sitectl.Yaml.Mapping.{IsMap, IsWellFormed}
use sitectl.Yaml.Update.{mapping_value-set, IsWellFormed-mapping_value}
use sitectl.Document.Touch.{IsLocal, IsLocal-others}

-- The node at a path of keys, if it is there
unfoldable pub find : Node → List Text → Option Node
find n [] = some n
find n (s ∷ rest) = elim (mapping_value n s) [ none ↦ none | some next ↦ find next rest ]

-- The paths part at some key: neither is a prefix of the other.
abbrev pub diverges : List Text → List Text → Bool
diverges [] q = false
diverges (s ∷ p) [] = false
diverges (s ∷ p) (t ∷ q) = if s == t then diverges p q else true

-- The child that a descent goes on from: a new mapping where there is none
unfoldable pub below : Text → Node → Node
below s n = elim (mapping_value n s) [ none ↦ empty_mapping | some next ↦ next ]

pub IsWellFormed-below : (s : Text) (n : Node) → IsWellFormed n → IsWellFormed (below s n)
unfolding below
IsWellFormed-below s n w = elim (Option-cases (mapping_value n s)) [
  | inl e ↦ rw (e, below) (tt, tt)
  | inr (next, e) ↦ rw (e, below) (IsWellFormed-mapping_value n s next w e)
]

pub find-below :
    (s t : Text) (n : Node) (rest : List Text) → find n (s ∷ t ∷ rest) ≡ find (below s n) (t ∷ rest)
unfolding find below mapping_value
find-below s t n rest = elim (Option-cases (mapping_value n s)) [
  | inl e ↦ rw (e, find)
  | inr (next, e) ↦ rw (e, find)
]

-- Nothing is found below a node that is no mapping.
pub find_not_mapping :
    (n : Node) (s : Text) (rest : List Text) → is_mapping n ≡ false → find n (s ∷ rest) ≡ none
unfolding find mapping_value
find_not_mapping n s rest h = ground arith

-- Replacing the child at `s` replaces what is found below it, and nothing else.
pub find-set_self :
    (n : Node) (s : Text) (child : Node) (rest : List Text)
    → IsMap n
    → find (set_mapping_value n s child) (s ∷ rest) ≡ find child rest
unfolding find
find-set_self n s child rest m = ground (arith, mapping_value-set n s s child m, eq_refl s)

pub find-set_ne :
    (n : Node) (s t : Text) (child : Node) (rest : List Text)
    → IsMap n
    → (s == t) ≡ false
    → find (set_mapping_value n s child) (t ∷ rest) ≡ find n (t ∷ rest)
unfolding find
find-set_ne n s t child rest m h = ground (arith, mapping_value-set n s t child m)

pub find_diverging-below :
    (s : Text) (p q : List Text) (n : Node)
    → diverges p q ≡ true
    → find n (s ∷ q) ≡ find (below s n) q
find_diverging-below s [] q n d = cc
find_diverging-below s (u ∷ p) [] n d = cc
find_diverging-below s (u ∷ p) (t ∷ q) n d = find-below s t n q

-- What a local update leaves as it was
pub find-IsLocal :
    (key t : Text) (q : List Text) (update : Node → Node) (n : Node)
    → IsLocal key update
    → IsMap n
    → IsWellFormed n
    → (key == t) ≡ false
    → find (update n) (t ∷ q) ≡ find n (t ∷ q)
unfolding find
find-IsLocal key t q update n local m w h =
    ground (arith, IsLocal-others local n t m w, eq_iff key t)

pub find_one : (n : Node) (key : Text) → find n (key ∷ []) ≡ mapping_value n key
unfolding find
find_one n key = ground arith

pub find-below_snoc :
    (s key : Text) (rest : List Text) (n : Node)
    → find n (s ∷ (rest ++ key ∷ [])) ≡ find (below s n) (rest ++ key ∷ [])
find-below_snoc s key [] n = find-below s key n []
find-below_snoc s key (t ∷ rest) n = find-below s t n (rest ++ key ∷ [])
