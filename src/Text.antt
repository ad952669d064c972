-- ===== src/Text.antt =====
-- The strings of the program, as their code points, and what it uses of Go's `strings` package.
-- A Go string is read as the list of its code points (the text is valid UTF-8), on which equality,
-- prefixes, splits and the order are those of the bytes. Only letters of ASCII change case.
pub mod Sort
pub mod Equality
pub mod Number
pub mod Print
use Prim.Native.Char.{code}
use sitectl.Prelude.{
  ℕ, ◌+◌, String, Bool, true, false, not, ◌&&◌, ◌||◌, Option, none, some, List, [], ◌∷◌, ◌++◌, leb,
  nat_eq, if◌then◌else◌, is_empty, keep,
}

abbrev pub Text : Type 0
Text = List ℕ

abbrev pub codes : String → Text
codes String.[] = []
codes (String.◌∷◌ c s) = code c ∷ codes s

infix 50 ◌==◌
unfoldable pub ◌==◌ : Text → Text → Bool
[] == [] = true
[] == (d ∷ t) = false
(c ∷ s) == [] = false
(c ∷ s) == (d ∷ t) = nat_eq c d && s == t

-- unicode.IsSpace
unfoldable pub is_space : ℕ → Bool
is_space c =
    leb 9 c && leb c 13
    || nat_eq c 32
    || nat_eq c 0x85
    || nat_eq c 0xA0
    || nat_eq c 0x1680
    || leb 0x2000 c && leb c 0x200a
    || nat_eq c 0x2028
    || nat_eq c 0x2029
    || nat_eq c 0x202f
    || nat_eq c 0x205f
    || nat_eq c 0x3000

-- strings.TrimLeftFunc, strings.TrimRightFunc
unfoldable pub trim_left : (ℕ → Bool) → Text → Text
trim_left p [] = []
trim_left p (c ∷ s) = let rest = trim_left p s in if p c then rest else c ∷ s

unfoldable pub trim_right : (ℕ → Bool) → Text → Text
trim_right p [] = []
trim_right p (c ∷ s) = let rest = trim_right p s in if p c && is_empty rest then [] else c ∷ rest

-- strings.TrimFunc; strings.Trim with a cutset is this at the test for its members
unfoldable pub trim : (ℕ → Bool) → Text → Text
unfolding trim_left trim_right
trim p s = trim_right p (trim_left p s)

unfoldable pub trim_space : Text → Text
unfolding trim is_space
trim_space s = trim is_space s

-- What follows the prefix, if the text has it.
unfoldable pub strip_prefix : Text → Text → Option Text
strip_prefix [] s = some s
strip_prefix (d ∷ p) [] = none
strip_prefix (d ∷ p) (c ∷ s) = let rest = strip_prefix p s in if nat_eq c d then rest else none

unfoldable pub has_prefix : Text → Text → Bool
unfolding strip_prefix
has_prefix s p = elim (strip_prefix p s) [ none ↦ false | some rest ↦ true ]

unfoldable pub trim_prefix : Text → Text → Text
unfolding strip_prefix
trim_prefix s p = elim (strip_prefix p s) [ none ↦ s | some rest ↦ rest ]

-- strings.Contains
unfoldable pub contains : Text → Text → Bool
unfolding has_prefix
contains [] sub = is_empty sub
contains (c ∷ s) sub = has_prefix (c ∷ s) sub || contains s sub

-- strings.ContainsAny, with the set given by its test
unfoldable pub contains_any : Text → (ℕ → Bool) → Bool
contains_any [] p = false
contains_any (c ∷ s) p = p c || contains_any s p

-- strings.Replace(s, old, new, 1), for an `old` that is not empty
unfoldable pub replace_first : Text → Text → Text → Text
unfolding strip_prefix
replace_first [] old new = []
replace_first (c ∷ s) old new =
    let rest = replace_first s old new in
    elim (strip_prefix old (c ∷ s)) [ none ↦ c ∷ rest | some tail ↦ new ++ tail ]

unfoldable pub push_head : ℕ → List Text → List Text
push_head c [] = (c ∷ []) ∷ []
push_head c (p ∷ ps) = (c ∷ p) ∷ ps

-- strings.Split at every code point that passes the test: always one part at least
unfoldable pub split : (ℕ → Bool) → Text → List Text
unfolding push_head
split p [] = [] ∷ []
split p (c ∷ s) = let rest = split p s in if p c then [] ∷ rest else push_head c rest

-- strings.Fields
unfoldable pub fields : Text → List Text
unfolding split is_space
fields s = keep (λ part. not (is_empty part)) (split is_space s)

unfoldable pub join : List Text → Text → Text
join [] sep = []
join (p ∷ []) sep = p
join (p ∷ q ∷ ps) sep = p ++ sep ++ join (q ∷ ps) sep

pub record Cut : Type 0 where
  pub before : Text
  pub after : Text
  pub found : Bool

-- strings.Cut at one code point
unfoldable pub cut : Text → ℕ → Cut
cut [] sep = record { before = []; after = []; found = false }
cut (c ∷ s) sep =
    let rest = cut s sep in
    if nat_eq c sep
    then record { before = []; after = s; found = true }
    else record rest { before = c ∷ rest.before }

unfoldable pub lower : ℕ → ℕ
lower c = if leb b'A' c && leb c b'Z' then c + 32 else c

unfoldable pub to_lower : Text → Text
unfolding lower
to_lower [] = []
to_lower (c ∷ s) = lower c ∷ to_lower s

unfoldable pub equal_fold : Text → Text → Bool
unfolding ◌==◌ to_lower
equal_fold a b = to_lower a == to_lower b
