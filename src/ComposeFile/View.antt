-- ===== src/ComposeFile/View.antt =====
-- What the lines of a mapping are to the editor of compose files: entries, each a line at the
-- mapping's indent with the deeper and blank lines behind it. The editor of
-- pkg/component/compose_file.go keeps no such structure; its functions search the lines.
pub mod Offsets
pub mod Shift
pub mod Entries
pub mod Others
pub mod Adding
pub mod Added
use sitectl.Prelude.{
  ℕ, suc, ◌≡◌, refl, ap, Bool, true, false, Bool-cases, not, ◌||◌, ◌⊎◌, inl, inr, ◌∙◌, Option, none,
  some, List, [], ◌∷◌, ◌++◌, append_assoc, if◌then◌else◌, ltb, leb, nat_eq, take, drop, arith,
}
use sitectl.Text.{Text, has_prefix, codes, join}
use sitectl.ComposeFile.{Lines, is_blank, leading_spaces, find_map_key, spaces, with_colon}

pub record Item : Type 0 where
  pub header : Text
  pub rest : Lines

-- Lines in front of the first entry, the entries, and the lines from the end of the mapping on
pub record View : Type 0 where
  pub lead : Lines
  pub items : List Item
  pub after : Lines

unfoldable pub view : ℕ → Lines → View
view n [] = record { lead = []; items = []; after = [] }
view n (line ∷ lines) =
    let v = view n lines in
    if is_blank line
    then record v { lead = line ∷ v.lead }
    else if ltb (leading_spaces line) n
    then record { lead = []; items = []; after = line ∷ lines }
    else if nat_eq (leading_spaces line) n
    then record {
      lead = [];
      items = record { header = line; rest = v.lead } ∷ v.items;
      after = v.after;
    }
    else record v { lead = line ∷ v.lead }

abbrev pub item_lines : List Item → Lines
item_lines [] = []
item_lines (i ∷ is) = i.header ∷ i.rest ++ item_lines is

abbrev pub view_lines : View → Lines
view_lines v = v.lead ++ (item_lines v.items ++ v.after)

-- The first entry whose header has the prefix, and the entries without it
abbrev pub lookup : Text → List Item → Option Item
lookup prefix [] = none
lookup prefix (i ∷ is) =
    let rest = lookup prefix is in if has_prefix i.header prefix then some i else rest

abbrev pub without : Text → List Item → List Item
without prefix [] = []
without prefix (i ∷ is) =
    let rest = without prefix is in if has_prefix i.header prefix then is else i ∷ rest

-- The kinds of a line to a mapping at `n`: blank, above it, at it, below it
pub line_cases :
    (n : ℕ) (line : Text)
    → (is_blank line ≡ true)
      ⊎ ((is_blank line ≡ false)
          × (ltb (leading_spaces line) n ≡ true)
          × (leb (leading_spaces line) n ≡ true))
      ⊎ ((is_blank line ≡ false)
          × (ltb (leading_spaces line) n ≡ false)
          × (nat_eq (leading_spaces line) n ≡ true)
          × (leb (leading_spaces line) n ≡ true))
      ⊎ ((is_blank line ≡ false)
          × (ltb (leading_spaces line) n ≡ false)
          × (nat_eq (leading_spaces line) n ≡ false)
          × (leb (leading_spaces line) n ≡ false))
line_cases n line = ground arith

-- The lines of the view of some lines are those lines.
pub view_lines-view : (n : ℕ) (lines : Lines) → view_lines (view n lines) ≡ lines
unfolding view
view_lines-view n [] = refl
view_lines-view n (line ∷ lines) = elim (line_cases n line) [
  | inl b ↦ rw b (ap (λ ls. line ∷ ls) (view_lines-view n lines))
  | inr (inl (b, l, _)) ↦ rw (b, l) refl
  | inr (inr (inl (b, l, e, _))) ↦
      rw (b, l, e)
        (ap (λ ls. line ∷ ls)
          (append_assoc v.lead (item_lines v.items) v.after ∙ view_lines-view n lines))
  | inr (inr (inr (b, l, e, _))) ↦ rw (b, l, e) (ap (λ ls. line ∷ ls) (view_lines-view n lines))
]
  where
    v : View
    v = view n lines
