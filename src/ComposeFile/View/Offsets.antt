-- ===== src/ComposeFile/View/Offsets.antt =====
-- pkg/component/compose_file.go: what findMapKey and findBlockEnd find, read in the view.
use sitectl.Prelude.{
  ℕ, suc, ◌≡◌, refl, ap, ◌∙◌, Bool-cases, inl, inr, Option, none, some, [], ◌∷◌, take, drop, arith,
}
use sitectl.Text.{Text, has_prefix}
use sitectl.ComposeFile.{Lines, key_offset, next_offset, end_offset, find_block_end, slice, splice}
use sitectl.ComposeFile.View.{Item, View, view, lookup, without, line_cases}

-- The deeper and blank lines at the start, and the lines behind them
pub take-end_offset :
    (n : ℕ) (lines : Lines) → take (end_offset n lines) lines ≡ (view n lines).lead
unfolding view end_offset
take-end_offset n [] = refl
take-end_offset n (line ∷ lines) = elim (line_cases n line) [
  | inl b ↦ rw b (ap (λ ls. line ∷ ls) (take-end_offset n lines))
  | inr (inl (b, l, m)) ↦ rw (b, l, m) refl
  | inr (inr (inl (b, l, e, m))) ↦ rw (b, l, e, m) refl
  | inr (inr (inr (b, l, e, m))) ↦ rw (b, l, e, m) (ap (λ ls. line ∷ ls) (take-end_offset n lines))
]

abbrev pub no_lead : View → View
no_lead v = record v { lead = [] }

pub view-drop :
    (n : ℕ) (lines : Lines) → view n (drop (end_offset n lines) lines) ≡ no_lead (view n lines)
unfolding view end_offset
view-drop n [] = refl
view-drop n (line ∷ lines) = elim (line_cases n line) [
  | inl b ↦ rw b (view-drop n lines)
  | inr (inl (b, l, m)) ↦ rw (b, l, m) (rw (b, l) refl)
  | inr (inr (inl (b, l, e, m))) ↦ rw (b, l, e, m) (rw (b, l, e) refl)
  | inr (inr (inr (b, l, e, m))) ↦ rw (b, l, e, m) (view-drop n lines)
]

find_block_end-suc :
    (line : Text) (lines : Lines) (k n : ℕ)
    → find_block_end (line ∷ lines) (suc k) n ≡ suc (find_block_end lines k n)
unfolding find_block_end
find_block_end-suc line lines k n = omega arith

find_block_end-zero :
    (line : Text) (lines : Lines) (n : ℕ)
    → find_block_end (line ∷ lines) 0 n ≡ suc (end_offset n lines)
unfolding find_block_end
find_block_end-zero line lines n = omega arith

-- The lines of the key that findMapKey finds, up to where findBlockEnd says
abbrev pub block_from : ℕ → Lines → Option ℕ → Option Lines
block_from n lines none = none
block_from n lines (some k) = some (slice lines k (find_block_end lines k n))

block_from-next_offset :
    (n : ℕ) (line : Text) (lines : Lines) (o : Option ℕ)
    → block_from n (line ∷ lines) (next_offset o) ≡ block_from n lines o
block_from-next_offset n line lines none = refl
block_from-next_offset n line lines (some k) = rw (find_block_end-suc line lines k n) refl

abbrev pub block_of : Option Item → Option Lines
block_of none = none
block_of (some i) = some (i.header ∷ i.rest)

pub block_from-key_offset :
    (p : Text) (n : ℕ) (lines : Lines)
    → block_from n lines (key_offset p n lines) ≡ block_of (lookup p (view n lines).items)
unfolding view key_offset
block_from-key_offset p n [] = refl
block_from-key_offset p n (line ∷ lines) =
    let ih =
      block_from-next_offset n line lines (key_offset p n lines)
      ∙ block_from-key_offset p n lines in
    elim (line_cases n line) [
      | inl b ↦ rw b ih
      | inr (inl (b, l, m)) ↦ rw (b, l) refl
      | inr (inr (inl (b, l, e, m))) ↦ elim (Bool-cases (has_prefix line p)) [
        | inl h ↦
            rw (b, l, e, h)
              (rw (find_block_end-zero line lines n)
                (ap (λ ls. some (line ∷ ls)) (take-end_offset n lines)))
        | inr h ↦ rw (b, l, e, h) ih
      ]
      | inr (inr (inr (b, l, e, m))) ↦ rw (b, l, e) ih
    ]

-- The lines without that block
abbrev pub cut_from : ℕ → Lines → Option ℕ → Lines
cut_from n lines none = lines
cut_from n lines (some k) = splice lines k (find_block_end lines k n) []

cut_from-next_offset :
    (n : ℕ) (line : Text) (lines : Lines) (o : Option ℕ)
    → cut_from n (line ∷ lines) (next_offset o) ≡ line ∷ cut_from n lines o
cut_from-next_offset n line lines none = refl
cut_from-next_offset n line lines (some k) = rw (find_block_end-suc line lines k n) refl

abbrev pub view_without : Text → View → View
view_without p v = record v { items = without p v.items }

pub view-cut_from :
    (p : Text) (n : ℕ) (lines : Lines)
    → view n (cut_from n lines (key_offset p n lines)) ≡ view_without p (view n lines)
unfolding view key_offset
view-cut_from p n [] = refl
view-cut_from p n (line ∷ lines) =
    let next = cut_from-next_offset n line lines (key_offset p n lines) in
    let ih = view-cut_from p n lines in
    elim (line_cases n line) [
      | inl b ↦ rw b (rw next (rw (b, ih) refl))
      | inr (inl (b, l, m)) ↦ rw (b, l) (rw (b, l) refl)
      | inr (inr (inl (b, l, e, m))) ↦ elim (Bool-cases (has_prefix line p)) [
        | inl h ↦ rw (b, l, e, h) (rw (find_block_end-zero line lines n) (view-drop n lines))
        | inr h ↦ rw (b, l, e, h) (rw next (rw (b, l, e, ih) refl))
      ]
      | inr (inr (inr (b, l, e, m))) ↦ rw (b, l, e) (rw next (rw (b, l, e, ih) refl))
    ]
