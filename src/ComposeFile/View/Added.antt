-- ===== src/ComposeFile/View/Added.antt =====
-- pkg/component/compose_file.go: addSectionEntryBlock as a whole, with and without the section.
use sitectl.Prelude.{
  ℕ, suc, ◌≡◌, refl, sym, ap, ◌∙◌, Bool, true, false, Bool-cases, not, ◌&&◌, inl, inr, Option, none,
  some, [], ◌∷◌, ◌++◌, is_some, nat_eq, ltb, take, drop, all, length, arith,
}
use sitectl.Text.{Text, has_prefix, strip_prefix}
use sitectl.ComposeFile.{
  Lines, is_blank, leading_spaces, key_offset, next_offset, end_offset, with_colon, find_map_key,
}
use sitectl.ComposeFile.Sections.{find_section_entry, add_block, add_section_entry_block}
use sitectl.ComposeFile.View.{line_cases}
use sitectl.ComposeFile.View.Entries.{section_prefix, find_map_key-start}
use sitectl.ComposeFile.View.Adding.{
  is_deep, starts_with, block_lines, section_at, find_section_entry-insert_block,
}

-- A section's name makes the line of a section.
unfoldable pub is_top : Text → Bool
is_top section =
    not (is_blank (with_colon section)) && nat_eq (leading_spaces (with_colon section)) 0

has_prefix_refl : (s : Text) → has_prefix s s ≡ true
unfolding has_prefix strip_prefix
has_prefix_refl [] = refl
has_prefix_refl (c ∷ s) = let ih = has_prefix_refl s in ground arith

none_above : (k : ℕ) → ltb k 0 ≡ true → ⊥
none_above k h = ground arith

next_offset-none : (o : Option ℕ) → next_offset o ≡ none → o ≡ none
next_offset-none none h = refl
next_offset-none (some k) h = cc

appended_offset :
    (section : Text) (lines : Lines)
    → is_top section ≡ true
    → key_offset (section_prefix section) 0 lines ≡ none
    → key_offset (section_prefix section) 0 (lines ++ with_colon section ∷ []) ≡ some (length lines)
unfolding key_offset is_top
appended_offset section [] top h = let p = has_prefix_refl (with_colon section) in ground arith
appended_offset section (line ∷ lines) top h =
    let step : next_offset (key_offset (section_prefix section) 0 lines) ≡ none
        → next_offset (key_offset (section_prefix section) 0 (lines ++ with_colon section ∷ []))
          ≡ some (suc (length lines)) =
      λ k. ap next_offset (
        appended_offset section lines top
          (next_offset-none (key_offset (section_prefix section) 0 lines) k)) in
    elim (line_cases 0 line) [
      | inl b ↦ rw b (step (rw (b, key_offset) at h))
      | inr (inl (b, l, _)) ↦ absurd (none_above (leading_spaces line) l)
      | inr (inr (inl (b, l, e, _))) ↦ elim (Bool-cases (has_prefix line (with_colon section))) [
        | inl p ↦ let no = rw (b, l, e, p, key_offset) at h in cc
        | inr p ↦ rw (b, l, e, p) (step (rw (b, l, e, p, key_offset) at h))
      ]
      | inr (inr (inr (b, l, e, _))) ↦ rw (b, l, e) (step (rw (b, l, e, key_offset) at h))
    ]

drop-appended : (lines : Lines) (line : Text) → drop (suc (length lines)) (lines ++ line ∷ []) ≡ []
drop-appended [] line = refl
drop-appended (l ∷ lines) line = drop-appended lines line

abbrev regular_below : Lines → Option ℕ → Bool
regular_below lines none = true
regular_below lines (some s) = all is_deep (section_at lines s)

-- The lines of a section, if there is one, can all stand in it.
unfoldable pub is_regular : Text → Lines → Bool
is_regular section lines = regular_below lines (find_map_key lines 0 section 0)

deep-nil : all is_deep (take (end_offset 0 []) []) ≡ true
unfolding end_offset
deep-nil = refl

add_block-entry :
    (section name block : Text) (lines : Lines) (o : Option ℕ)
    → is_top section ≡ true
    → find_map_key lines 0 section 0 ≡ o
    → regular_below lines o ≡ true
    → starts_with name (block_lines block) ≡ true
    → is_some (find_section_entry (add_block section block lines o) section name) ≡ true
add_block-entry section name block lines (some s) top found regular starts =
    find_section_entry-insert_block section name block lines s found regular starts
add_block-entry section name block lines none top absent regular starts =
    let longer = lines ++ with_colon section ∷ [] in
    find_section_entry-insert_block section name block longer (length lines)
      (find_map_key-start longer section 0
        ∙ appended_offset section lines top (sym (find_map_key-start lines section 0) ∙ absent))
      (ap (λ below. all is_deep (take (end_offset 0 below) below))
          (drop-appended lines (with_colon section))
        ∙ deep-nil)
      starts

-- After a block is added for a name, the section has an entry of that name, also where it had one
-- before or where the section was missing. The block has content and starts with the entry's header;
-- the lines of the section so far are blank or two spaces deep at least, and its name can stand at
-- the left margin.
pub find_section_entry-add_section_entry_block :
    (section name block : Text) (lines : Lines)
    → is_top section ≡ true
    → is_regular section lines ≡ true
    → is_blank block ≡ false
    → starts_with name (block_lines block) ≡ true
    → is_some (find_section_entry (add_section_entry_block section name block lines).0 section name)
      ≡ true
unfolding add_section_entry_block is_regular
find_section_entry-add_section_entry_block section name block lines top regular content starts =
    elim (Bool-cases (is_some (find_section_entry lines section name))) [
      | inl there ↦ rw (content, there) there
      | inr absent ↦
          rw (content, absent)
            (add_block-entry section name block lines (find_map_key lines 0 section 0) top refl
              regular starts)
    ]
