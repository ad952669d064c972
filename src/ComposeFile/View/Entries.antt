-- ===== src/ComposeFile/View/Entries.antt =====
-- pkg/component/compose_file.go: the entries of a top-level section, looked up and deleted, beside
-- the same on the view of the section.
use sitectl.Prelude.{
  ℕ, suc, ◌+◌, ◌≡◌, refl, sym, ap, ap₂, ◌∙◌, inl, inr, Option, Option-cases, none, some, [], ◌∷◌,
  ◌++◌, take, drop, arith, take-append-drop,
}
use sitectl.Text.{Text, join}
use sitectl.ComposeFile.{
  Lines, spaces, with_colon, key_offset, add_offset, find_map_key, find_block_end,
}
use sitectl.ComposeFile.Sections.{
  find_section_entry, delete_section_entry, section_entry_block, delete_at, block_at, find_below,
}
use sitectl.ComposeFile.View.{Item, View, view, view_lines, view_lines-view, lookup}
use sitectl.ComposeFile.View.Offsets.{
  cut_from, block_from, block_of, view_without, view-cut_from, block_from-key_offset,
}
use sitectl.ComposeFile.View.Shift.{Stays-found, find_block_end-add, splice-add, slice-add}

-- The lines up to the section's header, and the view of those below it
pub record SectionView : Type 0 where
  pub before : Lines
  pub content : View

abbrev view_below : Lines → Option ℕ → Option SectionView
view_below lines none = none
view_below lines (some s) =
    some (record { before = take (suc s) lines; content = view 2 (drop (suc s) lines) })

unfoldable pub section_view : Text → Lines → Option SectionView
section_view section lines = view_below lines (find_map_key lines 0 section 0)

abbrev pub entry_prefix : Text → Text
entry_prefix key = spaces 2 ++ with_colon key

abbrev pub section_prefix : Text → Text
section_prefix section = spaces 0 ++ with_colon section

abbrev pub section_lines : SectionView → Lines
section_lines v = v.before ++ view_lines v.content

-- The lines of a section that was found, or else those of the file
abbrev pub printed : Lines → Option SectionView → Lines
printed lines none = lines
printed lines (some v) = section_lines v

-- The section without the first entry of that key, and the text of that entry
abbrev pub without_entry : Text → Option SectionView → Option SectionView
without_entry key none = none
without_entry key (some v) = some (record v { content = view_without (entry_prefix key) v.content })

abbrev pub entry_of : Text → Option SectionView → Option Item
entry_of key none = none
entry_of key (some v) = lookup (entry_prefix key) v.content.items

abbrev block_text : Option Lines → Option Text
block_text none = none
block_text (some ls) = some (join ls (b'\n' ∷ []))

abbrev pub item_block : Option Item → Option Text
item_block none = none
item_block (some i) = some (join (i.header ∷ i.rest) (b'\n' ∷ []))

pub find_map_key-start :
    (lines : Lines) (key : Text) (n : ℕ)
    → find_map_key lines 0 key n ≡ key_offset (spaces n ++ with_colon key) n lines
unfolding find_map_key
find_map_key-start lines key n = add_offset-zero (key_offset (spaces n ++ with_colon key) n lines)
  where
    add_offset-zero : (o : Option ℕ) → add_offset 0 o ≡ o
    add_offset-zero none = refl
    add_offset-zero (some k) = let e : 0 + k ≡ k = omega arith in rw e refl

abbrev below : Lines → ℕ → Lines
below lines s = drop (suc s) lines

abbrev entry_offset : Text → Lines → Option ℕ
entry_offset key lines = key_offset (entry_prefix key) 2 lines

delete_found :
    (lines : Lines) (s : ℕ) (o : Option ℕ)
    → delete_at lines (add_offset (suc s) o) ≡ take (suc s) lines ++ cut_from 2 (below lines s) o
delete_found lines s none = sym (take-append-drop (suc s) lines)
delete_found lines s (some k) =
    rw (find_block_end-add lines (suc s) k 2)
      (splice-add lines (suc s) k (find_block_end (below lines s) k 2) [])

block_found :
    (lines : Lines) (s : ℕ) (o : Option ℕ)
    → block_at lines (add_offset (suc s) o) ≡ block_text (block_from 2 (below lines s) o)
block_found lines s none = refl
block_found lines s (some k) = rw (find_block_end-add lines (suc s) k 2) (
    ap (λ ls. some (join ls (b'\n' ∷ [])))
      (slice-add lines (suc s) k (find_block_end (below lines s) k 2)))

pub find_section_entry-found :
    (section key : Text) (lines : Lines) (s : ℕ)
    → find_map_key lines 0 section 0 ≡ some s
    → find_section_entry lines section key ≡ add_offset (suc s) (entry_offset key (below lines s))
unfolding find_section_entry find_map_key
find_section_entry-found section key lines s found = ap (find_below lines key) found

find_section_entry-none :
    (section key : Text) (lines : Lines)
    → find_map_key lines 0 section 0 ≡ none
    → find_section_entry lines section key ≡ none
unfolding find_section_entry
find_section_entry-none section key lines absent = ap (find_below lines key) absent

delete_section_entry-none :
    (section key : Text) (lines : Lines)
    → find_map_key lines 0 section 0 ≡ none
    → delete_section_entry section key lines ≡ lines
unfolding delete_section_entry
delete_section_entry-none section key lines absent =
    ap (delete_at lines) (find_section_entry-none section key lines absent)

-- The deletion touches the lines below the header only.
delete_section_entry-below :
    (section key : Text) (lines : Lines) (s : ℕ)
    → find_map_key lines 0 section 0 ≡ some s
    → delete_section_entry section key lines
      ≡ take (suc s) lines ++ cut_from 2 (below lines s) (entry_offset key (below lines s))
unfolding delete_section_entry
delete_section_entry-below section key lines s found =
    ap (delete_at lines) (find_section_entry-found section key lines s found)
    ∙ delete_found lines s (entry_offset key (below lines s))

section_view-found :
    (section : Text) (lines : Lines) (s : ℕ)
    → find_map_key lines 0 section 0 ≡ some s
    → section_view section lines
      ≡ some (record { before = take (suc s) lines; content = view 2 (below lines s) })
unfolding section_view
section_view-found section lines s found = ap (view_below lines) found

section_view-none :
    (section : Text) (lines : Lines)
    → find_map_key lines 0 section 0 ≡ none
    → section_view section lines ≡ none
unfolding section_view
section_view-none section lines absent = ap (view_below lines) absent

-- The view of a section has all of the file's lines, in their order.
pub printed-section_view :
    (section : Text) (lines : Lines) → printed lines (section_view section lines) ≡ lines
printed-section_view section lines = elim (Option-cases (find_map_key lines 0 section 0)) [
  | inl absent ↦ ap (printed lines) (section_view-none section lines absent)
  | inr (s, found) ↦
      ap (printed lines) (section_view-found section lines s found)
      ∙ ap (λ ls. take (suc s) lines ++ ls) (view_lines-view 2 (below lines s))
      ∙ take-append-drop (suc s) lines
]

-- Deleting an entry from the lines of a file deletes from the section's view the first entry of that
-- name, and nothing else: all other entries, the lines in front of the section and those behind it
-- stay. A file without the section keeps none.
pub section_view-delete_section_entry :
    (section key : Text) (lines : Lines)
    → section_view section (delete_section_entry section key lines)
      ≡ without_entry key (section_view section lines)
section_view-delete_section_entry section key lines =
    elim (Option-cases (find_map_key lines 0 section 0)) [
      | inl absent ↦
          rw
            (
              delete_section_entry-none section key lines absent,
              section_view-none section lines absent,
            )
            refl
      | inr (s, found) ↦
          let rest = cut_from 2 (below lines s) (entry_offset key (below lines s)) in
          let (stays, before, behind) =
            Stays-found (section_prefix section) 0 lines rest s
              (sym (find_map_key-start lines section 0) ∙ found) in
          let again = find_map_key-start (take (suc s) lines ++ rest) section 0 ∙ stays in
          rw
            (
              delete_section_entry-below section key lines s found,
              section_view-found section lines s found,
            )
            (section_view-found section (take (suc s) lines ++ rest) s again
              ∙ ap₂ (λ b ls. some (record { before = b; content = view 2 ls })) before behind
              ∙ ap (λ v. some (record { before = take (suc s) lines; content = v }))
                  (view-cut_from (entry_prefix key) 2 (below lines s)))
    ]

-- A file with an entry deleted is what is printed for the section's view without the first entry of
-- that name.
delete_section_entry-printed :
    (section key : Text) (lines : Lines)
    → delete_section_entry section key lines
      ≡ printed lines (without_entry key (section_view section lines))
delete_section_entry-printed section key lines =
    elim (Option-cases (find_map_key lines 0 section 0)) [
      | inl absent ↦
          delete_section_entry-none section key lines absent
          ∙ sym (
              ap (λ v. printed lines (without_entry key v))
                (section_view-none section lines absent))
      | inr (s, found) ↦
          let all = section_view-delete_section_entry section key lines in
          let deleted = delete_section_entry section key lines in
          let now = ap (without_entry key) (section_view-found section lines s found) in
          sym (printed-section_view section deleted)
          ∙ ap (printed deleted) (all ∙ now)
          ∙ sym (ap (printed lines) now)
    ]

block_text-block_of : (o : Option Item) → block_text (block_of o) ≡ item_block o
block_text-block_of none = refl
block_text-block_of (some i) = refl

-- The text that is given for an entry is that of the first entry of that name in the section's view.
pub section_entry_block-section_view :
    (section key : Text) (lines : Lines)
    → section_entry_block lines section key ≡ item_block (entry_of key (section_view section lines))
unfolding section_entry_block
section_entry_block-section_view section key lines =
    elim (Option-cases (find_map_key lines 0 section 0)) [
      | inl absent ↦
          ap (block_at lines) (find_section_entry-none section key lines absent)
          ∙ sym (ap (λ v. item_block (entry_of key v)) (section_view-none section lines absent))
      | inr (s, found) ↦
          ap (block_at lines) (find_section_entry-found section key lines s found)
          ∙ block_found lines s (entry_offset key (below lines s))
          ∙ ap block_text (block_from-key_offset (entry_prefix key) 2 (below lines s))
          ∙ block_text-block_of (lookup (entry_prefix key) (view 2 (below lines s)).items)
          ∙ sym (ap (λ v. item_block (entry_of key v)) (section_view-found section lines s found))
    ]
