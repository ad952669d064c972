-- ===== src/ComposeFile/Sections.antt =====
-- pkg/component/compose_file.go: entries of top-level sections, such as services and volumes.
use sitectl.Prelude.{
  ℕ, suc, Bool, Option, none, some, [], ◌∷◌, ◌++◌, if◌then◌else◌, is_some, length, nat_eq,
}
use sitectl.Result.{ok, err}
use sitectl.Text.{Text, codes, trim_right, join, split}
use sitectl.ComposeFile.{
  block_empty, Lines, Edit, is_blank, with_colon, find_map_key, find_block_end, slice, splice,
  insert_lines, insertion_index_before_trailing_blanks,
}

-- An entry behind the header of its section, if there is a section
abbrev pub find_below : Lines → Text → Option ℕ → Option ℕ
find_below lines key none = none
find_below lines key (some s) = find_map_key lines (suc s) key 2

-- findSectionEntry; findService is this at "services".
unfoldable pub find_section_entry : Lines → Text → Text → Option ℕ
find_section_entry lines section key = find_below lines key (find_map_key lines 0 section 0)

abbrev pub find_service : Lines → Text → Option ℕ
find_service lines service = find_section_entry lines (codes "services") service

-- HasService, HasVolume
unfoldable pub has_service : Lines → Text → Bool
unfolding find_section_entry find_map_key
has_service lines name = is_some (find_service lines name)

unfoldable pub has_volume : Lines → Text → Bool
unfolding find_section_entry find_map_key
has_volume lines name = is_some (find_section_entry lines (codes "volumes") name)

-- The lines without the block at an entry's line, if there is an entry
abbrev pub delete_at : Lines → Option ℕ → Lines
delete_at lines none = lines
delete_at lines (some entry) = splice lines entry (find_block_end lines entry 2) []

-- deleteSectionEntry; DeleteService, DeleteVolume and DeleteSectionEntry call it.
unfoldable pub delete_section_entry : Text → Text → Lines → Lines
delete_section_entry section key lines = delete_at lines (find_section_entry lines section key)

unfoldable pub delete_service : Text → Lines → Lines
delete_service name lines = delete_section_entry (codes "services") name lines

unfoldable pub delete_volume : Text → Lines → Lines
delete_volume name lines = delete_section_entry (codes "volumes") name lines

abbrev pub block_at : Lines → Option ℕ → Option Text
block_at lines none = none
block_at lines (some entry) =
    some (join (slice lines entry (find_block_end lines entry 2)) (b'\n' ∷ []))

-- sectionEntryBlock, SectionEntryBlock
unfoldable pub section_entry_block : Lines → Text → Text → Option Text
section_entry_block lines section key = block_at lines (find_section_entry lines section key)

-- The lines of a block, put behind the last content of the section that starts at `section`
unfoldable pub insert_block : Text → ℕ → Lines → Lines
insert_block block section lines =
    insert_lines lines
      (insertion_index_before_trailing_blanks lines (find_block_end lines section 0))
      (split (λ c. nat_eq c b'\n') (trim_right (λ c. nat_eq c b'\n') block))

-- The section, put at the end of the file if it is missing, with a block behind its content
abbrev pub add_block : Text → Text → Lines → Option ℕ → Lines
add_block section block lines (some s) = insert_block block s lines
add_block section block lines none =
    insert_block block (length lines) (lines ++ with_colon section ∷ [])

-- addSectionEntryBlock, AddSectionEntryBlock
unfoldable pub add_section_entry_block : Text → Text → Text → Edit (Unit {0})
add_section_entry_block section name block lines =
    if is_blank block
    then (lines, err (block_empty section name))
    else if is_some (find_section_entry lines section name)
    then (lines, ok tt)
    else (add_block section block lines (find_map_key lines 0 section 0), ok tt)
