-- ===== src/ComposeFile/Tests.antt =====
-- A compose file with two services and a volume.
use sitectl.Prelude.{refl, ◌≡◌, ◌≢◌, true, false, is_some, [], ◌∷◌}
use sitectl.Text.{Text, codes}
use sitectl.ComposeFile.{Lines, is_blank}
use sitectl.ComposeFile.Sections.{
  find_section_entry, delete_section_entry, section_entry_block, add_section_entry_block,
}
use sitectl.ComposeFile.View.Entries.{
  section_view, without_entry, entry_of, item_block, section_view-delete_section_entry,
  section_entry_block-section_view,
}
use sitectl.ComposeFile.View.Others.{is_plain, section_entry_block-delete_section_entry}
use sitectl.ComposeFile.View.Adding.{starts_with, block_lines}
use sitectl.ComposeFile.View.Added.{is_top, is_regular, find_section_entry-add_section_entry_block}

abbrev services : Text
services = codes "services"

abbrev file : Lines
file =
    codes "services:"
    ∷ codes "  web:"
    ∷ codes "    image: a"
    ∷ []
    ∷ codes "  db:"
    ∷ codes "    image: b"
    ∷ codes "volumes:"
    ∷ codes "  data: {}"
    ∷ []

section_view-delete_section_entry_example :
    section_view services (delete_section_entry services (codes "web") file)
    ≡ without_entry (codes "web") (section_view services file)
section_view-delete_section_entry_example =
    section_view-delete_section_entry services (codes "web") file

section_entry_block-section_view_example :
    section_entry_block file services (codes "web")
    ≡ item_block (entry_of (codes "web") (section_view services file))
section_entry_block-section_view_example =
    section_entry_block-section_view services (codes "web") file

apart : codes "db" ≢ codes "web"
apart h = cc

web_is_plain : is_plain (codes "web") ≡ true
unfolding sitectl.Text.contains_any
web_is_plain = refl

db_is_plain : is_plain (codes "db") ≡ true
unfolding sitectl.Text.contains_any
db_is_plain = refl

section_entry_block-delete_section_entry_example :
    section_entry_block (delete_section_entry services (codes "web") file) services (codes "db")
    ≡ section_entry_block file services (codes "db")
section_entry_block-delete_section_entry_example =
    section_entry_block-delete_section_entry services (codes "web") (codes "db") file web_is_plain
      db_is_plain apart

abbrev cache : Text
cache = codes "  cache:\n    image: c\n"

services_is_top : is_top services ≡ true
unfolding is_top is_blank sitectl.ComposeFile.leading_spaces sitectl.Text.trim_space
services_is_top = refl

file_is_regular : is_regular services file ≡ true
unfolding is_regular sitectl.ComposeFile.find_map_key sitectl.ComposeFile.View.Adding.is_deep
    sitectl.ComposeFile.end_offset sitectl.Text.trim_space sitectl.Text.has_prefix
file_is_regular = refl

cache_has_content : is_blank cache ≡ false
unfolding is_blank sitectl.Text.trim_space
cache_has_content = refl

cache_starts : starts_with (codes "cache") (block_lines cache) ≡ true
unfolding sitectl.ComposeFile.View.Adding.is_header sitectl.Text.split sitectl.Text.trim_right
    sitectl.Text.trim_space
cache_starts = refl

find_section_entry-add_section_entry_block_example :
    is_some (
      find_section_entry
        (add_section_entry_block services (codes "cache") cache file).0
        services
        (codes "cache"))
    ≡ true
find_section_entry-add_section_entry_block_example =
    find_section_entry-add_section_entry_block services (codes "cache") cache file services_is_top
      file_is_regular cache_has_content cache_starts
