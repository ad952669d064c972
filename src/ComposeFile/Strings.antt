-- ===== src/ComposeFile/Strings.antt =====
-- pkg/component/compose_file.go: the strings of a key of a service, as a list, a block scalar or one
-- value on the key's line.
use sitectl.Prelude.{
  ℕ, suc, Bool, true, false, not, ◌&&◌, ◌||◌, Option, none, some, List, [], ◌∷◌, ◌++◌,
  if◌then◌else◌, is_empty, any, keep, map,
}
use sitectl.Result.{ok, err}
use sitectl.Text.{Text, codes, ◌==◌, trim_space, has_prefix, trim_prefix}
use sitectl.ComposeFile.{
  service_missing, not_a_sequence, Lines, Edit, spaces, is_blank, with_colon, find_map_key,
  find_block_end, slice, splice, insert_lines, insertion_index_before_trailing_blanks, line_at,
  compose_content_lines,
}
use sitectl.ComposeFile.Sections.{find_service}

abbrev pub item_mark : Text
item_mark = codes "- "

-- Lines of a service's key, and of an item or a line of text below it
abbrev pub key_line : Text → Text
key_line key = spaces 4 ++ with_colon key

abbrev pub item_line : Text → Text
item_line value = spaces 6 ++ (item_mark ++ value)

abbrev pub text_line : Text → Text
text_line value = spaces 6 ++ value

-- The key of a service, at the four spaces that the editor expects
abbrev pub find_key : Lines → ℕ → Text → Option ℕ
find_key lines service key = find_map_key lines (suc service) key 4

-- SetServiceStringList
unfoldable pub set_service_string_list : Text → Text → List Text → Edit (Unit {0})
set_service_string_list service key values lines = elim (find_service lines service) [
  | none ↦ (lines, err (service_missing service))
  | some s ↦ elim (find_key lines s key) [
    | some k ↦
        (splice lines k (find_block_end lines k 4) (key_line key ∷ map item_line values), ok tt)
    | none ↦
        (insert_lines lines (find_block_end lines s 2) (key_line key ∷ map item_line values), ok tt)
  ]
]

-- isBlockScalarKeyLine
unfoldable pub is_block_scalar_key_line : Text → Text → Bool
unfolding trim_space has_prefix
is_block_scalar_key_line line key =
    let value = trim_space (trim_prefix line (with_colon key)) in
    has_prefix line (with_colon key)
    && (has_prefix value (codes ">") || has_prefix value (codes "|"))

-- An item's text, where the line is one
abbrev pub item_text : Text → Text
item_text line = trim_space (trim_prefix (trim_space line) item_mark)

abbrev pub is_item : Text → Bool
is_item line = has_prefix (trim_space line) item_mark

-- The loop over the lines of a list: whether it has the value already, or none at a line that is no
-- item
unfoldable pub listed_in : Text → Lines → Option Bool
listed_in value [] = some false
listed_in value (line ∷ lines) =
    let rest = listed_in value lines in
    if is_item line
    then if item_text line == value then some true else rest
    else if is_blank line
    then rest
    else none

-- The value on the key's own line
abbrev pub inline_value : Text → Text → Text
inline_value line key = trim_space (trim_prefix line (with_colon key))

abbrev pub is_no_value : Text → Bool
is_no_value v = is_empty v || v == codes "{}" || v == codes "[]"

-- The lines that take the place of a key with one value on its line
unfoldable pub as_list : Text → Text → Text → Lines
as_list key existing value =
    key_line key
    ∷ (if is_no_value existing
        then item_line value ∷ []
        else item_line existing ∷ item_line value ∷ [])

-- AppendUniqueServiceString at a key's line `k`, whose text without blanks around it is `line`
unfoldable pub append_at : Text → Text → Text → ℕ → Text → Edit (Unit {0})
unfolding listed_in as_list is_block_scalar_key_line
append_at service key value k line lines =
    let end = find_block_end lines k 4 in
    let below = slice lines (suc k) end in
    let behind = insertion_index_before_trailing_blanks lines end in
    if is_block_scalar_key_line line key
    then if any (λ l. trim_space l == value) below
      then (lines, ok tt)
      else (insert_lines lines behind (text_line value ∷ []), ok tt)
    else if line == with_colon key
    then elim (listed_in value below) [
      | none ↦ (lines, err (not_a_sequence service key))
      | some true ↦ (lines, ok tt)
      | some false ↦ (insert_lines lines behind (item_line value ∷ []), ok tt)
    ]
    else if has_prefix line (with_colon key)
    then if inline_value line key == value
      then (lines, ok tt)
      else (splice lines k end (as_list key (inline_value line key) value), ok tt)
    else (lines, err (not_a_sequence service key))

-- AppendUniqueServiceString behind its trimming
unfoldable pub append_unique_trimmed : Text → Text → Text → Edit (Unit {0})
append_unique_trimmed service key value lines = elim (find_service lines service) [
  | none ↦ (lines, err (service_missing service))
  | some s ↦ elim (find_key lines s key) [
    | none ↦
        (insert_lines lines (find_block_end lines s 2) (key_line key ∷ item_line value ∷ []), ok tt)
    | some k ↦ append_at service key value k (trim_space (line_at lines k)) lines
  ]
]

-- AppendUniqueServiceString
unfoldable pub append_unique_service_string : Text → Text → Text → Edit (Unit {0})
unfolding append_unique_trimmed append_at
append_unique_service_string service key value lines =
    if is_empty (trim_space value)
    then (lines, ok tt)
    else append_unique_trimmed service key (trim_space value) lines

-- The lines of a key without some: the key goes with the last of its content.
unfoldable pub replace_below : ℕ → ℕ → Lines → Lines → Lines
replace_below k end left lines =
    if is_empty (compose_content_lines left)
    then splice lines k end []
    else splice lines (suc k) end left

-- removeServiceStrings at a key's line `k`
unfoldable pub remove_at : (Text → Bool) → Text → ℕ → Text → Lines → Lines
unfolding replace_below is_block_scalar_key_line
remove_at remove key k line lines =
    let end = find_block_end lines k 4 in
    let below = slice lines (suc k) end in
    if is_block_scalar_key_line line key
    then replace_below k end (keep (λ l. not (remove (trim_space l))) below) lines
    else if line == with_colon key
    then replace_below k end (keep (λ l. not (is_item l && remove (item_text l))) below) lines
    else if has_prefix line (with_colon key) && remove (inline_value line key)
    then splice lines k end []
    else lines

-- removeServiceStrings, which never fails
unfoldable pub remove_service_strings : Text → Text → (Text → Bool) → Lines → Lines
unfolding remove_at
remove_service_strings service key remove lines = elim (find_service lines service) [
  | none ↦ lines
  | some s ↦ elim (find_key lines s key) [
    | none ↦ lines
    | some k ↦ remove_at remove key k (trim_space (line_at lines k)) lines
  ]
]

-- RemoveServiceString
unfoldable pub remove_service_string : Text → Text → Text → Lines → Lines
unfolding remove_service_strings
remove_service_string service key value lines =
    if is_empty (trim_space value)
    then lines
    else remove_service_strings service key (λ s. trim_space s == trim_space value) lines

-- RemoveServiceStringsByPrefix
unfoldable pub remove_service_strings_by_prefix : Text → Text → Text → Lines → Lines
unfolding remove_service_strings
remove_service_strings_by_prefix service key prefix lines =
    if is_empty (trim_space prefix)
    then lines
    else remove_service_strings service key (λ s. has_prefix (trim_space s) (trim_space prefix))
        lines
