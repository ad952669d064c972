-- ===== src/ComposeFile.antt =====
-- pkg/component/compose_file.go: the editor of compose files that keeps their text. A file is the
-- list of its lines; an operation finds a block of lines by their indentation and puts others in its
-- place. The indexes are those of the source, as are the places where a search starts and stops.
pub mod Sections
pub mod Strings
pub mod Env
pub mod Flexible
pub mod Build
pub mod Volumes
pub mod View
mod Tests
use sitectl.Prelude.{
  ℕ, zero, suc, ◌+◌, Bool, true, false, not, ◌&&◌, ◌||◌, Option, none, some, List, [], ◌∷◌, ◌++◌,
  if◌then◌else◌, is_empty, is_some, nat_eq, ltb, leb, take, drop, replicate, length, get_elem?,
  keep,
}
use sitectl.Result.{Result, ok, err}
use sitectl.Text.{Text, ◌==◌, trim_space, trim_left, has_prefix, join, split}

pub data Error : Type 0 where
  service_missing : Text → Error
  service_empty : Error
  not_a_sequence : Text → Text → Error
  block_empty : Text → Text → Error
  malformed : Text → Error
  scalar_value : Text → Text → Error
  in_build : Text → Error → Error
  in_build_args : Text → Error → Error

abbrev pub Lines : Type 0
Lines = List Text

-- The lines afterwards, and the result: an error does not undo what was written before it.
abbrev pub Edit : Type 0 → Type 0
Edit A = Lines → Lines × Result Error A

abbrev pub blank : ℕ
blank = b' '

abbrev pub spaces : ℕ → Text
spaces n = replicate n blank

-- strings.TrimSpace(line) == ""
unfoldable pub is_blank : Text → Bool
is_blank line = is_empty (trim_space line)

-- leadingSpaces
unfoldable pub leading_spaces : Text → ℕ
leading_spaces [] = 0
leading_spaces (c ∷ s) = let rest = suc (leading_spaces s) in if nat_eq c blank then rest else 0

abbrev pub with_colon : Text → Text
with_colon key = key ++ b':' ∷ []

abbrev pub add_offset : ℕ → Option ℕ → Option ℕ
add_offset start none = none
add_offset start (some k) = some (start + k)

abbrev pub next_offset : Option ℕ → Option ℕ
next_offset none = none
next_offset (some k) = some (suc k)

-- The loop of findMapKey, over the lines from its start on
unfoldable pub key_offset : Text → ℕ → Lines → Option ℕ
key_offset prefix indent [] = none
key_offset prefix indent (line ∷ lines) =
    let rest = next_offset (key_offset prefix indent lines) in
    if is_blank line
    then rest
    else if ltb (leading_spaces line) indent
    then none
    else if nat_eq (leading_spaces line) indent && has_prefix line prefix
    then some 0
    else rest

-- findMapKey
unfoldable pub find_map_key : Lines → ℕ → Text → ℕ → Option ℕ
unfolding key_offset
find_map_key lines start key indent =
    add_offset start (key_offset (spaces indent ++ with_colon key) indent (drop start lines))

-- The loop of findBlockEnd, over the lines behind its start
unfoldable pub end_offset : ℕ → Lines → ℕ
end_offset indent [] = 0
end_offset indent (line ∷ lines) =
    let rest = suc (end_offset indent lines) in
    if is_blank line then rest else if leb (leading_spaces line) indent then 0 else rest

-- findBlockEnd
unfoldable pub find_block_end : Lines → ℕ → ℕ → ℕ
unfolding end_offset
find_block_end lines start indent = suc start + end_offset indent (drop (suc start) lines)

-- The lines from one index up to another, and new lines in their place
abbrev pub slice : Lines → ℕ → ℕ → Lines
slice lines from to = drop from (take to lines)

abbrev pub splice : Lines → ℕ → ℕ → Lines → Lines
splice lines from to new = take from lines ++ (new ++ drop to lines)

-- insertLines
abbrev pub insert_lines : Lines → ℕ → Lines → Lines
insert_lines lines index inserted = splice lines index index inserted

abbrev pub line_at : Lines → ℕ → Text
line_at lines i = elim (get_elem? lines i) [ none ↦ [] | some line ↦ line ]

-- insertionIndexBeforeTrailingBlanks
unfoldable pub insertion_index_before_trailing_blanks : Lines → ℕ → ℕ
insertion_index_before_trailing_blanks lines zero = 0
insertion_index_before_trailing_blanks lines (suc i) =
    let before = insertion_index_before_trailing_blanks lines i in
    if is_blank (line_at lines i) then before else suc i

-- composeContentLines
unfoldable pub compose_content_lines : Lines → Lines
unfolding is_blank
compose_content_lines lines = keep (λ line. not (is_blank line)) lines

-- Save: the file is removed if it has no content, or else written.
pub data Saved : Type 0 where
  removed : Saved
  written : Text → Saved

unfoldable pub save : Lines → Saved
unfolding compose_content_lines join
save lines =
    if is_empty (compose_content_lines lines) then removed else written (join lines (b'\n' ∷ []))

-- The lines of a file that was read
unfoldable pub load_compose_file : Text → Lines
unfolding split
load_compose_file raw = split (λ c. nat_eq c b'\n') raw
