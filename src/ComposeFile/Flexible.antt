-- ===== src/ComposeFile/Flexible.antt =====
-- pkg/component/compose_file.go: mappings at any indentation. `quote` is fmt's %q.
use sitectl.Prelude.{
  ℕ, zero, suc, ◌+◌, ◌-◌, Bool, true, false, not, ◌&&◌, ◌||◌, Option, none, some, [], ◌∷◌, ◌++◌,
  if◌then◌else◌, is_empty, nat_eq, ltb, length, any,
}
use sitectl.Result.{ok, err}
use sitectl.Text.{Text, codes, ◌==◌, trim_space, trim_left, trim_right, has_prefix, strip_prefix}
use sitectl.ComposeFile.{
  Error, malformed, scalar_value, Lines, Edit, blank, spaces, is_blank, leading_spaces, with_colon,
  find_map_key, find_block_end, slice, splice, insert_lines, insertion_index_before_trailing_blanks,
  line_at,
}

-- flexibleMapLocation
pub record Location : Type 0 where
  pub index : ℕ
  pub indent : ℕ
  pub step : ℕ
  pub key : Text

-- A step of an edit, and what follows it if it does not fail
infixl 5 ◌>>=◌
abbrev pub ◌>>=◌ : {A B : Type 0} → Edit A → (A → Edit B) → Edit B
◌>>=◌ m f lines =
    let (lines', r) = m lines in elim r [ ok a ↦ f a lines' | err e ↦ (lines', err e) ]

abbrev pub done : {A : Type 0} → A → Edit A
done a lines = (lines, ok a)

abbrev pub fail : {A : Type 0} → Error → Edit A
fail e lines = (lines, err e)

-- The lines as they are, and other lines in their place
abbrev pub with_lines : {A : Type 0} → (Lines → Edit A) → Edit A
with_lines f lines = f lines lines

abbrev pub write : (Lines → Lines) → Edit (Unit {0})
write f lines = (f lines, ok tt)

-- An error with what it is about
abbrev pub wrapping : {A : Type 0} → (Error → Error) → Edit A → Edit A
wrapping wrap m lines =
    let (lines', r) = m lines in elim r [ ok a ↦ (lines', ok a) | err e ↦ (lines', err (wrap e)) ]

abbrev pub is_gap : ℕ → Bool
is_gap c = nat_eq c blank || nat_eq c b'\t'

-- The quotes that are open at a place of a value
pub record Quotes : Type 0 where
  pub single : Bool
  pub double : Bool
  pub escaped : Bool

abbrev no_quotes : Quotes
no_quotes = record { single = false; double = false; escaped = false }

abbrev after : ℕ → Quotes → Quotes
after c q =
    if q.double && q.escaped
    then record q { escaped = false }
    else if q.double && nat_eq c b'\\'
    then record q { escaped = true }
    else if nat_eq c b'\''
    then record q { single = if q.double then q.single else not q.single }
    else if nat_eq c b'"'
    then record q { double = if q.single then q.double else not q.double }
    else q

-- A # that starts a comment: outside of quotes, first or behind a gap
abbrev starts_comment : ℕ → Bool → Quotes → Bool
starts_comment c gap q = nat_eq c b'#' && not q.single && not q.double && gap

-- The text in front of the comment, read from the left
unfoldable pub comment_offset : Text → Bool → Quotes → Option ℕ
comment_offset [] gap q = none
comment_offset (c ∷ s) gap q =
    let rest = comment_offset s (is_gap c) (after c q) in
    if starts_comment c gap q then some 0 else elim rest [ none ↦ none | some k ↦ some (suc k) ]

pub record Parts : Type 0 where
  pub before : Text
  pub comment : Text

abbrev cut_at : Text → ℕ → Parts
cut_at [] k = record { before = []; comment = [] }
cut_at (c ∷ s) zero = record { before = []; comment = c ∷ s }
cut_at (c ∷ s) (suc k) = let rest = cut_at s k in record rest { before = c ∷ rest.before }

-- splitFlexibleInlineComment: a comment takes the gap in front of it along.
unfoldable pub split_flexible_inline_comment : Text → Parts
unfolding comment_offset
split_flexible_inline_comment v = elim (comment_offset v true no_quotes) [
  | none ↦ record { before = v; comment = [] }
  | some k ↦ cut_at v (length (trim_right is_gap (cut_at v k).before))
]

-- flexibleMappingLineParts
unfoldable pub flexible_mapping_line_parts : Text → Text → Option Parts
unfolding split_flexible_inline_comment trim_left
flexible_mapping_line_parts line key =
    elim (strip_prefix (with_colon key) (trim_left (λ c. nat_eq c blank) line)) [
      | none ↦ none
      | some rest ↦
          let parts = split_flexible_inline_comment rest in
          some (record parts { before = trim_space parts.before })
    ]

abbrev is_empty_map : Text → Bool
is_empty_map v = v == codes "{}" || v == codes "{ }"

abbrev is_tagged : Text → Bool
is_tagged v = has_prefix v (codes "&") || has_prefix v (codes "!")

-- flexibleMappingLineCanHaveChildren
unfoldable pub flexible_mapping_line_can_have_children : Text → Text → Bool
unfolding flexible_mapping_line_parts
flexible_mapping_line_can_have_children line key = elim (flexible_mapping_line_parts line key) [
  | none ↦ false
  | some p ↦ is_empty p.before || is_empty_map p.before || is_tagged p.before
]

abbrev is_comment : Text → Bool
is_comment line = has_prefix (trim_space line) (codes "#")

-- The indent of the first line of content, where it is below the parent
unfoldable pub first_indent : ℕ → Lines → Option ℕ
unfolding is_blank leading_spaces
first_indent parent [] = none
first_indent parent (line ∷ lines) =
    let rest = first_indent parent lines in
    if is_blank line || is_comment line
    then rest
    else if ltb parent (leading_spaces line)
    then some (leading_spaces line)
    else rest

-- flexibleDirectChildIndent
unfoldable pub flexible_direct_child_indent : Lines → ℕ → ℕ → ℕ → ℕ
unfolding first_indent
flexible_direct_child_indent lines parent indent fallback =
    elim (first_indent indent (slice lines (suc parent) (find_block_end lines parent indent))) [
      | some child ↦ child
      | none ↦ indent + (if nat_eq fallback 0 then 2 else fallback)
    ]

-- flexibleChildStep
unfoldable pub flexible_child_step : Lines → ℕ → ℕ → ℕ → ℕ
unfolding flexible_direct_child_indent
flexible_child_step lines parent indent fallback =
    let step = flexible_direct_child_indent lines parent indent fallback - indent in
    if nat_eq step 0 then if nat_eq fallback 0 then 2 else fallback else step

abbrev bare_line : Location → Text → Text
bare_line l comment = spaces l.indent ++ (with_colon l.key ++ comment)

-- normalizeFlexibleMappingParent: the scalar that stood behind the key, if one is allowed
unfoldable pub normalize_flexible_mapping_parent : Location → Bool → Edit Text
unfolding flexible_mapping_line_parts
normalize_flexible_mapping_parent l allow_scalar lines =
    elim (flexible_mapping_line_parts (line_at lines l.index) l.key) [
      | none ↦ (lines, err (malformed l.key))
      | some p ↦
          let bare = splice lines l.index (suc l.index) (bare_line l p.comment ∷ []) in
          if is_empty p.before
          then (lines, ok [])
          else if is_empty_map p.before
          then (bare, ok [])
          else if is_tagged p.before
          then (lines, ok [])
          else if allow_scalar
          then (bare, ok p.before)
          else (lines, err (scalar_value l.key p.before))
    ]

-- The place behind the content of a mapping
abbrev pub behind : Lines → ℕ → ℕ → ℕ
behind lines index indent =
    insertion_index_before_trailing_blanks lines (find_block_end lines index indent)

-- flexibleMappingChild
unfoldable pub flexible_mapping_child : Lines → Location → Text → Option Location
unfolding flexible_direct_child_indent flexible_child_step
flexible_mapping_child lines parent key =
    let indent = flexible_direct_child_indent lines parent.index parent.indent parent.step in
    elim (find_map_key lines (suc parent.index) key indent) [
      | none ↦ none
      | some index ↦ some (record {
        index = index;
        indent = indent;
        step = flexible_child_step lines index indent parent.step;
        key = key;
      })
    ]

-- setFlexibleMappingScalar behind the check of its parent
unfoldable pub put_scalar : Location → Text → Text → Lines → Lines
unfolding flexible_direct_child_indent flexible_mapping_line_parts
put_scalar parent key value lines =
    let indent = flexible_direct_child_indent lines parent.index parent.indent parent.step in
    let line = spaces indent ++ (with_colon key ++ blank ∷ value) in
    elim (find_map_key lines (suc parent.index) key indent) [
      | none ↦ insert_lines lines (behind lines parent.index parent.indent) (line ∷ [])
      | some k ↦
          let comment = elim (flexible_mapping_line_parts (line_at lines k) key) as (λ _. Text) [
            | none ↦ []
            | some p ↦ p.comment
          ] in
          splice lines k (find_block_end lines k indent) ((line ++ comment) ∷ [])
    ]

-- setFlexibleMappingScalar
unfoldable pub set_flexible_mapping_scalar : Location → Text → Text → Edit (Unit {0})
unfolding put_scalar normalize_flexible_mapping_parent
set_flexible_mapping_scalar parent key value = do
  _ ← normalize_flexible_mapping_parent parent false
  write (put_scalar parent key value)

-- deleteFlexibleMappingChild, and whether there was one
unfoldable pub delete_flexible_mapping_child : Location → Text → Lines → Lines × Bool
unfolding flexible_mapping_child
delete_flexible_mapping_child parent key lines = elim (flexible_mapping_child lines parent key) [
  | none ↦ (lines, false)
  | some l ↦ (splice lines l.index (find_block_end lines l.index l.indent) [], true)
]

-- flexibleMappingHasContent
unfoldable pub flexible_mapping_has_content : Lines → Location → Bool
unfolding is_blank
flexible_mapping_has_content lines l =
    any (λ line. not (is_blank line) && not (is_comment line))
      (slice lines (suc l.index) (find_block_end lines l.index l.indent))
