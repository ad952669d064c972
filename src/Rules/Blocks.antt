-- ===== src/Rules/Blocks.antt =====
-- pkg/component/file_rules.go: blocks of text between two markers in a file, or without markers.
use sitectl.Prelude.{
  ℕ, suc, ◌+◌, Bool, true, false, not, ◌||◌, Option, none, some, [], ◌∷◌, ◌++◌, if◌then◌else◌,
  is_empty, nat_eq, take, drop, length,
}
use sitectl.Text.{
  Text, ◌==◌, trim_space, trim_left, trim_right, has_prefix, contains, replace_first,
}
use sitectl.Rules.{FileRule}

abbrev next_index : Option ℕ → Option ℕ
next_index none = none
next_index (some i) = some (suc i)

-- strings.Index
unfoldable pub index : Text → Text → Option ℕ
unfolding has_prefix
index [] sub = if is_empty sub then some 0 else none
index (c ∷ s) sub =
    let rest = next_index (index s sub) in if has_prefix (c ∷ s) sub then some 0 else rest

abbrev pub newline : Text
newline = b'\n' ∷ []

abbrev pub is_newline : ℕ → Bool
is_newline c = nat_eq c b'\n'

abbrev pub is_break : ℕ → Bool
is_break c = nat_eq c b'\r' || nat_eq c b'\n'

-- The texts in front of a block and behind it, joined
unfoldable pub without_block : Text → Text → Text
unfolding trim_left trim_right
without_block before after =
    let prefix = trim_right is_break before in
    let suffix = trim_left is_break after in
    if is_empty prefix
    then suffix
    else if is_empty suffix
    then prefix ++ newline
    else prefix ++ (newline ++ newline ++ suffix)

-- Where a block with markers starts, and its length from there
pub record Span : Type 0 where
  pub start : ℕ
  pub size : ℕ

abbrev pub span_from : Text → Text → Option ℕ → Option Span
span_from body stop none = none
span_from body stop (some i) = elim (index (drop i body) stop) [
  | none ↦ none
  | some j ↦ some (record { start = i; size = j + length stop })
]

unfoldable pub find_block : Text → Text → Text → Option Span
find_block body start stop = span_from body stop (index body start)

abbrev pub remove_span : Text → Option Span → Text × Bool
remove_span body none = (body, false)
remove_span body (some b) = (without_block (take b.start body) (drop (b.start + b.size) body), true)

-- The content of a rule without the newlines behind it
abbrev pub bare_content : FileRule → Text
bare_content rule = trim_right is_newline rule.content

abbrev pub has_markers : FileRule → Bool
has_markers rule =
    not (is_empty (trim_space rule.start_marker) || is_empty (trim_space rule.end_marker))

abbrev pub find_rule : Text → FileRule → Option Span
find_rule body rule = find_block body (trim_space rule.start_marker) (trim_space rule.end_marker)

-- removeMarkedBlock. The loop that steps over line breaks behind the block and the TrimLeft of the
-- suffix take the same line breaks.
unfoldable pub remove_marked_block : Text → FileRule → Text × Bool
unfolding find_block trim_space replace_first ◌==◌
remove_marked_block body rule =
    let updated = replace_first body (bare_content rule) [] in
    if has_markers rule
    then remove_span body (find_rule body rule)
    else if is_empty (bare_content rule)
    then (body, false)
    else (updated, not (updated == body))

-- The block as it is written
abbrev pub block_text : FileRule → Text
block_text rule =
    rule.start_marker
    ++ (newline ++ (bare_content rule ++ (newline ++ (rule.end_marker ++ newline))))

abbrev pub append_block : Text → Text → Text
append_block without block =
    if is_empty (trim_space without)
    then block
    else trim_right is_newline without ++ (newline ++ newline ++ block)

-- ensureMarkedBlock
unfoldable pub ensure_marked_block : Text → FileRule → Text
unfolding remove_marked_block trim_right
ensure_marked_block body rule = append_block (remove_marked_block body rule).0 (block_text rule)

abbrev pub span_text : Text → Span → Text
span_text body b = take b.size (drop b.start body)

-- textFileRulePresent
unfoldable pub text_file_rule_present : Text → FileRule → Bool
unfolding find_block contains trim_space
text_file_rule_present body rule =
    if has_markers rule
    then elim (find_rule body rule) [
      | none ↦ false
      | some b ↦ is_empty (bare_content rule) || contains (span_text body b) (bare_content rule)
    ]
    else is_empty (bare_content rule) || contains body (bare_content rule)
