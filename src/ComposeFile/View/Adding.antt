-- ===== src/ComposeFile/View/Adding.antt =====
-- pkg/component/compose_file.go: an entry that is added to a section is found in it.
use sitectl.Prelude.{
  ℕ, zero, suc, ◌+◌, ◌≤◌, ◌≡◌, refl, sym, ap, ◌∙◌, Bool, true, false, not, ◌&&◌, ◌||◌, Option, none,
  some, [], ◌∷◌, ◌++◌, is_some, nat_eq, leb, take, drop, all, arith,
}
use sitectl.Text.{Text, has_prefix, split, trim_right}
use sitectl.ComposeFile.{
  Lines, is_blank, leading_spaces, key_offset, next_offset, end_offset, add_offset, find_map_key,
  find_block_end, line_at, insertion_index_before_trailing_blanks,
}
use sitectl.ComposeFile.Sections.{find_section_entry, insert_block}
use sitectl.ComposeFile.View.Shift.{Stays-found, splice-add, line_at-key_offset}
use sitectl.ComposeFile.View.Entries.{
  entry_prefix, section_prefix, find_map_key-start, find_section_entry-found,
}

-- A line that can stand in a section: an entry, what is below one, or a blank line
unfoldable pub is_deep : Text → Bool
unfolding is_blank leading_spaces
is_deep line = is_blank line || leb 2 (leading_spaces line)

-- The header of an entry of that name
unfoldable pub is_header : Text → Text → Bool
unfolding is_blank leading_spaces has_prefix
is_header name line =
    not (is_blank line) && nat_eq (leading_spaces line) 2 && has_prefix line (entry_prefix name)

is_some-next_offset : (o : Option ℕ) → is_some (next_offset o) ≡ is_some o
is_some-next_offset none = refl
is_some-next_offset (some k) = refl

is_some-add_offset : (a : ℕ) (o : Option ℕ) → is_some (add_offset a o) ≡ is_some o
is_some-add_offset a none = refl
is_some-add_offset a (some k) = refl

-- An entry's header is found behind lines that can stand in a section.
key_offset-deep :
    (name line : Text) (front back : Lines)
    → all is_deep front ≡ true
    → is_header name line ≡ true
    → is_some (key_offset (entry_prefix name) 2 (front ++ line ∷ back)) ≡ true
unfolding key_offset is_deep is_header
key_offset-deep name line [] back h e = ground arith
key_offset-deep name line (f ∷ front) back h e =
    let ih = key_offset-deep name line front back in
    let next = is_some-next_offset (key_offset (entry_prefix name) 2 (front ++ line ∷ back)) in
    ground arith

insertion_index-bound : (lines : Lines) (i : ℕ) → insertion_index_before_trailing_blanks lines i ≤ i
unfolding insertion_index_before_trailing_blanks
insertion_index-bound lines zero = omega arith
insertion_index-bound lines (suc i) = let ih = insertion_index-bound lines i in ground arith

line_at-add : (lines : Lines) (a k : ℕ) → line_at lines (a + k) ≡ line_at (drop a lines) k
line_at-add lines zero k = let e : 0 + k ≡ k = omega arith in rw e refl
line_at-add [] (suc a) k = refl
line_at-add (line ∷ lines) (suc a) k =
    let e : suc a + k ≡ suc (a + k) = omega arith in rw e (line_at-add lines a k)

-- The place behind the content of a section, counted from its header on
insertion_index-add :
    (lines : Lines) (s m : ℕ)
    → is_blank (line_at lines s) ≡ false
    → insertion_index_before_trailing_blanks lines (suc s + m)
      ≡ suc s + insertion_index_before_trailing_blanks (drop (suc s) lines) m
unfolding insertion_index_before_trailing_blanks
insertion_index-add lines s zero h = let e : suc s + 0 ≡ suc s = omega arith in rw e (rw h refl)
insertion_index-add lines s (suc m) h =
    let e : suc s + suc m ≡ suc (suc s + m) = omega arith in
    rw e (rw (line_at-add lines (suc s) m) (rw (insertion_index-add lines s m h) (ground arith)))

all-take :
    (p : Text → Bool) (lines : Lines) (i j : ℕ)
    → i ≤ j
    → all p (take j lines) ≡ true
    → all p (take i lines) ≡ true
all-take p lines zero j le h = refl
all-take p [] (suc i) j le h = refl
all-take p (line ∷ lines) (suc i) zero le h = absurd (omega arith)
all-take p (line ∷ lines) (suc i) (suc j) le h =
    let ih = all-take p lines i j (omega arith) in ground arith

-- The lines of a block, as they are put into a file
abbrev pub block_lines : Text → Lines
block_lines block = split (λ c. nat_eq c b'\n') (trim_right (λ c. nat_eq c b'\n') block)

abbrev pub starts_with : Text → Lines → Bool
starts_with name [] = false
starts_with name (line ∷ lines) = is_header name line

-- The lines of the section whose header stands at that index
abbrev pub section_at : Lines → ℕ → Lines
section_at lines s = take (end_offset 0 (drop (suc s) lines)) (drop (suc s) lines)

insert_block-below :
    (section block : Text) (lines : Lines) (s : ℕ)
    → find_map_key lines 0 section 0 ≡ some s
    → (j : ℕ) × (j ≤ end_offset 0 (drop (suc s) lines))
      × (insert_block block s lines
          ≡ take (suc s) lines
            ++ (take j (drop (suc s) lines) ++ (block_lines block ++ drop j (drop (suc s) lines))))
unfolding insert_block find_block_end
insert_block-below section block lines s found =
    let below = drop (suc s) lines in
    let m = end_offset 0 below in
    let j = insertion_index_before_trailing_blanks below m in
    let content =
      line_at-key_offset (section_prefix section) 0 lines s
        (sym (find_map_key-start lines section 0) ∙ found) in
    (
      j,
      insertion_index-bound below m,
      rw (insertion_index-add lines s m content) (splice-add lines (suc s) j j (block_lines block)),
    )

deep_block :
    (name : Text) (front block back : Lines)
    → all is_deep front ≡ true
    → starts_with name block ≡ true
    → is_some (key_offset (entry_prefix name) 2 (front ++ (block ++ back))) ≡ true
deep_block name front [] back h e = cc
deep_block name front (line ∷ block) back h e = key_offset-deep name line front (block ++ back) h e

-- A block that is put into a section makes an entry.
pub find_section_entry-insert_block :
    (section name block : Text) (lines : Lines) (s : ℕ)
    → find_map_key lines 0 section 0 ≡ some s
    → all is_deep (section_at lines s) ≡ true
    → starts_with name (block_lines block) ≡ true
    → is_some (find_section_entry (insert_block block s lines) section name) ≡ true
find_section_entry-insert_block section name block lines s found deep starts =
    let below = drop (suc s) lines in
    let (j, le, inserted) = insert_block-below section block lines s found in
    let rest = take j below ++ (block_lines block ++ drop j below) in
    let all-lines = take (suc s) lines ++ rest in
    let (stays, _, behind) =
      Stays-found (section_prefix section) 0 lines rest s
        (sym (find_map_key-start lines section 0) ∙ found) in
    let again = find_map_key-start all-lines section 0 ∙ stays in
    ap (λ ls. is_some (find_section_entry ls section name)) inserted
    ∙ ap is_some (find_section_entry-found section name all-lines s again)
    ∙ is_some-add_offset (suc s) (key_offset (entry_prefix name) 2 (drop (suc s) all-lines))
    ∙ ap (λ ls. is_some (key_offset (entry_prefix name) 2 ls)) behind
    ∙ deep_block name (take j below) (block_lines block) (drop j below)
        (all-take is_deep below j (end_offset 0 below) le deep) starts
