-- ===== src/ComposeFile/View/Shift.antt =====
-- pkg/component/compose_file.go: the search for a key and for the end of its block, read behind a
-- number of lines, and the search for a key whose lines behind it are replaced.
use sitectl.Prelude.{
  ℕ, zero, suc, ◌+◌, ◌≡◌, refl, sym, ap, ◌∙◌, subst, false, Bool-cases, ◌⊎◌, inl, inr, Option, none,
  some, [], ◌∷◌, ◌++◌, append_assoc, take, drop, arith, take-add, drop-add,
}
use sitectl.Text.{Text, has_prefix}
use sitectl.ComposeFile.{
  Lines, is_blank, line_at, key_offset, next_offset, find_block_end, slice, splice,
}
use sitectl.ComposeFile.View.{line_cases}

-- A line is passed over, or the search ends at it, whatever stands behind it.
key_offset_cases :
    (p : Text) (n : ℕ) (line : Text)
    → ((lines : Lines) → key_offset p n (line ∷ lines) ≡ next_offset (key_offset p n lines))
      ⊎ ((is_blank line ≡ false) × ((lines : Lines) → key_offset p n (line ∷ lines) ≡ some 0))
      ⊎ ((lines : Lines) → key_offset p n (line ∷ lines) ≡ none)
unfolding key_offset
key_offset_cases p n line = elim (line_cases n line) [
  | inl b ↦ inl (λ lines. rw b refl)
  | inr (inl (b, l, m)) ↦ inr (inr (λ lines. rw (b, l) refl))
  | inr (inr (inl (b, l, e, m))) ↦ elim (Bool-cases (has_prefix line p)) [
    | inl h ↦ inr (inl (b, λ lines. rw (b, l, e, h) refl))
    | inr h ↦ inl (λ lines. rw (b, l, e, h) refl)
  ]
  | inr (inr (inr (b, l, e, m))) ↦ inl (λ lines. rw (b, l, e) refl)
]

-- The key is found at the same place with other lines behind it, which are then what is there.
abbrev Stays : Text → ℕ → Lines → Lines → Option ℕ → Type 0
Stays p n lines new none = Unit
Stays p n lines new (some k) =
    (key_offset p n (take (suc k) lines ++ new) ≡ some k)
    × (take (suc k) (take (suc k) lines ++ new) ≡ take (suc k) lines)
    × (drop (suc k) (take (suc k) lines ++ new) ≡ new)

Stays-next_offset :
    (p : Text) (n : ℕ) (line : Text) (lines new : Lines) (o : Option ℕ)
    → ((ls : Lines) → key_offset p n (line ∷ ls) ≡ next_offset (key_offset p n ls))
    → Stays p n lines new o
    → Stays p n (line ∷ lines) new (next_offset o)
Stays-next_offset p n line lines new none h s = tt
Stays-next_offset p n line lines new (some k) h (found, taken, dropped) =
    (h (take (suc k) lines ++ new) ∙ ap next_offset found, ap (λ ls. line ∷ ls) taken, dropped)

key_offset-nil : (p : Text) (n : ℕ) → key_offset p n [] ≡ none
unfolding key_offset
key_offset-nil p n = refl

Stays-key_offset :
    (p : Text) (n : ℕ) (lines new : Lines) → Stays p n lines new (key_offset p n lines)
Stays-key_offset p n [] new = subst (Stays p n [] new) (sym (key_offset-nil p n)) tt
Stays-key_offset p n (line ∷ lines) new = elim (key_offset_cases p n line) [
  | inl h ↦ subst (Stays p n (line ∷ lines) new) (sym (h lines)) (
      Stays-next_offset p n line lines new (key_offset p n lines) h
        (Stays-key_offset p n lines new))
  | inr (inl (b, h)) ↦ subst (Stays p n (line ∷ lines) new) (sym (h lines)) (h new, refl, refl)
  | inr (inr h) ↦ subst (Stays p n (line ∷ lines) new) (sym (h lines)) tt
]

pub Stays-found :
    (p : Text) (n : ℕ) (lines new : Lines) (k : ℕ)
    → key_offset p n lines ≡ some k
    → (key_offset p n (take (suc k) lines ++ new) ≡ some k)
      × (take (suc k) (take (suc k) lines ++ new) ≡ take (suc k) lines)
      × (drop (suc k) (take (suc k) lines ++ new) ≡ new)
Stays-found p n lines new k h = subst (Stays p n lines new) h (Stays-key_offset p n lines new)

-- The line of a key that is found is not blank.
abbrev Holds : Lines → Option ℕ → Type 0
Holds lines none = Unit
Holds lines (some k) = is_blank (line_at lines k) ≡ false

Holds-next_offset :
    (line : Text) (lines : Lines) (o : Option ℕ)
    → Holds lines o
    → Holds (line ∷ lines) (next_offset o)
Holds-next_offset line lines none h = tt
Holds-next_offset line lines (some k) h = h

Holds-key_offset : (p : Text) (n : ℕ) (lines : Lines) → Holds lines (key_offset p n lines)
Holds-key_offset p n [] = subst (Holds []) (sym (key_offset-nil p n)) tt
Holds-key_offset p n (line ∷ lines) = elim (key_offset_cases p n line) [
  | inl h ↦
      subst (Holds (line ∷ lines)) (sym (h lines))
        (Holds-next_offset line lines (key_offset p n lines) (Holds-key_offset p n lines))
  | inr (inl (b, h)) ↦ subst (Holds (line ∷ lines)) (sym (h lines)) b
  | inr (inr h) ↦ subst (Holds (line ∷ lines)) (sym (h lines)) tt
]

pub line_at-key_offset :
    (p : Text) (n : ℕ) (lines : Lines) (k : ℕ)
    → key_offset p n lines ≡ some k
    → is_blank (line_at lines k) ≡ false
line_at-key_offset p n lines k h = subst (Holds lines) h (Holds-key_offset p n lines)

pub find_block_end-add :
    (lines : Lines) (a k n : ℕ)
    → find_block_end lines (a + k) n ≡ a + find_block_end (drop a lines) k n
unfolding find_block_end
find_block_end-add lines a k n =
    let e : suc (a + k) ≡ a + suc k = omega arith in
    rw e (rw (drop-add a (suc k) lines) (omega arith))

pub splice-add :
    (lines : Lines) (a from to : ℕ) (new : Lines)
    → splice lines (a + from) (a + to) new ≡ take a lines ++ splice (drop a lines) from to new
splice-add lines a from to new =
    rw (take-add a from lines, drop-add a to lines)
      (append_assoc (take a lines) (take from (drop a lines)) (new ++ drop to (drop a lines)))

drop-take-nil :
    (a from to : ℕ)
    → Path Lines (drop (suc (a + from)) (take (suc (a + to)) [])) (drop from (take to []))
drop-take-nil a zero zero = refl
drop-take-nil a zero (suc to) = refl
drop-take-nil a (suc from) zero = refl
drop-take-nil a (suc from) (suc to) = refl

pub slice-add :
    (lines : Lines) (a from to : ℕ) → slice lines (a + from) (a + to) ≡ slice (drop a lines) from to
slice-add lines zero from to =
    let e : 0 + from ≡ from = omega arith in let e' : 0 + to ≡ to = omega arith in rw (e, e') refl
slice-add [] (suc a) from to =
    let e : suc a + from ≡ suc (a + from) = omega arith in
    let e' : suc a + to ≡ suc (a + to) = omega arith in rw (e, e') (drop-take-nil a from to)
slice-add (line ∷ lines) (suc a) from to =
    let e : suc a + from ≡ suc (a + from) = omega arith in
    let e' : suc a + to ≡ suc (a + to) = omega arith in rw (e, e') (slice-add lines a from to)
