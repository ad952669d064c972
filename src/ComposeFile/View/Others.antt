-- ===== src/ComposeFile/View/Others.antt =====
-- pkg/component/compose_file.go: the entries beside the one that is deleted.
use sitectl.Prelude.{
  ℕ, ◌≡◌, ◌≢◌, refl, sym, ap, ap₂, ◌∙◌, Bool, true, false, Bool-cases, not, arith, inl, inr, Option,
  none, some, List, [], ◌∷◌, ◌++◌, nat_eq, nat_eq_iff,
}
use sitectl.Text.{Text, contains_any, has_prefix, strip_prefix}
use sitectl.ComposeFile.{Lines, with_colon, spaces}
use sitectl.ComposeFile.Sections.{section_entry_block, delete_section_entry}
use sitectl.ComposeFile.View.{Item, lookup, without}
use sitectl.ComposeFile.View.Entries.{
  SectionView, section_view, entry_prefix, entry_of, without_entry, item_block,
  section_view-delete_section_entry, section_entry_block-section_view,
}

-- A name that can stand in front of the colon of a key
abbrev pub is_plain : Text → Bool
is_plain name = not (contains_any name (λ c. nat_eq c b':'))

is_plain-tail : (c : ℕ) (s : Text) → is_plain (c ∷ s) ≡ true → is_plain s ≡ true
unfolding contains_any
is_plain-tail c s h = ground arith

has_prefix-nil : (c : ℕ) (p : Text) → has_prefix [] (c ∷ p) ≡ false
unfolding has_prefix strip_prefix
has_prefix-nil c p = refl

has_prefix-cons :
    (e c : ℕ) (s p : Text) → has_prefix (e ∷ s) (c ∷ p) ≡ true → (e ≡ c) × (has_prefix s p ≡ true)
unfolding has_prefix strip_prefix
has_prefix-cons e c s p h = elim (Bool-cases (nat_eq e c)) [
  | inl same ↦ ((nat_eq_iff e c).0 same, rw (same, has_prefix) at h)
  | inr other ↦ let no = rw (other, has_prefix) at h in cc
]

-- A text that starts with two names and their colons starts with one name.
same_name :
    (a b s : Text)
    → is_plain a ≡ true
    → is_plain b ≡ true
    → has_prefix s (with_colon a) ≡ true
    → has_prefix s (with_colon b) ≡ true
    → a ≡ b
unfolding contains_any
same_name [] [] s pa pb ha hb = refl
same_name [] (d ∷ b) [] pa pb ha hb = let no = has_prefix-nil d (with_colon b) in cc
same_name (c ∷ a) b [] pa pb ha hb = let no = has_prefix-nil c (with_colon a) in cc
same_name [] (d ∷ b) (e ∷ s) pa pb ha hb =
    let h = has_prefix-cons e b':' s [] ha in
    let k = has_prefix-cons e d s (with_colon b) hb in ground arith
same_name (c ∷ a) [] (e ∷ s) pa pb ha hb =
    let h = has_prefix-cons e b':' s [] hb in
    let k = has_prefix-cons e c s (with_colon a) ha in ground arith
same_name (c ∷ a) (d ∷ b) (e ∷ s) pa pb ha hb =
    let (i, h) = has_prefix-cons e c s (with_colon a) ha in
    let (j, k) = has_prefix-cons e d s (with_colon b) hb in
    ap₂ (λ x xs. x ∷ xs) (sym i ∙ j)
      (same_name a b s (is_plain-tail c a pa) (is_plain-tail d b pb) h k)

same_prefix :
    (pre a b s : Text)
    → is_plain a ≡ true
    → is_plain b ≡ true
    → has_prefix s (pre ++ with_colon a) ≡ true
    → has_prefix s (pre ++ with_colon b) ≡ true
    → a ≡ b
same_prefix [] a b s pa pb ha hb = same_name a b s pa pb ha hb
same_prefix (c ∷ pre) a b [] pa pb ha hb = let no = has_prefix-nil c (pre ++ with_colon a) in cc
same_prefix (c ∷ pre) a b (e ∷ s) pa pb ha hb =
    same_prefix pre a b s pa pb (has_prefix-cons e c s (pre ++ with_colon a) ha).1
      (has_prefix-cons e c s (pre ++ with_colon b) hb).1

-- An entry that has a prefix is found as before among those that are left without another one.
lookup-without :
    (p q : Text) (items : List Item)
    → ((s : Text) → has_prefix s p ≡ true → has_prefix s q ≡ true → ⊥)
    → lookup p (without q items) ≡ lookup p items
lookup-without p q [] apart = refl
lookup-without p q (i ∷ is) apart = elim (Bool-cases (has_prefix i.header q)) [
  | inl h ↦ elim (Bool-cases (has_prefix i.header p)) [
    | inl k ↦ absurd (apart i.header k h)
    | inr k ↦ rw (h, k) refl
  ]
  | inr h ↦ elim (Bool-cases (has_prefix i.header p)) [
    | inl k ↦ rw (h, k) refl
    | inr k ↦ rw (h, k) (lookup-without p q is apart)
  ]
]

entry_of-without_entry :
    (key other : Text) (o : Option SectionView)
    → ((s : Text)
        → has_prefix s (entry_prefix other) ≡ true
        → has_prefix s (entry_prefix key) ≡ true
        → ⊥)
    → entry_of other (without_entry key o) ≡ entry_of other o
entry_of-without_entry key other none apart = refl
entry_of-without_entry key other (some v) apart =
    lookup-without (entry_prefix other) (entry_prefix key) v.content.items apart

-- Deleting an entry of a section leaves the text of every entry of another name as it is, and whether
-- it is there, where neither name has a colon.
pub section_entry_block-delete_section_entry :
    (section key other : Text) (lines : Lines)
    → is_plain key ≡ true
    → is_plain other ≡ true
    → other ≢ key
    → section_entry_block (delete_section_entry section key lines) section other
      ≡ section_entry_block lines section other
section_entry_block-delete_section_entry section key other lines pk po differ =
    section_entry_block-section_view section other (delete_section_entry section key lines)
    ∙ ap (λ v. item_block (entry_of other v)) (section_view-delete_section_entry section key lines)
    ∙ ap item_block (
        entry_of-without_entry key other (section_view section lines)
          (λ s h k. differ (same_prefix (spaces 2) other key s po pk h k)))
    ∙ sym (section_entry_block-section_view section other lines)
