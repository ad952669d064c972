-- ===== src/Rules/Matching.antt =====
-- pkg/component/status.go: the files that a rule's patterns select.
use sitectl.Prelude.{
  ◌≡◌, refl, subst, Bool, true, false, Bool-cases, not, ◌&&◌, inl, inr, List, [], ◌∷◌, is_empty,
  arith,
}
use sitectl.Text.{Text}
use sitectl.Text.Equality.{eq_refl, Text-cases, ne→eq_false}
use sitectl.Rules.{member, matches_any_pattern, match_loop, match_rule_files}

-- A list without a text that it has twice
abbrev pub are_distinct : List Text → Bool
are_distinct [] = true
are_distinct (s ∷ ss) = not (member s ss) && are_distinct ss

unmatched :
    (glob : Text → Text → Bool) (s : Text) (patterns : List Text)
    → is_empty patterns ≡ true
    → matches_any_pattern glob s patterns ≡ false
unfolding matches_any_pattern
unmatched glob s [] h = refl
unmatched glob s (p ∷ patterns) h = cc

module _ (glob : Text → Text → Bool) (patterns exclude : List Text) where
  abbrev pub is_selected : Text → Bool
  is_selected s = matches_any_pattern glob s patterns && not (matches_any_pattern glob s exclude)

  -- The text of the file that the loop is at
  member-at :
      (s : Text) (seen files : List Text)
      → member s (match_loop glob seen patterns exclude files)
        ≡ (member s files && is_selected s && not (member s seen))
      → member s (match_loop glob seen patterns exclude (s ∷ files))
        ≡ (member s (s ∷ files) && is_selected s && not (member s seen))
  unfolding match_loop
  member-at s seen files ih = let h = eq_refl s in ground arith

  member-match_loop :
      (s : Text) (seen files : List Text)
      → member s (match_loop glob seen patterns exclude files)
        ≡ (member s files && is_selected s && not (member s seen))
  unfolding match_loop
  member-match_loop s seen [] = refl
  member-match_loop s seen (f ∷ files) =
      let ih = member-match_loop s seen files in
      let ih' = member-match_loop s (f ∷ seen) files in
      elim (Text-cases s f) [
        | inl e ↦
            subst
              (λ x.
                member s (match_loop glob seen patterns exclude (x ∷ files))
                ≡ (member s (x ∷ files) && is_selected s && not (member s seen)))
              e (member-at s seen files ih)
        | inr e ↦ let h = ne→eq_false s f e in ground arith
      ]

  member-match_rule_files :
      (s : Text) (available : List Text)
      → member s (match_rule_files glob available patterns exclude)
        ≡ (member s available && is_selected s)
  unfolding match_rule_files
  member-match_rule_files s available = elim (Bool-cases (is_empty patterns)) [
    | inl e ↦ let l = unmatched glob s patterns e in ground arith
    | inr e ↦ let l = member-match_loop s [] available in ground arith
  ]

  are_distinct-match_loop :
      (seen files : List Text) → are_distinct (match_loop glob seen patterns exclude files) ≡ true
  unfolding match_loop
  are_distinct-match_loop seen [] = refl
  are_distinct-match_loop seen (f ∷ files) =
      let ih = are_distinct-match_loop seen files in
      let ih' = are_distinct-match_loop (f ∷ seen) files in
      let m = member-match_loop f (f ∷ seen) files in let h = eq_refl f in ground arith

  are_distinct-match_rule_files :
      (available : List Text)
      → are_distinct (match_rule_files glob available patterns exclude) ≡ true
  unfolding match_rule_files
  are_distinct-match_rule_files available =
      let l = are_distinct-match_loop [] available in ground arith

  -- A file is among those that a rule's patterns select if it is available, some pattern matches it and
  -- no excluded pattern does; no file is selected twice.
  pub match_rule_files-is_selected :
      (s : Text) (available : List Text)
      → (member s (match_rule_files glob available patterns exclude)
          ≡ (member s available && is_selected s))
        × (are_distinct (match_rule_files glob available patterns exclude) ≡ true)
  match_rule_files-is_selected s available =
      (member-match_rule_files s available, are_distinct-match_rule_files available)
