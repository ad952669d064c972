-- ===== src/Document/Within.antt =====
-- What the descent that creates nothing leaves behind.
use sitectl.Prelude.{
  true, false, Option, none, some, List, [], ◌∷◌, ◌++◌, ◌≡◌, sym, inl, inr, Bool-cases,
  Option-cases, arith, ◌∙◌,
}
use sitectl.Text.{Text, ◌==◌}
use sitectl.Text.Equality.{eq_sound}
use sitectl.Yaml.{Node, is_mapping, mapping_value, set_mapping_value}
use sitectl.Yaml.Mapping.{IsMap, IsWellFormed}
use sitectl.Yaml.Update.{IsMap-is_mapping, IsWellFormed-mapping_value, IsMap-set, IsWellFormed-set}
use sitectl.Document.{within_path}
use sitectl.Document.Touch.{IsLocal, IsLocal-IsMap, IsLocal-IsWellFormed}
use sitectl.Document.Find.{
  find, diverges, find_not_mapping, find-set_self, find-set_ne, find-IsLocal, find_one,
}
use sitectl.Document.Descent.{not_of_if}

module _ {A : Type 0} (edit : Node → Node × A) (missing : A) where
  within_step :
      (s : Text) (rest : List Text) (n next : Node)
      → mapping_value n s ≡ some next
      → is_mapping next ≡ true
      → within_path edit missing (s ∷ rest) n ≡ (
        set_mapping_value n s (within_path edit missing rest next).0,
        (within_path edit missing rest next).1,
      )
  unfolding within_path
  within_step s rest n next p h = rw (p, within_path) (ground arith)

  within_scalar :
      (s : Text) (rest : List Text) (n next : Node)
      → mapping_value n s ≡ some next
      → is_mapping next ≡ false
      → within_path edit missing (s ∷ rest) n ≡ (n, missing)
  unfolding within_path
  within_scalar s rest n next p h = rw (p, within_path) (ground arith)

  within_missing :
      (s : Text) (rest : List Text) (n : Node)
      → mapping_value n s ≡ none
      → within_path edit missing (s ∷ rest) n ≡ (n, missing)
  unfolding within_path
  within_missing s rest n p = rw (p, within_path)

find-some :
    (n next : Node) (s : Text) (q : List Text)
    → mapping_value n s ≡ some next
    → find n (s ∷ q) ≡ find next q
unfolding find
find-some n next s q p = rw (p, find)

find-none : (n : Node) (s : Text) (q : List Text) → mapping_value n s ≡ none → find n (s ∷ q) ≡ none
unfolding find
find-none n s q p = rw (p, find)

find_stopped :
    (n : Node) (key : Text) (rest : List Text)
    → is_mapping n ≡ false
    → find n (rest ++ key ∷ []) ≡ none
find_stopped n key [] h = find_not_mapping n key [] h
find_stopped n key (s ∷ rest) h = find_not_mapping n s (rest ++ key ∷ []) h

module _ {A : Type 0} (edit : Node → Node × A) (missing : A) (key : Text)
    (local : IsLocal key (λ n. (edit n).0)) where
  pub within-Keeps :
      (rest : List Text) (n : Node)
      → IsMap n
      → IsWellFormed n
      → IsMap (within_path edit missing rest n).0 × IsWellFormed (within_path edit missing rest n).0
  unfolding within_path
  within-Keeps [] n m w = (IsLocal-IsMap local n m w, IsLocal-IsWellFormed local n m w)
  within-Keeps (s ∷ rest) n m w = elim (Option-cases (mapping_value n s)) [
    | inl p ↦ rw (within_missing edit missing s rest n p) (m, w)
    | inr (next, p) ↦ elim (Bool-cases (is_mapping next)) [
      | inr e ↦ rw (within_scalar edit missing s rest n next p e) (m, w)
      | inl e ↦
          let wn = IsWellFormed-mapping_value n s next w p in
          let (m', w') = within-Keeps rest next (IsMap-is_mapping next wn e) wn in
          rw (within_step edit missing s rest n next p e)
            (IsMap-set n s _ m, IsWellFormed-set n s _ w w')
    ]
  ]

  pub within_frame :
      (rest q : List Text) (n : Node)
      → IsMap n
      → IsWellFormed n
      → diverges (rest ++ key ∷ []) q ≡ true
      → find (within_path edit missing rest n).0 q ≡ find n q
  unfolding within_path
  within_frame [] [] n m w d = cc
  within_frame [] (t ∷ q) n m w d =
      find-IsLocal key t q (λ k. (edit k).0) n local m w (not_of_if (key == t) d)
  within_frame (s ∷ rest) [] n m w d = cc
  within_frame (s ∷ rest) (t ∷ q) n m w d = elim (Option-cases (mapping_value n s)) [
    | inl p ↦ rw (within_missing edit missing s rest n p)
    | inr (next, p) ↦ elim (Bool-cases (is_mapping next)) [
      | inr e ↦ rw (within_scalar edit missing s rest n next p e)
      | inl e ↦ rw (within_step edit missing s rest n next p e) (elim (Bool-cases (s == t)) [
        | inr ne ↦ find-set_ne n s t _ q m ne
        | inl eq ↦
            let wn = IsWellFormed-mapping_value n s next w p in
            let d' : diverges (rest ++ key ∷ []) q ≡ true = ground arith in
            rw (← eq_sound s t eq) (
              find-set_self n s _ q m
              ∙ within_frame rest q next (IsMap-is_mapping next wn e) wn d'
              ∙ sym (find-some n next s q p))
      ])
    ]
  ]

-- At the path: what the edit makes of the value there; nothing is there if the descent stops.
module _ {A : Type 0} (edit : Node → Node × A) (missing : A) (key : Text)
    (Makes : Option Node → Option Node → A → Type 0) (stays : Makes none none missing)
    (makes : (n : Node)
      → IsMap n
      → IsWellFormed n
      → Makes (mapping_value n key) (mapping_value (edit n).0 key) (edit n).1) where
  pub within_makes :
      (rest : List Text) (n : Node)
      → IsMap n
      → IsWellFormed n
      → Makes
          (find n (rest ++ key ∷ []))
          (find (within_path edit missing rest n).0 (rest ++ key ∷ []))
          (within_path edit missing rest n).1
  unfolding within_path
  within_makes [] n m w = rw (find_one n, find_one (edit n).0) (makes n m w)
  within_makes (s ∷ rest) n m w = elim (Option-cases (mapping_value n s)) [
    | inl p ↦ rw (within_missing edit missing s rest n p, find-none n s (rest ++ key ∷ []) p) stays
    | inr (next, p) ↦ elim (Bool-cases (is_mapping next)) [
      | inr e ↦
          rw (within_scalar edit missing s rest n next p e, find-some n next s (rest ++ key ∷ []) p)
            (rw (find_stopped next key rest e) stays)
      | inl e ↦
          let wn = IsWellFormed-mapping_value n s next w p in
          let ih = within_makes rest next (IsMap-is_mapping next wn e) wn in
          rw
            (
              within_step edit missing s rest n next p e,
              find-set_self n s _ (rest ++ key ∷ []) m,
              find-some n next s (rest ++ key ∷ []) p,
            )
            ih
    ]
  ]
