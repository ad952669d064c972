-- ===== src/Document/Descent.antt =====
-- What the two descents of the operations, ensurePath and the loop that creates nothing, leave
-- behind: at the path, beside it, and on an error.
use sitectl.Prelude.{
  Bool, true, false, Option, none, List, [], ◌∷◌, ◌++◌, ◌≡◌, ◌≢◌, refl, sym, inl, inr, Bool-cases,
  Option-cases, if◌then◌else◌, arith, ◌∙◌,
}
use sitectl.Result.{ok, err}
use sitectl.Text.{Text, ◌==◌}
use sitectl.Text.Equality.{eq_sound}
use sitectl.Yaml.{Node, empty_mapping, is_mapping, mapping_value, set_mapping_value}
use sitectl.Yaml.Mapping.{IsMap, IsWellFormed}
use sitectl.Yaml.Update.{set_mapping_value_self, IsMap-is_mapping, IsMap-set, IsWellFormed-set}
use sitectl.Document.{Edit, ensure_path}
use sitectl.Document.Path.{Error, not_a_mapping}
use sitectl.Document.Touch.{IsLocal, IsLocal-IsMap, IsLocal-IsWellFormed}
use sitectl.Document.Find.{
  find, diverges, below, IsWellFormed-below, find-set_self, find-set_ne, find_diverging-below,
  find-IsLocal, find_one, find-below_snoc,
}

pub not_of_if : (b : Bool) → (if b then false else true) ≡ true → b ≡ false
not_of_if b h = ground arith

module _ {A : Type 0} (edit : Edit A) (path : Text) where
  ensure_step :
      (s : Text) (rest : List Text) (n : Node)
      → is_mapping (below s n) ≡ true
      → ensure_path edit path (s ∷ rest) n ≡ (
        set_mapping_value n s (ensure_path edit path rest (below s n)).0,
        (ensure_path edit path rest (below s n)).1,
      )
  unfolding ensure_path below
  ensure_step s rest n h = ground arith

  ensure_stop :
      (s : Text) (rest : List Text) (n : Node)
      → is_mapping (below s n) ≡ false
      → ensure_path edit path (s ∷ rest) n ≡ (n, err (not_a_mapping path s))
  unfolding ensure_path below
  ensure_stop s rest n h = ground arith

module _ {A : Type 0} (edit : Edit A) (path key : Text)
    (local : IsLocal key (λ n. (edit n).0)) where
  -- The descent keeps the tree a well-formed mapping.
  pub ensure_keeps :
      (rest : List Text) (n : Node)
      → IsMap n
      → IsWellFormed n
      → IsMap (ensure_path edit path rest n).0 × IsWellFormed (ensure_path edit path rest n).0
  unfolding ensure_path
  ensure_keeps [] n m w = (IsLocal-IsMap local n m w, IsLocal-IsWellFormed local n m w)
  ensure_keeps (s ∷ rest) n m w = elim (Bool-cases (is_mapping (below s n))) [
    | inl e ↦
        let wb = IsWellFormed-below s n w in
        let (m', w') = ensure_keeps rest (below s n) (IsMap-is_mapping (below s n) wb e) wb in
        rw (ensure_step edit path s rest n e) (IsMap-set n s _ m, IsWellFormed-set n s _ w w')
    | inr e ↦ rw (ensure_stop edit path s rest n e) (m, w)
  ]

  -- What the path does not lead to stays as it was.
  pub ensure_frame :
      (rest q : List Text) (n : Node)
      → IsMap n
      → IsWellFormed n
      → diverges (rest ++ key ∷ []) q ≡ true
      → find (ensure_path edit path rest n).0 q ≡ find n q
  unfolding ensure_path
  ensure_frame [] [] n m w d = cc
  ensure_frame [] (t ∷ q) n m w d =
      find-IsLocal key t q (λ k. (edit k).0) n local m w (not_of_if (key == t) d)
  ensure_frame (s ∷ rest) [] n m w d = cc
  ensure_frame (s ∷ rest) (t ∷ q) n m w d = elim (Bool-cases (is_mapping (below s n))) [
    | inr e ↦ rw (ensure_stop edit path s rest n e)
    | inl e ↦ rw (ensure_step edit path s rest n e) (elim (Bool-cases (s == t)) [
      | inr ne ↦ find-set_ne n s t _ q m ne
      | inl eq ↦
          let wb = IsWellFormed-below s n w in
          let d' : diverges (rest ++ key ∷ []) q ≡ true = ground arith in
          rw (← eq_sound s t eq) (
            find-set_self n s _ q m
            ∙ ensure_frame rest q (below s n) (IsMap-is_mapping (below s n) wb e) wb d'
            ∙ sym (find_diverging-below s (rest ++ key ∷ []) q n d'))
    ])
  ]

-- At the path itself: what the edit makes of the value there, if it makes a result.
module _ {A : Type 0} (edit : Edit A) (path key : Text) (local : IsLocal key (λ n. (edit n).0))
    (Makes : Option Node → Option Node → Type 0) (a : A)
    (makes : (n : Node)
      → IsMap n
      → (edit n).1 ≡ ok a
      → Makes (mapping_value n key) (mapping_value (edit n).0 key)) where
  pub ensure_makes :
      (rest : List Text) (n : Node)
      → IsMap n
      → IsWellFormed n
      → (ensure_path edit path rest n).1 ≡ ok a
      → Makes (find n (rest ++ key ∷ [])) (find (ensure_path edit path rest n).0 (rest ++ key ∷ []))
  unfolding ensure_path
  ensure_makes [] n m w h = rw (find_one, find_one) (makes n m h)
  ensure_makes (s ∷ rest) n m w h = elim (Bool-cases (is_mapping (below s n))) [
    | inr e ↦ absurd (cc (h, ensure_stop edit path s rest n e))
    | inl e ↦
        let wb = IsWellFormed-below s n w in
        let ih =
          ensure_makes rest (below s n) (IsMap-is_mapping (below s n) wb e) wb
            (rw (ensure_step edit path s rest n e) at h) in
        rw
          (
            ensure_step edit path s rest n e,
            find-set_self n s _ (rest ++ key ∷ []) m,
            find-below_snoc s key rest n,
          )
          ih
  ]

-- On an error nothing has been written, if the edit writes nothing when it refuses and refuses no
-- mapping that lacks the key.
module _ {A : Type 0} (edit : Edit A) (path key : Text)
    (clean : (n : Node) (e : Error) → (edit n).1 ≡ err e → (edit n).0 ≡ n)
    (fresh : (n : Node) → mapping_value n key ≡ none → (a : A) × ((edit n).1 ≡ ok a)) where
  pub ensure_fresh :
      (rest : List Text) (n : Node) (e : Error)
      → ((k : Text) → mapping_value n k ≡ none)
      → (ensure_path edit path rest n).1 ≢ err e
  unfolding ensure_path
  ensure_fresh [] n e bare h = cc ((fresh n (bare key)).1)
  ensure_fresh (s ∷ rest) n e bare h =
      ensure_fresh rest empty_mapping e (unfold mapping_value in λ k. refl)
        (rw (bare s, ensure_path) at h)

  pub ensure_error :
      (rest : List Text) (n : Node) (e : Error)
      → (ensure_path edit path rest n).1 ≡ err e
      → (ensure_path edit path rest n).0 ≡ n
  unfolding ensure_path
  ensure_error [] n e h = clean n e h
  ensure_error (s ∷ rest) n e h = elim (Option-cases (mapping_value n s)) [
    | inl p ↦ absurd (
        ensure_fresh rest empty_mapping e (unfold mapping_value in λ k. refl)
          (rw (p, ensure_path) at h))
    | inr (next, p) ↦ ground (arith, ensure_error rest next e, set_mapping_value_self n s next p)
  ]
