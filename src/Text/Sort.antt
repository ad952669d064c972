-- ===== src/Text/Sort.antt =====
-- sort.Strings: texts in the order of their code points, which is that of their UTF-8 bytes.
use mathlib.Core.List.{Permᴰ}
use sitectl.Prelude.{
  ◌≡◌, refl, sym, ap, ap₂, ◌∙◌, subst, Bool, true, false, Bool-cases, inl, inr, List, [], ◌∷◌,
  if◌then◌else◌, keep, nat_eq, nat_eq_iff, ltb, arith,
}
use sitectl.Text.{Text}

unfoldable pub text_leb : Text → Text → Bool
text_leb [] t = true
text_leb (c ∷ s) [] = false
text_leb (c ∷ s) (d ∷ t) = let rest = text_leb s t in if nat_eq c d then rest else ltb c d

unfoldable pub insert_text : Text → List Text → List Text
unfolding text_leb
insert_text x [] = x ∷ []
insert_text x (y ∷ ys) =
    let rest = y ∷ insert_text x ys in if text_leb x y then x ∷ y ∷ ys else rest

-- sort.Strings
unfoldable pub sort_strings : List Text → List Text
unfolding insert_text
sort_strings [] = []
sort_strings (x ∷ xs) = insert_text x (sort_strings xs)

text_leb_total : (s t : Text) → text_leb s t ≡ false → text_leb t s ≡ true
unfolding text_leb
text_leb_total [] t h = cc
text_leb_total (c ∷ s) [] h = refl
text_leb_total (c ∷ s) (d ∷ t) h = let ih = text_leb_total s t in ground arith

text_leb_antisym : (s t : Text) → text_leb s t ≡ true → text_leb t s ≡ true → s ≡ t
unfolding text_leb
text_leb_antisym [] [] h k = refl
text_leb_antisym [] (d ∷ t) h k = cc
text_leb_antisym (c ∷ s) [] h k = cc
text_leb_antisym (c ∷ s) (d ∷ t) h k =
    let ih = text_leb_antisym s t in ground (arith, nat_eq_iff c d)

text_leb_trans : (s t u : Text) → text_leb s t ≡ true → text_leb t u ≡ true → text_leb s u ≡ true
unfolding text_leb
text_leb_trans [] t u h k = refl
text_leb_trans (c ∷ s) [] u h k = cc
text_leb_trans (c ∷ s) (d ∷ t) [] h k = cc
text_leb_trans (c ∷ s) (d ∷ t) (e ∷ u) h k = let ih = text_leb_trans s t u in ground arith

insert_le :
    (x y : Text) (ys : List Text) → text_leb x y ≡ true → insert_text x (y ∷ ys) ≡ x ∷ y ∷ ys
unfolding insert_text
insert_le x y ys h = rw h refl

insert_gt :
    (x y : Text) (ys : List Text)
    → text_leb x y ≡ false
    → insert_text x (y ∷ ys) ≡ y ∷ insert_text x ys
unfolding insert_text
insert_gt x y ys h = rw h refl

-- Two texts in front of a list in whose front both may stand
insert_two :
    (x y : Text) (zs : List Text)
    → insert_text x zs ≡ x ∷ zs
    → insert_text y zs ≡ y ∷ zs
    → insert_text x (y ∷ zs) ≡ insert_text y (x ∷ zs)
insert_two x y zs p q = elim (Bool-cases (text_leb x y)) [
  | inl h ↦ elim (Bool-cases (text_leb y x)) [
    | inl k ↦
        subst (λ w. insert_text x (w ∷ zs) ≡ insert_text w (x ∷ zs)) (text_leb_antisym x y h k) refl
    | inr k ↦ insert_le x y zs h ∙ ap (λ l. x ∷ l) (sym q) ∙ sym (insert_gt y x zs k)
  ]
  | inr h ↦ insert_gt x y zs h ∙ ap (λ l. y ∷ l) p ∙ sym (insert_le y x zs (text_leb_total x y h))
]

-- One that stands in front and one that does not
insert_apart :
    (x y z : Text) (zs : List Text)
    → text_leb x z ≡ true
    → text_leb y z ≡ false
    → insert_text x (insert_text y (z ∷ zs)) ≡ insert_text y (insert_text x (z ∷ zs))
insert_apart x y z zs h k =
    ap (insert_text x) (insert_gt y z zs k)
    ∙ insert_le x z (insert_text y zs) h
    ∙ ap (λ l. x ∷ l) (sym (insert_gt y z zs k))
    ∙ sym (insert_gt y x (z ∷ zs) above)
    ∙ ap (insert_text y) (sym (insert_le x z zs h))
  where
    above : text_leb y x ≡ false
    above = elim (Bool-cases (text_leb y x)) [
      | inl le ↦ let no_way = text_leb_trans y x z le h in cc
      | inr gt ↦ gt
    ]

insert_comm :
    (x y : Text) (zs : List Text)
    → insert_text x (insert_text y zs) ≡ insert_text y (insert_text x zs)
unfolding insert_text
insert_comm x y [] = insert_two x y [] refl refl
insert_comm x y (z ∷ zs) = elim (Bool-cases (text_leb x z)) [
  | inl h ↦ elim (Bool-cases (text_leb y z)) [
    | inl k ↦
        ap (insert_text x) (insert_le y z zs k)
        ∙ insert_two x y (z ∷ zs) (insert_le x z zs h) (insert_le y z zs k)
        ∙ ap (insert_text y) (sym (insert_le x z zs h))
    | inr k ↦ insert_apart x y z zs h k
  ]
  | inr h ↦ elim (Bool-cases (text_leb y z)) [
    | inl k ↦ sym (insert_apart y x z zs k h)
    | inr k ↦
        ap (insert_text x) (insert_gt y z zs k)
        ∙ insert_gt x z (insert_text y zs) h
        ∙ ap (λ l. z ∷ l) (insert_comm x y zs)
        ∙ sym (insert_gt y z (insert_text x zs) k)
        ∙ ap (insert_text y) (sym (insert_gt x z zs h))
  ]
]

-- The order in which the texts were listed does not matter to the sorted list.
pub sort_strings-Permᴰ : {xs ys : List Text} → Permᴰ xs ys → sort_strings xs ≡ sort_strings ys
unfolding sort_strings
sort_strings-Permᴰ Permᴰ.nil = refl
sort_strings-Permᴰ (Permᴰ.cons e p) = ap₂ insert_text e (sort_strings-Permᴰ p)
sort_strings-Permᴰ (Permᴰ.swap {a = a} {b = b} {l = l} e f) =
    insert_comm a b (sort_strings l)
    ∙ ap₂ insert_text f (ap (λ t. insert_text t (sort_strings l)) e)
sort_strings-Permᴰ (Permᴰ.trans p q) = sort_strings-Permᴰ p ∙ sort_strings-Permᴰ q

-- Nor does it matter to a filter, up to the order.
module _ (p : Text → Bool) where
  same_list : (l : List Text) → Permᴰ l l
  same_list [] = Permᴰ.nil
  same_list (x ∷ l) = Permᴰ.cons refl (same_list l)

  keep_cons :
      (a : Text) (l l' : List Text)
      → Permᴰ (keep p l) (keep p l')
      → Permᴰ (keep p (a ∷ l)) (keep p (a ∷ l'))
  keep_cons a l l' q = elim (Bool-cases (p a)) [ inl h ↦ rw h (Permᴰ.cons refl q) | inr h ↦ rw h q ]

  keep_swap : (a b : Text) (l : List Text) → Permᴰ (keep p (a ∷ b ∷ l)) (keep p (b ∷ a ∷ l))
  keep_swap a b l = elim (Bool-cases (p a)) [
    | inl h ↦ elim (Bool-cases (p b)) [
      | inl k ↦ rw (h, k) (Permᴰ.swap refl refl)
      | inr k ↦ rw (h, k) (same_list (a ∷ keep p l))
    ]
    | inr h ↦ elim (Bool-cases (p b)) [
      | inl k ↦ rw (h, k) (same_list (b ∷ keep p l))
      | inr k ↦ rw (h, k) (same_list (keep p l))
    ]
  ]

  pub keep-Permᴰ : {xs ys : List Text} → Permᴰ xs ys → Permᴰ (keep p xs) (keep p ys)
  keep-Permᴰ Permᴰ.nil = Permᴰ.nil
  keep-Permᴰ (Permᴰ.cons {a = a} {l₁ = l} {l₂ = l'} e q) =
      subst (λ b. Permᴰ (keep p (a ∷ l)) (keep p (b ∷ l'))) e (keep_cons a l l' (keep-Permᴰ q))
  keep-Permᴰ (Permᴰ.swap {a = a} {b = b} {b' = b'} {l = l} e f) =
      subst (λ w. Permᴰ (keep p (a ∷ b ∷ l)) (keep p (w ∷ b' ∷ l))) f
        (subst (λ w. Permᴰ (keep p (a ∷ b ∷ l)) (keep p (b ∷ w ∷ l))) e (keep_swap a b l))
  keep-Permᴰ (Permᴰ.trans q r) = Permᴰ.trans (keep-Permᴰ q) (keep-Permᴰ r)
