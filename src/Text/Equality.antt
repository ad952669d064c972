-- ===== src/Text/Equality.antt =====
-- The test for equal texts decides equality.
use sitectl.Prelude.{
  ◌≡◌, ◌↔◌, refl, subst, true, false, [], ◌∷◌, arith, nat_eq_iff, ◌≢◌, ◌⊎◌, inl, inr, Bool-cases,
}
use sitectl.Text.{Text, ◌==◌}

pub eq_refl : (s : Text) → (s == s) ≡ true
unfolding ◌==◌
eq_refl [] = refl
eq_refl (c ∷ s) = ground (arith, eq_refl s, nat_eq_iff c c)

pub eq_sound : (s t : Text) → (s == t) ≡ true → s ≡ t
unfolding ◌==◌
eq_sound [] [] h = refl
eq_sound [] (d ∷ t) h = cc
eq_sound (c ∷ s) [] h = cc
eq_sound (c ∷ s) (d ∷ t) h = ground (arith, eq_sound s t, nat_eq_iff c d)

pub eq_iff : (s t : Text) → ((s == t) ≡ true) ↔ (s ≡ t)
eq_iff s t = (eq_sound s t, λ e. subst (λ u. (s == u) ≡ true) e (eq_refl s))

pub Text-cases : (s t : Text) → (s ≡ t) ⊎ (s ≢ t)
Text-cases s t = elim (Bool-cases (s == t)) [
  | inl e ↦ inl (eq_sound s t e)
  | inr e ↦ inr (λ p. cc ((eq_iff s t).1 p))
]

pub ne→eq_false : (s t : Text) → s ≢ t → (s == t) ≡ false
ne→eq_false s t h = ground (arith, eq_iff s t)
