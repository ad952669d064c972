-- ===== src/Text/Print.antt =====
-- strconv.Itoa for numbers that are not negative.
use sitectl.Prelude.{
  ℕ, zero, suc, ◌+◌, ◌/◌, ◌%◌, ◌≤◌, [], ◌∷◌, Bool, true, some, ◌≡◌, refl, arith, nat_eq,
  if◌then◌else◌, all, Bool-cases, inl, inr,
}
use sitectl.Text.{Text}
use sitectl.Text.Number.{pos, is_digit, digits, unsigned, positive, max_int, atoi}

-- The digits of n before `out`; n rounds are enough, since each divides n by ten.
unfoldable pub emit : ℕ → ℕ → Text → Text
emit zero n out = out
emit (suc rounds) n out =
    let rest = emit rounds (n / 10) ((b'0' + n % 10) ∷ out) in if nat_eq n 0 then out else rest

unfoldable pub itoa : ℕ → Text
unfolding emit
itoa n = if nat_eq n 0 then b'0' ∷ [] else emit n n []

digits-last : (n : ℕ) (out : Text) → digits (n / 10) ((b'0' + n % 10) ∷ out) ≡ digits n out
unfolding digits is_digit
digits-last n out = ground arith

digits-emit : (rounds n : ℕ) (out : Text) → n ≤ rounds → digits 0 (emit rounds n out) ≡ digits n out
unfolding emit
digits-emit zero n out h = ground arith
digits-emit (suc rounds) n out h =
    ground
      (arith, digits-emit rounds (n / 10) ((b'0' + n % 10) ∷ out) (omega arith), digits-last n out)

all_digits : Text → Bool
all_digits s = all is_digit s

emit_digits :
    (rounds n : ℕ) (out : Text) → all is_digit out ≡ true → all is_digit (emit rounds n out) ≡ true
unfolding emit is_digit
emit_digits zero n out h = h
emit_digits (suc rounds) n out h =
    ground (arith, emit_digits rounds (n / 10) ((b'0' + n % 10) ∷ out) (ground arith))

-- A number is printed in digits only.
pub itoa_digits : (n : ℕ) → all is_digit (itoa n) ≡ true
unfolding itoa is_digit
itoa_digits n = ground (arith, emit_digits n n [] refl)

emit_cons : (rounds n c : ℕ) (out : Text) → (d : ℕ) × (s : Text) × (emit rounds n (c ∷ out) ≡ d ∷ s)
unfolding emit
emit_cons zero n c out = (c, out, refl)
emit_cons (suc rounds) n c out = elim (Bool-cases (nat_eq n 0)) [
  | inl e ↦ (c, out, rw e)
  | inr e ↦ let (d, s, p) = emit_cons rounds (n / 10) (b'0' + n % 10) (c ∷ out) in (d, s, rw e p)
]

pub itoa_cons : (n : ℕ) → (d : ℕ) × (s : Text) × (itoa n ≡ d ∷ s)
unfolding itoa emit
itoa_cons zero = (b'0', [], refl)
itoa_cons (suc n) =
    let (d, s, p) = emit_cons n (suc n / 10) (b'0' + suc n % 10) [] in (d, s, ground (arith, p))

digits-itoa : (n : ℕ) → digits 0 (itoa n) ≡ some n
unfolding itoa digits is_digit
digits-itoa n = ground (arith, digits-emit n n [] (omega arith))

atoi-digits :
    (c : ℕ) (s : Text) (n : ℕ)
    → is_digit c ≡ true
    → digits 0 (c ∷ s) ≡ some n
    → n ≤ max_int
    → atoi (c ∷ s) ≡ some (pos n)
unfolding atoi unsigned positive is_digit
atoi-digits c s n h p fits = ground (arith, p)

-- A printed number that an int holds is read back.
pub atoi-itoa : (n : ℕ) → n ≤ max_int → atoi (itoa n) ≡ some (pos n)
atoi-itoa n fits =
    let (d, s, p) = itoa_cons n in
    rw p
      (atoi-digits d s n (first_digit d s (rw p at (itoa_digits n))) (rw p at (digits-itoa n)) fits)
  where
    first_digit : (c : ℕ) (t : Text) → all is_digit (c ∷ t) ≡ true → is_digit c ≡ true
    first_digit c t h = ground arith
