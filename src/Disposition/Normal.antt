-- ===== src/Disposition/Normal.antt =====
-- Parsed states and dispositions are in a normal form, which the conversions keep.
use sitectl.Prelude.{
  true, List, [], ◌∷◌, ◌≡◌, refl, sym, ap, ◌∙◌, inl, inr, Bool-cases, subst, All, if◌then◌else◌,
}
use sitectl.Result.{ok, err, ok-injective}
use sitectl.Text.{Text, ◌==◌, trim_space, to_lower}
use sitectl.Text.Equality.{eq_sound}
use sitectl.Disposition.{
  is_among, states, dispositions, normalize_state, parse_state, normalize_disposition,
  parse_disposition, disposition_to_state, state_to_disposition,
}

-- What holds of every name holds of each text that is among them.
among_all :
    (P : Text → Type 0) (names : List Text) (s : Text) → All P names → is_among names s ≡ true → P s
among_all P [] s h e = absurd (cc e)
among_all P (name ∷ names) s (h, hs) e = elim (Bool-cases (name == s)) [
  | inl p ↦ subst P (eq_sound name s p) h
  | inr p ↦ among_all P names s hs (rw p at e)
]

states_stay : All (λ s. parse_state s ≡ ok s) states
unfolding parse_state ◌==◌ trim_space to_lower
states_stay = (refl, (refl, tt))

dispositions_stay : All (λ d. parse_disposition d ≡ ok d) dispositions
unfolding parse_disposition ◌==◌ trim_space to_lower
dispositions_stay = (refl, (refl, (refl, (refl, (refl, (refl, (refl, (refl, tt))))))))

parsed_among :
    (names : List Text) (value normal result : Text)
    → (if is_among names normal then ok normal else err value) ≡ ok result
    → is_among names result ≡ true
parsed_among names value normal result h = elim (Bool-cases (is_among names normal)) [
  | inl e ↦ ap (is_among names) (sym (ok-injective (rw e at h))) ∙ e
  | inr e ↦ absurd (cc (rw e at h))
]

-- A state that was parsed is read as itself.
parse_state-again : (v s : Text) → parse_state v ≡ ok s → parse_state s ≡ ok s
unfolding parse_state
parse_state-again v s h =
    among_all (λ s. parse_state s ≡ ok s) states s states_stay
      (parsed_among states v (normalize_state v) s h)

-- A disposition that was parsed is read as itself.
pub parse_disposition-again : (v d : Text) → parse_disposition v ≡ ok d → parse_disposition d ≡ ok d
unfolding parse_disposition
parse_disposition-again v d h =
    among_all (λ d. parse_disposition d ≡ ok d) dispositions d dispositions_stay
      (parsed_among dispositions v (normalize_disposition v) d h)

states_return : All (λ s. disposition_to_state (state_to_disposition s) ≡ s) states
unfolding disposition_to_state state_to_disposition ◌==◌ trim_space to_lower
states_return = (refl, (refl, tt))

-- A state that was parsed comes back from the disposition that stands for it.
pub disposition_to_state-state_to_disposition :
    (v s : Text) → parse_state v ≡ ok s → disposition_to_state (state_to_disposition s) ≡ s
unfolding parse_state
disposition_to_state-state_to_disposition v s h =
    among_all (λ s. disposition_to_state (state_to_disposition s) ≡ s) states s states_return
      (parsed_among states v (normalize_state v) s h)
