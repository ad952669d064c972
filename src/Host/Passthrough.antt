-- ===== src/Host/Passthrough.antt =====
-- The host's flags do not reach the plugin.
use sitectl.Prelude.{Bool, ◌⊎◌, inl, inr, Option, List, [], ◌∷◌, ◌≡◌, refl, subst}
use sitectl.Result.{Result, ok, >>=-eq-ok, ok-injective}
use sitectl.Text.{Text}
use sitectl.Text.Number.{ℤ}
use sitectl.Host.{
  HostToken, stop, pass, assign, wait, host_token, Error, Read, Pending, ready, waiting, keep_arg,
  read_host, extract_validate_format, is_format, no_bare, set_format, is_healthcheck, bare_persist,
  set_healthcheck, HealthcheckHostParams, default_params, extract_healthcheck_host_params,
}

Token-cases :
    (t : HostToken)
    → (t ≡ stop)
      ⊎ (t ≡ pass)
      ⊎ ((name : Text) × (v : Text) × (t ≡ assign name v))
      ⊎ ((name : Text) × (t ≡ wait name))
Token-cases stop = inl refl
Token-cases pass = inr (inl refl)
Token-cases (assign name v) = inr (inr (inl (name, v, refl)))
Token-cases (wait name) = inr (inr (inr (name, refl)))

module _ {P : Type 0} (owned : Text → Bool) (bare : Text → Option Text)
    (set : Text → Text → P → Result Error P) where
  -- Reading what was passed on finds none of the flags, whatever the params are before.
  reread :
      (pending : Pending) (args : List Text) (p fresh : P) (r : Read P)
      → read_host owned bare set pending args p ≡ ok r
      → read_host owned bare set ready r.passthrough fresh
        ≡ ok (record { params = fresh; passthrough = r.passthrough })
  unfolding read_host
  reread ready [] p fresh r h =
      subst
        (λ r.
          read_host owned bare set ready r.passthrough fresh
          ≡ ok (record { params = fresh; passthrough = r.passthrough }))
        (ok-injective h) refl
  reread (waiting name) [] p fresh r h = absurd (cc h)
  reread (waiting name) (arg ∷ args) p fresh r h =
      let (q, _, later) =
        >>=-eq-ok (set name arg p) (λ q. read_host owned bare set ready args q) h in
      reread ready args q fresh r later
  reread ready (arg ∷ args) p fresh r h = elim (Token-cases (host_token owned bare arg)) [
    | inl e ↦
        subst
          (λ r.
            read_host owned bare set ready r.passthrough fresh
            ≡ ok (record { params = fresh; passthrough = r.passthrough }))
          (ok-injective (rw (e, read_host) at h)) (rw (e, read_host))
    | inr (inl e) ↦
        let (s, one, same) =
          >>=-eq-ok (read_host owned bare set ready args p) (λ s. ok (keep_arg arg s))
            (rw (e, read_host) at h) in
        subst
          (λ r.
            read_host owned bare set ready r.passthrough fresh
            ≡ ok (record { params = fresh; passthrough = r.passthrough }))
          (ok-injective same) (rw (e, read_host) (rw (reread ready args p fresh s one) refl))
    | inr (inr (inl (name, v, e))) ↦
        let (q, _, later) =
          >>=-eq-ok (set name v p) (λ q. read_host owned bare set ready args q)
            (rw (e, read_host) at h) in
        reread ready args q fresh r later
    | inr (inr (inr (name, e))) ↦ reread (waiting name) args p fresh r (rw (e, read_host) at h)
  ]

-- The arguments that extractValidateFormat passes on hold no --format of the host: reading them
-- again gives no format and passes all of them on.
pub extract_validate_format-again :
    (args : List Text) (r : Read Text)
    → extract_validate_format args ≡ ok r
    → extract_validate_format r.passthrough
      ≡ ok (record { params = []; passthrough = r.passthrough })
unfolding extract_validate_format
extract_validate_format-again args r h = reread is_format no_bare set_format ready args [] [] r h

-- The arguments that extractHealthcheckHostParams passes on hold none of its four flags: reading
-- them again gives the default params and passes all of them on.
pub extract_healthcheck_host_params-again :
    (parse_duration : Text → Option ℤ) (args : List Text) (r : Read HealthcheckHostParams)
    → extract_healthcheck_host_params parse_duration args ≡ ok r
    → extract_healthcheck_host_params parse_duration r.passthrough
      ≡ ok (record { params = default_params; passthrough = r.passthrough })
unfolding extract_healthcheck_host_params
extract_healthcheck_host_params-again parse_duration args r h =
    reread is_healthcheck bare_persist (set_healthcheck parse_duration) ready args default_params
      default_params r h
