-- ===== src/Rpc/Positionals/Claims.antt =====
-- Flags that are claimed once find the spec that declares them.
use sitectl.Prelude.{
  true, false, ◌||◌, some, List, [], ◌∷◌, ◌++◌, ◌≡◌, refl, ap, arith, inl, inr, Bool-cases,
  is_empty, All, nat_eq,
}
use sitectl.Result.{ok}
use sitectl.Text.{Text, ◌==◌, contains_any}
use sitectl.Text.Equality.{eq_sound}
use sitectl.Rpc.{Spec, member, claim_flags}
use sitectl.Rpc.Args.{CommandFlag, param_flag, lookup_flag}
use sitectl.Rpc.Args.RoundTrip.{IsBridged, is_sent}
use sitectl.Rpc.Positionals.{all_flags}

unlike :
    (f g : Text) (seen : List Text)
    → member g seen ≡ false
    → member f seen ≡ true
    → (g == f) ≡ false
unlike f g seen e m = elim (Bool-cases (g == f)) [
  | inl p ↦ absurd (cc (ap (λ t. member t seen) (eq_sound g f p)))
  | inr p ↦ p
]

-- What has been claimed is not claimed again.
claimed_once :
    (f : Text) (seen fs out : List Text)
    → claim_flags seen fs ≡ ok out
    → member f seen ≡ true
    → member f fs ≡ false
unfolding claim_flags
claimed_once f seen [] out h m = refl
claimed_once f seen (g ∷ fs) out h m = elim (Bool-cases (member g seen)) [
  | inl e ↦ absurd (cc (rw e at h))
  | inr e ↦
      let apart : (g == f) ≡ false = unlike f g seen e m in
      let later = claimed_once f (g ∷ seen) fs out (rw e at h) (rw apart m) in rw apart later
]

-- What the claims of `fs` have claimed, and what was claimed before
claim-append :
    (seen fs gs out : List Text)
    → claim_flags seen (fs ++ gs) ≡ ok out
    → (mid : List Text) × (claim_flags seen fs ≡ ok mid) × (claim_flags mid gs ≡ ok out)
unfolding claim_flags
claim-append seen [] gs out h = (seen, refl, h)
claim-append seen (f ∷ fs) gs out h = elim (Bool-cases (member f seen)) [
  | inl e ↦ absurd (cc (rw e at h))
  | inr e ↦
      let (mid, one, two) = claim-append (f ∷ seen) fs gs out (rw e at h) in (mid, rw e one, two)
]

claimed-member :
    (f : Text) (seen fs out : List Text)
    → claim_flags seen fs ≡ ok out
    → (member f fs || member f seen) ≡ true
    → member f out ≡ true
unfolding claim_flags
claimed-member f seen [] out h m = ground arith
claimed-member f seen (g ∷ fs) out h m = elim (Bool-cases (member g seen)) [
  | inl e ↦ absurd (cc (rw e at h))
  | inr e ↦ claimed-member f (g ∷ seen) fs out (rw e at h) (ground arith)
]

-- A flag that another spec has claimed is none of this spec's.
later_flag :
    (seen fs : List Text) (ss : List Spec) (out : List Text) (f : Text)
    → claim_flags seen (fs ++ all_flags ss) ≡ ok out
    → member f fs ≡ true
    → member f (all_flags ss) ≡ false
later_flag seen fs ss out f h m =
    let (mid, one, two) = claim-append seen fs (all_flags ss) out h in
    claimed_once f mid (all_flags ss) out two (claimed-member f seen fs mid one (ground arith))

member-append : (f : Text) (fs gs : List Text) → member f (fs ++ gs) ≡ (member f fs || member f gs)
member-append f [] gs = refl
member-append f (g ∷ fs) gs = ground (arith, member-append f fs gs)

-- The flags of a spec find that spec, in front of specs and behind others.
abbrev pub Finds : List Spec → Spec → Type 0
Finds specs s = (f : Text) → member f s.flags ≡ true → lookup_flag specs f ≡ some s

Finds-cons :
    (s : Spec) (ss ts : List Spec)
    → All (Finds ss) ts
    → ((f : Text) → member f (all_flags ts) ≡ true → member f s.flags ≡ false)
    → All (Finds (s ∷ ss)) ts
unfolding all_flags lookup_flag
Finds-cons s ss [] h k = tt
Finds-cons s ss (t ∷ ts) (h, hs) k = (
  (λ f m. rw (k f (rw (member-append f t.flags (all_flags ts), m) refl)) (h f m)),
  Finds-cons s ss ts hs (λ f m. k f (later_member f t.flags (all_flags ts) m)),
)
  where
    later_member : (f : Text) (fs gs : List Text) → member f gs ≡ true → member f (fs ++ gs) ≡ true
    later_member f fs gs m = ground (arith, member-append f fs gs)

pub Finds-All :
    (seen : List Text) (specs : List Spec) (out : List Text)
    → claim_flags seen (all_flags specs) ≡ ok out
    → All (Finds specs) specs
unfolding all_flags
Finds-All seen [] out h = tt
Finds-All seen (s ∷ ss) out h =
    let (mid, one, two) = claim-append seen s.flags (all_flags ss) out h in
    (
      (λ f m. unfold lookup_flag in rw m),
      Finds-cons s ss ss (Finds-All mid ss out two) (λ f m. elim (Bool-cases (member f s.flags)) [
        | inl own ↦ absurd (cc (later_flag seen s.flags ss out f h own))
        | inr none_of ↦ none_of
      ]),
    )

-- The flag that a command is given for a field is one of the field's, is not empty and holds no "=".
abbrev pub IsPlain : List CommandFlag → Spec → Type 0
IsPlain command s =
    (member (param_flag command s) s.flags ≡ true)
    × (is_empty (param_flag command s) ≡ false)
    × (contains_any (param_flag command s) (λ c. nat_eq c b'=') ≡ false)

pub bridged :
    (command : List CommandFlag) (method : Text) (specs ss : List Spec)
    → All (Finds specs) ss
    → All (λ s. is_sent method s ≡ true → IsPlain command s) ss
    → All (λ s. is_sent method s ≡ true → IsBridged command specs s) ss
bridged command method specs [] f p = tt
bridged command method specs (s ∷ ss) (f, fs) (p, ps) = (
  (λ e.
      let (own, named, plain) = p e in
      record { named = named; plain = plain; found = f (param_flag command s) own }),
  bridged command method specs ss fs ps,
)
