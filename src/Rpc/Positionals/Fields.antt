-- ===== src/Rpc/Positionals/Fields.antt =====
-- The specs of a struct type: each stands for one field, and no two for the same.
use sitectl.Prelude.{
  ℕ, sym, zero, suc, ◌+◌, ◌≤◌, true, false, not, ◌&&◌, Option, none, some, List, [], ◌∷◌, ◌≡◌, ◌≢◌,
  subst, refl, ap, ◌∙◌, arith, inl, inr, Bool-cases, is_empty, get_elem?, set, All,
}
use sitectl.Result.{ok, >>=-eq-ok}
use sitectl.Text.{Text}
use sitectl.Rpc.{
  FieldKind, bool_kind, string_kind, Value, flag, text, other, Spec, FieldType, position_of,
  spec_of, is_supported, has_position, claim_flags, claim_position, specs_from,
}
use sitectl.Rpc.Args.{applies_to, is_set, validate_for_method}
use sitectl.Rpc.Args.RoundTrip.{Fits, is_sent, fill, filled, filled_all}
use sitectl.Rpc.Positionals.{zero_value, zeros}

-- The spec stands for a field, the j-th from the i-th on.
pub record StandsFor (i : ℕ) (fs : List FieldType) (s : Spec) : Type 0 where
  pub offset : ℕ
  pub index : s.field_index ≡ i + offset
  pub zero_there : get_elem? (zeros fs) offset ≡ some (zero_value s.kind)

-- The indices grow.
abbrev pub Ascending : List Spec → Type 0
Ascending [] = Unit
Ascending (s ∷ ss) = All (λ t. suc s.field_index ≤ t.field_index) ss × Ascending ss

StandsFor-suc :
    (i : ℕ) (f : FieldType) (fs : List FieldType) (specs : List Spec)
    → All (StandsFor (suc i) fs) specs
    → All (StandsFor i (f ∷ fs)) specs
unfolding zeros
StandsFor-suc i f fs [] h = tt
StandsFor-suc i f fs (s ∷ ss) (h, hs) = (
  record { offset = suc h.offset; index = omega (arith, h.index); zero_there = h.zero_there },
  StandsFor-suc i f fs ss hs,
)

beyond :
    (i : ℕ) (fs : List FieldType) (specs : List Spec)
    → All (StandsFor (suc i) fs) specs
    → All (λ t. suc i ≤ t.field_index) specs
beyond i fs [] h = tt
beyond i fs (s ∷ ss) (h, hs) = (omega (arith, h.index), beyond i fs ss hs)

abbrev Sound : ℕ → List FieldType → List Spec → Type 0
Sound i fs specs = All (StandsFor i fs) specs × Ascending specs

Sound-suc :
    (i : ℕ) (f : FieldType) (fs : List FieldType) (specs : List Spec)
    → Sound (suc i) fs specs
    → Sound i (f ∷ fs) specs
Sound-suc i f fs specs (h, a) = (StandsFor-suc i f fs specs h, a)

Sound-cons :
    (i : ℕ) (f : FieldType) (fs : List FieldType) (position : Option ℕ) (specs : List Spec)
    → Sound (suc i) fs specs
    → Sound i (f ∷ fs) (spec_of i f position ∷ specs)
unfolding zeros
Sound-cons i f fs position specs (h, a) = (
  (record { offset = 0; index = omega arith; zero_there = refl }, StandsFor-suc i f fs specs h),
  (beyond i fs specs h, a),
)

pub specs_from-Sound :
    (i : ℕ) (fs : List FieldType) (flags : List Text) (positions : List ℕ) (specs : List Spec)
    → specs_from i fs flags positions ≡ ok specs
    → All (StandsFor i fs) specs × Ascending specs
unfolding specs_from position_of
specs_from-Sound i [] flags positions specs h =
    let none_left : [] ≡ specs = ground arith in subst (Sound i []) none_left (tt, tt)
specs_from-Sound i (f ∷ fs) flags positions specs h = elim (Bool-cases f.exported) [
  | inr e ↦ Sound-suc i f fs specs (specs_from-Sound (suc i) fs flags positions specs (rw e at h))
  | inl e ↦
      let (position, _, h₁) = >>=-eq-ok (position_of f) _ (rw e at h) in
      let s = spec_of i f position in
      elim (Bool-cases (is_empty s.flags && not (has_position s))) [
        | inl n ↦
            Sound-suc i f fs specs (specs_from-Sound (suc i) fs flags positions specs (rw n at h₁))
        | inr n ↦ elim (Bool-cases (not (is_supported f.kind))) [
          | inl u ↦ absurd (cc (rw (n, u) at h₁))
          | inr u ↦
              let (flags', _, h₂) = >>=-eq-ok (claim_flags flags s.flags) _ (rw (n, u) at h₁) in
              let (positions', _, h₃) = >>=-eq-ok (claim_position positions position) _ h₂ in
              let (rest, later, h₄) = >>=-eq-ok (specs_from (suc i) fs flags' positions') _ h₃ in
              let same : s ∷ rest ≡ specs = ground arith in
              subst (Sound i (f ∷ fs)) same (
                Sound-cons i f fs position rest
                  (specs_from-Sound (suc i) fs flags' positions' rest later))
        ]
      ]
]

get-set_self :
    (vs : List Value) (i : ℕ) (v w : Value)
    → get_elem? vs i ≡ some w
    → get_elem? (set vs i v) i ≡ some v
get-set_self [] i v w h = cc
get-set_self (x ∷ vs) zero v w h = refl
get-set_self (x ∷ vs) (suc i) v w h = get-set_self vs i v w h

get-set_ne :
    (vs : List Value) (i j : ℕ) (v : Value) → i ≢ j → get_elem? (set vs i v) j ≡ get_elem? vs j
get-set_ne [] i j v h = refl
get-set_ne (x ∷ vs) zero zero v h = absurd (h refl)
get-set_ne (x ∷ vs) zero (suc j) v h = refl
get-set_ne (x ∷ vs) (suc i) zero v h = refl
get-set_ne (x ∷ vs) (suc i) (suc j) v h = get-set_ne vs i j v (λ e. h (ap suc e))

filled_ne :
    (method : Text) (values base : List Value) (s : Spec) (j : ℕ)
    → s.field_index ≢ j
    → get_elem? (filled method values base s) j ≡ get_elem? base j
unfolding filled fill
filled_ne method values base s j ne = elim (Bool-cases (is_sent method s)) [
  | inr e ↦ rw e
  | inl e ↦ rw e (go (get_elem? values s.field_index))
]
  where
    go : (v : Option Value) → get_elem? (fill base s v) j ≡ get_elem? base j
    go none = refl
    go (some (flag true)) = get-set_ne base s.field_index j (flag true) ne
    go (some (flag false)) = refl
    go (some (text [])) = refl
    go (some (text (c ∷ t))) = get-set_ne base s.field_index j (text (c ∷ t)) ne
    go (some other) = refl

filled_all_ne :
    (method : Text) (values base : List Value) (ss : List Spec) (j : ℕ)
    → All (λ t. suc j ≤ t.field_index) ss
    → get_elem? (filled_all method values base ss) j ≡ get_elem? base j
unfolding filled_all
filled_all_ne method values base [] j h = refl
filled_all_ne method values base (s ∷ ss) j (h, hs) =
    filled_all_ne method values (filled method values base s) ss j hs
    ∙ filled_ne method values base s j (λ e. absurd (omega (arith, e)))

filled_self :
    (method : Text) (values base : List Value) (s : Spec)
    → is_sent method s ≡ true
    → Fits s.kind (get_elem? values s.field_index)
    → get_elem? base s.field_index ≡ some (zero_value s.kind)
    → get_elem? (filled method values base s) s.field_index ≡ get_elem? values s.field_index
unfolding filled fill zero_value
filled_self method values base s e fits z = rw e (go s.kind (get_elem? values s.field_index) fits z)
  where
    go :
        (k : FieldKind) (v : Option Value)
        → Fits k v
        → get_elem? base s.field_index ≡ some (zero_value k)
        → get_elem? (fill base s v) s.field_index ≡ v
    go bool_kind (some (flag true)) fits z = get-set_self base s.field_index (flag true) _ z
    go bool_kind (some (flag false)) fits z = z
    go string_kind (some (text [])) fits z = z
    go string_kind (some (text (c ∷ t))) fits z = get-set_self base s.field_index (text (c ∷ t)) _ z
    go _ _ fits z = elim fits [ ]

-- A field that is not sent holds its zero value.
abbrev pub IsZero : Text → List Value → Spec → Type 0
IsZero method values s =
    is_sent method s ≡ false → get_elem? values s.field_index ≡ some (zero_value s.kind)

unset_value :
    (k : FieldKind) (v : Option Value) → Fits k v → is_set v ≡ false → v ≡ some (zero_value k)
unfolding is_set zero_value
unset_value bool_kind (some (flag true)) fits h = cc
unset_value bool_kind (some (flag false)) fits h = refl
unset_value string_kind (some (text [])) fits h = refl
unset_value string_kind (some (text (c ∷ t))) fits h = cc
unset_value _ _ fits h = elim fits [ ]

-- What the check of the fields that a method has leaves for the others
pub validate_for_method-IsZero :
    (method : Text) (values : List Value) (ss : List Spec) (u : Unit {0})
    → validate_for_method method values ss ≡ ok u
    → All (λ s. is_empty s.flags ≡ false) ss
    → All (λ s. Fits s.kind (get_elem? values s.field_index)) ss
    → All (IsZero method values) ss
unfolding validate_for_method
validate_for_method-IsZero method values [] u h flags fits = tt
validate_for_method-IsZero method values (s ∷ ss) u h (own, flags) (fit, fits) =
    elim (Bool-cases (not (applies_to s method) && is_set (get_elem? values s.field_index))) [
      | inl e ↦ absurd (cc (rw e at h))
      | inr e ↦ (
        (λ unsent. unset_value s.kind (get_elem? values s.field_index) fit (ground arith)),
        validate_for_method-IsZero method values ss u (rw e at h) flags fits,
      )
    ]

filled_given :
    (method : Text) (values base : List Value) (s : Spec)
    → Fits s.kind (get_elem? values s.field_index)
    → IsZero method values s
    → get_elem? base s.field_index ≡ some (zero_value s.kind)
    → get_elem? (filled method values base s) s.field_index ≡ get_elem? values s.field_index
unfolding filled
filled_given method values base s fit u z = elim (Bool-cases (is_sent method s)) [
  | inl e ↦ filled_self method values base s e fit z
  | inr e ↦ rw e (z ∙ sym (u e))
]

-- After all specs are filled in, the field of each holds the value that was given.
pub filled_all-get :
    (method : Text) (values base : List Value) (ss : List Spec)
    → Ascending ss
    → All (λ s. Fits s.kind (get_elem? values s.field_index)) ss
    → All (IsZero method values) ss
    → All (λ s. get_elem? base s.field_index ≡ some (zero_value s.kind)) ss
    → All
        (λ s.
          get_elem? (filled_all method values base ss) s.field_index
          ≡ get_elem? values s.field_index)
        ss
unfolding filled_all
filled_all-get method values base [] a fits u z = tt
filled_all-get method values base (s ∷ ss) (above, a) (fit, fits) (u, us) (z, zs) = (
  filled_all_ne method values (filled method values base s) ss s.field_index above
      ∙ filled_given method values base s fit u z,
  filled_all-get method values (filled method values base s) ss a fits us (keep_zeros ss above zs),
)
  where
    keep_zeros :
        (ts : List Spec)
        → All (λ t. suc s.field_index ≤ t.field_index) ts
        → All (λ t. get_elem? base t.field_index ≡ some (zero_value t.kind)) ts
        → All
            (λ t. get_elem? (filled method values base s) t.field_index ≡ some (zero_value t.kind))
            ts
    keep_zeros [] h z = tt
    keep_zeros (t ∷ ts) (h, hs) (z, zs) = (
      filled_ne method values base s t.field_index (λ e. absurd (omega (arith, e))) ∙ z,
      keep_zeros ts hs zs,
    )
