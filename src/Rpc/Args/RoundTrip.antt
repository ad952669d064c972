-- ===== src/Rpc/Args/RoundTrip.antt =====
-- The flags that one side writes are read back by the other.
use sitectl.Prelude.{
  Bool, true, false, not, ◌&&◌, Option, none, some, List, [], ◌∷◌, ◌++◌, ◌≡◌, refl, ◌∙◌, arith, inl,
  inr, Bool-cases, if◌then◌else◌, is_empty, get_elem?, set, All, append_assoc, append-nil, nat_eq,
}
use sitectl.Result.{ok, ◌>>=◌, >>=-eq-ok}
use sitectl.Text.{Text, codes, ◌==◌, strip_prefix, cut, contains_any}
use sitectl.Text.Number.{parse_bool}
use sitectl.Rpc.{
  FieldKind, bool_kind, string_kind, other_kind, Value, flag, text, other, Spec, dashes,
}
use sitectl.Rpc.Args.{
  CommandFlag, param_flag, applies_to, flag_args, append_flags_loop, set_field, lookup_flag, assign,
  wait, token_of, classify, ready, waiting, extract_loop,
}

-- The flag that a spec is written with names that spec when it is read.
pub record IsBridged (command : List CommandFlag) (specs : List Spec) (s : Spec) : Type 0 where
  pub named : is_empty (param_flag command s) ≡ false
  pub plain : contains_any (param_flag command s) (λ c. nat_eq c b'=') ≡ false
  pub found : lookup_flag specs (param_flag command s) ≡ some s

cut_plain :
    (s : Text)
    → contains_any s (λ c. nat_eq c b'=') ≡ false
    → cut s b'=' ≡ record { before = s; after = []; found = false }
unfolding cut contains_any
cut_plain [] h = refl
cut_plain (c ∷ s) h = rw (cut_plain s (ground arith)) (ground arith)

-- The flag is read as itself: by `dashes` a text starts with two dashes, and then comes more.
classify_name :
    (specs : List Spec) (s : Spec) (f : Text)
    → is_empty f ≡ false
    → contains_any f (λ c. nat_eq c b'=') ≡ false
    → lookup_flag specs f ≡ some s
    → classify specs (dashes ++ f) ≡ token_of s (record { before = f; after = []; found = false })
unfolding classify ◌==◌ strip_prefix
classify_name specs s [] named plain found = cc
classify_name specs s (c ∷ f) named plain found =
    let bare = cut_plain (c ∷ f) plain in
    let names : lookup_flag specs (cut (c ∷ f) b'=').before ≡ some s = rw bare found in
    ground (arith, bare, names)

-- What is written for a value, and what reading that back does to the values
pieces : List CommandFlag → Spec → Option Value → List Text
pieces command s (some (flag true)) = (dashes ++ param_flag command s) ∷ []
pieces command s (some (text (c ∷ t))) = (dashes ++ param_flag command s) ∷ (c ∷ t) ∷ []
pieces command s _ = []

unfoldable pub fill : List Value → Spec → Option Value → List Value
fill base s (some (flag true)) = set base s.field_index (flag true)
fill base s (some (text (c ∷ t))) = set base s.field_index (text (c ∷ t))
fill base s _ = base

-- The spec is written at all.
abbrev pub is_sent : Text → Spec → Bool
is_sent method s = applies_to s method && not (is_empty s.flags)

unfoldable pub filled : Text → List Value → List Value → Spec → List Value
filled method values base s =
    if is_sent method s then fill base s (get_elem? values s.field_index) else base

unfoldable pub filled_all : Text → List Value → List Value → List Spec → List Value
filled_all method values base [] = base
filled_all method values base (s ∷ ss) = filled_all method values (filled method values base s) ss

-- The value is of the spec's kind.
abbrev pub Fits : FieldKind → Option Value → Type 0
Fits bool_kind (some (flag b)) = Unit
Fits string_kind (some (text t)) = Unit
Fits _ _ = ⊥

flag_kind : (k : FieldKind) (b : Bool) → Fits k (some (flag b)) → k ≡ bool_kind
flag_kind bool_kind b h = refl
flag_kind string_kind b h = elim h [ ]
flag_kind other_kind b h = elim h [ ]

text_kind : (k : FieldKind) (t : Text) → Fits k (some (text t)) → k ≡ string_kind
text_kind bool_kind t h = elim h [ ]
text_kind string_kind t h = refl
text_kind other_kind t h = elim h [ ]

module _ (specs : List Spec) (base : List Value) (arg : Text) (rest : List Text) (s : Spec) where
  extract_assign :
      (v : Text)
      → classify specs arg ≡ assign s v
      → extract_loop specs base ready (arg ∷ rest)
        ≡ (set_field base s v >>= λ b. extract_loop specs b ready rest)
  unfolding extract_loop
  extract_assign v p = rw (p, extract_loop)

  extract_wait :
      (name : Text)
      → classify specs arg ≡ wait s name
      → extract_loop specs base ready (arg ∷ rest) ≡ extract_loop specs base (waiting s name) rest
  unfolding extract_loop
  extract_wait name p = rw (p, extract_loop)

set_field_bool :
    (base : List Value) (s : Spec)
    → s.kind ≡ bool_kind
    → set_field base s (codes "true") ≡ ok (set base s.field_index (flag true))
unfolding set_field parse_bool
set_field_bool base s k = ground arith

set_field_text :
    (base : List Value) (s : Spec) (t : Text)
    → s.kind ≡ string_kind
    → set_field base s t ≡ ok (set base s.field_index (text t))
unfolding set_field
set_field_text base s t k = ground arith

module _ (command : List CommandFlag) (specs : List Spec) (base : List Value) (s : Spec)
    (b : IsBridged command specs s) (rest : List Text) where
  classified :
      classify specs (dashes ++ param_flag command s)
      ≡ token_of s (record { before = param_flag command s; after = []; found = false })
  classified = classify_name specs s (param_flag command s) b.named b.plain b.found

  read_flag :
      s.kind ≡ bool_kind
      → extract_loop specs base ready ((dashes ++ param_flag command s) ∷ rest)
        ≡ extract_loop specs (set base s.field_index (flag true)) ready rest
  read_flag k =
      extract_assign specs base _ rest s (codes "true")
        (classified ∙ (unfold token_of in ground arith))
      ∙ rw (set_field_bool base s k)

  read_text :
      (t : Text)
      → s.kind ≡ string_kind
      → extract_loop specs base ready ((dashes ++ param_flag command s) ∷ t ∷ rest)
        ≡ extract_loop specs (set base s.field_index (text t)) ready rest
  read_text t k =
      extract_wait specs base _ (t ∷ rest) s (param_flag command s)
        (classified ∙ (unfold token_of in ground arith))
      ∙ (unfold extract_loop in rw (set_field_text base s t k))

flag_args-ok :
    (command : List CommandFlag) (method : Text) (values : List Value) (s : Spec) (v : Option Value)
    (piece : List Text)
    → get_elem? values s.field_index ≡ v
    → flag_args command method values s ≡ ok piece
    → piece ≡ (if is_sent method s then pieces command s v else [])
unfolding pieces flag_args
flag_args-ok command method values s none piece p h = ground arith
flag_args-ok command method values s (some (flag b)) piece p h = ground arith
flag_args-ok command method values s (some (text [])) piece p h = ground arith
flag_args-ok command method values s (some (text (c ∷ t))) piece p h = ground arith
flag_args-ok command method values s (some other) piece p h = ground arith

read_pieces :
    (command : List CommandFlag) (specs : List Spec) (base : List Value) (s : Spec)
    (v : Option Value) (rest : List Text)
    → IsBridged command specs s
    → Fits s.kind v
    → extract_loop specs base ready (pieces command s v ++ rest)
      ≡ extract_loop specs (fill base s v) ready rest
unfolding pieces fill
read_pieces command specs base s none rest b fits = refl
read_pieces command specs base s (some (flag true)) rest b fits =
    read_flag command specs base s b rest (flag_kind s.kind true fits)
read_pieces command specs base s (some (flag false)) rest b fits = refl
read_pieces command specs base s (some (text [])) rest b fits = refl
read_pieces command specs base s (some (text (c ∷ t))) rest b fits =
    read_text command specs base s b rest (c ∷ t) (text_kind s.kind (c ∷ t) fits)
read_pieces command specs base s (some other) rest b fits = refl

-- Reading what was written for one spec
read_piece :
    (command : List CommandFlag) (method : Text) (specs : List Spec) (values base : List Value)
    (s : Spec) (piece rest : List Text)
    → (is_sent method s ≡ true → IsBridged command specs s)
    → Fits s.kind (get_elem? values s.field_index)
    → flag_args command method values s ≡ ok piece
    → extract_loop specs base ready (piece ++ rest)
      ≡ extract_loop specs (filled method values base s) ready rest
unfolding filled
read_piece command method specs values base s piece rest bridged fits written =
    let same = flag_args-ok command method values s _ piece refl written in
    elim (Bool-cases (is_sent method s)) [
      | inl e ↦
          rw (same, e)
            (read_pieces command specs base s (get_elem? values s.field_index) rest (bridged e)
              fits)
      | inr e ↦ rw (same, e)
    ]

-- The flags of all specs, written behind `args`, are read back whatever follows them.
pub read_flags :
    (command : List CommandFlag) (method : Text) (specs : List Spec) (values base : List Value)
    (ss : List Spec) (args out : List Text)
    → All (λ s. is_sent method s ≡ true → IsBridged command specs s) ss
    → All (λ s. Fits s.kind (get_elem? values s.field_index)) ss
    → append_flags_loop command method values ss args ≡ ok out
    → (written : List Text) × (out ≡ args ++ written)
      × ((rest : List Text)
          → extract_loop specs base ready (written ++ rest)
            ≡ extract_loop specs (filled_all method values base ss) ready rest)
unfolding append_flags_loop filled_all
read_flags command method specs values base [] args out b fits h =
    ([], cc (append-nil args), λ rest. refl)
read_flags command method specs values base (s ∷ ss) args out (b, bs) (fit, fits) h =
    let (piece, one, more) =
      >>=-eq-ok (flag_args command method values s)
        (λ p. append_flags_loop command method values ss (args ++ p)) h in
    let (written, same, reads) =
      read_flags command method specs values (filled method values base s) ss (args ++ piece) out bs
        fits more in
    (
      piece ++ written,
      same ∙ append_assoc args piece written,
      λ rest. rw (append_assoc piece written rest) (
          read_piece command method specs values base s piece (written ++ rest) b fit one
          ∙ reads rest),
    )
