-- ===== src/Project/Used/Mounts.antt =====
-- pkg/component/compose.go: the items of a service beside the description of references.
use sitectl.Prelude.{
  ◌≡◌, ◌⊎◌, ◌↔◌, refl, sym, ap, ◌∙◌, subst, Bool, true, false, not, ◌&&◌, ◌||◌, Bool-cases, inl,
  inr, Option, none, some, List, [], ◌∷◌, ◌++◌, is_empty, all, nat_eq, nat_eq_iff, ℕ, arith,
}
use sitectl.Text.{Text, codes, ◌==◌, cut}
use sitectl.Text.Equality.{eq_refl, eq_iff, eq_sound}
use sitectl.Rules.{Value, null, boolean, number, text, sequence, object, Fields, member}
use sitectl.Rules.Json.{get_field}
use sitectl.Project.Resources.{
  is_named_volume, text_of, string_field, named, volume_source, is_volume_type,
}
use sitectl.Project.References.{IsVolumeName, IsVolumeMount, MountsVolume}

pub false_iff : (false ≡ true) ↔ ⊥
false_iff = ((λ h. cc), λ h. elim h [ ])

pub or_iff :
    {A B : Type 0} (a b : Bool) → ((a ≡ true) ↔ A) → ((b ≡ true) ↔ B) → ((a || b) ≡ true) ↔ (A ⊎ B)
or_iff true b p q = ((λ h. inl (p.0 refl)), λ x. refl)
or_iff false b p q = ((λ h. inr (q.0 h)), λ x. elim x [ inl a ↦ cc (p.1 a) | inr b' ↦ q.1 b' ])

and_iff :
    {A B : Type 0} (a b : Bool) → ((a ≡ true) ↔ A) → ((b ≡ true) ↔ B) → ((a && b) ≡ true) ↔ (A × B)
and_iff true b p q = ((λ h. (p.0 refl, q.0 h)), λ x. q.1 x.1)
and_iff false b p q = ((λ h. absurd (cc h)), λ x. p.1 x.0)

pub skip_iff : {B : Type 0} (b : Bool) → ((b ≡ true) ↔ B) → (b ≡ true) ↔ (⊥ ⊎ B)
skip_iff b q = ((λ h. inr (q.0 h)), λ x. elim x [ inl none_of ↦ elim none_of [ ] | inr y ↦ q.1 y ])

pub along : {A : Type 0} {a b : Bool} → a ≡ b → ((b ≡ true) ↔ A) → (a ≡ true) ↔ A
along {A} e p = subst (λ x. (x ≡ true) ↔ A) (sym e) p

pub swap_eq : (n s : Text) → ((n == s) ≡ true) ↔ (s ≡ n)
swap_eq n s = ((λ h. sym (eq_sound n s h)), λ e. (eq_iff n s).1 (sym e))

pub member-append :
    (n : Text) (xs ys : List Text) → member n (xs ++ ys) ≡ (member n xs || member n ys)
member-append n [] ys = refl
member-append n (x ∷ xs) ys = let ih = member-append n xs ys in ground arith

pub member-named :
    (n : Text) (b : Bool) (name : Text) (rest : List Text)
    → member n (named b name ++ rest) ≡ ((b && (n == name)) || member n rest)
member-named n true name rest = refl
member-named n false name rest = refl

source_plain : (n : Text) → all (λ c. not (nat_eq c b':')) n ≡ true → volume_source n ≡ n
unfolding cut
source_plain [] h = refl
source_plain (c ∷ n) h = let ih = source_plain n (ground arith) in ground arith

source_path :
    (n path : Text) → all (λ c. not (nat_eq c b':')) n ≡ true → volume_source (n ++ b':' ∷ path) ≡ n
unfolding cut
source_path [] path h = refl
source_path (c ∷ n) path h = let ih = source_path n path (ground arith) in ground arith

source_cons :
    (c : ℕ) (s : Text) → nat_eq c b':' ≡ false → volume_source (c ∷ s) ≡ c ∷ volume_source s
unfolding cut
source_cons c s e = elim (Bool-cases (cut s b':').found) [
  | inl f ↦ ground (arith, e, f)
  | inr f ↦ ground (arith, e, f)
]

source_colon : (c : ℕ) (s : Text) → nat_eq c b':' ≡ true → volume_source (c ∷ s) ≡ []
unfolding cut
source_colon c s e = rw e refl

-- A text is its part in front of the first colon, and what follows if there is one.
abbrev Parts : Text → Text → Type 0
Parts s front =
    (all (λ c. not (nat_eq c b':')) front ≡ true)
    × ((s ≡ front) ⊎ ((path : Text) × (s ≡ front ++ b':' ∷ path)))

source-Parts : (s : Text) → Parts s (volume_source s)
unfolding cut
source-Parts [] = (refl, inl refl)
source-Parts (c ∷ s) = elim (Bool-cases (nat_eq c b':')) [
  | inl e ↦
      subst (Parts (c ∷ s)) (sym (source_colon c s e))
        (refl, inr (s, ap (λ x. x ∷ s) ((nat_eq_iff c b':').0 e)))
  | inr e ↦
      let (plain, whole) = source-Parts s in
      subst (Parts (c ∷ s)) (sym (source_cons c s e)) (
        ground (arith, e, plain),
        elim whole [
          | inl same ↦ inl (ap (λ t. c ∷ t) same)
          | inr (path, same) ↦ inr (path, ap (λ t. c ∷ t) same)
        ],
      )
]

is_named_volume_iff :
    (n : Text)
    → all (λ c. not (nat_eq c b':')) n ≡ true
    → (is_named_volume n ≡ true) ↔ IsVolumeName n
unfolding is_named_volume
is_named_volume_iff n plain = (
  (λ h. (plain, ground arith, ground arith, ground arith, ground arith, ground arith)),
  (λ x. let (_, a, b, c, d, e) = x in ground arith),
)

pub short_mount_iff :
    (n s : Text)
    → ((is_named_volume (volume_source s) && (n == volume_source s)) ≡ true)
      ↔ MountsVolume n (text s)
short_mount_iff n s = (there, back)
  where
    there :
        (is_named_volume (volume_source s) && (n == volume_source s)) ≡ true
        → MountsVolume n (text s)
    there h =
        let same : volume_source s ≡ n = sym (eq_sound n (volume_source s) (ground arith)) in
        let (plain, whole) : Parts s n = subst (Parts s) same (source-Parts s) in
        (
          (is_named_volume_iff n plain).0
              (subst (λ t. is_named_volume t ≡ true) same (ground arith)),
          whole,
        )

    back :
        MountsVolume n (text s)
        → (is_named_volume (volume_source s) && (n == volume_source s)) ≡ true
    back (name, whole) =
        let same : volume_source s ≡ n = elim whole [
          | inl e ↦ ap volume_source e ∙ source_plain n name.0
          | inr (path, e) ↦ ap volume_source e ∙ source_path n path name.0
        ] in
        rw (same, (is_named_volume_iff n name.0).1 name, eq_refl n) refl

pub source_iff :
    (n : Text) (o : Option Value)
    → ((not (is_empty (text_of o)) && (n == text_of o)) ≡ true)
      ↔ ((o ≡ some (text n)) × (is_empty n ≡ false))
source_iff n o = (there o, λ (e, ne). rw (e, ne, eq_refl n) refl)
  where
    there :
        (o : Option Value)
        → (not (is_empty (text_of o)) && (n == text_of o)) ≡ true
        → (o ≡ some (text n)) × (is_empty n ≡ false)
    there (some (text t)) h =
        let same : n ≡ t = eq_sound n t (ground arith) in
        (
          ap (λ x. some (text x)) (sym same),
          subst (λ x. is_empty x ≡ false) (sym same) (ground arith),
        )
    there none h = cc
    there (some null) h = cc
    there (some (boolean b)) h = cc
    there (some (number b)) h = cc
    there (some (sequence b)) h = cc
    there (some (object b)) h = cc

mount_iff : (o : Option Value) → (is_volume_type (text_of o) ≡ true) ↔ IsVolumeMount o
mount_iff none = ((λ h. tt), λ x. refl)
mount_iff (some null) = ((λ h. tt), λ x. refl)
mount_iff (some (boolean b)) = ((λ h. tt), λ x. refl)
mount_iff (some (number b)) = ((λ h. tt), λ x. refl)
mount_iff (some (sequence b)) = ((λ h. tt), λ x. refl)
mount_iff (some (object b)) = ((λ h. tt), λ x. refl)
mount_iff (some (text t)) =
    or_iff (is_empty t) (t == codes "volume") (empty_iff t) (eq_iff t (codes "volume"))
  where
    empty_iff : (t : Text) → (is_empty t ≡ true) ↔ (t ≡ [])
    empty_iff [] = ((λ h. refl), λ e. refl)
    empty_iff (c ∷ t) = ((λ h. absurd (cc h)), λ e. absurd (cc e))

pub object_mount_iff :
    (n : Text) (fs : Fields)
    → (((not (is_empty (string_field (codes "source") fs))
            && is_volume_type (string_field (codes "type") fs))
          && (n == string_field (codes "source") fs))
        ≡ true)
      ↔ MountsVolume n (object fs)
object_mount_iff n fs =
    along
      (swapped (not (is_empty (string_field (codes "source") fs)))
        (is_volume_type (string_field (codes "type") fs)) (n == string_field (codes "source") fs))
      (and_iff _ _ (source_iff n (get_field (codes "source") fs))
        (mount_iff (get_field (codes "type") fs)))
  where
    swapped : (a t m : Bool) → ((a && t) && m) ≡ ((a && m) && t)
    swapped a t m = ground arith
