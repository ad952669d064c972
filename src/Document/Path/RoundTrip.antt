-- ===== src/Document/Path/RoundTrip.antt =====
-- A dotted path is read back from its segments, and is determined by them.
use sitectl.Prelude.{
  ℕ, Bool, false, List, [], ◌∷◌, ◌++◌, ◌≡◌, refl, sym, ap, subst, append-nil, ◌∙◌, arith, inl, inr,
  Bool-cases, nat_eq, nat_eq_iff, is_empty, All,
}
use sitectl.Result.{ok, >>=-eq-ok}
use sitectl.Text.{Text, split, push_head, contains_any}
use sitectl.Document.Path.{dot, is_meta, check_parts, parse_yaml_path}

abbrev is_dot : ℕ → Bool
is_dot c = nat_eq c dot

-- A segment that a path can name
pub record IsSegment (s : Text) : Type 0 where
  pub nonempty : is_empty s ≡ false
  pub plain : contains_any s is_meta ≡ false
  pub undotted : contains_any s is_dot ≡ false

-- The path of the segments: ".a.b"
unfoldable pub path_of : List Text → Text
path_of [] = []
path_of (s ∷ rest) = dot ∷ (s ++ path_of rest)

tail_path : List Text → Text
unfolding path_of
tail_path [] = []
tail_path (s ∷ rest) = s ++ path_of rest

split-append :
    (s t : Text) → contains_any s is_dot ≡ false → split is_dot (s ++ dot ∷ t) ≡ s ∷ split is_dot t
unfolding split contains_any push_head
split-append [] t h = ground arith
split-append (c ∷ s) t h = rw (split-append s t (ground arith)) (ground arith)

split_plain : (s : Text) → contains_any s is_dot ≡ false → split is_dot s ≡ s ∷ []
unfolding split contains_any push_head
split_plain [] h = refl
split_plain (c ∷ s) h = rw (split_plain s (ground arith)) (ground arith)

check_parts-All :
    (path : Text) (segments : List Text)
    → All IsSegment segments
    → check_parts path segments ≡ ok segments
unfolding check_parts
check_parts-All path [] h = refl
check_parts-All path (s ∷ rest) (hs, h) = rw (hs.nonempty, hs.plain, check_parts-All path rest h)

split-tail_path :
    (s : Text) (rest : List Text)
    → All IsSegment (s ∷ rest)
    → split is_dot (tail_path (s ∷ rest)) ≡ s ∷ rest
unfolding tail_path
split-tail_path s [] (hs, h) = rw append-nil (split_plain s hs.undotted)
split-tail_path s (t ∷ rest) (hs, h) =
    split-append s (tail_path (t ∷ rest)) hs.undotted ∙ ap (λ l. s ∷ l) (split-tail_path t rest h)

parse_step :
    (c : ℕ) (t : Text)
    → parse_yaml_path (dot ∷ c ∷ t) ≡ check_parts (dot ∷ c ∷ t) (split is_dot (c ∷ t))
unfolding parse_yaml_path
parse_step c t = refl

-- Every path of plain, dotless, non-empty segments is parsed to these segments.
pub parse-path_of :
    (first : Text) (rest : List Text)
    → All IsSegment (first ∷ rest)
    → parse_yaml_path (path_of (first ∷ rest)) ≡ ok (first ∷ rest)
unfolding path_of tail_path
parse-path_of [] rest (hs, h) = absurd (cc (hs.nonempty))
parse-path_of (c ∷ s) rest h =
    parse_step c (s ++ path_of rest)
    ∙ ap (check_parts (path_of ((c ∷ s) ∷ rest))) (split-tail_path (c ∷ s) rest h)
    ∙ check_parts-All (path_of ((c ∷ s) ∷ rest)) ((c ∷ s) ∷ rest) h

path_of-push_head :
    (c : ℕ) (l : List Text) (s : Text) → path_of l ≡ dot ∷ s → path_of (push_head c l) ≡ dot ∷ c ∷ s
unfolding path_of push_head
path_of-push_head c [] s h = cc
path_of-push_head c (p ∷ ps) s h = cc

path_of-split : (s : Text) → path_of (split is_dot s) ≡ dot ∷ s
unfolding path_of split
path_of-split [] = refl
path_of-split (c ∷ s) = elim (Bool-cases (is_dot c)) [
  | inl e ↦ rw (e, (nat_eq_iff c dot).0 e) (ap (λ l. dot ∷ l) (path_of-split s))
  | inr e ↦ rw e (path_of-push_head c (split is_dot s) s (path_of-split s))
]

undotted-push_head :
    (c : ℕ) (l : List Text)
    → is_dot c ≡ false
    → All (λ s. contains_any s is_dot ≡ false) l
    → All (λ s. contains_any s is_dot ≡ false) (push_head c l)
unfolding contains_any push_head
undotted-push_head c [] e h = (ground arith, tt)
undotted-push_head c (p ∷ ps) e (hp, h) = (ground arith, h)

undotted-split : (s : Text) → All (λ p. contains_any p is_dot ≡ false) (split is_dot s)
unfolding split
undotted-split [] = (unfold contains_any in refl, tt)
undotted-split (c ∷ s) = elim (Bool-cases (is_dot c)) [
  | inl e ↦ rw e (unfold contains_any in refl, undotted-split s)
  | inr e ↦ rw e (undotted-push_head c (split is_dot s) e (undotted-split s))
]

check_parts-ok :
    (path : Text) (parts segments : List Text)
    → All (λ s. contains_any s is_dot ≡ false) parts
    → check_parts path parts ≡ ok segments
    → (segments ≡ parts) × All IsSegment parts
unfolding check_parts
check_parts-ok path [] segments u h = ground arith
check_parts-ok path (p ∷ ps) segments (u, us) h = elim (Bool-cases (is_empty p)) [
  | inl e ↦ absurd (cc (rw e at h))
  | inr e ↦ elim (Bool-cases (contains_any p is_meta)) [
    | inl m ↦ absurd (cc (rw (e, m) at h))
    | inr m ↦
        let (parts, later, done) =
          >>=-eq-ok (check_parts path ps) (λ l. ok (p ∷ l)) (rw (e, m) at h) in
        let (same, all_rest) = check_parts-ok path ps parts us later in
        (cc, (record { nonempty = e; plain = m; undotted = u }, all_rest))
  ]
]

parse_dotted :
    (c : ℕ) (t first : Text) (rest : List Text)
    → parse_yaml_path (c ∷ t) ≡ ok (first ∷ rest)
    → c ≡ dot
unfolding parse_yaml_path
parse_dotted c t first rest h = ground arith

parse_dot : parse_yaml_path (dot ∷ []) ≡ ok []
unfolding parse_yaml_path
parse_dot = refl

-- A path that is parsed to at least one segment is the path of these segments, each of them
-- plain, dotless and not empty.
pub path_of-parse :
    (path first : Text) (rest : List Text)
    → parse_yaml_path path ≡ ok (first ∷ rest)
    → (path ≡ path_of (first ∷ rest)) × All IsSegment (first ∷ rest)
path_of-parse [] first rest h = absurd (unfold parse_yaml_path in cc)
path_of-parse (c ∷ []) first rest h =
    absurd (cc (ap (λ x. parse_yaml_path (x ∷ [])) (parse_dotted c [] first rest h), parse_dot))
path_of-parse (c ∷ d ∷ t) first rest h =
    let dotted = parse_dotted c (d ∷ t) first rest h in
    let (same, segments) =
      check_parts-ok (dot ∷ d ∷ t) (split is_dot (d ∷ t)) (first ∷ rest) (undotted-split (d ∷ t))
        (sym (parse_step d t) ∙ (rw dotted at h)) in
    (
      ap (λ x. x ∷ d ∷ t) dotted ∙ sym (path_of-split (d ∷ t)) ∙ ap path_of (sym same),
      subst (λ l. All IsSegment l) (sym same) segments,
    )
