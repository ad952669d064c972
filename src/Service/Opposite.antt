-- ===== src/Service/Opposite.antt =====
-- pkg/component/service_component.go: the rules of the on state and of the off state belong together.
use mathlib.Core.List.{Permᴰ}
use sitectl.Prelude.{
  ◌≡◌, refl, sym, subst, ap, ap₂, ◌∙◌, Bool, true, false, not, Bool-cases, inl, inr, List, [], ◌∷◌,
  ◌++◌, append_assoc, all, is_empty, map, arith,
}
use sitectl.Result.{ok, ok-injective}
use sitectl.Text.{Text, codes, trim_space}
use sitectl.Text.Sort.{sort_strings-Permᴰ, keep-Permᴰ}
use sitectl.Rules.{op_set, op_delete, op_restore, Value, null, Fields, YamlRule}
use sitectl.Project.{Definitions, keys}
use sitectl.Service.{
  has_text, Options, Service, compose_rule, section_path, service_path, section_rules,
  compose_definition_rules, target_service_rules, service_of, does_nothing,
  new_compose_service_component, normalize_service_names, names_in, env_names, env_value,
  dependency_value,
}

abbrev pub paths : List YamlRule → List Text
paths [] = []
paths (r ∷ rs) = r.path ∷ paths rs

abbrev pub deletes : YamlRule → Bool
deletes r = elim r.op [ op_delete ↦ true | _ ↦ false ]

-- Rules that ask for something, and rules that delete the same
abbrev Opposite : List YamlRule → List YamlRule → Type 0
Opposite on off =
    (paths on ≡ paths off) × (all (λ r. not (deletes r)) on ≡ true) × (all deletes off ≡ true)

paths-append : (xs ys : List YamlRule) → paths (xs ++ ys) ≡ paths xs ++ paths ys
paths-append [] ys = refl
paths-append (x ∷ xs) ys = ap (λ ps. x.path ∷ ps) (paths-append xs ys)

all-append :
    (p : YamlRule → Bool) (xs ys : List YamlRule)
    → all p xs ≡ true
    → all p ys ≡ true
    → all p (xs ++ ys) ≡ true
all-append p [] ys h k = k
all-append p (x ∷ xs) ys h k = let ih = all-append p xs ys in ground arith

Opposite-append :
    (a b c d : List YamlRule) → Opposite a b → Opposite c d → Opposite (a ++ c) (b ++ d)
Opposite-append a b c d (p, on, off) (p', on', off') = (
  paths-append a c ∙ ap₂ (λ x y. x ++ y) p p' ∙ sym (paths-append b d),
  all-append (λ r. not (deletes r)) a c on on',
  all-append deletes b d off off',
)

Opposite-restored :
    (f : Text → Text) (v : Text → Value) (names : List Text)
    → Opposite
        (map (λ n. compose_rule op_restore (f n) (v n)) names)
        (map (λ n. compose_rule op_delete (f n) null) names)
Opposite-restored f v [] = (refl, refl, refl)
Opposite-restored f v (n ∷ names) =
    let (p, on, off) = Opposite-restored f v names in (ap (λ ps. f n ∷ ps) p, on, off)

Opposite-set :
    (f : Text → Text) (v : Text → Value) (names : List Text)
    → Opposite
        (map (λ n. compose_rule op_set (f n) (v n)) names)
        (map (λ n. compose_rule op_delete (f n) null) names)
Opposite-set f v [] = (refl, refl, refl)
Opposite-set f v (n ∷ names) =
    let (p, on, off) = Opposite-set f v names in (ap (λ ps. f n ∷ ps) p, on, off)

-- The names of a map in any order are those of its fields.
abbrev pub IsRange : (Fields → List Text) → Type 0
IsRange range = (entries : Fields) → Permᴰ (range entries) (keys entries)

module _ (range_on range_off : Fields → List Text) (on_names : IsRange range_on)
    (off_names : IsRange range_off) where
  same_names : (entries : Fields) → names_in (range_on entries) ≡ names_in (range_off entries)
  same_names entries =
      sort_strings-Permᴰ (keep-Permᴰ has_text (on_names entries))
      ∙ sym (sort_strings-Permᴰ (keep-Permᴰ has_text (off_names entries)))

  Opposite-section :
      (section : Text) (entries : Fields)
      → Opposite
          (section_rules op_restore section (range_on entries))
          (section_rules op_delete section (range_off entries))
  Opposite-section section entries =
      subst
        (λ names.
          Opposite (section_rules op_restore section (range_on entries))
            (map (λ n. compose_rule op_delete (section_path section n) null) names))
        (same_names entries)
        (Opposite-restored (section_path section) (λ n. null) (names_in (range_on entries)))

  Opposite-definitions :
      (d : Definitions)
      → Opposite
          (compose_definition_rules range_on d op_restore)
          (compose_definition_rules range_off d op_delete)
  unfolding compose_definition_rules
  Opposite-definitions d =
      Opposite-append _ _ _ _ (Opposite-section (codes "services") d.services) (
        Opposite-append _ _ _ _ (Opposite-section (codes "networks") d.networks) (
          Opposite-append _ _ _ _ (Opposite-section (codes "volumes") d.volumes) (
            Opposite-append _ _ _ _ (Opposite-section (codes "secrets") d.secrets)
              (Opposite-section (codes "configs") d.configs))))

  Opposite-targets :
      (service : Text) (dependencies : Fields) (env : List (Text × Text))
      → Opposite
          (target_service_rules service dependencies env).0
          (target_service_rules service dependencies env).1
  unfolding target_service_rules
  Opposite-targets service dependencies env = elim (Bool-cases (is_empty (trim_space service))) [
    | inl e ↦ rw (e, target_service_rules) (refl, refl, refl)
    | inr e ↦
        rw (e, target_service_rules)
          (Opposite-append _ _ _ _
            (Opposite-set (service_path (trim_space service) (codes "depends_on"))
              (λ n. dependency_value n dependencies) (names_in (keys dependencies)))
            (Opposite-set (service_path (trim_space service) (codes "environment"))
              (λ n. env_value n env) (env_names env)))
  ]

  made :
      (o : Options) (s : Service)
      → new_compose_service_component range_on range_off o ≡ ok s
      → service_of range_on range_off (trim_space o.name) o ≡ s
  unfolding new_compose_service_component
  made o s h = elim (Bool-cases (is_empty (trim_space o.name))) [
    | inl e ↦ let no = rw (e, new_compose_service_component) at h in cc
    | inr e ↦
        elim (Bool-cases (does_nothing o (normalize_service_names o.service_names o.definitions))) [
          | inl d ↦ let no = rw (e, d, new_compose_service_component) at h in cc
          | inr d ↦ ok-injective (rw (e, d, new_compose_service_component) at h)
        ]
  ]

  -- Whatever the orders are in which the maps of the definitions are ranged over for the on and for the
  -- off rules: the rules that a service component gets for its on state, in front of the extra rules
  -- of its options, have the same paths in the same order as those of its off state; the former
  -- delete nothing and the latter only delete.
  pub new_compose_service_component-deletes :
      (o : Options) (s : Service)
      → new_compose_service_component range_on range_off o ≡ ok s
      → (on : List YamlRule) × (off : List YamlRule) × (s.on.compose
          ≡ on ++ (o.extra_on_rules ++ o.definition_on_rules))
        × (s.off.compose ≡ off ++ (o.extra_off_rules ++ o.definition_off_rules))
        × (paths on ≡ paths off)
        × (all (λ r. not (deletes r)) on ≡ true)
        × (all deletes off ≡ true)
  new_compose_service_component-deletes o s h =
      let e = made o s h in
      let targets = target_service_rules o.app_service o.app_dependencies o.app_environment in
      let on = compose_definition_rules range_on o.definitions op_restore in
      let off = compose_definition_rules range_off o.definitions op_delete in
      let (p, keeps, drops) =
        Opposite-append on off targets.0 targets.1 (Opposite-definitions o.definitions)
          (Opposite-targets o.app_service o.app_dependencies o.app_environment) in
      (
        on ++ targets.0,
        off ++ targets.1,
        ap (λ x. x.on.compose) (sym e)
            ∙ sym (append_assoc on targets.0 (o.extra_on_rules ++ o.definition_on_rules)),
        ap (λ x. x.off.compose) (sym e)
            ∙ sym (append_assoc off targets.1 (o.extra_off_rules ++ o.definition_off_rules)),
        p,
        keeps,
        drops,
      )
