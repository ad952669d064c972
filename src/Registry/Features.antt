-- ===== src/Registry/Features.antt =====
-- What a registry holds.
use sitectl.Prelude.{
  Bool, true, false, not, ◌&&◌, Option, none, some, List, [], ◌∷◌, ◌≡◌, refl, sym, ap, ◌∙◌, arith,
  inl, inr, Bool-cases, is_empty, is_some, any,
}
use sitectl.Result.{ok, is_ok, >>=-eq-ok, ok-injective}
use sitectl.Text.{Text, ◌==◌}
use sitectl.Text.Equality.{eq_iff, eq_sound}
use sitectl.Registry.{component, register, register_all, new_registry}

module _ {Feature : Type 0} (name : Feature → Text) where
  abbrev pub has_name : List Feature → Text → Bool
  has_name fs key = any (λ f. name f == key) fs

  -- Every name is set, and none is there twice.
  abbrev pub are_distinct : List Feature → Bool
  are_distinct [] = true
  are_distinct (f ∷ fs) = not (is_empty (name f)) && not (has_name fs (name f)) && are_distinct fs

  -- The names are none of those registered before.
  abbrev are_new : List Feature → List Feature → Bool
  are_new old [] = true
  are_new old (f ∷ fs) = not (is_some (component name old (name f))) && are_new old fs

  are_new-cons :
      (g : Feature) (old fs : List Feature)
      → are_new (g ∷ old) fs ≡ (are_new old fs && not (has_name fs (name g)))
  unfolding component
  are_new-cons g old [] = refl
  are_new-cons g old (f ∷ fs) =
      ground (arith, are_new-cons g old fs, eq_iff (name g) (name f), eq_iff (name f) (name g))

  register_all_succeeds :
      (old fs : List Feature)
      → is_ok (register_all name old fs) ≡ (are_distinct fs && are_new old fs)
  unfolding register_all register
  register_all_succeeds old [] = refl
  register_all_succeeds old (f ∷ fs) = elim (Bool-cases (is_empty (name f))) [
    | inl e ↦ rw e (ground arith)
    | inr e ↦ elim (Bool-cases (is_some (component name old (name f)))) [
      | inl e₁ ↦ rw (e, e₁) (ground arith)
      | inr e₁ ↦
          rw (e, e₁) (ground (arith, register_all_succeeds (f ∷ old) fs, are_new-cons f old fs))
    ]
  ]

  are_new_none : (fs : List Feature) → are_new [] fs ≡ true
  unfolding component
  are_new_none [] = refl
  are_new_none (f ∷ fs) = are_new_none fs

  -- A registry can be made of exactly those features that all have a name, and no two the same.
  pub new_registry_succeeds :
      (features : List Feature) → is_ok (new_registry name features) ≡ are_distinct features
  unfolding new_registry
  new_registry_succeeds features =
      ground (arith, register_all_succeeds [] features, are_new_none features)

  or_else : Option Feature → Option Feature → Option Feature
  or_else none b = b
  or_else (some a) b = some a

  has-component :
      (fs : List Feature) (key : Text) → is_some (component name fs key) ≡ has_name fs key
  unfolding component
  has-component [] key = refl
  has-component (f ∷ fs) key = ground (arith, has-component fs key)

  component_missing :
      (fs : List Feature) (key : Text) → has_name fs key ≡ false → component name fs key ≡ none
  unfolding component
  component_missing [] key h = refl
  component_missing (f ∷ fs) key h = ground (arith, component_missing fs key)

  registered :
      (old : List Feature) (f : Feature) (next : List Feature)
      → register name old f ≡ ok next
      → f ∷ old ≡ next
  unfolding register
  registered old f next h = ground arith

  component-register_all :
      (old fs r : List Feature) (key : Text)
      → are_distinct fs ≡ true
      → register_all name old fs ≡ ok r
      → component name r key ≡ or_else (component name fs key) (component name old key)
  unfolding register_all register component or_else
  component-register_all old [] r key d h = ap (λ q. component name q key) (sym (ok-injective h))
  component-register_all old (f ∷ fs) r key d h =
      let (next, one, later) =
        >>=-eq-ok (register name old f) (λ next. register_all name next fs) h in
      let same : f ∷ old ≡ next = registered old f next one in
      let ih = component-register_all next fs r key (ground arith) later in
      let there : component name next key ≡ component name (f ∷ old) key =
        ap (λ q. component name q key) (sym same) in
      elim (Bool-cases (name f == key)) [
        | inl e ↦
            let gone =
              component_missing fs key
                (ground (arith, ap (has_name fs) (eq_sound (name f) key e))) in
            ih ∙ rw (gone, there, e) refl
        | inr e ↦ ih ∙ rw (there, e) refl
      ]

  -- A registry that was made from a list of features answers for each name as the list does:
  -- with its feature of that name, or with none.
  pub component-new_registry :
      (features r : List Feature) (key : Text)
      → new_registry name features ≡ ok r
      → component name r key ≡ component name features key
  unfolding new_registry or_else component
  component-new_registry features r key h =
      component-register_all [] features r key (sym (new_registry_succeeds features) ∙ ap is_ok h) h
      ∙ behind_none (component name features key)
    where
      behind_none : (o : Option Feature) → or_else o (component name [] key) ≡ o
      behind_none none = refl
      behind_none (some f) = refl
