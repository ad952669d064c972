-- ===== src/Registry.antt =====
-- pkg/component/registry.go: the features of a plugin by their names. A feature is what has a name.
pub mod Features
mod Tests
use sitectl.Prelude.{
  Bool, true, false, not, ◌&&◌, ◌||◌, Option, none, some, List, [], ◌∷◌, if◌then◌else◌, is_empty,
  is_some,
}
use sitectl.Result.{Result, ok, err, ◌>>=◌}
use sitectl.Text.{Text, ◌==◌}

pub data Error : Type 0 where
  empty_name : Error
  already_registered : Text → Error

module _ {Feature : Type 0} (name : Feature → Text) where
  -- Registry.Component: the feature of a name
  unfoldable pub component : List Feature → Text → Option Feature
  component [] key = none
  component (f ∷ fs) key = let rest = component fs key in if name f == key then some f else rest

  -- Registry.Register: the features afterwards
  unfoldable pub register : List Feature → Feature → Result Error (List Feature)
  register features f =
      if is_empty (name f)
      then err empty_name
      else if is_some (component features (name f))
      then err (already_registered (name f))
      else ok (f ∷ features)

  -- The loop of NewRegistry; MustRegister panics with the error.
  unfoldable pub register_all : List Feature → List Feature → Result Error (List Feature)
  register_all features [] = ok features
  register_all features (f ∷ fs) = register features f >>= λ next. register_all next fs

  -- NewRegistry
  unfoldable pub new_registry : List Feature → Result Error (List Feature)
  unfolding register_all
  new_registry features = register_all [] features
