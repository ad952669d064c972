-- ===== src/Dependencies.antt =====
-- pkg/component/types.go: the Drupal modules and Composer packages that a component depends on.
pub mod Packages
mod Tests
use sitectl.Prelude.{
  Bool, true, false, not, ◌&&◌, ◌||◌, List, [], ◌∷◌, if◌then◌else◌, is_empty, any, keep,
}
use sitectl.Text.{Text, codes, ◌==◌}

-- DrupalModuleDependency; a mode is a string, whatever its value.
pub record Module : Type 0 where
  pub module_name : Text
  pub composer_package : Text
  pub mode : Text

abbrev pub is_strict : Module → Bool
is_strict m = m.mode == codes "strict"

-- The modes that the switches name
abbrev pub is_enabled : Module → Bool
is_enabled m = is_empty m.mode || is_strict m || m.mode == codes "enable_only"

-- DrupalModulesForEnable
unfoldable pub drupal_modules_for_enable : List Module → List Module
drupal_modules_for_enable modules = keep (λ m. not (is_empty m.module_name) && is_enabled m) modules

-- StrictDrupalModules
unfoldable pub strict_drupal_modules : List Module → List Module
strict_drupal_modules modules = keep (λ m. not (is_empty m.module_name) && is_strict m) modules

abbrev pub has_package : Text → List Text → Bool
has_package p ps = any (λ q. q == p) ps

-- The tests that a module passes before `seen` is looked at
abbrev pub is_wanted : Bool → Module → Bool
is_wanted strict_only m =
    not (is_empty m.composer_package) && (if strict_only then is_strict m else is_enabled m)

-- The loop of composerPackages, which keeps what it has seen
unfoldable pub packages_loop : Bool → List Text → List Module → List Text
packages_loop strict_only seen [] = []
packages_loop strict_only seen (m ∷ ms) =
    let skipped = packages_loop strict_only seen ms in
    let later = packages_loop strict_only (m.composer_package ∷ seen) ms in
    if not (is_wanted strict_only m) || has_package m.composer_package seen
    then skipped
    else m.composer_package ∷ later

-- composerPackages
unfoldable pub composer_packages : List Module → Bool → List Text
unfolding packages_loop
composer_packages modules strict_only = packages_loop strict_only [] modules

-- ComposerPackagesForEnable, StrictComposerPackages
abbrev pub composer_packages_for_enable : List Module → List Text
composer_packages_for_enable modules = composer_packages modules false

abbrev pub strict_composer_packages : List Module → List Text
strict_composer_packages modules = composer_packages modules true
