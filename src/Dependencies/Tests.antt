-- ===== src/Dependencies/Tests.antt =====
-- Two modules of one package.
use sitectl.Prelude.{true, false, List, [], ◌∷◌, ◌≡◌, refl}
use sitectl.Text.{codes, ◌==◌}
use sitectl.Dependencies.{Module, has_package, composer_packages, composer_packages_for_enable}
use sitectl.Dependencies.Packages.{is_distinct, wanted_by, composer_packages-lists}

abbrev modules : List Module
modules =
    record {
      module_name = codes "islandora";
      composer_package = codes "drupal/islandora";
      mode = codes "strict";
    }
    ∷ record {
      module_name = codes "islandora_audio";
      composer_package = codes "drupal/islandora";
      mode = [];
    }
    ∷ record {
      module_name = codes "devel";
      composer_package = codes "drupal/devel";
      mode = codes "enable_only";
    }
    ∷ []

listed : composer_packages_for_enable modules ≡ codes "drupal/islandora" ∷ codes "drupal/devel" ∷ []
unfolding composer_packages ◌==◌
listed = refl

composer_packages-lists_example :
    (is_distinct (composer_packages modules false) ≡ true)
    × (has_package (codes "drupal/devel") (composer_packages modules false)
        ≡ wanted_by false (codes "drupal/devel") modules)
composer_packages-lists_example = composer_packages-lists modules false (codes "drupal/devel")
