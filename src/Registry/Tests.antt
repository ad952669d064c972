-- ===== src/Registry/Tests.antt =====
-- A registry of two features, which are their names.
use sitectl.Prelude.{refl, List, [], ◌∷◌, ◌≡◌}
use sitectl.Result.{ok, is_ok}
use sitectl.Text.{Text, codes}
use sitectl.Registry.{component, new_registry}
use sitectl.Registry.Features.{are_distinct, new_registry_succeeds, component-new_registry}

abbrev own_name : Text → Text
own_name f = f

abbrev features : List Text
features = codes "drupal" ∷ codes "solr" ∷ []

new_registry_succeeds_example :
    is_ok (new_registry own_name features) ≡ are_distinct own_name features
new_registry_succeeds_example = new_registry_succeeds own_name features

abbrev stored : List Text
stored = codes "solr" ∷ codes "drupal" ∷ []

made : new_registry own_name features ≡ ok stored
unfolding new_registry sitectl.Registry.register component sitectl.Text.◌==◌
made = refl

component-new_registry_example :
    component own_name stored (codes "drupal") ≡ component own_name features (codes "drupal")
component-new_registry_example =
    component-new_registry own_name features stored (codes "drupal") made
