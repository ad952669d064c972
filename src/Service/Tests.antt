-- ===== src/Service/Tests.antt =====
-- A service with a volume, on which another service depends.
use mathlib.Core.List.{Permᴰ}
use sitectl.Prelude.{◌≡◌, refl, true, false, not, List, [], ◌∷◌, ◌++◌, all}
use sitectl.Result.{ok}
use sitectl.Text.{Text, codes}
use sitectl.Rules.{Fields, no_fields, field, null, object, YamlRule}
use sitectl.Project.{Definitions, keys}
use sitectl.Service.{Options, Service, service_of, new_compose_service_component}
use sitectl.Service.Opposite.{paths, deletes, new_compose_service_component-deletes}

-- The off rules range over the maps from behind.
abbrev backwards : Fields → List Text
backwards no_fields = []
backwards (field k v fs) = backwards fs ++ k ∷ []

listed : (entries : Fields) → Permᴰ (keys entries) (keys entries)
listed no_fields = Permᴰ.nil
listed (field k v fs) = Permᴰ.cons refl (listed fs)

to_front : (k : Text) (names : List Text) → Permᴰ (names ++ k ∷ []) (k ∷ names)
to_front k [] = Permᴰ.cons refl Permᴰ.nil
to_front k (n ∷ names) = Permᴰ.trans (Permᴰ.cons refl (to_front k names)) (Permᴰ.swap refl refl)

backwards-IsRange : (entries : Fields) → Permᴰ (backwards entries) (keys entries)
backwards-IsRange no_fields = Permᴰ.nil
backwards-IsRange (field k v fs) =
    Permᴰ.trans (to_front k (backwards fs)) (Permᴰ.cons refl (backwards-IsRange fs))

abbrev definitions : Definitions
definitions = record {
  services = field (codes "solr") (object no_fields) no_fields;
  networks = no_fields;
  volumes = field (codes "solr-data") null (field (codes "solr-config") null no_fields);
  secrets = no_fields;
  configs = no_fields;
}

abbrev options : Options
options = record {
  name = codes "solr";
  definitions = definitions;
  service_names = [];
  app_service = codes "drupal";
  app_dependencies = field (codes "solr") null no_fields;
  app_environment = (codes "SOLR_HOST", codes "solr") ∷ [];
  default_state = [];
  default_disposition = [];
  allowed_dispositions = [];
  extra_on_rules = [];
  extra_off_rules = [];
  definition_on_rules = [];
  definition_off_rules = [];
  file_on_rules = [];
  file_off_rules = [];
  has_hooks = false;
}

abbrev solr : Service
solr = service_of keys backwards (codes "solr") options

solr_is_made : new_compose_service_component keys backwards options ≡ ok solr
unfolding new_compose_service_component sitectl.Text.Sort.sort_strings
solr_is_made = refl

new_compose_service_component-deletes_example :
    (on : List YamlRule) × (off : List YamlRule) × (solr.on.compose
      ≡ on ++ (options.extra_on_rules ++ options.definition_on_rules))
    × (solr.off.compose ≡ off ++ (options.extra_off_rules ++ options.definition_off_rules))
    × (paths on ≡ paths off)
    × (all (λ r. not (deletes r)) on ≡ true)
    × (all deletes off ≡ true)
new_compose_service_component-deletes_example =
    new_compose_service_component-deletes keys backwards listed backwards-IsRange options solr
      solr_is_made
