-- ===== src/Service.antt =====
-- pkg/component/service_component.go: the component of a service that compose definitions describe.
-- A map of the options is the list of its fields, whose names differ. Hooks are functions
-- that are passed on: of them the construction asks only whether there are any.
pub mod Opposite
mod Tests
use sitectl.Prelude.{
  Bool, true, false, not, ◌&&◌, ◌||◌, Option, none, some, List, [], ◌∷◌, ◌++◌, if◌then◌else◌,
  is_empty, keep, map,
}
use sitectl.Result.{Result, ok, err}
use sitectl.Text.{Text, codes, ◌==◌, trim_space}
use sitectl.Text.Sort.{sort_strings}
use sitectl.Rules.{
  RuleOp, op_set, op_delete, op_restore, Value, null, text, object, Fields, no_fields, field,
  YamlRule, FileRule, member,
}
use sitectl.Rules.Json.{get_field}
use sitectl.Rules.Detect.{DomainSpec, default_compose_rule_files}
use sitectl.Project.{Definitions, keys}
use sitectl.Disposition.{normalize_state, normalize_disposition, state_to_disposition}

pub data Error : Type 0 where
  empty_name : Error
  nothing_to_do : Text → Error

abbrev pub has_text : Text → Bool
has_text s = not (is_empty (trim_space s))

-- ComposeServiceComponentOptions, in what decides on the rules; the definitions are parsed.
pub record Options : Type 0 where
  pub name : Text
  pub definitions : Definitions
  pub service_names : List Text
  pub app_service : Text
  pub app_dependencies : Fields
  pub app_environment : List (Text × Text)
  pub default_state : Text
  pub default_disposition : Text
  pub allowed_dispositions : List Text
  pub extra_on_rules : List YamlRule
  pub extra_off_rules : List YamlRule
  pub definition_on_rules : List YamlRule
  pub definition_off_rules : List YamlRule
  pub file_on_rules : List FileRule
  pub file_off_rules : List FileRule
  pub has_hooks : Bool

-- ComposeSpec
pub record ComposeSpec : Type 0 where
  pub definitions : Option Definitions
  pub remove_services : List Text
  pub prune_unused_resource : Bool
  pub rules : List YamlRule
  pub files : List FileRule

-- ComposeServiceComponent, by its definition's and its component's specs
pub record Service : Type 0 where
  pub name : Text
  pub default_state : Text
  pub default_disposition : Text
  pub allowed_dispositions : List Text
  pub on : DomainSpec
  pub off : DomainSpec
  pub apply_on : ComposeSpec
  pub apply_off : ComposeSpec

abbrev pub compose_rule : RuleOp → Text → Value → YamlRule
compose_rule op path v = record {
  files = default_compose_rule_files;
  exclude = [];
  op = op;
  path = path;
  value = v;
  old = null;
}

-- The loop over the names of the options
unfoldable pub named_once : List Text → List Text → List Text
unfolding trim_space ◌==◌
named_once seen [] = []
named_once seen (name ∷ names) =
    let rest = named_once seen names in
    let later = named_once (trim_space name ∷ seen) names in
    if is_empty (trim_space name) || member (trim_space name) seen
    then rest
    else trim_space name ∷ later

abbrev pub section_path : Text → Text → Text
section_path section name = b'.' ∷ section ++ b'.' ∷ name

abbrev pub service_path : Text → Text → Text → Text
service_path service part name = codes ".services." ++ service ++ (b'.' ∷ part) ++ b'.' ∷ name

abbrev started : Value
started = object (field (codes "condition") (text (codes "service_started")) no_fields)

-- The value of a dependency that is set
abbrev or_started : Option Value → Value
or_started none = started
or_started (some null) = started
or_started (some v) = v

abbrev pub dependency_value : Text → Fields → Value
dependency_value name dependencies = or_started (get_field name dependencies)

abbrev pub env_value : Text → List (Text × Text) → Value
env_value name [] = text []
env_value name ((k, v) ∷ env) = let rest = env_value name env in if k == name then text v else rest

-- The names of a map that have a text, in their order
abbrev pub names_in : List Text → List Text
names_in names = sort_strings (keep has_text names)

-- normalizeServiceNames
unfoldable pub normalize_service_names : List Text → Definitions → List Text
unfolding named_once trim_space
normalize_service_names names d =
    let given = named_once [] names in
    if is_empty given then names_in (keys d.services) else sort_strings given

abbrev pub section_rules : RuleOp → Text → List Text → List YamlRule
section_rules op section names =
    map (λ name. compose_rule op (section_path section name) null) (names_in names)

-- composeDefinitionRules; a Go map is ranged over in an order that differs from call to call, and
-- `range` has the names of a map in the order of this call.
unfoldable pub compose_definition_rules :
    (Fields → List Text) → Definitions → RuleOp → List YamlRule
compose_definition_rules range d op =
    section_rules op (codes "services") (range d.services)
    ++ (section_rules op (codes "networks") (range d.networks)
        ++ (section_rules op (codes "volumes") (range d.volumes)
            ++ (section_rules op (codes "secrets") (range d.secrets)
                ++ section_rules op (codes "configs") (range d.configs))))

abbrev pub env_names : List (Text × Text) → List Text
env_names env = names_in (map (λ (e : Text × Text). e.0) env)

abbrev pub target_on : Text → Fields → List (Text × Text) → List YamlRule
target_on service dependencies env =
    map
      (λ n.
        compose_rule op_set (service_path service (codes "depends_on") n)
          (dependency_value n dependencies))
      (names_in (keys dependencies))
    ++ map
        (λ n. compose_rule op_set (service_path service (codes "environment") n) (env_value n env))
        (env_names env)

abbrev pub target_off : Text → Fields → List (Text × Text) → List YamlRule
target_off service dependencies env =
    map (λ n. compose_rule op_delete (service_path service (codes "depends_on") n) null)
      (names_in (keys dependencies))
    ++ map (λ n. compose_rule op_delete (service_path service (codes "environment") n) null)
        (env_names env)

-- targetServiceRules
unfoldable pub target_service_rules :
    Text → Fields → List (Text × Text) → List YamlRule × List YamlRule
unfolding get_field trim_space
target_service_rules app_service dependencies env =
    if is_empty (trim_space app_service) then ([], []) else (
      target_on (trim_space app_service) dependencies env,
      target_off (trim_space app_service) dependencies env,
    )

abbrev or_else : Text → Text → Text
or_else s t = if is_empty s then t else s

-- nonEmptyComposeDefinitions
unfoldable pub non_empty_compose_definitions : Definitions → Option Definitions
non_empty_compose_definitions d =
    if is_empty (keys d.services)
      && is_empty (keys d.networks)
      && is_empty (keys d.volumes)
      && is_empty (keys d.secrets)
      && is_empty (keys d.configs)
    then none
    else some d

abbrev pub does_nothing : Options → List Text → Bool
does_nothing o services =
    is_empty services
    && is_empty o.extra_on_rules
    && is_empty o.extra_off_rules
    && is_empty o.definition_on_rules
    && is_empty o.definition_off_rules
    && is_empty o.file_on_rules
    && is_empty o.file_off_rules
    && not o.has_hooks

abbrev domain_spec : List YamlRule → List FileRule → DomainSpec
domain_spec rules files = record { compose = rules; drupal = []; files = files }

-- The order of the maps in the calls of composeDefinitionRules for the on and for the off rules
module _ (range_on range_off : Fields → List Text) where
  abbrev pub service_of : Text → Options → Service
  service_of name o =
      let targets = target_service_rules o.app_service o.app_dependencies o.app_environment in
      let on = compose_definition_rules range_on o.definitions op_restore in
      let off = compose_definition_rules range_off o.definitions op_delete in
      let state = or_else (normalize_state o.default_state) (codes "on") in
      record {
        name = name;
        default_state = state;
        default_disposition =
            or_else (normalize_disposition o.default_disposition) (state_to_disposition state);
        allowed_dispositions =
            if is_empty o.allowed_dispositions
            then codes "enabled" ∷ codes "disabled" ∷ []
            else o.allowed_dispositions;
        on =
            domain_spec (on ++ (targets.0 ++ (o.extra_on_rules ++ o.definition_on_rules)))
              o.file_on_rules;
        off =
            domain_spec (off ++ (targets.1 ++ (o.extra_off_rules ++ o.definition_off_rules)))
              o.file_off_rules;
        apply_on = record {
          definitions = non_empty_compose_definitions o.definitions;
          remove_services = [];
          prune_unused_resource = false;
          rules = targets.0 ++ o.extra_on_rules;
          files = o.file_on_rules;
        };
        apply_off = record {
          definitions = none;
          remove_services = normalize_service_names o.service_names o.definitions;
          prune_unused_resource = true;
          rules = targets.1 ++ o.extra_off_rules;
          files = o.file_off_rules;
        };
      }

  -- NewComposeServiceComponent
  unfoldable pub new_compose_service_component : Options → Result Error Service
  unfolding normalize_service_names target_service_rules compose_definition_rules trim_space
  new_compose_service_component o =
      let name = trim_space o.name in
      if is_empty name
      then err empty_name
      else if does_nothing o (normalize_service_names o.service_names o.definitions)
      then err (nothing_to_do name)
      else ok (service_of name o)
