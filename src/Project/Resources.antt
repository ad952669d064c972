-- ===== src/Project/Resources.antt =====
-- pkg/component/compose.go: the volumes, networks, secrets and configs that services refer to.
use sitectl.Prelude.{
  Bool, not, ◌&&◌, ◌||◌, Option, none, some, List, [], ◌∷◌, ◌++◌, if◌then◌else◌, is_empty,
}
use sitectl.Text.{Text, codes, ◌==◌, has_prefix, cut}
use sitectl.Rules.{
  Value, text, sequence, object, Values, no_values, item, Fields, no_fields, field, member,
}
use sitectl.Rules.Json.{get_field, fields_of}

pub data Section : Type 0 where
  volumes networks secrets configs : Section

abbrev pub section_name : Section → Text
section_name volumes = codes "volumes"
section_name networks = codes "networks"
section_name secrets = codes "secrets"
section_name configs = codes "configs"

-- isNamedVolume; on a system with slashes a path is absolute if it starts with one.
unfoldable pub is_named_volume : Text → Bool
unfolding has_prefix
is_named_volume source = not (
    is_empty source
    || has_prefix source (codes "/")
    || has_prefix source (codes "./")
    || has_prefix source (codes "../")
    || has_prefix source (codes "~/"))

abbrev pub text_of : Option Value → Text
text_of (some (text s)) = s
text_of _ = []

-- A field that is a string, or else the empty text
abbrev pub string_field : Text → Fields → Text
string_field key fs = text_of (get_field key fs)

abbrev pub named : Bool → Text → List Text
named keep_it name = if keep_it then name ∷ [] else []

-- strings.SplitN(volume, ":", 2)[0]
abbrev pub volume_source : Text → Text
volume_source s = let parts = cut s b':' in if parts.found then parts.before else s

abbrev pub is_volume_type : Text → Bool
is_volume_type t = is_empty t || t == codes "volume"

-- serviceVolumeRefs, over the items
unfoldable pub volume_refs : Values → List Text
unfolding is_named_volume get_field cut
volume_refs no_values = []
volume_refs (item (text s) vs) =
    named (is_named_volume (volume_source s)) (volume_source s) ++ volume_refs vs
volume_refs (item (object fs) vs) =
    named
      (not (is_empty (string_field (codes "source") fs))
        && is_volume_type (string_field (codes "type") fs))
      (string_field (codes "source") fs)
    ++ volume_refs vs
volume_refs (item _ vs) = volume_refs vs

-- serviceObjectRefs, over the items
unfoldable pub object_refs : Values → List Text
unfolding get_field
object_refs no_values = []
object_refs (item (text s) vs) = s ∷ object_refs vs
object_refs (item (object fs) vs) =
    named (not (is_empty (string_field (codes "source") fs))) (string_field (codes "source") fs)
    ++ object_refs vs
object_refs (item _ vs) = object_refs vs

unfoldable pub string_items : Values → List Text
string_items no_values = []
string_items (item (text s) vs) = s ∷ string_items vs
string_items (item _ vs) = string_items vs

abbrev pub field_names : Fields → List Text
field_names no_fields = []
field_names (field k v fs) = k ∷ field_names fs

-- serviceNetworkRefs
unfoldable pub service_network_refs : Option Value → List Text
unfolding string_items
service_network_refs none = []
service_network_refs (some (sequence vs)) = string_items vs
service_network_refs (some (object fs)) = field_names fs
service_network_refs (some _) = []

abbrev pub items_of : Option Value → Values
items_of (some (sequence vs)) = vs
items_of _ = no_values

-- The names that a service refers to in a section
unfoldable pub service_refs : Section → Fields → List Text
unfolding volume_refs object_refs service_network_refs get_field
service_refs volumes service = volume_refs (items_of (get_field (codes "volumes") service))
service_refs networks service = service_network_refs (get_field (codes "networks") service)
service_refs secrets service = object_refs (items_of (get_field (codes "secrets") service))
service_refs configs service = object_refs (items_of (get_field (codes "configs") service))

-- The loop of usedResources: the names that are set
unfoldable pub refs_in : Section → Fields → List Text
unfolding service_refs
refs_in section no_fields = []
refs_in section (field k (object service) services) =
    service_refs section service ++ refs_in section services
refs_in section (field k _ services) = refs_in section services

-- nestedMap, with a missing map as one without fields
abbrev pub nested_map : Text → Fields → Fields
nested_map key root = elim (fields_of (get_field key root)) [ none ↦ no_fields | some fs ↦ fs ]

-- usedResources, for one name
unfoldable pub is_used : Fields → Section → Text → Bool
unfolding refs_in get_field
is_used root section name = member name (refs_in section (nested_map (codes "services") root))
