-- ===== src/Project/References.antt =====
-- pkg/component/compose.go: the references of services to volumes, networks, secrets and configs,
-- described without the loops that collect them.
use sitectl.Prelude.{◌≡◌, ◌⊎◌, true, false, not, Option, some, [], ◌∷◌, ◌++◌, is_empty, all, nat_eq}
use sitectl.Text.{Text, codes, has_prefix}
use sitectl.Rules.{Value, text, sequence, object, Values, no_values, item, Fields, no_fields, field}
use sitectl.Rules.Json.{get_field}
use sitectl.Project.Resources.{Section, volumes, networks, secrets, configs, nested_map}

-- Some value of a list, and some field of a map
abbrev pub AnyItem : (Value → Type 0) → Values → Type 0
AnyItem P no_values = ⊥
AnyItem P (item v vs) = P v ⊎ AnyItem P vs

abbrev pub AnyField : (Text → Value → Type 0) → Fields → Type 0
AnyField P no_fields = ⊥
AnyField P (field k v fs) = P k v ⊎ AnyField P fs

abbrev pub InSequence : (Value → Type 0) → Option Value → Type 0
InSequence P (some (sequence vs)) = AnyItem P vs
InSequence P _ = ⊥

-- No part of the name is a colon, and the name is not that of a path.
abbrev pub IsVolumeName : Text → Type 0
IsVolumeName n =
    (all (λ c. not (nat_eq c b':')) n ≡ true)
    × (is_empty n ≡ false)
    × (has_prefix n (codes "/") ≡ false)
    × (has_prefix n (codes "./") ≡ false)
    × (has_prefix n (codes "../") ≡ false)
    × (has_prefix n (codes "~/") ≡ false)

-- A mount that says no type is one of a volume.
abbrev pub IsVolumeMount : Option Value → Type 0
IsVolumeMount (some (text t)) = (t ≡ []) ⊎ (t ≡ codes "volume")
IsVolumeMount _ = Unit

abbrev pub IsSource : Text → Fields → Type 0
IsSource n fs = (get_field (codes "source") fs ≡ some (text n)) × (is_empty n ≡ false)

-- "name", "name:path" or a mount with the name as its source
abbrev pub MountsVolume : Text → Value → Type 0
MountsVolume n (text s) = IsVolumeName n × ((s ≡ n) ⊎ ((path : Text) × (s ≡ n ++ b':' ∷ path)))
MountsVolume n (object fs) = IsSource n fs × IsVolumeMount (get_field (codes "type") fs)
MountsVolume n _ = ⊥

-- The name, or a mapping with the name as its source
abbrev pub NamesObject : Text → Value → Type 0
NamesObject n (text s) = s ≡ n
NamesObject n (object fs) = IsSource n fs
NamesObject n _ = ⊥

abbrev pub IsText : Text → Value → Type 0
IsText n (text s) = s ≡ n
IsText n _ = ⊥

-- The networks are a list of names or a mapping by name.
abbrev pub NamesNetwork : Text → Option Value → Type 0
NamesNetwork n (some (sequence vs)) = AnyItem (IsText n) vs
NamesNetwork n (some (object fs)) = AnyField (λ k v. k ≡ n) fs
NamesNetwork n _ = ⊥

-- The service refers to the entry of that name in the section.
abbrev pub RefersTo : Section → Text → Fields → Type 0
RefersTo volumes n service = InSequence (MountsVolume n) (get_field (codes "volumes") service)
RefersTo networks n service = NamesNetwork n (get_field (codes "networks") service)
RefersTo secrets n service = InSequence (NamesObject n) (get_field (codes "secrets") service)
RefersTo configs n service = InSequence (NamesObject n) (get_field (codes "configs") service)

abbrev pub ServiceRefers : Section → Text → Value → Type 0
ServiceRefers s n (object service) = RefersTo s n service
ServiceRefers s n _ = ⊥

-- Some service refers to it.
abbrev pub IsReferred : Fields → Section → Text → Type 0
IsReferred root s n = AnyField (λ k v. ServiceRefers s n v) (nested_map (codes "services") root)
