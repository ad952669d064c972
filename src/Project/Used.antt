-- ===== src/Project/Used.antt =====
-- pkg/component/compose.go: usedResources beside the description of references.
mod Mounts
use sitectl.Prelude.{
  ◌≡◌, ◌⊎◌, ◌↔◌, refl, sym, ap, ◌∙◌, subst, Bool, true, false, not, ◌&&◌, ◌||◌, Bool-cases, inl,
  inr, Option, none, some, List, [], ◌∷◌, ◌++◌, is_empty, all, nat_eq, nat_eq_iff, ℕ, arith,
}
use sitectl.Text.{Text, codes, ◌==◌, cut}
use sitectl.Text.Equality.{eq_refl, eq_iff, eq_sound}
use sitectl.Rules.{
  Value, null, boolean, number, text, sequence, object, Values, no_values, item, Fields, no_fields,
  field, member,
}
use sitectl.Rules.Json.{get_field}
use sitectl.Project.Resources.{
  Section, volumes, networks, secrets, configs, is_named_volume, text_of, string_field, named,
  volume_source, is_volume_type, items_of, volume_refs, object_refs, string_items, field_names,
  service_network_refs, service_refs, refs_in, nested_map, is_used,
}
use sitectl.Project.References.{
  AnyItem, AnyField, InSequence, IsVolumeName, IsVolumeMount, MountsVolume, NamesObject, IsText,
  NamesNetwork, RefersTo, ServiceRefers, IsReferred,
}
use sitectl.Project.Used.Mounts.{
  false_iff, or_iff, skip_iff, along, swap_eq, member-append, member-named, source_iff,
  short_mount_iff, object_mount_iff,
}

volume_refs_iff :
    (n : Text) (vs : Values) → (member n (volume_refs vs) ≡ true) ↔ AnyItem (MountsVolume n) vs
unfolding volume_refs
volume_refs_iff n no_values = false_iff
volume_refs_iff n (item (text s) vs) =
    along (member-named n (is_named_volume (volume_source s)) (volume_source s) (volume_refs vs))
      (or_iff _ _ (short_mount_iff n s) (volume_refs_iff n vs))
volume_refs_iff n (item (object fs) vs) =
    along (member-named n _ (string_field (codes "source") fs) (volume_refs vs))
      (or_iff _ _ (object_mount_iff n fs) (volume_refs_iff n vs))
volume_refs_iff n (item null vs) = skip_iff _ (volume_refs_iff n vs)
volume_refs_iff n (item (boolean b) vs) = skip_iff _ (volume_refs_iff n vs)
volume_refs_iff n (item (number b) vs) = skip_iff _ (volume_refs_iff n vs)
volume_refs_iff n (item (sequence b) vs) = skip_iff _ (volume_refs_iff n vs)

object_refs_iff :
    (n : Text) (vs : Values) → (member n (object_refs vs) ≡ true) ↔ AnyItem (NamesObject n) vs
unfolding object_refs
object_refs_iff n no_values = false_iff
object_refs_iff n (item (text s) vs) = or_iff _ _ (swap_eq n s) (object_refs_iff n vs)
object_refs_iff n (item (object fs) vs) =
    along (member-named n _ (string_field (codes "source") fs) (object_refs vs))
      (or_iff _ _ (source_iff n (get_field (codes "source") fs)) (object_refs_iff n vs))
object_refs_iff n (item null vs) = skip_iff _ (object_refs_iff n vs)
object_refs_iff n (item (boolean b) vs) = skip_iff _ (object_refs_iff n vs)
object_refs_iff n (item (number b) vs) = skip_iff _ (object_refs_iff n vs)
object_refs_iff n (item (sequence b) vs) = skip_iff _ (object_refs_iff n vs)

string_items_iff :
    (n : Text) (vs : Values) → (member n (string_items vs) ≡ true) ↔ AnyItem (IsText n) vs
unfolding string_items
string_items_iff n no_values = false_iff
string_items_iff n (item (text s) vs) = or_iff _ _ (swap_eq n s) (string_items_iff n vs)
string_items_iff n (item (object fs) vs) = skip_iff _ (string_items_iff n vs)
string_items_iff n (item null vs) = skip_iff _ (string_items_iff n vs)
string_items_iff n (item (boolean b) vs) = skip_iff _ (string_items_iff n vs)
string_items_iff n (item (number b) vs) = skip_iff _ (string_items_iff n vs)
string_items_iff n (item (sequence b) vs) = skip_iff _ (string_items_iff n vs)

field_names_iff :
    (n : Text) (fs : Fields) → (member n (field_names fs) ≡ true) ↔ AnyField (λ k v. k ≡ n) fs
field_names_iff n no_fields = false_iff
field_names_iff n (field k v fs) = or_iff _ _ (swap_eq n k) (field_names_iff n fs)

networks_iff :
    (n : Text) (o : Option Value) → (member n (service_network_refs o) ≡ true) ↔ NamesNetwork n o
unfolding service_network_refs
networks_iff n none = false_iff
networks_iff n (some (sequence vs)) = string_items_iff n vs
networks_iff n (some (object fs)) = field_names_iff n fs
networks_iff n (some null) = false_iff
networks_iff n (some (boolean b)) = false_iff
networks_iff n (some (number b)) = false_iff
networks_iff n (some (text b)) = false_iff

InSequence-iff :
    (P : Value → Type 0) (refs : Values → List Text) (n : Text) (o : Option Value)
    → ((vs : Values) → (member n (refs vs) ≡ true) ↔ AnyItem P vs)
    → (member n (refs (items_of o)) ≡ true) ↔ InSequence P o
InSequence-iff P refs n none p = p no_values
InSequence-iff P refs n (some (sequence vs)) p = p vs
InSequence-iff P refs n (some (object fs)) p = p no_values
InSequence-iff P refs n (some null) p = p no_values
InSequence-iff P refs n (some (boolean b)) p = p no_values
InSequence-iff P refs n (some (number b)) p = p no_values
InSequence-iff P refs n (some (text b)) p = p no_values

service_refs_iff :
    (s : Section) (n : Text) (service : Fields)
    → (member n (service_refs s service) ≡ true) ↔ RefersTo s n service
unfolding service_refs
service_refs_iff volumes n service =
    InSequence-iff (MountsVolume n) volume_refs n _ (volume_refs_iff n)
service_refs_iff networks n service = networks_iff n _
service_refs_iff secrets n service =
    InSequence-iff (NamesObject n) object_refs n _ (object_refs_iff n)
service_refs_iff configs n service =
    InSequence-iff (NamesObject n) object_refs n _ (object_refs_iff n)

refs_in_iff :
    (s : Section) (n : Text) (services : Fields)
    → (member n (refs_in s services) ≡ true) ↔ AnyField (λ k v. ServiceRefers s n v) services
unfolding refs_in
refs_in_iff s n no_fields = false_iff
refs_in_iff s n (field k (object service) services) =
    along (member-append n (service_refs s service) (refs_in s services))
      (or_iff _ _ (service_refs_iff s n service) (refs_in_iff s n services))
refs_in_iff s n (field k null services) = skip_iff _ (refs_in_iff s n services)
refs_in_iff s n (field k (boolean b) services) = skip_iff _ (refs_in_iff s n services)
refs_in_iff s n (field k (number b) services) = skip_iff _ (refs_in_iff s n services)
refs_in_iff s n (field k (text b) services) = skip_iff _ (refs_in_iff s n services)
refs_in_iff s n (field k (sequence b) services) = skip_iff _ (refs_in_iff s n services)

-- A name is in use exactly if a service refers to it.
pub is_used_iff :
    (root : Fields) (s : Section) (n : Text) → (is_used root s n ≡ true) ↔ IsReferred root s n
unfolding is_used
is_used_iff root s n = refs_in_iff s n (nested_map (codes "services") root)
