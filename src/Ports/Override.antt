-- ===== src/Ports/Override.antt =====
-- pkg/config/ports.go: the override file that moves the ports of a local development copy, and the
-- site's URL. Reading, printing and writing files are parameters.
pub mod Read
pub mod Write
use sitectl.Prelude.{
  ℕ, Bool, true, false, not, ◌&&◌, ◌||◌, Option, none, some, List, [], ◌∷◌, ◌++◌, nat_eq,
  if◌then◌else◌, is_empty, any, map, ltb,
}
use sitectl.Text.{Text, codes, ◌==◌, trim, trim_space, to_lower, split, contains}
use sitectl.Text.Number.{ℤ, pos, negsuc, atoi}
use sitectl.Text.Print.{itoa}
use sitectl.Yaml.{
  Kind, sequence, mapping, scalar, Node, mk, Nodes, nil, cons, value, content, is_mapping,
  str_scalar, mapping_value, set_mapping_value, delete_mapping_key, ensure_mapping_value,
  ensure_document_mapping, document_mapping, empty_document,
}
use sitectl.Document.{double_quoted, with_root, first_child}
use sitectl.Ports.{Service, Plan, http_port, https_port}
use sitectl.Ports.Detect.{bare_port, last_part, is_quote}

-- A map from ports to host ports
abbrev pub HostPorts : Type 0
HostPorts = List (ℕ × ℕ)

unfoldable pub host_port : HostPorts → ℕ → Option ℕ
host_port [] target = none
host_port ((t, h) ∷ hs) target =
    let rest = host_port hs target in if nat_eq t target then some h else rest

-- The host port of a target: the target where none is set, or zero is
unfoldable pub host_port_or_target : HostPorts → ℕ → ℕ
unfolding host_port
host_port_or_target hosts target = elim (host_port hosts target) [
  | none ↦ target
  | some h ↦ if nat_eq h 0 then target else h
]

-- fmt.Sprintf("%d:%d", host, target)
unfoldable pub print_port : ℕ → ℕ → Text
unfolding itoa
print_port host target = itoa host ++ b':' ∷ itoa target

pub record PortOverride : Type 0 where
  pub service : Text
  pub ports : List Text

unfoldable pub override_needed : HostPorts → List ℕ → Bool
unfolding host_port_or_target
override_needed hosts targets = any (λ t. not (nat_eq (host_port_or_target hosts t) t)) targets

unfoldable pub print_ports : HostPorts → List ℕ → List Text
unfolding print_port host_port_or_target
print_ports hosts targets = map (λ t. print_port (host_port_or_target hosts t) t) targets

unfoldable pub overrides_of : List Service → HostPorts → List PortOverride
unfolding override_needed print_ports
overrides_of [] hosts = []
overrides_of (s ∷ ss) hosts =
    let rest = overrides_of ss hosts in
    if override_needed hosts s.ports
    then record { service = s.name; ports = print_ports hosts s.ports } ∷ rest
    else rest

-- desiredPortOverrides
unfoldable pub desired_port_overrides : Plan → HostPorts → List PortOverride
unfolding overrides_of
desired_port_overrides p hosts = overrides_of p.services hosts

-- quotedStringNode
abbrev pub quoted_string_node : Text → Node
quoted_string_node v = mk scalar (codes "!!str") v double_quoted nil

unfoldable pub quoted_nodes : List Text → Nodes
quoted_nodes [] = nil
quoted_nodes (p ∷ ps) = cons (quoted_string_node p) (quoted_nodes ps)

-- setPortsOverride
unfoldable pub set_ports_override : Node → List Text → Node
set_ports_override service ports =
    set_mapping_value service (codes "ports")
      (mk sequence (codes "!override") [] 0 (quoted_nodes ports))

abbrev pub extension_name : Text
extension_name = codes "x-sitectl-dev-ports"

unfoldable pub managed_keys : Nodes → List Text
managed_keys nil = []
managed_keys (cons k nil) = []
managed_keys (cons k (cons v rest)) =
    let keys = managed_keys rest in
    if is_empty (trim_space (value k)) then keys else trim_space (value k) ∷ keys

abbrev keys_of : Option Node → List Text
keys_of (some (mk mapping t v s c)) = managed_keys c
keys_of _ = []

-- managedPortOverrideServices
unfoldable pub managed_port_override_services : Node → List Text
unfolding managed_keys
managed_port_override_services root = keys_of (mapping_value root extension_name)

unfoldable pub managed_pairs : List PortOverride → Nodes
managed_pairs [] = nil
managed_pairs (o ∷ os) =
    cons (str_scalar o.service)
      (cons (mk sequence (codes "!!seq") [] 0 (quoted_nodes o.ports)) (managed_pairs os))

-- The order of strings; that of their bytes is that of their code points.
unfoldable pub is_before : Text → Text → Bool
is_before s [] = false
is_before [] (d ∷ t) = true
is_before (c ∷ s) (d ∷ t) = ltb c d || nat_eq c d && is_before s t

unfoldable pub insert_override : PortOverride → List PortOverride → List PortOverride
unfolding is_before
insert_override o [] = o ∷ []
insert_override o (p ∷ ps) =
    let rest = insert_override o ps in
    if is_before p.service o.service then p ∷ rest else o ∷ p ∷ ps

-- The overrides in the order of sort.Strings
unfoldable pub sort_overrides : List PortOverride → List PortOverride
unfolding insert_override
sort_overrides [] = []
sort_overrides (o ∷ os) = insert_override o (sort_overrides os)

-- setManagedPortExtension
unfoldable pub set_managed_port_extension : Node → List PortOverride → Node
unfolding managed_pairs sort_overrides
set_managed_port_extension root desired =
    set_mapping_value root extension_name
      (mk mapping (codes "!!map") [] 0 (managed_pairs (sort_overrides desired)))

abbrev pub has_override : Text → List PortOverride → Bool
has_override name os = any (λ o. o.service == name) os

-- The mapping without its entry, if the entry's value is a mapping without content
abbrev drop_if_empty : Node → Text → Node → Node
drop_if_empty services service (mk mapping t v s nil) = delete_mapping_key services service
drop_if_empty services service node = set_mapping_value services service node

abbrev release : Node → Text → Option Node → Node
release services service (some (mk mapping t v s c)) =
    drop_if_empty services service (delete_mapping_key (mk mapping t v s c) (codes "ports"))
release services service _ = services

-- The services that were managed, and are to keep no override, give up their ports.
unfoldable pub release_managed : List Text → List PortOverride → Node → Node
release_managed [] desired services = services
release_managed (name ∷ names) desired services = release_managed names desired (
    if has_override name desired
    then services
    else release services name (mapping_value services name))

abbrev at_or : Node → Text → Node
at_or n key = elim (mapping_value n key) [ none ↦ n | some v ↦ v ]

unfoldable pub apply_overrides : List PortOverride → Node → Node
apply_overrides [] services = services
apply_overrides (o ∷ os) services =
    let ensured = ensure_mapping_value services o.service in
    apply_overrides os
      (set_mapping_value ensured o.service (set_ports_override (at_or ensured o.service) o.ports))

abbrev without_empty : Node → Text → Node
without_empty root key = elim (mapping_value root key) [
  | some (mk k t v s nil) ↦ delete_mapping_key root key
  | _ ↦ root
]

-- The edits of writeComposePortOverride on the root mapping
unfoldable pub override_root : List Text → List PortOverride → Node → Node
override_root managed desired root =
    let ensured = ensure_mapping_value root (codes "services") in
    let services =
      apply_overrides desired
        (release_managed managed desired (at_or ensured (codes "services"))) in
    let with_services = set_mapping_value ensured (codes "services") services in
    if is_empty desired
    then without_empty (delete_mapping_key with_services extension_name) (codes "services")
    else set_managed_port_extension with_services desired
