-- ===== src/Ports/Override/Read.antt =====
-- composeOverrideHostPorts and ComposePublishedHostPort: the host ports read back from an override.
pub mod RoundTrip
use sitectl.Prelude.{
  ℕ, Bool, true, false, not, ◌&&◌, ◌||◌, Option, none, some, List, [], ◌∷◌, ◌++◌, nat_eq,
  if◌then◌else◌, is_empty,
}
use sitectl.Text.{Text, codes, trim, trim_space, split}
use sitectl.Text.Number.{ℤ, pos, negsuc, atoi}
use sitectl.Yaml.{
  Kind, sequence, mapping, scalar, Node, mk, Nodes, nil, cons, document_mapping, mapping_value,
}
use sitectl.Ports.{Plan, is_empty_plan, targets, has_port}
use sitectl.Ports.Detect.{bare_port, is_quote}

-- hostAndTargetPort, with its two results as one
pub record HostAndTarget : Type 0 where
  pub host : ℤ
  pub target : ℤ

abbrev no_port : HostAndTarget
no_port = record { host = pos 0; target = pos 0 }

unfoldable pub both : Option ℤ → Option ℤ → HostAndTarget
both (some h) (some t) = record { host = h; target = t }
both _ _ = no_port

-- The ports of the parts between the colons: the last two count
unfoldable pub host_and_target_parts : List Text → HostAndTarget
unfolding both
host_and_target_parts [] = no_port
host_and_target_parts (t ∷ []) = both (atoi (trim_space t)) (atoi (trim_space t))
host_and_target_parts (h ∷ t ∷ []) = both (atoi (trim_space h)) (atoi (trim_space t))
host_and_target_parts (a ∷ h ∷ t ∷ ps) = host_and_target_parts (h ∷ t ∷ ps)

-- hostAndTargetPort
unfoldable pub host_and_target_port : Text → HostAndTarget
unfolding host_and_target_parts bare_port
host_and_target_port v =
    if is_empty (trim_space (trim is_quote v))
    then no_port
    else host_and_target_parts (split (λ c. nat_eq c b':') (bare_port v))

abbrev pub int_eq : ℤ → ℤ → Bool
int_eq (pos m) (pos n) = nat_eq m n
int_eq (negsuc m) (negsuc n) = nat_eq m n
int_eq _ _ = false

-- A map from ports to host ports, the last assignment in front
abbrev pub Published : Type 0
Published = List HostAndTarget

unfoldable pub published : Published → ℤ → Option ℤ
published [] target = none
published (p ∷ ps) target =
    let rest = published ps target in if int_eq p.target target then some p.host else rest

unfoldable pub add_published : Node → Published → Published
unfolding host_and_target_port
add_published (mk scalar t v s c) out =
    let p = host_and_target_port v in
    if not (int_eq p.host (pos 0)) && not (int_eq p.target (pos 0)) then p ∷ out else out
add_published (mk _ t v s c) out = out

unfoldable pub published_items : Nodes → Published → Published
published_items nil out = out
published_items (cons n ns) out = published_items ns (add_published n out)

-- hostPortsFromPortsNode
unfoldable pub host_ports_from_ports_node : Option Node → Published
unfolding published_items add_published
host_ports_from_ports_node (some (mk sequence t v s c)) = published_items c []
host_ports_from_ports_node _ = []

unfoldable pub published_services : Nodes → Published → Published
published_services nil out = out
published_services (cons k nil) out = out
published_services (cons k (cons (mk mapping t v s c) rest)) out =
    published_services rest
      (host_ports_from_ports_node (mapping_value (mk mapping t v s c) (codes "ports")) ++ out)
published_services (cons k (cons (mk _ t v s c) rest)) out = published_services rest out

abbrev services_published : Option Node → Published
services_published (some (mk mapping t v s c)) = published_services c []
services_published _ = []

-- composeOverrideHostPorts, for the document that the file holds
unfoldable pub compose_override_host_ports : Node → Published
unfolding published_services
compose_override_host_ports doc = elim (document_mapping doc) [
  | none ↦ []
  | some root ↦ services_published (mapping_value root (codes "services"))
]

-- ComposePublishedHostPort, for a plan and an override that could be read
unfoldable pub compose_published_host_port : Plan → Published → ℕ → Option ℤ
unfolding targets published
compose_published_host_port plan overrides target =
    if is_empty_plan plan || not (has_port target (targets plan))
    then none
    else elim (published overrides (pos target)) [ some h ↦ some h | none ↦ some (pos target) ]
