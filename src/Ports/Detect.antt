-- ===== src/Ports/Detect.antt =====
-- pkg/config/ports.go: the ports of a compose file's services. The YAML decoder and the file system
-- are parameters.

pub mod Plans
use sitectl.Prelude.{
  ℕ, Bool, true, false, not, ◌&&◌, ◌||◌, Option, none, some, List, [], ◌∷◌, ◌++◌, nat_eq,
  if◌then◌else◌, is_empty, any, is_some,
}
use sitectl.Result.{Result, ok, err, ◌>>=◌}
use sitectl.Text.{
  Text, codes, ◌==◌, trim, trim_space, to_lower, equal_fold, split, contains, cut, Cut,
}
use sitectl.Text.Number.{ℤ, pos, negsuc, atoi}
use sitectl.Yaml.{
  Kind, sequence, mapping, scalar, Node, mk, Nodes, nil, cons, value, is_mapping, document_mapping,
  mapping_value, string_field_values,
}
use sitectl.Ports.{
  Service, Plan, empty_plan, add_port, local_dev_fallback_port, http_port, https_port, uses_https,
}

abbrev pub is_quote : ℕ → Bool
is_quote c = nat_eq c b'"' || nat_eq c b'\''

-- strings.Split(s, sep)[0], and the last and the last but one of its parts
abbrev pub first_part : List Text → Text
first_part [] = []
first_part (p ∷ ps) = p

abbrev pub last_part : List Text → Text
last_part [] = []
last_part (p ∷ []) = p
last_part (p ∷ q ∷ ps) = last_part (q ∷ ps)

-- A port's text without quotes around it and without its protocol
unfoldable pub bare_port : Text → Text
bare_port v = first_part (split (λ c. nat_eq c b'/') (trim_space (trim is_quote v)))

-- The ports named by a number; its zero stands for none.
unfoldable pub port_of : Text → List ℤ
port_of s = elim (atoi (trim_space s)) [
  | none ↦ []
  | some (pos n) ↦ if nat_eq n 0 then [] else pos n ∷ []
  | some (negsuc n) ↦ negsuc n ∷ []
]

-- portStringTarget
unfoldable pub port_string_target : Text → List ℤ
unfolding port_of bare_port
port_string_target v =
    if is_empty (trim_space (trim is_quote v))
    then []
    else port_of (last_part (split (λ c. nat_eq c b':') (bare_port v)))

-- portMapTarget
unfoldable pub port_map_target : Node → List ℤ
unfolding port_of
port_map_target n = elim (mapping_value n (codes "target")) [
  | none ↦ []
  | some t ↦ port_of (value t)
]

-- serviceTargetPorts, with every number in the set at least once
unfoldable mutual
  unfolding port_string_target port_map_target

  pub service_target_ports : Node → List ℤ
  service_target_ports (mk sequence t v s c) = target_ports_of c
  service_target_ports (mk mapping t v s c) = port_map_target (mk mapping t v s c)
  service_target_ports (mk scalar t v s c) = port_string_target v
  service_target_ports (mk _ t v s c) = []

  pub target_ports_of : Nodes → List ℤ
  target_ports_of nil = []
  target_ports_of (cons n ns) = service_target_ports n ++ target_ports_of ns

-- The port of an entrypoint on a command line
unfoldable pub entrypoint_port : Text → List ℤ
unfolding contains
entrypoint_port v =
    let lower = to_lower (trim_space v) in
    if not (contains lower (codes "entrypoints.")) || not (contains lower (codes "address=:"))
    then []
    else if contains lower (codes "address=:443")
    then pos https_port ∷ []
    else if contains lower (codes "address=:80")
    then pos http_port ∷ []
    else []

unfoldable pub entrypoint_ports : List Text → List ℤ
unfolding entrypoint_port
entrypoint_ports [] = []
entrypoint_ports (v ∷ vs) = entrypoint_port v ++ entrypoint_ports vs

-- The values of a field that may be missing
unfoldable pub optional_values : Option Node → List Text
optional_values none = []
optional_values (some n) = string_field_values n

-- serviceCommandTargetPorts
unfoldable pub service_command_target_ports : Option Node → List ℤ
unfolding entrypoint_ports optional_values
service_command_target_ports n = entrypoint_ports (optional_values n)

-- serviceCommandUsesLetsEncrypt
unfoldable pub service_command_uses_lets_encrypt : Option Node → Bool
unfolding optional_values contains
service_command_uses_lets_encrypt n =
    any (λ v. contains (to_lower v) (codes "certificatesresolvers.letsencrypt.acme"))
      (optional_values n)

abbrev unquoted : Text → Text
unquoted v = trim (λ c. nat_eq c b'"') (trim_space v)

-- serviceEnvironmentStringValue
unfoldable pub service_environment_string_value : Text → Text → Text
unfolding cut
service_environment_string_value v key =
    let c = cut (trim_space v) b'=' in
    if not c.found || not (equal_fold (trim_space c.before) key) then [] else unquoted c.after

unfoldable pub environment_pair : Nodes → Text → Text
environment_pair nil key = []
environment_pair (cons k nil) key = []
environment_pair (cons k (cons v rest)) key =
    let later = environment_pair rest key in
    if equal_fold (trim_space (value k)) key then unquoted (value v) else later

unfoldable pub environment_item : Nodes → Text → Text
unfolding service_environment_string_value
environment_item nil key = []
environment_item (cons n ns) key =
    let later = environment_item ns key in
    let here = service_environment_string_value (value n) key in
    if is_empty here then later else here

unfoldable pub environment_of : Node → Text → Text
unfolding environment_pair environment_item service_environment_string_value
environment_of (mk mapping t v s c) key = environment_pair c key
environment_of (mk sequence t v s c) key = environment_item c key
environment_of (mk scalar t v s c) key = service_environment_string_value v key
environment_of (mk _ t v s c) key = []

-- serviceEnvironmentValue
unfoldable pub service_environment_value : Option Node → Text → Text
unfolding environment_of
service_environment_value none key = []
service_environment_value (some n) key =
    if is_empty (trim_space key) then [] else environment_of n (trim_space key)

-- plan.Services[name][target], made where it is missing
unfoldable pub add_target : Text → ℕ → List Service → List Service
add_target name n [] = record { name = name; ports = n ∷ [] } ∷ []
add_target name n (s ∷ ss) =
    let rest = add_target name n ss in
    if s.name == name then record s { ports = add_port n s.ports } ∷ ss else s ∷ rest

-- The loop over a service's targets: only a port with a fallback gets into the plan.
unfoldable pub add_targets : Text → List ℤ → List Service → List Service
add_targets name [] ss = ss
add_targets name (negsuc n ∷ ts) ss = add_targets name ts ss
add_targets name (pos n ∷ ts) ss =
    add_targets name ts (if is_some (local_dev_fallback_port n) then add_target name n ss else ss)

-- The ports of a field that may be missing
unfoldable pub optional_ports : Option Node → List ℤ
optional_ports none = []
optional_ports (some n) = service_target_ports n

-- What one service adds to the plan
unfoldable pub merge_service : Text → Node → Plan → Plan
merge_service name service p =
    let command = mapping_value service (codes "command") in
    let ports = optional_ports (mapping_value service (codes "ports")) in
    let is_traefik = equal_fold name (codes "traefik") in
    let mode =
      service_environment_value (mapping_value service (codes "environment"))
        (codes "SITECTL_TLS_MODE") in
    record {
      services = add_targets name (ports ++ service_command_target_ports command) p.services;
      lets_encrypt = p.lets_encrypt || is_traefik && service_command_uses_lets_encrypt command;
      tls_mode = if is_traefik && not (is_empty mode) then mode else p.tls_mode;
    }

unfoldable pub merge_services : Nodes → Plan → Plan
merge_services nil p = p
merge_services (cons k nil) p = p
merge_services (cons k (cons v rest)) p =
    let name = trim_space (value k) in
    merge_services rest (if is_empty name || not (is_mapping v) then p else merge_service name v p)

unfoldable pub merge_document : Node → Plan → Plan
merge_document doc p = elim (document_mapping doc) [
  | none ↦ p
  | some root ↦ elim (mapping_value root (codes "services")) [
    | none ↦ p
    | some (mk mapping t v s c) ↦ merge_services c p
    | some (mk _ t v s c) ↦ p
  ]
]

module _ {Data : Type 0} (decode : Data → Option Node) where
  -- mergeComposePortPlan
  unfoldable pub merge_compose_port_plan : Plan → Data → Plan
  merge_compose_port_plan p raw = elim (decode raw) [ none ↦ p | some doc ↦ merge_document doc p ]

  -- composeDataPublishesSecurePort
  unfoldable pub compose_data_publishes_secure_port : Data → Bool
  compose_data_publishes_secure_port raw = uses_https (merge_compose_port_plan empty_plan raw)

  module _ {E : Type 0} (file_exists : Text → Result E Bool)
      (read_file : Text → Result E Data) where
    -- The loop of inspectComposePortPlan, over paths that are resolved
    unfoldable pub inspect_files : List Text → Plan → Result E Plan
    inspect_files [] p = ok p
    inspect_files (file ∷ files) p = do
      exists ← file_exists file
      next ← if exists then (read_file file >>= λ raw. ok (merge_compose_port_plan p raw)) else ok p
      inspect_files files next

-- composeFilesForPortDetection
abbrev pub compose_files_for_port_detection : List Text → List Text
compose_files_for_port_detection [] =
    codes "docker-compose.yml"
    ∷ codes "docker-compose.yaml"
    ∷ codes "compose.yml"
    ∷ codes "compose.yaml"
    ∷ []
compose_files_for_port_detection (f ∷ fs) = f ∷ fs
