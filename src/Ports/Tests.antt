-- ===== src/Ports/Tests.antt =====
-- A compose project with a web service behind traefik: its plan, its override, and what is read back.
use sitectl.Prelude.{
  ℕ, Bool, true, false, Option, none, some, [], ◌∷◌, ◌≡◌, refl, arith, All, nat_eq, if◌then◌else◌,
}
use sitectl.Result.{Result, ok}
use sitectl.Text.{Text, codes}
use sitectl.Text.Number.{ℤ, pos}
use sitectl.Yaml.{
  Kind, document, sequence, mapping, scalar, Node, mk, Nodes, nil, cons, str_scalar, empty_mapping,
  mapping_value,
}
use sitectl.Ports.{Service, Plan, empty_plan, has_port, uses_https}
use sitectl.Ports.Detect.{inspect_files, entrypoint_port}
use sitectl.Ports.Detect.Plans.{is_services, inspect_files-is_services}
use sitectl.Ports.Search.{Status, NoPort, is_available, unused}
use sitectl.Ports.Override.{HostPorts, host_port_or_target, print_ports, set_ports_override}
use sitectl.Ports.Override.Read.{published, host_ports_from_ports_node}
use sitectl.Ports.Override.Read.RoundTrip.{Fits, published-set_ports_override}
use sitectl.Ports.Site.{Chosen, choose_ports}
use sitectl.Ports.Site.Choices.{choose_ports-available}

abbrev map_of : Nodes → Node
map_of c = mk mapping (codes "!!map") [] 0 c

abbrev list_of : Nodes → Node
list_of c = mk sequence (codes "!!seq") [] 0 c

-- services: {traefik: {ports: ["80:80", "443:443/tcp", "9000"]}}
abbrev compose_file : Node
compose_file = mk document [] [] 0 (
    cons
      (map_of (
        cons (str_scalar (codes "services")) (
          cons
            (map_of (
              cons (str_scalar (codes "traefik")) (
                cons
                  (map_of (
                    cons (str_scalar (codes "ports")) (
                      cons
                        (list_of (
                          cons (str_scalar (codes "80:80")) (
                            cons (str_scalar (codes "443:443/tcp"))
                              (cons (str_scalar (codes "9000")) nil))))
                        nil)))
                  nil)))
            nil)))
      nil)

abbrev decode : Text → Option Node
decode raw = some compose_file

abbrev there : Text → Result Text Bool
there path = ok true

abbrev reads : Text → Result Text Text
reads path = ok path

abbrev traefik_plan : Plan
traefik_plan = record {
  services = record { name = codes "traefik"; ports = 80 ∷ 443 ∷ [] } ∷ [];
  lets_encrypt = false;
  tls_mode = [];
}

plan_read : inspect_files decode there reads (codes "compose.yml" ∷ []) empty_plan ≡ ok traefik_plan
unfolding inspect_files sitectl.Ports.Detect.merge_compose_port_plan
    sitectl.Ports.Detect.merge_document sitectl.Ports.Detect.merge_services
    sitectl.Ports.Detect.merge_service sitectl.Ports.Detect.add_targets
    sitectl.Ports.Detect.add_target sitectl.Ports.Detect.optional_ports
    sitectl.Ports.Detect.service_command_target_ports
    sitectl.Ports.Detect.service_command_uses_lets_encrypt
    sitectl.Ports.Detect.service_environment_value sitectl.Ports.Detect.service_target_ports
    sitectl.Ports.add_port sitectl.Ports.local_dev_fallback_port sitectl.Text.trim_space
    sitectl.Text.split sitectl.Text.Number.atoi sitectl.Text.equal_fold sitectl.Text.◌==◌
    sitectl.Yaml.mapping_value sitectl.Yaml.document_mapping sitectl.Text.trim
    sitectl.Text.Number.digits
plan_read = refl

inspect_files-is_services_example : is_services traefik_plan.services ≡ true
inspect_files-is_services_example =
    inspect_files-is_services decode there reads (codes "compose.yml" ∷ []) empty_plan traefik_plan
      (unfold is_services in refl) plan_read

abbrev hosts : HostPorts
hosts = (80, 8080) ∷ (443, 443) ∷ []

chosen_fit : All (Fits hosts) (80 ∷ 443 ∷ [])
unfolding host_port_or_target
chosen_fit = (
  (omega arith, omega arith, omega arith, omega arith),
  ((omega arith, omega arith, omega arith, omega arith), tt),
)

published-set_ports_override_example :
    published
      (host_ports_from_ports_node (
        mapping_value
          (set_ports_override empty_mapping (print_ports hosts (80 ∷ 443 ∷ [])))
          (codes "ports")))
      (pos 80)
    ≡ (if has_port 80 (80 ∷ 443 ∷ []) then some (pos (host_port_or_target hosts 80)) else none)
published-set_ports_override_example =
    published-set_ports_override hosts (80 ∷ 443 ∷ []) empty_mapping 80 tt chosen_fit

abbrev http_taken : ℕ → Bool
http_taken port = nat_eq port 80

abbrev no_docker : ℕ → Result Text Status
no_docker port = ok unused

abbrev none_chosen : Chosen
none_chosen = record { hosts = []; messages = [] }

abbrev chosen : Chosen
chosen = record {
  hosts = (443, 443) ∷ (80, 8080) ∷ [];
  messages = record { used = 80; next = 8080 } ∷ [];
}

ports_chosen : choose_ports http_taken no_docker (80 ∷ 443 ∷ []) none_chosen ≡ ok chosen
unfolding choose_ports sitectl.Ports.local_dev_fallback_port
    sitectl.Ports.Search.resolve_local_dev_port is_available sitectl.Ports.Search.next_port
ports_chosen = refl

choose_ports-available_example :
    All (λ pair. is_available (http_taken pair.1) (no_docker pair.1) ≡ true) chosen.hosts
choose_ports-available_example =
    choose_ports-available http_taken no_docker (80 ∷ 443 ∷ []) none_chosen chosen tt ports_chosen

-- An entrypoint at port 8080 is taken for one at port 80.
entrypoint_8080 : entrypoint_port (codes "--entrypoints.web.address=:8080") ≡ pos 80 ∷ []
unfolding entrypoint_port sitectl.Text.to_lower sitectl.Text.trim_space
entrypoint_8080 = refl
