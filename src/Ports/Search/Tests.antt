-- ===== src/Ports/Search/Tests.antt =====
-- The search on a host whose port 80 is taken, and the status of a port.
use sitectl.Prelude.{
  ℕ, ◌+◌, ◌≤◌, ◌<◌, Bool, true, false, some, List, [], ◌∷◌, ◌≡◌, ◌⊎◌, inl, refl, arith, nat_eq, All,
}
use sitectl.Result.{Result, ok, is_ok}
use sitectl.Text.{Text, codes, trim_space}
use sitectl.Ports.Search.{
  Status, Container, Skip, NoPort, Found, is_available, resolve_local_dev_port,
  max_port_search_attempts, unused, docker_published_port_status_from_inspect,
}
use sitectl.Ports.Search.Order.{
  attempt, skips, available, resolve_local_dev_port-ok, resolve_local_dev_port-finds,
  resolve_local_dev_port_bound,
}
use sitectl.Ports.Search.Docker.{status_of, docker_published_port_status_from_inspect-all}

abbrev http_taken : ℕ → Bool
http_taken port = nat_eq port 80

abbrev no_docker : ℕ → Result Text Status
no_docker port = ok unused

abbrev moved : Found
moved = record { port = 8080; skipped = record { used = 80; next = 8080 } ∷ [] }

finds_8080 : resolve_local_dev_port http_taken no_docker 8080 80 ≡ ok moved
unfolding resolve_local_dev_port sitectl.Ports.Search.is_available sitectl.Ports.Search.next_port
finds_8080 = refl

resolve_local_dev_port-ok_example :
    (n : ℕ) × (n < max_port_search_attempts)
    × (moved.port ≡ attempt 8080 80 n)
    × (moved.skipped ≡ skips 8080 80 n)
    × (available http_taken no_docker 8080 moved.port ≡ true)
    × All (λ s. available http_taken no_docker 8080 s.used ≡ false) moved.skipped
resolve_local_dev_port-ok_example =
    resolve_local_dev_port-ok http_taken no_docker 8080 80 moved finds_8080

second_free : is_available (http_taken (attempt 8080 80 1)) (no_docker (attempt 8080 80 1)) ≡ true
unfolding sitectl.Ports.Search.is_available attempt sitectl.Ports.Search.next_port
second_free = refl

resolve_local_dev_port-finds_example :
    is_ok (resolve_local_dev_port http_taken no_docker 8080 80) ≡ true
resolve_local_dev_port-finds_example =
    resolve_local_dev_port-finds http_taken no_docker 8080 80 1 (omega arith) second_free

resolve_local_dev_port_bound_example :
    (moved.port ≡ 80) ⊎ ((8080 ≤ moved.port) × (moved.port < 8080 + 199))
resolve_local_dev_port_bound_example =
    resolve_local_dev_port_bound http_taken no_docker 8080 80 moved (omega arith) (inl refl)
      finds_8080

abbrev web : Container
web = record {
  labels = some ((codes "com.docker.compose.project", codes "site") ∷ []);
  bindings = some ((codes "8080" ∷ []) ∷ []);
}

abbrev decode_web : Text → Result Text (List Container)
decode_web raw = ok (web ∷ [])

docker_published_port_status_from_inspect-all_example :
    docker_published_port_status_from_inspect decode_web (codes "site") 8080 []
    ≡ ok (status_of (trim_space (codes "site")) 8080 (web ∷ []))
docker_published_port_status_from_inspect-all_example =
    docker_published_port_status_from_inspect-all decode_web (codes "site") [] 8080 (web ∷ []) refl

-- The container is of the project.
owned_8080 :
    docker_published_port_status_from_inspect decode_web (codes "site") 8080 []
    ≡ ok (record { occupied = true; owned = true })
unfolding docker_published_port_status_from_inspect sitectl.Ports.Search.status_loop
    sitectl.Ports.Search.belongs sitectl.Ports.Search.container_publishes_host_port
    sitectl.Text.◌==◌ trim_space sitectl.Text.Print.itoa sitectl.Ports.Search.label
owned_8080 = refl
