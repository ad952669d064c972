-- ===== src/Ports/Search.antt =====
-- pkg/config/ports.go: the search for a free host port. Whether a TCP port can be bound, and what the
-- Docker commands print, are parameters.
pub mod Order
pub mod Docker
mod Tests
use sitectl.Prelude.{
  ℕ, zero, suc, ◌+◌, Bool, true, false, not, ◌&&◌, ◌||◌, Option, none, some, List, [], ◌∷◌, nat_eq,
  ◌++◌, if◌then◌else◌, is_empty, any,
}
use sitectl.Result.{Result, ok, err, ◌>>=◌}
use sitectl.Text.{Text, codes, ◌==◌, trim_space, fields}
use sitectl.Text.Print.{itoa}
use sitectl.Ports.{http_port, https_port}

-- dockerPublishedPortStatus
pub record Status : Type 0 where
  pub occupied : Bool
  pub owned : Bool

-- dockerInspectContainer: the labels of its Config and the host ports of its NetworkSettings' port
-- bindings, port by port, if it has these
pub record Container : Type 0 where
  pub labels : Option (List (Text × Text))
  pub bindings : Option (List (List Text))

-- The label's value, empty if there is none
unfoldable pub label : Text → List (Text × Text) → Text
label key [] = []
label key ((k, v) ∷ ls) = let rest = label key ls in if k == key then v else rest

-- containerPublishesHostPort
unfoldable pub container_publishes_host_port : Option (List (List Text)) → ℕ → Bool
container_publishes_host_port none port = false
container_publishes_host_port (some ports) port =
    any (λ hosts. any (λ host. trim_space host == itoa port) hosts) ports

abbrev compose_project_label : Text
compose_project_label = codes "com.docker.compose.project"

-- The container is of the project, which has no blanks around it.
unfoldable pub belongs : Text → Container → Bool
belongs project c = elim c.labels [
  | none ↦ false
  | some ls ↦ not (is_empty project) && trim_space (label compose_project_label ls) == project
]

-- The loop of dockerPublishedPortStatusFromInspect
unfoldable pub status_loop : Text → ℕ → Status → List Container → Status
status_loop project port status [] = status
status_loop project port status (c ∷ cs) =
    let skipped = status_loop project port status cs in
    let goes_on = status_loop project port (record { occupied = true; owned = true }) cs in
    if not (container_publishes_host_port c.bindings port)
    then skipped
    else if belongs project c
    then goes_on
    else record { occupied = true; owned = false }

abbrev pub unused : Status
unused = record { occupied = false; owned = false }

module _ {E : Type 0} where
  -- dockerPublishedPortStatusFromInspect
  unfoldable pub docker_published_port_status_from_inspect :
      (Text → Result E (List Container)) → Text → ℕ → Text → Result E Status
  docker_published_port_status_from_inspect decode project port inspect = do
    containers ← decode inspect
    ok (status_loop (trim_space project) port unused containers)

  -- dockerPublishedPortUse; `docker` runs the command with the arguments.
  unfoldable pub docker_published_port_use :
      (Text → Result E (List Container)) → (List Text → Result E Text) → Text → ℕ → Result E Status
  docker_published_port_use decode docker project port = do
    out ← docker (codes "ps" ∷ codes "-q" ∷ [])
    if is_empty (fields out) then ok unused else do
      inspect ← docker (codes "inspect" ∷ fields out)
      docker_published_port_status_from_inspect decode (trim_space project) port inspect

-- A port passed over, and the port tried next: one message
pub record Skip : Type 0 where
  pub used : ℕ
  pub next : ℕ

pub record NoPort : Type 0 where
  pub skipped : List Skip
  pub start : ℕ

pub record Found : Type 0 where
  pub port : ℕ
  pub skipped : List Skip

abbrev pub max_port_search_attempts : ℕ
max_port_search_attempts = 200

unfoldable pub next_port : ℕ → ℕ → ℕ
next_port fallback port =
    if nat_eq port http_port || nat_eq port https_port then fallback else port + 1

-- The port serves: the project's own containers publish it, or nothing uses it.
unfoldable pub is_available : {E : Type 0} → Bool → Result E Status → Bool
is_available in_use (err e) = not in_use
is_available in_use (ok docker) = docker.owned || not (in_use || docker.occupied)

module _ {E : Type 0} (tcp_port_in_use : ℕ → Bool) (docker_use : ℕ → Result E Status)
    (fallback : ℕ) where
  -- The loop of resolveLocalDevPort: `attempts` are left, and the messages of the earlier ones are
  -- in front.
  unfoldable pub search : ℕ → ℕ → ℕ → List Skip → Result NoPort Found
  search start zero port before = err (record { skipped = before; start = start })
  search start (suc attempts) port before =
      let next = next_port fallback port in
      let rest = search start attempts next (before ++ record { used = port; next = next } ∷ []) in
      if is_available (tcp_port_in_use port) (docker_use port)
      then ok (record { port = port; skipped = before })
      else rest

  -- resolveLocalDevPort
  unfoldable pub resolve_local_dev_port : ℕ → Result NoPort Found
  unfolding search
  resolve_local_dev_port start = search start max_port_search_attempts start []
