-- ===== src/Ports/Search/Docker.antt =====
-- What the status of a port says of the containers that publish it.
use sitectl.Prelude.{ℕ, Bool, true, not, ◌&&◌, ◌||◌, List, [], ◌∷◌, ◌≡◌, refl, ap, arith, any, all}
use sitectl.Result.{Result, ok}
use sitectl.Text.{Text, trim_space}
use sitectl.Ports.Search.{
  Status, Container, container_publishes_host_port, belongs, status_loop, unused,
  docker_published_port_status_from_inspect,
}

abbrev pub publishes : ℕ → Container → Bool
publishes port c = container_publishes_host_port c.bindings port

-- Every container that publishes the port is of the project.
abbrev pub all_belong : Text → ℕ → List Container → Bool
all_belong project port cs = all (λ c. not (publishes port c) || belongs project c) cs

abbrev pub status_of : Text → ℕ → List Container → Status
status_of project port cs = record {
  occupied = any (publishes port) cs;
  owned = any (publishes port) cs && all_belong project port cs;
}

module _ (project : Text) (port : ℕ) where
  loop_owned :
      (cs : List Container)
      → status_loop project port (record { occupied = true; owned = true }) cs
        ≡ record { occupied = true; owned = all_belong project port cs }
  unfolding status_loop
  loop_owned [] = refl
  loop_owned (c ∷ cs) = ground (arith, loop_owned cs)

  loop_unused :
      (cs : List Container) → status_loop project port unused cs ≡ status_of project port cs
  unfolding status_loop
  loop_unused [] = refl
  loop_unused (c ∷ cs) = ground (arith, loop_unused cs, loop_owned cs)

-- If the output of docker inspect is decoded, a port is occupied exactly if some container
-- publishes it, and the project's own exactly if moreover every container that publishes it is of
-- the project, though the loop stops at the first other container.
pub docker_published_port_status_from_inspect-all :
    {E : Type 0} (decode : Text → Result E (List Container)) (project inspect : Text) (port : ℕ)
    (cs : List Container)
    → decode inspect ≡ ok cs
    → docker_published_port_status_from_inspect decode project port inspect
      ≡ ok (status_of (trim_space project) port cs)
unfolding docker_published_port_status_from_inspect
docker_published_port_status_from_inspect-all decode project inspect port cs h =
    rw h (ap ok (loop_unused (trim_space project) port cs))
