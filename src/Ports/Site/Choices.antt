-- ===== src/Ports/Site/Choices.antt =====
-- The host ports that are chosen for a plan.
use sitectl.Prelude.{ℕ, Bool, true, Option, none, some, List, [], ◌∷◌, ◌++◌, ◌≡◌, subst, All}
use sitectl.Result.{Result, ok, ◌>>=◌, >>=-eq-ok, ok-injective}
use sitectl.Ports.{local_dev_fallback_port}
use sitectl.Ports.Search.{Status, NoPort, is_available, resolve_local_dev_port}
use sitectl.Ports.Search.Order.{resolve_local_dev_port-ok}
use sitectl.Ports.Site.{Chosen, choose_ports}

module _ {E : Type 0} (tcp_port_in_use : ℕ → Bool) (docker_use : ℕ → Result E Status) where
  abbrev AllAvailable : Chosen → Type 0
  AllAvailable c =
      All (λ pair. is_available (tcp_port_in_use pair.1) (docker_use pair.1) ≡ true) c.hosts

  chosen_next :
      (t : ℕ) (c next : Chosen) (fallback : Option ℕ)
      → AllAvailable c
      → (elim fallback as (λ _. Result NoPort Chosen) [
        | none ↦ ok c
        | some f ↦
            (resolve_local_dev_port tcp_port_in_use docker_use f t >>= λ found.
            ok (record {
              hosts = (t, found.port) ∷ c.hosts;
              messages = c.messages ++ found.skipped;
            }))
      ])
        ≡ ok next
      → AllAvailable next
  chosen_next t c next none h e = subst AllAvailable (ok-injective e) h
  chosen_next t c next (some f) h e =
      let (found, resolved, same) =
        >>=-eq-ok (resolve_local_dev_port tcp_port_in_use docker_use f t) _ e in
      let (_, _, _, _, free, _) =
        resolve_local_dev_port-ok tcp_port_in_use docker_use f t found resolved in
      subst AllAvailable (ok-injective same) (free, h)

  -- If a host port is found for every port of a list, each of them is available: nothing uses
  -- it, or only the project's own containers do; so are the ports chosen before, if they were
  -- available.
  pub choose_ports-available :
      (ts : List ℕ) (c chosen : Chosen)
      → All (λ pair. is_available (tcp_port_in_use pair.1) (docker_use pair.1) ≡ true) c.hosts
      → choose_ports tcp_port_in_use docker_use ts c ≡ ok chosen
      → All (λ pair. is_available (tcp_port_in_use pair.1) (docker_use pair.1) ≡ true) chosen.hosts
  unfolding choose_ports
  choose_ports-available [] c chosen h e = subst AllAvailable (ok-injective e) h
  choose_ports-available (t ∷ ts) c chosen h e =
      let (next, one, more) = >>=-eq-ok _ (choose_ports tcp_port_in_use docker_use ts) e in
      choose_ports-available ts next chosen (chosen_next t c next (local_dev_fallback_port t) h one)
        more
