-- ===== src/Ports/Site.antt =====
-- pkg/config/ports.go: the URL of a local development copy, its environment, and the ports chosen
-- for a whole plan.
pub mod Choices
use sitectl.Prelude.{
  ℕ, Bool, true, false, not, ◌&&◌, ◌||◌, Option, none, some, List, [], ◌∷◌, ◌++◌, nat_eq,
  if◌then◌else◌, is_empty,
}
use sitectl.Result.{Result, ok, err, ◌>>=◌}
use sitectl.Text.{Text, codes, ◌==◌, trim, trim_space, to_lower, split, contains, has_prefix, cut}
use sitectl.Text.Print.{itoa}
use sitectl.Ports.{
  Plan, http_port, https_port, local_dev_fallback_port, targets, is_empty_plan, uses_public_https,
  tls_provider,
}
use sitectl.Ports.Search.{Status, Skip, NoPort, resolve_local_dev_port}
use sitectl.Ports.Override.{HostPorts, host_port}

-- map[string]string, the last assignment in front; a missing name reads as empty
abbrev pub Env : Type 0
Env = List (Text × Text)

unfoldable pub env_value : Env → Text → Text
env_value [] key = []
env_value ((k, v) ∷ env) key = let rest = env_value env key in if k == key then v else rest

-- firstNonEmptyEnv
unfoldable pub first_non_empty_env : Env → Text → Text → Text
unfolding env_value
first_non_empty_env env key fallback =
    if is_empty (trim_space (env_value env key)) then fallback else trim_space (env_value env key)

-- isDefaultPort
unfoldable pub is_default_port : Text → Text → Bool
is_default_port scheme port =
    if to_lower (trim_space scheme) == codes "https"
    then trim_space port == itoa https_port
    else trim_space port == itoa http_port

-- The port of a target in print; one set to zero counts as not set.
abbrev port_text : Option ℕ → ℕ → Text
port_text none target = itoa target
port_text (some h) target = if nat_eq h 0 then itoa target else itoa h

-- localDevSiteURL; `url` prints the URL with this scheme and host, and the path "/".
unfoldable pub local_dev_site_url : (Text → Text → Text) → Env → Text → HostPorts → Text
unfolding first_non_empty_env is_default_port host_port
local_dev_site_url url env scheme hosts =
    let scheme = if is_empty (trim_space scheme) then codes "http" else trim_space scheme in
    let domain = first_non_empty_env env (codes "DOMAIN") (codes "localhost") in
    let target = if scheme == codes "https" then https_port else http_port in
    let port = port_text (host_port hosts target) target in
    url scheme (
      if not (is_default_port scheme port) && not (contains domain (codes ":"))
      then domain ++ b':' ∷ port
      else domain)

unfoldable pub dot_env_line : Text → Env → Env
unfolding cut has_prefix
dot_env_line line env =
    let c = cut line b'=' in
    if is_empty line || has_prefix line (codes "#") || not c.found
    then env
    else (trim_space c.before, trim (λ x. nat_eq x b'"') (trim_space c.after)) ∷ env

unfoldable pub dot_env_lines : List Text → Env → Env
unfolding dot_env_line
dot_env_lines [] env = env
dot_env_lines (l ∷ ls) env = dot_env_lines ls (dot_env_line (trim_space l) env)

-- parseDotEnvText
unfoldable pub parse_dot_env_text : Text → Env
unfolding dot_env_lines split
parse_dot_env_text raw = dot_env_lines (split (λ c. nat_eq c b'\n') raw) []

unfoldable pub env_assignments : Env → List Text
env_assignments [] = []
env_assignments ((k, v) ∷ env) =
    let rest = env_assignments env in
    if is_empty (trim_space k) then rest else (trim_space k ++ b'=' ∷ v) ∷ rest

-- AppendEnvOverrides
unfoldable pub append_env_overrides : List Text → Env → List Text
unfolding env_assignments
append_env_overrides base values = base ++ env_assignments values

-- The scheme and the provider where no plan could be read, or an empty one
unfoldable pub compose_public_scheme : Option Plan → Text → Text
unfolding uses_public_https
compose_public_scheme plan default_scheme =
    let other =
      if is_empty (trim_space default_scheme) then codes "http" else trim_space default_scheme in
    elim plan [
      | none ↦ other
      | some p ↦
          if is_empty_plan p
          then other
          else if uses_public_https p
          then codes "https"
          else codes "http"
    ]

unfoldable pub compose_tls_provider : Option Plan → Text → Text
unfolding tls_provider
compose_tls_provider plan default_provider =
    let other =
      if is_empty (trim_space default_provider)
      then codes "self-managed"
      else trim_space default_provider in
    elim plan [
      | none ↦ other
      | some p ↦ if is_empty_plan p then other else tls_provider p default_provider
    ]

pub record Chosen : Type 0 where
  pub hosts : HostPorts
  pub messages : List Skip

module _ {E : Type 0} (tcp_port_in_use : ℕ → Bool) (docker_use : ℕ → Result E Status) where
  -- The loop of PrepareComposeUpPortOverride over the plan's ports
  unfoldable pub choose_ports : List ℕ → Chosen → Result NoPort Chosen
  choose_ports [] c = ok c
  choose_ports (t ∷ ts) c = do
    next ← elim (local_dev_fallback_port t) [
      | none ↦ ok c
      | some fallback ↦
          (resolve_local_dev_port tcp_port_in_use docker_use fallback t >>= λ found.
          ok (record { hosts = (t, found.port) ∷ c.hosts; messages = c.messages ++ found.skipped }))
    ]
    choose_ports ts next
