-- ===== src/Ports.antt =====
-- pkg/config/ports.go: which ports a compose project publishes, and the host ports that a local
-- development copy of it gets. A map from names is the list of its entries in the order in which the
-- loop over the map meets them; a set of ports is its sorted list.
pub mod Detect
pub mod Search
pub mod Override
pub mod Site
mod Tests
use sitectl.Prelude.{
  ℕ, Bool, true, false, ◌||◌, Option, none, some, List, [], ◌∷◌, ltb, nat_eq, if◌then◌else◌,
  is_empty, any, is_some,
}
use sitectl.Text.{Text, codes, ◌==◌, trim_space, to_lower, equal_fold}

abbrev pub http_port : ℕ
http_port = 80

abbrev pub https_port : ℕ
https_port = 443

-- localDevFallbackPort
unfoldable pub local_dev_fallback_port : ℕ → Option ℕ
local_dev_fallback_port target =
    if nat_eq target http_port
    then some 8080
    else if nat_eq target https_port
    then some 8443
    else none

abbrev pub has_port : ℕ → List ℕ → Bool
has_port n ms = any (λ m. nat_eq m n) ms

-- A port added to a set
unfoldable pub add_port : ℕ → List ℕ → List ℕ
add_port n [] = n ∷ []
add_port n (m ∷ ms) =
    let rest = add_port n ms in
    if nat_eq n m then m ∷ ms else if ltb n m then n ∷ m ∷ ms else m ∷ rest

unfoldable pub add_ports : List ℕ → List ℕ → List ℕ
add_ports [] ms = ms
add_ports (n ∷ ns) ms = add_ports ns (add_port n ms)

pub record Service : Type 0 where
  pub name : Text
  pub ports : List ℕ

-- composePortPlan
pub record Plan : Type 0 where
  pub services : List Service
  pub lets_encrypt : Bool
  pub tls_mode : Text

abbrev pub empty_plan : Plan
empty_plan = record { services = []; lets_encrypt = false; tls_mode = [] }

abbrev pub is_empty_plan : Plan → Bool
is_empty_plan p = is_empty p.services

unfoldable pub uses_https : Plan → Bool
uses_https p = any (λ s. has_port https_port s.ports) p.services

-- The answer of the service that is named traefik, if one is
unfoldable pub traefik_https : List Service → Option Bool
traefik_https [] = none
traefik_https (s ∷ ss) =
    let rest = traefik_https ss in
    if equal_fold s.name (codes "traefik") then some (has_port https_port s.ports) else rest

unfoldable pub uses_public_https : Plan → Bool
uses_public_https p = elim (traefik_https p.services) [ some b ↦ b | none ↦ uses_https p ]

abbrev is_one_of : Text → List Text → Bool
is_one_of mode names = any (λ name. mode == name) names

-- The switch over the mode in lower case
unfoldable pub mode_provider : Text → Text
unfolding ◌==◌
mode_provider mode =
    if is_one_of mode (
      codes "https-cloudflare-origin"
      ∷ codes "https"
      ∷ codes "cloudflare"
      ∷ codes "cloudflare-origin"
      ∷ codes "origin-ca"
      ∷ [])
    then codes "cloudflare-origin"
    else if is_one_of mode (codes "https-letsencrypt" ∷ codes "letsencrypt" ∷ codes "le" ∷ [])
    then codes "letsencrypt"
    else if is_one_of mode (
        codes "https-custom"
        ∷ codes "custom"
        ∷ codes "byo"
        ∷ codes "bring-your-own"
        ∷ codes "self-managed"
        ∷ [])
    then codes "custom"
    else if is_one_of mode
        (codes "https-mkcert" ∷ codes "mkcert" ∷ codes "self-signed" ∷ codes "dev" ∷ [])
    then codes "mkcert"
    else []

unfoldable pub tls_provider_from_ingress_mode : Text → Text
unfolding mode_provider
tls_provider_from_ingress_mode mode = mode_provider (to_lower (trim_space mode))

unfoldable pub tls_provider : Plan → Text → Text
unfolding tls_provider_from_ingress_mode
tls_provider p default_provider =
    let provider = tls_provider_from_ingress_mode p.tls_mode in
    let trimmed = trim_space default_provider in
    if is_empty provider
    then if p.lets_encrypt
      then codes "letsencrypt"
      else if is_empty trimmed
      then codes "self-managed"
      else trimmed
    else provider

-- The ports of all services, sorted
unfoldable pub all_ports : List Service → List ℕ
unfolding add_ports
all_ports [] = []
all_ports (s ∷ ss) = add_ports s.ports (all_ports ss)

unfoldable pub targets : Plan → List ℕ
unfolding all_ports
targets p = all_ports p.services
