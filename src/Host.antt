-- ===== src/Host.antt =====
-- cmd/rpc_params.go: the flags that the host keeps for itself before a plugin's arguments are read.
-- time.ParseDuration is a parameter.
pub mod Passthrough
mod Tests
use sitectl.Prelude.{
  ℕ, ◌*◌, ◌^◌, Bool, true, false, not, Option, none, some, List, [], ◌∷◌, if◌then◌else◌, any,
}
use sitectl.Result.{Result, ok, err, ◌>>=◌}
use sitectl.Text.{Text, codes, ◌==◌, strip_prefix, cut, Cut}
use sitectl.Text.Number.{ℤ, pos, parse_bool}
use sitectl.Rpc.{dashes}

-- What an argument is: the end of the flags, none of the host's flags, a flag with its value, or a
-- flag whose value is the next argument
pub data HostToken : Type 0 where
  stop pass : HostToken
  assign : Text → Text → HostToken
  wait : Text → HostToken

pub data Error : Type 0 where
  requires_value : Text → Error
  invalid_value : Text → Text → Error

-- A flag of the host; `bare` is the value of a flag that stands alone, if it may.
unfoldable pub host_flag : (Text → Bool) → (Text → Option Text) → Cut → HostToken
host_flag owned bare c =
    if not (owned c.before)
    then pass
    else if c.found
    then assign c.before c.after
    else elim (bare c.before) [ none ↦ wait c.before | some v ↦ assign c.before v ]

unfoldable pub host_token : (Text → Bool) → (Text → Option Text) → Text → HostToken
unfolding host_flag strip_prefix cut ◌==◌
host_token owned bare arg = if arg == dashes then stop else elim (strip_prefix dashes arg) [
  | none ↦ pass
  | some raw ↦ host_flag owned bare (cut raw b'=')
]

-- What is read: the host's params, and the arguments that are passed on
pub record Read (P : Type 0) : Type 0 where
  pub params : P
  pub passthrough : List Text

pub data Pending : Type 0 where
  ready : Pending
  waiting : Text → Pending

abbrev pub keep_arg : {P : Type 0} → Text → Read P → Read P
keep_arg arg r = record r { passthrough = arg ∷ r.passthrough }

module _ {P : Type 0} (owned : Text → Bool) (bare : Text → Option Text)
    (set : Text → Text → P → Result Error P) where
  -- The loop over the arguments
  unfoldable pub read_host : Pending → List Text → P → Result Error (Read P)
  read_host ready [] p = ok (record { params = p; passthrough = [] })
  read_host (waiting name) [] p = err (requires_value name)
  read_host (waiting name) (arg ∷ args) p = set name arg p >>= λ q. read_host ready args q
  read_host ready (arg ∷ args) p = elim (host_token owned bare arg) [
    | stop ↦ ok (record { params = p; passthrough = arg ∷ args })
    | pass ↦ (read_host ready args p >>= λ r. ok (keep_arg arg r))
    | assign name v ↦ (set name v p >>= λ q. read_host ready args q)
    | wait name ↦ read_host (waiting name) args p
  ]

abbrev pub is_format : Text → Bool
is_format name = name == codes "format"

abbrev pub no_bare : Text → Option Text
no_bare name = none

abbrev pub set_format : Text → Text → Text → Result Error Text
set_format name v old = ok v

-- extractValidateFormat
unfoldable pub extract_validate_format : List Text → Result Error (Read Text)
unfolding read_host host_token
extract_validate_format args = read_host is_format no_bare set_format ready args []

-- healthcheckHostParams; a duration is its number of nanoseconds.
pub record HealthcheckHostParams : Type 0 where
  pub format : Text
  pub persist : Bool
  pub timeout : ℤ
  pub interval : ℤ

abbrev second : ℕ
second = 10 ^ 9

abbrev pub default_params : HealthcheckHostParams
default_params = record {
  format = [];
  persist = false;
  timeout = pos (300 * second);
  interval = pos (10 * second);
}

abbrev pub is_healthcheck : Text → Bool
is_healthcheck name =
    any (λ flag. name == flag)
      (codes "format" ∷ codes "timeout" ∷ codes "interval" ∷ codes "persist" ∷ [])

abbrev pub bare_persist : Text → Option Text
bare_persist name = if name == codes "persist" then some (codes "true") else none

abbrev parsed : {A : Type 0} → Text → Text → Option A → Result Error A
parsed name v none = err (invalid_value name v)
parsed name v (some a) = ok a

module _ (parse_duration : Text → Option ℤ) where
  unfoldable pub set_healthcheck :
      Text → Text → HealthcheckHostParams → Result Error HealthcheckHostParams
  set_healthcheck name v p =
      if name == codes "format"
      then ok (record p { format = v })
      else if name == codes "persist"
      then (parsed name v (parse_bool v) >>= λ b. ok (record p { persist = b }))
      else if name == codes "timeout"
      then (parsed name v (parse_duration v) >>= λ d. ok (record p { timeout = d }))
      else (parsed name v (parse_duration v) >>= λ d. ok (record p { interval = d }))

  -- extractHealthcheckHostParams
  unfoldable pub extract_healthcheck_host_params :
      List Text → Result Error (Read HealthcheckHostParams)
  unfolding read_host host_token set_healthcheck
  extract_healthcheck_host_params args =
      read_host is_healthcheck bare_persist set_healthcheck ready args default_params
