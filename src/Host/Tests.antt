-- ===== src/Host/Tests.antt =====
-- A healthcheck's arguments.
use sitectl.Prelude.{Option, some, List, [], ◌∷◌, ◌≡◌, refl, true}
use sitectl.Result.{ok}
use sitectl.Text.{Text, codes}
use sitectl.Text.Number.{ℤ, pos}
use sitectl.Host.{
  Read, extract_validate_format, HealthcheckHostParams, default_params,
  extract_healthcheck_host_params,
}
use sitectl.Host.Passthrough.{extract_validate_format-again, extract_healthcheck_host_params-again}

abbrev args : List Text
args =
    codes "web"
    ∷ codes "--format"
    ∷ codes "json"
    ∷ codes "--path=/srv"
    ∷ codes "--"
    ∷ codes "--format"
    ∷ []

abbrev rest : List Text
rest = codes "web" ∷ codes "--path=/srv" ∷ codes "--" ∷ codes "--format" ∷ []

abbrev format_read : Read Text
format_read = record { params = codes "json"; passthrough = rest }

format_extracted : extract_validate_format args ≡ ok format_read
unfolding extract_validate_format sitectl.Host.host_flag
format_extracted = refl

extract_validate_format-again_example :
    extract_validate_format rest ≡ ok (record { params = []; passthrough = rest })
extract_validate_format-again_example =
    extract_validate_format-again args format_read format_extracted

abbrev one_second : Text → Option ℤ
one_second v = some (pos 1000000000)

abbrev healthcheck_args : List Text
healthcheck_args =
    codes "--persist"
    ∷ codes "--timeout=1s"
    ∷ codes "--report"
    ∷ codes "--format"
    ∷ codes "table"
    ∷ []

abbrev healthcheck_read : Read HealthcheckHostParams
healthcheck_read = record {
  params = record default_params {
    format = codes "table";
    persist = true;
    timeout = pos 1000000000;
  };
  passthrough = codes "--report" ∷ [];
}

healthcheck_extracted :
    extract_healthcheck_host_params one_second healthcheck_args ≡ ok healthcheck_read
unfolding extract_healthcheck_host_params sitectl.Host.host_flag sitectl.Text.Number.parse_bool
healthcheck_extracted = refl

extract_healthcheck_host_params-again_example :
    extract_healthcheck_host_params one_second (codes "--report" ∷ [])
    ≡ ok (record { params = default_params; passthrough = codes "--report" ∷ [] })
extract_healthcheck_host_params-again_example =
    extract_healthcheck_host_params-again one_second healthcheck_args healthcheck_read
      healthcheck_extracted
