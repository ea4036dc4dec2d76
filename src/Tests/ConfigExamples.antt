-- ===== src/Tests/ConfigExamples.antt =====
-- Configurations: one for development, and production with a shared secret.
use forge_platform.Base.{ℕ, String, ◌≡◌, refl, ◌↔◌, some, none, str_eq, if◌then◌else◌}
use forge_platform.Apperr.{ok, err, plain}
use forge_platform.Config.{
  Source, load, read_config, get_str, get_int, get_float, get_dur, http_addr, auth_problems,
  problems_of, joined_by, validate,
}
use forge_platform.Config.Validation.{IsUsable, load_iff}
use forge_platform.Base.Decimal.{emit, format_int, scan, parse_int}

abbrev local_source : String → Source ℕ
local_source name = record {
  lookup_env = λ key.
      if str_eq key "FORGE_ENV"
      then some name
      else if str_eq key "FORGE_DB_URL"
      then some "postgres://"
      else if str_eq key "FORGE_AUTH_HMAC_SECRET"
      then some "secret"
      else none;
  parse_float = λ s. none;
  float_of = λ n. n;
  parse_duration = λ s. none;
  quote_text = λ s. s;
}

load_iff_example :
    (load (local_source "development") ≡ ok (read_config (local_source "development"))) ↔ (
      (read_config (local_source "development") ≡ read_config (local_source "development"))
      × IsUsable (read_config (local_source "development")))
load_iff_example = load_iff (local_source "development") (read_config (local_source "development"))

load_development : load (local_source "development") ≡ ok (read_config (local_source "development"))
unfolding emit format_int scan parse_int get_str get_int get_float get_dur http_addr read_config
    auth_problems problems_of joined_by validate load
load_development = refl

load_production :
    load (local_source "production")
    ≡ err (
        plain
          "invalid configuration: FORGE_AUTH_MODE=hmac is not permitted in production; use jwks")
unfolding emit format_int scan parse_int get_str get_int get_float get_dur http_addr read_config
    auth_problems problems_of joined_by validate load
load_production = refl
