-- ===== src/Config.antt =====
-- The configuration of the programs from environment variables: internal/platform/config/config.go. An
-- int is a 64-bit pattern and an int32 a 32-bit one (Base/Words.antt), a duration a number of nanoseconds.
pub mod Validation
use Prim.Native.String.{◌++◌ as ◌⧺◌}
use forge_platform.Base.{
  ℕ, ◌*◌, ◌%◌, String, Bool, ◌||◌, if◌then◌else◌, Option, none, some, List, [], ◌∷◌, ◌++◌, str_eq,
}
use forge_platform.Base.Words.{slt32}
use forge_platform.Base.Decimal.{parse_int}
use forge_platform.Apperr.{Result, ok, err, plain}

pub record Temporal : Type 0 where
  pub host_port : String
  pub namespace : String
  pub task_queue : String

pub record Events : Type 0 where
  pub nats_url : String
  pub stream_name : String
  pub subject_prefix : String

pub record Relay : Type 0 where
  pub batch_size : ℕ
  pub poll_interval : ℕ

pub record Database : Type 0 where
  pub url : String
  pub max_conns : ℕ
  pub min_conns : ℕ
  pub max_conn_lifetime : ℕ
  pub max_conn_idle_time : ℕ

pub record Auth : Type 0 where
  pub auth_mode : String
  pub hmac_secret : String
  pub jwks_url : String
  pub issuer : String
  pub audience : String

pub record Telemetry : Type 0 where
  pub service_name : String
  pub otlp_endpoint : String

-- The numbers of a float64 are a type of their own.
pub record RateLimit (F : Type 0) : Type 0 where
  pub rps : F
  pub burst : ℕ

pub record Config (F : Type 0) : Type 0 where
  pub env_name : String
  pub http_addr : String
  pub shutdown_timeout : ℕ
  pub database : Database
  pub auth : Auth
  pub telemetry : Telemetry
  pub rate_limit : RateLimit F
  pub events : Events
  pub relay : Relay
  pub temporal : Temporal

-- What Load takes from outside: os.LookupEnv, strconv.ParseFloat with the float64 of an integer,
-- time.ParseDuration, and the verb %q.
pub record Source (F : Type 0) : Type 0 where
  pub lookup_env : String → Option String
  pub parse_float : String → Option F
  pub float_of : ℕ → F
  pub parse_duration : String → Option ℕ
  pub quote_text : String → String

-- IsProduction
abbrev pub is_production : {F : Type 0} → Config F → Bool
is_production c = str_eq c.env_name "production"

-- The value of a variable that is set and not empty.
variable : {F : Type 0} → Source F → String → Option String
variable e key = elim (e.lookup_env key) [
  | none ↦ none
  | some v ↦ if str_eq v "" then none else some v
]

or_default : {A : Type 0} → A → Option A → A
or_default d none = d
or_default d (some a) = a

read_or : {A : Type 0} → (String → Option A) → A → Option String → A
unfolding or_default
read_or read d none = d
read_or read d (some v) = or_default d (read v)

-- getStr
unfoldable pub get_str : {F : Type 0} → Source F → String → String → String
unfolding variable or_default
get_str e key d = or_default d (variable e key)

-- getInt, with the default where the text is no int.
unfoldable pub get_int : {F : Type 0} → Source F → String → ℕ → ℕ
unfolding variable read_or
get_int e key d = read_or parse_int d (variable e key)

-- getFloat
unfoldable pub get_float : {F : Type 0} → Source F → String → F → F
unfolding variable read_or
get_float e key d = read_or e.parse_float d (variable e key)

-- getDur
unfoldable pub get_dur : {F : Type 0} → Source F → String → ℕ → ℕ
unfolding variable read_or
get_dur e key d = read_or e.parse_duration d (variable e key)

port_or_default : Option String → String
port_or_default none = ":8080"
port_or_default (some p) = ":" ⧺ p

-- httpAddr
unfoldable pub http_addr : {F : Type 0} → Source F → String
unfolding variable or_default port_or_default
http_addr e = or_default (port_or_default (variable e "PORT")) (variable e "FORGE_HTTP_ADDR")

abbrev second : ℕ
second = 1000000000

-- The conversion int32(…).
abbrev pub int32 : ℕ → ℕ
int32 n = n % 4294967296

-- The configuration that Load validates.
unfoldable pub read_config : {F : Type 0} → Source F → Config F
read_config e = record {
  env_name = get_str e "FORGE_ENV" "development";
  http_addr = http_addr e;
  shutdown_timeout = get_dur e "FORGE_SHUTDOWN_TIMEOUT" (15 * second);
  database = record {
    url = get_str e "FORGE_DB_URL" "";
    max_conns = int32 (get_int e "FORGE_DB_MAX_CONNS" 10);
    min_conns = int32 (get_int e "FORGE_DB_MIN_CONNS" 2);
    max_conn_lifetime = get_dur e "FORGE_DB_MAX_CONN_LIFETIME" (3600 * second);
    max_conn_idle_time = get_dur e "FORGE_DB_MAX_CONN_IDLE_TIME" (1800 * second);
  };
  auth = record {
    auth_mode = get_str e "FORGE_AUTH_MODE" "hmac";
    hmac_secret = get_str e "FORGE_AUTH_HMAC_SECRET" "";
    jwks_url = get_str e "FORGE_AUTH_JWKS_URL" "";
    issuer = get_str e "FORGE_AUTH_ISSUER" "";
    audience = get_str e "FORGE_AUTH_AUDIENCE" "";
  };
  telemetry = record {
    service_name = get_str e "FORGE_OTEL_SERVICE_NAME" "forge-control-plane";
    otlp_endpoint = get_str e "FORGE_OTEL_OTLP_ENDPOINT" "";
  };
  rate_limit = record {
    rps = get_float e "FORGE_RATE_LIMIT_RPS" (e.float_of 50);
    burst = get_int e "FORGE_RATE_LIMIT_BURST" 100;
  };
  events = record {
    nats_url = get_str e "FORGE_NATS_URL" "nats://localhost:4222";
    stream_name = get_str e "FORGE_EVENTS_STREAM" "FORGE_EVENTS";
    subject_prefix = get_str e "FORGE_EVENTS_SUBJECT_PREFIX" "forge.events";
  };
  relay = record {
    batch_size = get_int e "FORGE_RELAY_BATCH_SIZE" 100;
    poll_interval = get_dur e "FORGE_RELAY_POLL_INTERVAL" second;
  };
  temporal = record {
    host_port = get_str e "FORGE_TEMPORAL_HOSTPORT" "localhost:7233";
    namespace = get_str e "FORGE_TEMPORAL_NAMESPACE" "default";
    task_queue = get_str e "FORGE_TEMPORAL_TASK_QUEUE" "forge-provisioning";
  };
}

-- `if test { problems = append(problems, text) }`
abbrev pub problem : Bool → String → List String
problem test text = if test then text ∷ [] else []

-- The cases of the switch on Auth.Mode.
unfoldable pub auth_problems : {F : Type 0} → Source F → Config F → List String
auth_problems e c =
    if str_eq c.auth.auth_mode "hmac"
    then (problem (str_eq c.auth.hmac_secret "")
          "FORGE_AUTH_HMAC_SECRET is required when FORGE_AUTH_MODE=hmac"
        ++ problem (is_production c)
            "FORGE_AUTH_MODE=hmac is not permitted in production; use jwks")
    else if str_eq c.auth.auth_mode "jwks"
    then (problem (str_eq c.auth.jwks_url "")
          "FORGE_AUTH_JWKS_URL is required when FORGE_AUTH_MODE=jwks"
        ++ problem (str_eq c.auth.issuer "" || str_eq c.auth.audience "")
            "FORGE_AUTH_ISSUER and FORGE_AUTH_AUDIENCE are required when FORGE_AUTH_MODE=jwks")
    else ("FORGE_AUTH_MODE " ⧺ (e.quote_text c.auth.auth_mode ⧺ " is invalid (want hmac or jwks)"))
      ∷ []

unfoldable pub problems_of : {F : Type 0} → Source F → Config F → List String
unfolding auth_problems
problems_of e c =
    problem (str_eq c.database.url "") "FORGE_DB_URL is required"
    ++ auth_problems e c
    ++ problem (slt32 c.database.max_conns c.database.min_conns)
        "FORGE_DB_MIN_CONNS must not exceed FORGE_DB_MAX_CONNS"

-- strings.Join
unfoldable pub joined_by : String → List String → String
joined_by sep [] = ""
joined_by sep (p ∷ []) = p
joined_by sep (p ∷ q ∷ ps) = p ⧺ (sep ⧺ joined_by sep (q ∷ ps))

verdict : List String → Result (Unit {0})
unfolding joined_by
verdict [] = ok tt
verdict (p ∷ ps) = err (plain ("invalid configuration: " ⧺ joined_by "; " (p ∷ ps)))

-- validate
unfoldable pub validate : {F : Type 0} → Source F → Config F → Result (Unit {0})
unfolding verdict problems_of
validate e c = verdict (problems_of e c)

loaded : {F : Type 0} → Config F → Result (Unit {0}) → Result (Config F)
loaded c (ok _) = ok c
loaded c (err e) = err e

-- Load
unfoldable pub load : {F : Type 0} → Source F → Result (Config F)
unfolding loaded read_config validate
load e = let c = read_config e in loaded c (validate e c)
