-- ===== src/WebConfig.antt =====
-- The settings of the web application (app/web/config.py), from the environment.
pub mod Ranges
use wolt.Prelude.{
  ℕ, String, Bool, true, false, not, ◌&&◌, ◌||◌, ◌+◌, ◌-◌, ◌==◌, leb, ltb, Option, none, some, List,
  [], ◌∷◌, str_eq, is_empty, strip, has_prefix, text_length, any, append, if◌then◌else◌, ℤ, between,
}
use wolt.Errors.{Error, Result, ok, err, ◌>>=◌, config_error}

-- What the code calls of Python and SQLAlchemy: `int` and `str.lower` of a text, the length of
-- `bytes.fromhex`, and the text of a URL with a user, a password, a host, a port and a database.
pub record Library : Type 0 where
  pub int_of : String → Option ℤ
  pub lower : String → String
  pub hex_length : String → Option ℕ
  pub url : String → String → String → ℕ → String → String

-- `env.get`
abbrev pub Environ : Type 0
Environ = String → Option String

-- `env.get(name, default)`
abbrev get_or : String → String → Environ → String
get_or default name env = elim (env name) [ none ↦ default | some v ↦ v ]

abbrev in_set : String → List String → Bool
in_set s = any (str_eq s)

-- `_boolean`
unfoldable pub boolean : Library → String → String → Result Bool
unfolding strip
boolean lib value name =
    let normalized = lib.lower (strip value) in
    if in_set normalized ("1" ∷ "true" ∷ "yes" ∷ "on" ∷ [])
    then ok true
    else if in_set normalized ("0" ∷ "false" ∷ "no" ∷ "off" ∷ [])
    then ok false
    else err (config_error (append name " must be true or false"))

-- A number from `int`, within bounds.
abbrev within : ℕ → ℕ → String → Option ℤ → String → Result ℕ
within low high integer none range = err (config_error integer)
within low high integer (some n) range = elim (between low high n) [
  | none ↦ err (config_error range)
  | some m ↦ ok m
]

-- `_port`
unfoldable pub web_port : Library → String → Result ℕ
web_port lib value =
    within 1 65535 "WOLT_WEB_PORT must be an integer" (lib.int_of value)
      "WOLT_WEB_PORT must be between 1 and 65535"

-- `_database_port`
unfoldable pub database_port : Library → String → Result ℕ
database_port lib value =
    within 1 65535 "WOLT_DB_PORT must be an integer" (lib.int_of value)
      "WOLT_DB_PORT must be between 1 and 65535"

-- `_udp_port`
unfoldable pub udp_port : Library → String → String → Result ℕ
udp_port lib value name =
    within 1024 65535 (append name " must be an integer") (lib.int_of value)
      (append name " must be between 1024 and 65535")

-- `_session_hours`
unfoldable pub hours_of : Library → String → Result ℕ
hours_of lib value =
    within 1 168 "WOLT_SESSION_HOURS must be an integer" (lib.int_of value)
      "WOLT_SESSION_HOURS must be between 1 and 168"

-- `_master_key`
unfoldable pub checked_master_key : Library → String → Result String
checked_master_key lib value = if is_empty value then ok "" else elim (lib.hex_length value) [
  | none ↦ err (config_error "WOLT_MASTER_KEY must be hexadecimal")
  | some n ↦
      if n == 32
      then ok value
      else err (config_error "WOLT_MASTER_KEY must contain 32 random bytes")
]

-- `_host_agent_token`
unfoldable pub checked_token : String → Result String
checked_token value =
    if not (is_empty value) && ltb (text_length value) 32
    then err (config_error "WOLT_HOST_AGENT_TOKEN must contain at least 32 characters")
    else ok value

pub record WebSettings : Type 0 where
  pub database_url : String
  pub host : String
  pub port : ℕ
  pub environment : String
  pub auto_migrate : Bool
  pub static_dir : String
  pub bootstrap_token : String
  pub master_key : String
  pub session_secure : Bool
  pub session_hours : ℕ
  pub udp_published_start : ℕ
  pub udp_published_end : ℕ
  pub version : String
  pub commit_sha : String
  pub build_date : String
  pub host_agent_socket : String
  pub host_agent_token : String
  pub smtp_ca_file : Option String

-- The URL of the database, given as a whole or made from its parts.
unfoldable pub database_url_of : Library → Environ → Result String
unfolding strip has_prefix database_port
database_url_of lib env =
    let given = strip (get_or "" "DATABASE_URL" env) in
    let password = get_or "" "WOLT_DB_PASSWORD" env in
    if not (is_empty given)
    then (if has_prefix "postgresql+psycopg://" given
        then ok given
        else err (config_error "DATABASE_URL must use postgresql+psycopg in this phase"))
    else if is_empty password
    then err (config_error "DATABASE_URL or WOLT_DB_PASSWORD is required in web mode")
    else (database_port lib (get_or "5432" "WOLT_DB_PORT" env) >>= λ port. ok (
        lib.url (get_or "wolt" "WOLT_DB_USER" env) password (get_or "postgres" "WOLT_DB_HOST" env)
          port (get_or "wolt" "WOLT_DB_NAME" env)))

-- The checks of the published range as a whole.
unfoldable pub checked_ports : ℕ → ℕ → Result Unit
checked_ports start last =
    if ltb last start
    then err (config_error "WOLT_UDP_PUBLISHED_START must not exceed WOLT_UDP_PUBLISHED_END")
    else if ltb 100 (last - start + 1)
    then err (config_error "The published UDP range cannot exceed 100 ports")
    else ok tt

-- `env.get(name, default).strip() or default`
abbrev stripped_or : String → String → Environ → String
stripped_or default name env =
    let value = strip (get_or default name env) in if is_empty value then default else value

-- `WebSettings.from_env`; paths are texts.
unfoldable pub from_env : Library → Environ → Result WebSettings
unfolding database_url_of udp_port checked_ports web_port boolean checked_master_key hours_of
    checked_token strip
from_env lib env = do
  url ← database_url_of lib env
  start ← udp_port lib (get_or "40000" "WOLT_UDP_PUBLISHED_START" env) "WOLT_UDP_PUBLISHED_START"
  last ← udp_port lib (get_or "40099" "WOLT_UDP_PUBLISHED_END" env) "WOLT_UDP_PUBLISHED_END"
  _ ← checked_ports start last
  port ← web_port lib (get_or "8080" "WOLT_WEB_PORT" env)
  migrate ← boolean lib (get_or "false" "WOLT_AUTO_MIGRATE" env) "WOLT_AUTO_MIGRATE"
  key ← checked_master_key lib (get_or "" "WOLT_MASTER_KEY" env)
  secure ← boolean lib (get_or "false" "WOLT_SESSION_SECURE" env) "WOLT_SESSION_SECURE"
  hours ← hours_of lib (get_or "12" "WOLT_SESSION_HOURS" env)
  token ← checked_token (get_or "" "WOLT_HOST_AGENT_TOKEN" env)
  ok (record {
    database_url = url;
    host = stripped_or "0.0.0.0" "WOLT_WEB_HOST" env;
    port = port;
    environment = stripped_or "production" "WOLT_ENVIRONMENT" env;
    auto_migrate = migrate;
    static_dir = get_or "/app/app/web/static" "WOLT_STATIC_DIR" env;
    bootstrap_token = get_or "" "WOLT_BOOTSTRAP_TOKEN" env;
    master_key = key;
    session_secure = secure;
    session_hours = hours;
    udp_published_start = start;
    udp_published_end = last;
    version = stripped_or "v1.1.2-dev" "WOLT_VERSION" env;
    commit_sha = stripped_or "local" "WOLT_COMMIT_SHA" env;
    build_date = stripped_or "unknown" "WOLT_BUILD_DATE" env;
    host_agent_socket = get_or "/run/wolt-agent/agent.sock" "WOLT_HOST_AGENT_SOCKET" env;
    host_agent_token = token;
    smtp_ca_file =
        let path = strip (get_or "" "WOLT_SMTP_CA_FILE" env) in
        if is_empty path then none else some path;
  })
