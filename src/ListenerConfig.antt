-- ===== src/ListenerConfig.antt =====
-- The configuration of the older listener (app/config.py): its environment, and the file of mappings.
pub mod Mappings
use wolt.Prelude.{
  ℕ, String, Bool, true, false, not, ◌&&◌, ◌||◌, ◌==◌, Option, none, some, List, [], ◌∷◌, str_eq,
  is_empty, is_some, strip, any, append, concat, if◌then◌else◌, ℤ, between,
}
use wolt.Errors.{Error, Result, ok, err, ◌>>=◌, config_error}
use wolt.Json.{Json, text, object, Fields, end, field, get_field}
use wolt.Fortigate.{is_interface}

pub record InterfaceMapping : Type 0 where
  pub interface : String
  pub gateway_ip : String

pub record Settings (F : Type 0) : Type 0 where
  pub fortigate_host : String
  pub fortigate_ssh_port : ℕ
  pub fortigate_username : String
  pub fortigate_password : String
  pub guacamole_allowed_ip : String
  pub ssh_connect_timeout : F
  pub ssh_command_timeout : F
  pub wol_rate_limit_seconds : F
  pub log_level : String
  pub mapping_file : String
  pub known_hosts_file : String

-- What the code calls of Python: `int`, `float`, `<` of floats, a number of tenths, `str.upper`,
-- `str` of a number, and `str(ipaddress.ip_address(…))`.
pub record Library (F : Type 0) : Type 0 where
  pub int_of : String → Option ℤ
  pub float_of : String → Option F
  pub less : F → F → Bool
  pub tenths : ℕ → F
  pub upper : String → String
  pub decimal : ℕ → String
  pub ip_address : String → Option String

abbrev pub Environ : Type 0
Environ = String → Option String

abbrev get_or : String → String → Environ → String
get_or default name env = elim (env name) [ none ↦ default | some v ↦ v ]

-- `_required`
unfoldable pub required : Environ → String → Result String
unfolding strip
required env name =
    let value = strip (get_or "" name env) in
    if is_empty value
    then err (config_error (append "required environment variable is missing: " name))
    else ok value

module _ {F : Type 0} (lib : Library F) where
  -- `_integer`
  unfoldable pub integer : String → String → ℕ → ℕ → Result ℕ
  integer value name minimum maximum = elim (lib.int_of value) [
    | none ↦ err (config_error (append name " must be an integer"))
    | some n ↦ elim (between minimum maximum n) [
      | none ↦ err (
          config_error (
            concat (
              name
              ∷ " must be between "
              ∷ lib.decimal minimum
              ∷ " and "
              ∷ lib.decimal maximum
              ∷ [])))
      | some m ↦ ok m
    ]
  ]

  -- `_number`, with the minimum in tenths.
  unfoldable pub number_of : String → String → ℕ → String → Result F
  number_of value name minimum shown = elim (lib.float_of value) [
    | none ↦ err (config_error (append name " must be a number"))
    | some x ↦
        if lib.less x (lib.tenths minimum)
        then err (config_error (concat (name ∷ " must be at least " ∷ shown ∷ [])))
        else ok x
  ]

  abbrev checked_address : String → String → Result Unit
  checked_address value message = elim (lib.ip_address value) [
    | none ↦ err (config_error message)
    | some _ ↦ ok tt
  ]

  abbrev checked_level : String → Result Unit
  checked_level level =
      if any (str_eq level) ("DEBUG" ∷ "INFO" ∷ "WARNING" ∷ "ERROR" ∷ "CRITICAL" ∷ [])
      then ok tt
      else err (config_error "LOG_LEVEL is invalid")

  -- `load_settings`
  unfoldable pub load_settings : Environ → Result (Settings F)
  unfolding required integer number_of
  load_settings env = do
    host ← required env "FORTIGATE_HOST"
    allowed ← required env "GUACAMOLE_ALLOWED_IP"
    _ ← checked_address host "FORTIGATE_HOST must be an IP address"
    _ ← checked_address allowed "GUACAMOLE_ALLOWED_IP must be an IP address"
    let level = lib.upper (get_or "INFO" "LOG_LEVEL" env)
    _ ← checked_level level
    port ← integer (get_or "22" "FORTIGATE_SSH_PORT" env) "FORTIGATE_SSH_PORT" 1 65535
    username ← required env "FORTIGATE_USERNAME"
    password ← required env "FORTIGATE_PASSWORD"
    connect ← number_of (get_or "5" "SSH_CONNECT_TIMEOUT" env) "SSH_CONNECT_TIMEOUT" 1 "0.1"
    command ← number_of (get_or "10" "SSH_COMMAND_TIMEOUT" env) "SSH_COMMAND_TIMEOUT" 1 "0.1"
    seconds ← number_of (get_or "30" "WOL_RATE_LIMIT_SECONDS" env) "WOL_RATE_LIMIT_SECONDS" 0 "0"
    ok (record {
      fortigate_host = host;
      fortigate_ssh_port = port;
      fortigate_username = username;
      fortigate_password = password;
      guacamole_allowed_ip = allowed;
      ssh_connect_timeout = connect;
      ssh_command_timeout = command;
      wol_rate_limit_seconds = seconds;
      log_level = level;
      mapping_file = get_or "/app/config/interfaces.yaml" "MAPPING_FILE" env;
      known_hosts_file = get_or "/home/wolt/.ssh/known_hosts" "KNOWN_HOSTS_FILE" env;
    })

  -- `set(raw_mapping) == {"interface", "gateway_ip"}`
  abbrev only_names : Fields → Bool
  only_names end = true
  only_names (field k v rest) = (str_eq k "interface" || str_eq k "gateway_ip") && only_names rest

  abbrev pub has_names : Fields → Bool
  has_names fields =
      only_names fields
      && (is_some (get_field "interface" fields) && is_some (get_field "gateway_ip" fields))

  abbrev for_port : String → ℕ → String → Error
  for_port start port rest = config_error (concat (start ∷ lib.decimal port ∷ rest ∷ []))

  abbrev pub with_address : ℕ → String → Option Json → Result InterfaceMapping
  with_address port interface (some (text ip)) = elim (lib.ip_address ip) [
    | none ↦ err (for_port "invalid gateway_ip for port " port "")
    | some n ↦ ok (record { interface = interface; gateway_ip = n })
  ]
  with_address port interface _ = err (for_port "invalid gateway_ip for port " port "")

  -- The checks of the two values of a mapping.
  abbrev pub mapping_of : ℕ → Option Json → Option Json → Result InterfaceMapping
  mapping_of port (some (text interface)) gateway =
      if not (is_interface interface)
      then err (for_port "invalid interface for port " port "")
      else with_address port interface gateway
  mapping_of port _ gateway = err (for_port "invalid interface for port " port "")

  -- One entry of the file.
  unfoldable pub checked_mapping : ℕ → Json → Result InterfaceMapping
  unfolding get_field
  checked_mapping port (object fields) =
      if not (has_names fields)
      then err (for_port "mapping for port " port " must contain only interface and gateway_ip")
      else mapping_of port (get_field "interface" fields) (get_field "gateway_ip" fields)
  checked_mapping port _ = err (for_port "mapping for port " port " must be an object")

  abbrev is_mapped : ℕ → List (ℕ × InterfaceMapping) → Bool
  is_mapped port = any (λ m. m.0 == port)

  -- The loop of `load_mappings`, with the mappings so far, the last one first; a key is given by `str`.
  unfoldable pub add_mappings :
      List (ℕ × InterfaceMapping) → List (String × Json) → Result (List (ℕ × InterfaceMapping))
  unfolding integer checked_mapping
  add_mappings mappings [] = ok mappings
  add_mappings mappings ((raw_port, raw_mapping) ∷ rest) = do
    port ← integer raw_port "listener port" 1024 65535
    _ ←
        if is_mapped port mappings
        then err (for_port "duplicate listener port: " port "")
        else ok tt
    mapping ← checked_mapping port raw_mapping
    add_mappings ((port, mapping) ∷ mappings) rest

  -- `load_mappings`, from the entries of "listeners" in the file; `none` where there is no such object.
  unfoldable pub load_mappings :
      Option (List (String × Json)) → Result (List (ℕ × InterfaceMapping))
  unfolding add_mappings
  load_mappings none = err (config_error "mapping must contain a listeners object")
  load_mappings (some []) = err (config_error "mapping must define at least one listener")
  load_mappings (some (entry ∷ rest)) = add_mappings [] (entry ∷ rest)
