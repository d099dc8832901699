-- ===== src/Fortigate/Ssh.antt =====
-- `FortiGateSSHDriver` (app/drivers/fortigate_ssh.py). What the SSH library and the device answer is a
-- parameter, and so are Python's conversions to numbers.
pub mod Calls
pub mod Wakes
pub mod Outcome
use Prim.Native.Char.{code}
use wolt.Prelude.{
  ℕ, zero, suc, String, Bool, true, false, not, ◌&&◌, ◌||◌, Option, none, some, List, [], ◌∷◌, ◌==◌,
  leb, ltb, ℤ, pos, negsuc, between, all_chars, is_alnum, is_empty, strip, text_length, concat,
  if◌then◌else◌,
}
use wolt.Errors.{Result, ok, err, or_raise, driver_validation, driver_operation, invalid_host_key}
use wolt.Json.{Json, Fields, end, field, text, number, get_field, get_text}
use wolt.Db.Models.{Health, healthy, unhealthy}
use wolt.Driver.{DeviceDriver, ConnectionTestResult, HostKeyDiscoveryResult}
use wolt.Fortigate.{is_interface, build_wol_command, has_error}

-- The exceptions that `_reason` tells apart.
pub data SshFailure : Type 0 where
  timed_out authentication bad_host_key other_failure : SshFailure

-- `_reason`
unfoldable pub reason : SshFailure → String
reason timed_out = "ssh_timeout"
reason authentication = "ssh_authentication_failed"
reason bad_host_key = "host_key_verification_failed"
reason other_failure = "ssh_connection_failed"

-- A server's public key: `get_name()`, `get_base64()`, `get_bits()`, and the base64 text of the
-- SHA-256 digest of `asbytes()`.
pub record HostKey : Type 0 where
  pub name : String
  pub base64 : String
  pub bits : ℕ
  pub digest : String

-- `HostKeyEntry.from_line`: an entry with a key, none, or an `InvalidHostKey`.
pub data KeyLine : Type 0 where
  key_entry : HostKey → KeyLine
  no_entry broken_key : KeyLine

-- `client.connect` with the pinned key; the names are those of the call.
pub record Login : Type 0 where
  pub lookup_name : String
  pub pinned : HostKey
  pub host : String
  pub port : ℕ
  pub username : String
  pub password : String

-- `exec_command` up to the end of its output.
pub data Exec : Type 0 where
  exited : ℤ → String → Exec
  exec_failed : SshFailure → Exec

-- `auth_password` and `is_authenticated`.
pub data Auth : Type 0 where
  authenticated not_authenticated auth_refused : Auth
  auth_failed : SshFailure → Auth

-- A connection that reads the server's key, and then tries a password.
pub data Probe : Type 0 where
  unreachable : SshFailure → Probe
  reached : HostKey → (String → String → Auth) → Probe

pub record Ssh : Type 0 where
  pub host_key_of : String → KeyLine
  pub connect : Login → Option SshFailure
  pub exec : Login → String → Exec
  pub probe : String → ℕ → Probe
  pub elapsed_ms : ℕ

-- Python's floats, as far as the driver uses them: `float(…)`, `<=`, a number of tenths, and the
-- JSON value.
pub record Floats (F : Type 0) : Type 0 where
  pub float_of : Json → Option F
  pub at_most : F → F → Bool
  pub tenths : ℕ → F
  pub json : F → Json

-- The other functions of Python that the driver calls: `str` of a value that is no text, `int`,
-- `str` of a number, `str(ipaddress.ip_address(…))` and `str.lower`.
pub record Python : Type 0 where
  pub str_of : Json → String
  pub int_of : Json → Option ℤ
  pub decimal : ℕ → String
  pub ip_address : String → Option String
  pub lower : String → String

-- `[A-Za-z0-9.-]`
abbrev pub is_host_char : ℕ → Bool
is_host_char c = is_alnum c || (c == 46 || c == 45)

unfoldable pub last_is_alnum : String → Bool
last_is_alnum String.[] = false
last_is_alnum (String.◌∷◌ c String.[]) = is_alnum (code c)
last_is_alnum (String.◌∷◌ c (String.◌∷◌ d s)) = last_is_alnum (String.◌∷◌ d s)

abbrev first_is_alnum : String → Bool
first_is_alnum String.[] = false
first_is_alnum (String.◌∷◌ c s) = is_alnum (code c)

-- `HOST_PATTERN.fullmatch`
unfoldable pub is_host : String → Bool
unfolding last_is_alnum
is_host s =
    first_is_alnum s && (last_is_alnum s && (all_chars is_host_char s && leb (text_length s) 253))

-- `INTERFACE_PATTERN.fullmatch` of the driver: one to 64 characters.
abbrev pub is_driver_interface : String → Bool
is_driver_interface s = is_interface s && leb (text_length s) 64

pub record Target (F : Type 0) : Type 0 where
  pub host : String
  pub port : ℕ
  pub connect_timeout : F
  pub command_timeout : F

pub record Secret : Type 0 where
  pub username : String
  pub password : String

pub record Parameters : Type 0 where
  pub interface : String
  pub gateway_ip : String

abbrev secret_fields : Secret → Fields
secret_fields s = field "username" (text s.username) (field "password" (text s.password) end)

abbrev parameter_fields : Parameters → Fields
parameter_fields p =
    field "interface" (text p.interface) (field "gateway_ip" (text p.gateway_ip) end)

abbrev pub is_zero : ℤ → Bool
is_zero (pos n) = n == 0
is_zero (negsuc n) = false

-- The dictionaries as the driver returns them.
abbrev map_ok : {A B : Type 0} → (A → B) → Result A → Result B
map_ok f (ok a) = ok (f a)
map_ok f (err e) = err e

module _ (python : Python) where
  -- `validate_credentials`
  unfoldable pub checked_secret : Fields → Result Secret
  unfolding get_text
  checked_secret values =
      let username = strip (get_text python.str_of "username" values) in
      let password = get_text python.str_of "password" values in
      if is_empty username || ltb 128 (text_length username)
      then err (driver_validation "invalid_device_username")
      else if is_empty password || ltb 512 (text_length password)
      then err (driver_validation "invalid_device_password")
      else ok (record { username = username; password = password })

  -- `validate_listener_parameters`
  unfoldable pub checked_parameters : Fields → Result Parameters
  unfolding get_text
  checked_parameters values =
      let interface = strip (get_text python.str_of "interface" values) in
      if not (is_driver_interface interface)
      then err (driver_validation "invalid_fortigate_interface")
      else elim (python.ip_address (strip (get_text python.str_of "gateway_ip" values))) [
        | none ↦ err (driver_validation "invalid_gateway_ip")
        | some ip ↦ ok (record { interface = interface; gateway_ip = ip })
      ]

  abbrev is_address : String → Bool
  is_address s = elim (python.ip_address s) [ none ↦ false | some _ ↦ true ]

  abbrev int_field : ℕ → Option Json → Option ℤ
  int_field default none = some (pos default)
  int_field default (some v) = python.int_of v

  -- `host if port == 22 else f"[{host}]:{port}"`
  abbrev pub lookup_name : String → ℕ → String
  lookup_name host port =
      if port == 22 then host else concat ("[" ∷ host ∷ "]:" ∷ python.decimal port ∷ [])

  module _ {F : Type 0} (floats : Floats F) where
    abbrev float_field : ℕ → Option Json → Option F
    float_field default none = some (floats.tenths default)
    float_field default (some v) = floats.float_of v

    -- `low <= x <= high`, both in tenths.
    abbrev in_tenths : ℕ → ℕ → F → Bool
    in_tenths low high x =
        floats.at_most (floats.tenths low) x && floats.at_most x (floats.tenths high)

    -- The bounds of `_validate_target`, once the numbers are there.
    abbrev bounded_target : String → ℤ → F → F → Result (Target F)
    bounded_target host port connect command = elim (between 1 65535 port) [
      | none ↦ err (driver_validation "invalid_device_port")
      | some p ↦
          if in_tenths 5 600 connect && in_tenths 5 1200 command
          then ok (record {
            host = host;
            port = p;
            connect_timeout = connect;
            command_timeout = command;
          })
          else err (driver_validation "invalid_device_timeout")
    ]

    abbrev numbered_target : String → Option ℤ → Option F → Option F → Result (Target F)
    numbered_target host (some port) (some connect) (some command) =
        bounded_target host port connect command
    numbered_target host _ _ _ = err (driver_validation "invalid_device_timeout_or_port")

    -- `_validate_target`
    unfoldable pub validate_target : Fields → Result (Target F)
    unfolding get_text is_host
    validate_target values =
        let host = strip (get_text python.str_of "host" values) in
        if not (is_address host) && not (is_host host)
        then err (driver_validation "invalid_device_host")
        else numbered_target host (int_field 22 (get_field "port" values))
            (float_field 50 (get_field "connect_timeout" values))
            (float_field 100 (get_field "command_timeout" values))

    abbrev target_fields : Target F → Fields → Fields
    target_fields t rest = field "host" (text t.host) (
        field "port" (number t.port) (
          field "connect_timeout" (floats.json t.connect_timeout)
            (field "command_timeout" (floats.json t.command_timeout) rest)))
