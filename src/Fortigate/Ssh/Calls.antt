-- ===== src/Fortigate/Ssh/Calls.antt =====
-- The calls of the driver that reach the device, and the driver as an instance of the interface.
use wolt.Prelude.{
  ℕ, String, not, ◌||◌, Option, none, some, [], ◌∷◌, ◌==◌, leb, strip, concat, if◌then◌else◌,
}
use Prim.Native.Char.{code}
use wolt.Errors.{Result, ok, err, driver_validation, driver_operation, invalid_host_key}
use wolt.Json.{Fields, end, field, text, get_text}
use wolt.Db.Models.{Health, healthy, unhealthy}
use wolt.Driver.{DeviceDriver, ConnectionTestResult, HostKeyDiscoveryResult}
use wolt.Fortigate.{build_wol_command, has_error}
use wolt.Fortigate.Ssh.{
  reason, HostKey, key_entry, no_entry, broken_key, Login, Exec, exited, exec_failed, Auth,
  authenticated, not_authenticated, auth_refused, auth_failed, unreachable, reached, Ssh, Floats,
  Python, Target, Secret, checked_secret, checked_parameters, lookup_name, validate_target,
  target_fields, is_zero, map_ok, secret_fields, parameter_fields,
}

-- `rstrip("=")`
unfoldable pub rstrip_equals : String → String
rstrip_equals String.[] = String.[]
rstrip_equals (String.◌∷◌ c s) = elim (rstrip_equals s) [
  | String.[] ↦ if code c == 61 then String.[] else String.◌∷◌ c String.[]
  | String.◌∷◌ d r ↦ String.◌∷◌ c (String.◌∷◌ d r)
]

pub record Configuration (F : Type 0) : Type 0 where
  pub target : Target F
  pub host_key : String

-- What a wake did: its outcome, and the command that was sent, if one was.
abbrev pub Wake : Type 0
Wake = Result Unit × Option String

module _ (python : Python) (ssh : Ssh) where
  -- `max(1, …)` of the measured time.
  abbrev latency : ℕ
  latency = if leb ssh.elapsed_ms 1 then 1 else ssh.elapsed_ms

  -- A successful end: status 0, and no marker in the output.
  unfoldable pub exec_result : Exec → Result Unit
  unfolding has_error reason
  exec_result (exited status output) =
      if not (is_zero status) || has_error python.lower output
      then err (driver_operation "command_failed")
      else ok tt
  exec_result (exec_failed f) = err (driver_operation (reason f))

  abbrev auth_view : HostKey → String → ℕ → Auth → Result HostKeyDiscoveryResult
  auth_view key host_key ms auth = elim auth [
    | authenticated ↦ ok (view healthy none)
    | not_authenticated ↦ ok (view unhealthy (some "ssh_authentication_failed"))
    | auth_refused ↦ ok (view unhealthy (some "ssh_authentication_failed"))
    | auth_failed f ↦ err (driver_operation (reason f))
  ]
    where
      view : Health → Option String → HostKeyDiscoveryResult
      view status why = record {
        status = status;
        latency_ms = ms;
        reason = why;
        host_key = host_key;
        fingerprint = concat ("SHA256:" ∷ rstrip_equals key.digest ∷ []);
        algorithm = key.name;
        bits = key.bits;
      }

  module _ {F : Type 0} (floats : Floats F) where
    -- `validate_configuration`
    unfoldable pub checked_configuration : Fields → Result (Configuration F)
    unfolding validate_target get_text
    checked_configuration values = elim (validate_target python floats values) [
      | err e ↦ err e
      | ok t ↦
          let host_key = strip (get_text python.str_of "host_key" values) in
          elim (ssh.host_key_of host_key) [
            | key_entry k ↦ ok (record { target = t; host_key = host_key })
            | no_entry ↦ err (driver_validation "invalid_or_missing_host_key")
            | broken_key ↦ err invalid_host_key
          ]
    ]

    abbrev configuration_fields : Configuration F → Fields
    configuration_fields c =
        target_fields python floats c.target (field "host_key" (text c.host_key) end)

    -- `_connect`
    unfoldable pub connect : Configuration F → Secret → Result Login
    unfolding reason
    connect c secret = elim (ssh.host_key_of c.host_key) [
      | key_entry k ↦
          let login : Login = record {
            lookup_name = lookup_name python c.target.host c.target.port;
            pinned = k;
            host = c.target.host;
            port = c.target.port;
            username = secret.username;
            password = secret.password;
          } in
          elim (ssh.connect login) [ none ↦ ok login | some f ↦ err (driver_operation (reason f)) ]
      | no_entry ↦ err (driver_operation "host_key_verification_failed")
      | broken_key ↦ err invalid_host_key
    ]

    unfoldable pub test_connection : Fields → Fields → Result ConnectionTestResult
    unfolding checked_configuration checked_secret connect
    test_connection configuration credentials = elim (checked_configuration configuration) [
      | err e ↦ err e
      | ok c ↦ elim (checked_secret python credentials) [
        | err e ↦ err e
        | ok secret ↦ elim (connect c secret) [
          | err e ↦ err e
          | ok _ ↦ ok (record { status = healthy; latency_ms = latency })
        ]
      ]
    ]

    unfoldable pub discover_host_key : Fields → Fields → Result HostKeyDiscoveryResult
    unfolding validate_target checked_secret reason
    discover_host_key configuration credentials =
        elim (validate_target python floats configuration) [
          | err e ↦ err e
          | ok t ↦ elim (checked_secret python credentials) [
            | err e ↦ err e
            | ok secret ↦ elim (ssh.probe t.host t.port) [
              | unreachable f ↦ err (driver_operation (reason f))
              | reached key login ↦
                  auth_view key
                    (concat
                      (lookup_name python t.host t.port ∷ " " ∷ key.name ∷ " " ∷ key.base64 ∷ []))
                    latency (login secret.username secret.password)
            ]
          ]
        ]

    -- From the command on: it is sent only over a connection.
    abbrev pub send : Configuration F → Secret → String → Wake
    send c secret command = elim (connect c secret) [
      | err e ↦ (err e, none)
      | ok login ↦ (exec_result (ssh.exec login command), some command)
    ]

    -- `execute_wake`
    unfoldable pub wake : Fields → Fields → Fields → String → Wake
    unfolding checked_configuration checked_secret checked_parameters build_wol_command connect
        exec_result
    wake configuration credentials parameters mac_address =
        elim (checked_configuration configuration) [
          | err e ↦ (err e, none)
          | ok c ↦ elim (checked_secret python credentials) [
            | err e ↦ (err e, none)
            | ok secret ↦ elim (checked_parameters python parameters) [
              | err e ↦ (err e, none)
              | ok p ↦
                  elim (build_wol_command python.ip_address p.interface mac_address p.gateway_ip) [
                    | err e ↦ (err e, none)
                    | ok command ↦ send c secret command
                  ]
            ]
          ]
        ]

    -- `FortiGateSSHDriver`
    unfoldable pub fortigate_driver : DeviceDriver
    unfolding checked_configuration checked_secret checked_parameters test_connection
        discover_host_key wake
    fortigate_driver = record {
      validate_configuration = λ f. map_ok configuration_fields (checked_configuration f);
      validate_credentials = λ f. map_ok secret_fields (checked_secret python f);
      validate_listener_parameters = λ f. map_ok parameter_fields (checked_parameters python f);
      test_connection = test_connection;
      discover_host_key = discover_host_key;
      execute_wake = λ c s p mac. (wake c s p mac).0;
    }
