-- ===== src/Fortigate/Client.antt =====
-- `FortiGateClient` (app/fortigate.py), the client of the older listener. What the SSH library and the
-- device behind it answer is a parameter.
use wolt.Prelude.{String, not, ◌||◌, Option, none, some, if◌then◌else◌}
use wolt.Errors.{Result, ok, err, fortigate_error}
use wolt.Fortigate.{build_wol_command, has_error}
use wolt.Fortigate.Ssh.{SshFailure, reason, Exec, exited, exec_failed, is_zero}

pub record Device : Type 0 where
  -- `client.connect` with the settings, after the host keys are loaded: the exception, if it raises one
  pub connect : Option SshFailure
  pub exec : String → Exec
  -- `str(ipaddress.ip_address(…))` and `str.lower`
  pub ip_address : String → Option String
  pub lower : String → String

-- What a wake did: its outcome, and the command that was sent, if one was.
abbrev pub Woken : Type 0
Woken = Result Unit × Option String

module _ (device : Device) where
  -- `_execute_command`
  unfoldable pub execute_command : Exec → Result Unit
  unfolding has_error reason
  execute_command (exited status output) =
      if not (is_zero status) || has_error device.lower output
      then err (fortigate_error "command_failed")
      else ok tt
  execute_command (exec_failed f) = err (fortigate_error (reason f))

  -- `_connect`, and the command over the connection
  abbrev pub over_connection : String → Option SshFailure → Woken
  over_connection command none = (execute_command (device.exec command), some command)
  over_connection command (some f) = (err (fortigate_error (reason f)), none)

  abbrev pub run_command : Result String → Woken
  run_command (err e) = (err e, none)
  run_command (ok command) = over_connection command device.connect

  -- `execute_wol`
  unfoldable pub execute_wol : String → String → String → Woken
  unfolding build_wol_command execute_command reason
  execute_wol interface mac_address gateway_ip =
      run_command (build_wol_command device.ip_address interface mac_address gateway_ip)
