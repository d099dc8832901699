-- ===== src/Driver.antt =====
-- Device drivers (app/drivers/base.py, app/drivers/registry.py). A driver is an interface: its
-- fields give the outcome of a call, which for the last three depends on the device.
use wolt.Prelude.{ℕ, String, Option, str_eq, if◌then◌else◌}
use wolt.Errors.{Result, ok, err, driver_validation}
use wolt.Json.{Fields}
use wolt.Db.Models.{Health}

pub record ConnectionTestResult : Type 0 where
  pub status : Health
  pub latency_ms : ℕ

pub record HostKeyDiscoveryResult : Type 0 where
  pub status : Health
  pub latency_ms : ℕ
  pub reason : Option String
  pub host_key : String
  pub fingerprint : String
  pub algorithm : String
  pub bits : ℕ

pub record DeviceDriver : Type 0 where
  pub validate_configuration : Fields → Result Fields
  pub validate_credentials : Fields → Result Fields
  pub validate_listener_parameters : Fields → Result Fields
  pub test_connection : Fields → Fields → Result ConnectionTestResult
  pub discover_host_key : Fields → Fields → Result HostKeyDiscoveryResult
  pub execute_wake : Fields → Fields → Fields → String → Result Unit

-- The registry holds one driver, under its `type_key`.
pub record DriverRegistry : Type 0 where
  pub fortigate_ssh : DeviceDriver

-- `DriverRegistry.get`
unfoldable pub get : DriverRegistry → String → Result DeviceDriver
get registry type_key =
    if str_eq type_key "fortigate_ssh"
    then ok registry.fortigate_ssh
    else err (driver_validation "unsupported_driver_type")
