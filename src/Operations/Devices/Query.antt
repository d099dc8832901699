-- ===== src/Operations/Devices/Query.antt =====
-- `DeviceService.list` and `discover_host_key`.
use wolt.Prelude.{String, Bool, List, [], ◌∷◌, if◌then◌else◌, is_some}
use wolt.Errors.{Result, ok, err, driver_operation}
use wolt.Json.{Fields, end, field, text, optional_text}
use wolt.Db.{Db}
use wolt.Db.Models.{Device, ObjectId}
use wolt.Db.Session.{Tx, ◌>>◌, modify, commit, with_session}
use wolt.Driver.{HostKeyDiscoveryResult, DeviceDriver, DriverRegistry}
use wolt.Driver
use wolt.Operations.{Context, audit, add_audit}
use wolt.Operations.Devices.{DeviceView, find_credential, listener_count}
use wolt.Operations.Devices.Change.{status_text}

-- `ORDER BY name`, for the collation of the database.
abbrev insert_by_name : (String → String → Bool) → Device → List Device → List Device
insert_by_name before d [] = d ∷ []
insert_by_name before d (e ∷ rest) =
    if before d.name e.name then d ∷ e ∷ rest else e ∷ insert_by_name before d rest

by_name : (String → String → Bool) → List Device → List Device
by_name before [] = []
by_name before (d ∷ rest) = insert_by_name before d (by_name before rest)

-- The counts of one device, from the outer joins; a device has at most one credential.
abbrev view_of : Db → Device → DeviceView
view_of db d = record {
  device = d;
  listener_count = listener_count d.id db;
  credential_configured = is_some (find_credential d.id db);
}

views_of : Db → List Device → List DeviceView
views_of db [] = []
views_of db (d ∷ rest) = view_of db d ∷ views_of db rest

unfoldable pub list_devices : (String → String → Bool) → Db → List DeviceView
unfolding by_name views_of
list_devices before db = views_of db (by_name before db.devices)

-- The audit event of a discovery, and its commit.
unfoldable pub discovery_tx : Context → Fields → Tx Unit
unfolding audit
discovery_tx ctx changes = do
  modify (
      add_audit (
        audit ctx "device.host_key_discovery_tested" "device_candidate" (ObjectId.literal "pending")
          changes))
  commit

abbrev failed_fields : String → Fields
failed_fields reason = field "status" (text "unhealthy") (field "reason" (text reason) end)

found_fields : HostKeyDiscoveryResult → Fields
unfolding status_text
found_fields r = field "status" (text (status_text r.status)) (
    field "reason" (optional_text r.reason)
      (field "algorithm" (text r.algorithm) (field "fingerprint" (text r.fingerprint) end)))

-- What the session of the audit event raises takes the place of the result.
abbrev after_audit :
    Result HostKeyDiscoveryResult → Result Unit × Db → Result HostKeyDiscoveryResult × Db
after_audit r (ok _, db) = (r, db)
after_audit r (err e, db) = (err e, db)

-- The outcome of the driver: a `DriverOperationError` is noted and raised again.
abbrev noted : Context → Db → Result HostKeyDiscoveryResult → Result HostKeyDiscoveryResult × Db
noted ctx db (ok r) = after_audit (ok r) (with_session (discovery_tx ctx (found_fields r)) db)
noted ctx db (err (driver_operation reason)) =
    after_audit (err (driver_operation reason))
      (with_session (discovery_tx ctx (failed_fields reason)) db)
noted ctx db (err e) = (err e, db)

unfoldable pub discover_host_key :
    DriverRegistry → Context → String → Fields → Fields → Db → Result HostKeyDiscoveryResult × Db
unfolding discovery_tx found_fields Driver.get
discover_host_key registry ctx driver_type configuration credentials db =
    elim (Driver.get registry driver_type) [
      | err e ↦ (err e, db)
      | ok driver ↦ noted ctx db (driver.discover_host_key configuration credentials)
    ]
