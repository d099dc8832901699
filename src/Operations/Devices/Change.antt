-- ===== src/Operations/Devices/Change.antt =====
-- `DeviceService.update`, `delete` and `test_connection`.
use wolt.Prelude.{
  ℕ, String, Bool, true, false, not, Option, none, some, [], ◌∷◌, ◌++◌, ◌==◌, is_empty, strip,
  remove, update, is_some, if◌then◌else◌,
}
use wolt.Errors.{
  Result, ok, err, or_raise, driver_validation, driver_operation, credential_crypto,
  resource_not_found, resource_conflict, resource_in_use,
}
use wolt.Json.{Fields, end, field, text, boolean, optional_text}
use wolt.Db.{Db}
use wolt.Db.Models.{
  Device, DeviceCredential, Health, unknown, healthy, unhealthy, disabled, ObjectId,
}
use wolt.Db.Session.{
  Tx, ◌>>=◌, ◌>>◌, pure, raise_if, gets, lift, modify, commit, catch_integrity, with_session,
}
use wolt.Driver.{DriverRegistry, ConnectionTestResult}
use wolt.Driver
use wolt.Operations.{Context, audit, add_audit}
use wolt.Operations.Listeners.{find_device}
use wolt.Operations.Devices.{
  CredentialCipher, DeviceView, DeviceInput, find_credential, listener_count, then_get,
  require_cipher, decrypt,
}

abbrev pub replace_device : ℕ → Device → Db → Db
replace_device device_id d db = record db {
  devices = update (λ x. x.id == device_id) (λ _. d) db.devices;
}

-- The stored credential is replaced, or added where the device has none.
abbrev pub store_credential : DeviceCredential → Db → Db
store_credential c db =
    if is_some (find_credential c.device_id db)
    then record db {
      credentials = update (λ x. x.device_id == c.device_id) (λ _. c) db.credentials;
    }
    else record db { credentials = db.credentials ++ (c ∷ []) }

unfoldable pub status_text : Health → String
status_text unknown = "unknown"
status_text healthy = "healthy"
status_text unhealthy = "unhealthy"
status_text disabled = "disabled"

-- `"disabled"` when the device is switched off; the status is kept otherwise.
abbrev health_after : Bool → Health → Health
health_after true status = status
health_after false status = disabled

module _ (registry : DriverRegistry) (configured : Option CredentialCipher) where
  -- `if credentials is not None: …`
  replace_credential : Context → Device → Option Fields → ℕ → Tx Unit
  unfolding require_cipher Driver.get
  replace_credential ctx d none nonce = pure tt
  replace_credential ctx d (some credentials) nonce = do
    cipher ← lift (require_cipher configured)
    driver ← lift (Driver.get registry d.driver_type)
    secret ← lift (driver.validate_credentials credentials)
    modify (
        store_credential (record {
          device_id = d.id;
          encrypted_payload = cipher.encrypt nonce secret;
          key_id = cipher.key_id;
          rotated_at = ctx.now;
        }))

  unfoldable pub update_tx : Context → ℕ → DeviceInput → Option Fields → ℕ → Tx ℕ
  unfolding replace_credential Driver.get audit
  update_tx ctx device_id input credentials nonce = do
    device ← (λ db. lift (or_raise (find_device device_id db) resource_not_found) db)
    driver ← lift (Driver.get registry device.driver_type)
    raise_if (is_empty (strip input.name)) (driver_validation "device_name_required")
    config ← lift (driver.validate_configuration input.configuration)
    modify (
        replace_device device_id (record device {
          name = strip input.name;
          configuration = config;
          enabled = input.enabled;
          health_status = health_after input.enabled device.health_status;
        }))
    replace_credential ctx device credentials nonce
    modify (
        add_audit (
          audit ctx "device.updated" "device" (ObjectId.row device.id) (
            field "name" (text (strip input.name)) (
              field "enabled" (boolean input.enabled)
                (field "credential_replaced" (boolean (is_some credentials)) end)))))
    catch_integrity resource_conflict commit
    pure device_id

  unfoldable pub update_device :
      Context → ℕ → DeviceInput → Option Fields → ℕ → Db → Result DeviceView × Db
  unfolding update_tx then_get
  update_device ctx device_id input credentials nonce db =
      then_get (with_session (update_tx ctx device_id input credentials nonce) db)

  -- The test itself: the status to store and the reason, or an exception that is not caught.
  unfoldable pub connection_test :
      Device → DeviceCredential → Result (Health × Option ℕ × Option String)
  unfolding decrypt Driver.get
  connection_test device credential = caught (elim (decrypt configured credential) [
    | err e ↦ err e
    | ok secret ↦ elim (Driver.get registry device.driver_type) [
      | err e ↦ err e
      | ok driver ↦ driver.test_connection device.configuration secret
    ]
  ])
    where
      -- `except (DriverOperationError, CredentialCryptoError)`
      caught : Result ConnectionTestResult → Result (Health × Option ℕ × Option String)
      caught (ok r) = ok (r.status, some r.latency_ms, none)
      caught (err (driver_operation reason)) = ok (unhealthy, none, some reason)
      caught (err (credential_crypto reason)) = ok (unhealthy, none, some reason)
      caught (err e) = err e

  unfoldable pub test_tx : Context → ℕ → Tx (Health × Option ℕ × Option String)
  unfolding connection_test status_text audit
  test_tx ctx device_id = do
    device ← (λ db. lift (or_raise (find_device device_id db) resource_not_found) db)
    credential ← (λ db. lift (or_raise (find_credential device_id db) resource_conflict) db)
    outcome ← lift (connection_test device credential)
    modify (
        replace_device device_id
          (record device { health_status = outcome.0; last_checked_at = some ctx.now }))
    modify (
        add_audit (
          audit ctx "device.connection_tested" "device" (ObjectId.row device.id) (
            field "status" (text (status_text outcome.0))
              (field "reason" (optional_text outcome.2) end))))
    commit
    pure outcome

  unfoldable pub test_connection :
      Context → ℕ → Db → Result (Health × Option ℕ × Option String) × Db
  unfolding test_tx
  test_connection ctx device_id db = with_session (test_tx ctx device_id) db

-- The row goes, and its credential with it (`ON DELETE CASCADE`). Listeners and wake events hold it
-- back (`RESTRICT`), which the commit checks.
abbrev pub drop_device : ℕ → Db → Db
drop_device device_id db = record db {
  devices = remove (λ d. d.id == device_id) db.devices;
  credentials = remove (λ c. c.device_id == device_id) db.credentials;
}

unfoldable pub delete_tx : Context → ℕ → Tx Unit
unfolding audit
delete_tx ctx device_id = do
  device ← (λ db. lift (or_raise (find_device device_id db) resource_not_found) db)
  listeners ← gets (listener_count device_id)
  raise_if (not (listeners == 0)) resource_in_use
  modify (drop_device device_id)
  modify (
      add_audit (
        audit ctx "device.deleted" "device" (ObjectId.row device_id)
          (field "name" (text device.name) end)))
  commit

unfoldable pub delete_device : Context → ℕ → Db → Result Unit × Db
unfolding delete_tx
delete_device ctx device_id db = with_session (delete_tx ctx device_id) db
