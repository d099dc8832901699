-- ===== src/Operations/Devices.antt =====
-- `DeviceService`: the managed devices and their encrypted credentials.
pub mod Change
pub mod Stored
pub mod Query
use wolt.Prelude.{
  ℕ, String, Bool, not, Option, none, some, List, [], ◌∷◌, ◌++◌, ◌==◌, is_empty, strip, first, any,
  count, if◌then◌else◌, str_eq, is_some,
}
use wolt.Errors.{
  Result, ok, err, or_raise, driver_validation, resource_not_found, resource_conflict,
  master_key_required, credential_crypto,
}
use wolt.Json.{Fields, end, field, text, boolean}
use wolt.Db.{Db}
use wolt.Db.Models.{Device, DeviceCredential, unknown, ObjectId}
use wolt.Db.Session.{
  Tx, ◌>>=◌, ◌>>◌, pure, raise_if, lift, modify, commit, catch_integrity, with_session,
}
use wolt.Driver.{DriverRegistry}
use wolt.Driver
use wolt.Operations.{Context, audit, add_audit}
use wolt.Operations.Listeners.{find_device}

-- `CredentialCipher` (app/infrastructure/crypto/credentials.py) as its clients see it: AES-GCM is
-- a library's. `encrypt` takes the nonce that it draws.
pub record CredentialCipher : Type 0 where
  pub key_id : String
  pub encrypt : ℕ → Fields → String
  pub decrypt : String → Result Fields

pub record DeviceView : Type 0 where
  pub device : Device
  pub listener_count : ℕ
  pub credential_configured : Bool

pub record DeviceInput : Type 0 where
  pub name : String
  pub configuration : Fields
  pub enabled : Bool

abbrev pub find_credential : ℕ → Db → Option DeviceCredential
find_credential device_id db = first (λ c. c.device_id == device_id) db.credentials

abbrev pub listener_count : ℕ → Db → ℕ
listener_count device_id db = count (λ m. m.device_id == device_id) db.listeners

-- `get`; a device has at most one credential, so the join counts each listener once.
unfoldable pub get : ℕ → Db → Result DeviceView
get device_id db = elim (find_device device_id db) [
  | none ↦ err resource_not_found
  | some d ↦ ok (record {
    device = d;
    listener_count = listener_count device_id db;
    credential_configured = is_some (find_credential device_id db);
  })
]

unfoldable pub then_get : Result ℕ × Db → Result DeviceView × Db
unfolding get
then_get (ok device_id, db) = (get device_id db, db)
then_get (err e, db) = (err e, db)

-- `_require_cipher`
unfoldable pub require_cipher : Option CredentialCipher → Result CredentialCipher
require_cipher cipher = or_raise cipher master_key_required

-- `_decrypt`
unfoldable pub decrypt : Option CredentialCipher → DeviceCredential → Result Fields
unfolding require_cipher
decrypt configured credential = elim (require_cipher configured) [
  | err e ↦ err e
  | ok cipher ↦
      if not (str_eq credential.key_id cipher.key_id)
      then err (credential_crypto "credential_key_mismatch")
      else cipher.decrypt credential.encrypted_payload
]

pub record RuntimeMaterial : Type 0 where
  pub driver_type : String
  pub configuration : Fields
  pub credentials : Fields

abbrev material : Device → Result Fields → Result RuntimeMaterial
material d (ok secret) =
    ok (record {
      driver_type = d.driver_type;
      configuration = d.configuration;
      credentials = secret;
    })
material d (err e) = err e

-- `runtime_material`
unfoldable pub runtime_material : Option CredentialCipher → ℕ → Db → Result RuntimeMaterial
unfolding decrypt
runtime_material cipher device_id db = elim (find_device device_id db) [
  | none ↦ err resource_conflict
  | some d ↦ elim (find_credential device_id db) [
    | none ↦ err resource_conflict
    | some c ↦
        let usable = material d (decrypt cipher c) in
        if not d.enabled then err resource_conflict else usable
  ]
]

module _ (registry : DriverRegistry) (configured : Option CredentialCipher) where
  -- `create` up to `session.add(device)`: the new device and its credential.
  unfoldable pub new_device :
      Context → String → DeviceInput → Fields → ℕ → Result (Device × DeviceCredential)
  unfolding require_cipher Driver.get
  new_device ctx driver_type input credentials nonce = elim (require_cipher configured) [
    | err e ↦ err e
    | ok cipher ↦ elim (Driver.get registry driver_type) [
      | err e ↦ err e
      | ok driver ↦ elim (driver.validate_configuration input.configuration) [
        | err e ↦ err e
        | ok config ↦ elim (driver.validate_credentials credentials) [
          | err e ↦ err e
          | ok secret ↦
              if is_empty (strip input.name)
              then err (driver_validation "device_name_required")
              else ok (
                record {
                  id = ctx.new_id;
                  name = strip input.name;
                  driver_type = driver_type;
                  configuration = config;
                  enabled = input.enabled;
                  health_status = unknown;
                  last_checked_at = none;
                  created_at = ctx.now;
                },
                record {
                  device_id = ctx.new_id;
                  encrypted_payload = cipher.encrypt nonce secret;
                  key_id = cipher.key_id;
                  rotated_at = ctx.now;
                },
              )
        ]
      ]
    ]
  ]

-- From `session.add(device)` on.
unfoldable pub insert_device : Context → Device → DeviceCredential → Tx ℕ
unfolding audit
insert_device ctx d c = do
  modify (λ db. record db { devices = db.devices ++ (d ∷ []) })
  catch_integrity resource_conflict (do
    commit
    modify (λ db.
        add_audit
          (audit ctx "device.created" "device" (ObjectId.row d.id) (
            field "name" (text d.name)
              (field "driver_type" (text d.driver_type) (field "enabled" (boolean d.enabled) end))))
          (record db { credentials = db.credentials ++ (c ∷ []) }))
    commit)
  pure d.id

unfoldable pub create :
    DriverRegistry
    → Option CredentialCipher
    → Context
    → String
    → DeviceInput
    → Fields
    → ℕ
    → Db
    → Result DeviceView × Db
unfolding new_device insert_device then_get
create registry cipher ctx driver_type input credentials nonce db =
    elim (new_device registry cipher ctx driver_type input credentials nonce) [
      | err e ↦ (err e, db)
      | ok (d, c) ↦ then_get (with_session (insert_device ctx d c) db)
    ]
