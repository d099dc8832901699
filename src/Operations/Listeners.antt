-- ===== src/Operations/Listeners.antt =====
-- `ListenerService`: listener mappings and the allocation of their UDP ports.
pub mod Change
pub mod Ports
pub mod Invariant
pub mod Versions
use wolt.Prelude.{
  ℕ, zero, suc, String, ◌+◌, ◌-◌, Bool, false, not, ◌&&◌, Option, none, some, List, [], ◌∷◌, ◌++◌,
  ◌==◌, leb, is_empty, strip, any, first, update, if◌then◌else◌,
}
use wolt.Errors.{
  Result, ok, err, or_raise, driver_validation, resource_not_found, resource_conflict,
}
use wolt.Json.{Fields, end, field, text, number, boolean}
use wolt.Db.{Db}
use wolt.Db.Models.{Device, ListenerMapping, ApplicationSettings, inactive, ObjectId}
use wolt.Db.Session.{
  Tx, ◌>>=◌, ◌>>◌, pure, raise_if, gets, lift, modify, commit, catch_integrity, with_session,
  scalar_one,
}
use wolt.Driver.{DriverRegistry}
use wolt.Driver
use wolt.Operations.{Context, audit, add_audit}

-- What the service asks of the host: `str(ipaddress.ip_address(…))`, and whether a UDP socket can be
-- bound to a port (`_port_available`).
pub record Network : Type 0 where
  pub ip_address : String → Option String
  pub port_available : ℕ → Bool

pub record ListenerInput : Type 0 where
  pub device_id : ℕ
  pub name : String
  pub description : Option String
  pub allowed_source_ip : String
  pub driver_parameters : Fields
  pub enabled : Bool

pub record ListenerView : Type 0 where
  pub mapping : ListenerMapping
  pub device_name : String
  pub driver_type : String

abbrev pub find_listener : ℕ → Db → Option ListenerMapping
find_listener mapping_id db = first (λ m. m.id == mapping_id) db.listeners

abbrev pub find_device : ℕ → Db → Option Device
find_device device_id db = first (λ d. d.id == device_id) db.devices

-- `(description or "").strip() or None`
description_of : Option String → Option String
description_of none = none
description_of (some s) = let t = strip s in if is_empty t then none else some t

-- The loop of `_allocate_port` over the ports from `port` on, `n` of them.
unfoldable pub first_free : List ListenerMapping → (ℕ → Bool) → ℕ → ℕ → Result ℕ
first_free listeners available zero port = err resource_conflict
first_free listeners available (suc n) port =
    let rest = first_free listeners available n (suc port) in
    if not (any (λ m. m.udp_port == port) listeners) && available port then ok port else rest

unfoldable pub allocate_port : List ListenerMapping → (ℕ → Bool) → ApplicationSettings → Result ℕ
allocate_port listeners available s =
    first_free listeners available (s.udp_port_end + 1 - s.udp_port_start) s.udp_port_start

abbrev excluded : Option ℕ → ListenerMapping → Bool
excluded none m = false
excluded (some i) m = m.id == i

-- `_validate_port`
unfoldable pub validate_port :
    List ListenerMapping → ApplicationSettings → ℕ → Option ℕ → Result Unit
validate_port listeners s port exclude_id =
    if leb s.udp_port_start port && leb port s.udp_port_end
    then if any (λ m. m.udp_port == port && not (excluded exclude_id m)) listeners
      then err resource_conflict
      else ok tt
    else err (driver_validation "udp_port_outside_allowed_range")

-- `get`: the join with the device.
unfoldable pub get : ℕ → Db → Result ListenerView
get mapping_id db = elim (find_listener mapping_id db) [
  | none ↦ err resource_not_found
  | some m ↦ elim (find_device m.device_id db) [
    | none ↦ err resource_not_found
    | some d ↦ ok (record { mapping = m; device_name = d.name; driver_type = d.driver_type })
  ]
]

-- `return self.get(…)` after the session, unless that raised.
unfoldable pub then_get : Result ℕ × Db → Result ListenerView × Db
unfolding get
then_get (ok mapping_id, db) = (get mapping_id db, db)
then_get (err e, db) = (err e, db)

abbrev pub replace_listener : ℕ → ListenerMapping → Db → Db
replace_listener mapping_id m db = record db {
  listeners = update (λ l. l.id == mapping_id) (λ _. m) db.listeners;
}

abbrev pub listener_changes : ListenerMapping → Fields → Fields
listener_changes m rest =
    field "name" (text m.name)
      (field "udp_port" (number m.udp_port) (field "enabled" (boolean m.enabled) rest))

-- From `session.add(mapping)` on.
unfoldable pub insert_mapping : Context → ListenerMapping → Tx ℕ
unfolding audit
insert_mapping ctx m = do
  modify (λ db. record db { listeners = db.listeners ++ (m ∷ []) })
  catch_integrity resource_conflict (do
    commit
    modify (
        add_audit
          (audit ctx "listener.created" "listener" (ObjectId.row m.id) (listener_changes m end)))
    commit)
  pure m.id

module _ (network : Network) (registry : DriverRegistry) where
  -- `_source_ip`
  unfoldable pub source_ip : String → Result String
  source_ip value =
      or_raise (network.ip_address (strip value)) (driver_validation "invalid_allowed_source_ip")

  -- The device, and the driver parameters as its driver accepts them, which `create` and `update`
  -- look up alike.
  unfoldable pub checked_parameters : ListenerInput → Tx Fields
  unfolding Driver.get
  checked_parameters input = do
    device ← (λ db. lift (or_raise (find_device input.device_id db) resource_not_found) db)
    raise_if (input.enabled && not device.enabled) resource_conflict
    driver ← lift (Driver.get registry device.driver_type)
    lift (driver.validate_listener_parameters input.driver_parameters)

  abbrev chosen_port : Option ℕ → ApplicationSettings → Tx ℕ
  chosen_port (some port) s = pure port
  chosen_port none s = λ db. lift (allocate_port db.listeners network.port_available s) db

  -- `create` up to `session.add(mapping)`.
  unfoldable pub new_mapping : Context → ListenerInput → Option ℕ → String → Tx ListenerMapping
  unfolding checked_parameters description_of allocate_port validate_port
  new_mapping ctx input udp_port source = do
    stored ← gets (λ db. db.settings)
    settings ← lift (scalar_one stored)
    parameters ← checked_parameters input
    port ← chosen_port udp_port settings
    (λ db. lift (validate_port db.listeners settings port none) db)
    raise_if (not (network.port_available port)) resource_conflict
    raise_if (is_empty (strip input.name)) (driver_validation "listener_name_required")
    pure (record {
      id = ctx.new_id;
      device_id = input.device_id;
      name = strip input.name;
      description = description_of input.description;
      udp_port = port;
      allowed_source_ip = source;
      driver_parameters = parameters;
      enabled = input.enabled;
      status = inactive;
      last_error = none;
      version = 1;
      created_at = ctx.now;
      updated_at = ctx.now;
    })

  unfoldable pub create : Context → ListenerInput → Option ℕ → Db → Result ListenerView × Db
  unfolding source_ip new_mapping insert_mapping then_get
  create ctx input udp_port db = elim (source_ip input.allowed_source_ip) [
    | err e ↦ (err e, db)
    | ok source ↦
        then_get
          (with_session (do m ← new_mapping ctx input udp_port source; insert_mapping ctx m) db)
  ]
