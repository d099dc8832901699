-- ===== src/Operations/Listeners/Change.antt =====
-- `ListenerService.update`, `delete` and `list`.
use wolt.Prelude.{
  ℕ, String, ◌+◌, not, ◌&&◌, none, some, List, [], ◌∷◌, ◌==◌, leb, is_empty, strip, first, remove,
  count, if◌then◌else◌,
}
use wolt.Errors.{
  Result, ok, err, or_raise, driver_validation, resource_not_found, resource_conflict,
  resource_in_use, stale_version,
}
use wolt.Json.{end, field, text, number}
use wolt.Db.{Db}
use wolt.Db.Models.{ListenerMapping, Device, inactive, ObjectId}
use wolt.Db.Session.{
  Tx, ◌>>=◌, ◌>>◌, pure, raise_if, gets, lift, modify, commit, catch_integrity, with_session,
}
use wolt.Driver.{DriverRegistry}
use wolt.Operations.{Context, audit, add_audit}
use wolt.Operations.Listeners.{
  Network, ListenerInput, ListenerView, find_listener, description_of, validate_port, then_get,
  replace_listener, listener_changes, source_ip, checked_parameters,
}

-- One row of `list`: the join of a mapping with its device.
abbrev joined : List Device → ListenerMapping → List ListenerView → List ListenerView
joined devices m rest = elim (first (λ d. d.id == m.device_id) devices) [
  | none ↦ rest
  | some d ↦ record { mapping = m; device_name = d.name; driver_type = d.driver_type } ∷ rest
]

abbrev insert_by_port : ListenerMapping → List ListenerMapping → List ListenerMapping
insert_by_port m [] = m ∷ []
insert_by_port m (n ∷ rest) =
    if leb m.udp_port n.udp_port then m ∷ n ∷ rest else n ∷ insert_by_port m rest

-- `ORDER BY udp_port`
unfoldable pub by_port : List ListenerMapping → List ListenerMapping
by_port [] = []
by_port (m ∷ rest) = insert_by_port m (by_port rest)

join_devices : List Device → List ListenerMapping → List ListenerView
join_devices devices [] = []
join_devices devices (m ∷ rest) = joined devices m (join_devices devices rest)

-- `list`
unfoldable pub list_listeners : Db → List ListenerView
unfolding by_port join_devices
list_listeners db = join_devices db.devices (by_port db.listeners)

-- The `UPDATE`, the audit event and the commit.
unfoldable pub save_mapping : Context → ℕ → ListenerMapping → Tx ℕ
unfolding audit
save_mapping ctx mapping_id m = do
  modify (replace_listener mapping_id m)
  modify (
      add_audit (
        audit ctx "listener.updated" "listener" (ObjectId.row m.id)
          (listener_changes m (field "version" (number m.version) end))))
  catch_integrity resource_conflict commit
  pure mapping_id

module _ (network : Network) (registry : DriverRegistry) where
  -- The guards of `update`, and the mapping with its new columns.
  unfoldable pub changed_mapping : Context → ℕ → ℕ → ListenerInput → ℕ → String → Tx ListenerMapping
  unfolding checked_parameters description_of validate_port
  changed_mapping ctx mapping_id version input udp_port source = do
    mapping ← (λ db. lift (or_raise (find_listener mapping_id db) resource_not_found) db)
    raise_if (not (mapping.version == version)) stale_version
    settings ← (λ db. lift (or_raise db.settings resource_not_found) db)
    parameters ← checked_parameters network registry input
    (λ db. lift (validate_port db.listeners settings udp_port (some mapping_id)) db)
    raise_if (not (udp_port == mapping.udp_port) && not (network.port_available udp_port))
        resource_conflict
    raise_if (is_empty (strip input.name)) (driver_validation "listener_name_required")
    pure (record mapping {
      device_id = input.device_id;
      name = strip input.name;
      description = description_of input.description;
      udp_port = udp_port;
      allowed_source_ip = source;
      driver_parameters = parameters;
      enabled = input.enabled;
      status = inactive;
      last_error = none;
      version = mapping.version + 1;
      updated_at = ctx.now;
    })

  unfoldable pub update_listener :
      Context → ℕ → ℕ → ListenerInput → ℕ → Db → Result ListenerView × Db
  unfolding source_ip changed_mapping save_mapping then_get
  update_listener ctx mapping_id version input udp_port db =
      elim (source_ip network registry input.allowed_source_ip) [
        | err e ↦ (err e, db)
        | ok source ↦ then_get (
            with_session
              (do
                m ← changed_mapping ctx mapping_id version input udp_port source
                save_mapping ctx mapping_id m)
              db)
      ]

-- `select(func.count()).select_from(WakeEvent).where(WakeEvent.mapping_id == mapping_id)`
abbrev pub event_count : ℕ → Db → ℕ
event_count mapping_id db = count (λ e. e.mapping_id == mapping_id) db.wake_events

unfoldable pub delete_tx : Context → ℕ → Tx Unit
unfolding audit
delete_tx ctx mapping_id = do
  mapping ← (λ db. lift (or_raise (find_listener mapping_id db) resource_not_found) db)
  events ← gets (event_count mapping_id)
  raise_if (not (events == 0)) resource_in_use
  modify (λ db. record db { listeners = remove (λ m. m.id == mapping_id) db.listeners })
  modify (
      add_audit (
        audit ctx "listener.deleted" "listener" (ObjectId.row mapping_id)
          (field "name" (text mapping.name) (field "udp_port" (number mapping.udp_port) end))))
  commit

unfoldable pub delete_listener : Context → ℕ → Db → Result Unit × Db
unfolding delete_tx
delete_listener ctx mapping_id db = with_session (delete_tx ctx mapping_id) db
