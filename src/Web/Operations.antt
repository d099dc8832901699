-- ===== src/Web/Operations.antt =====
-- The routes of app/web/operations_routes.py. FastAPI picks the route and checks the fields of its
-- payload; `OperationCall` is a request after that. `GET /drivers` is not among them.
pub mod Guarded
pub mod Reconciled
pub mod Paused
use wolt.Prelude.{ℕ, String, Bool, Option, none, some, List, [], ◌∷◌}
use wolt.Errors.{
  Error, Result, ok, err, driver_validation, driver_operation, resource_not_found,
  resource_conflict, resource_in_use, stale_version, master_key_required,
}
use wolt.Json.{Fields}
use wolt.Db.{Db}
use wolt.Db.Models.{Health, Desired, Observed}
use wolt.Driver.{HostKeyDiscoveryResult}
use wolt.Auth.{AuthenticatedUser}
use wolt.Operations.{Context}
use wolt.Operations.Devices.{DeviceView, DeviceInput}
use wolt.Operations.Devices as Devices
use wolt.Operations.Devices.Change.{update_device, delete_device, test_connection}
use wolt.Operations.Devices.Query.{list_devices, discover_host_key}
use wolt.Operations.Listeners.{ListenerInput, ListenerView}
use wolt.Operations.Listeners as Listeners
use wolt.Operations.Listeners.Change.{list_listeners, update_listener, delete_listener}
use wolt.Operations.EngineStates.{EngineView, transition}
use wolt.Operations.EngineStates as EngineStates
use wolt.Engine.{Runtime, World, Host, resume, pause, reconcile_if_active}
use wolt.Web.Access.{
  Response, sent, http_error, uncaught, Site, Request, Route, client_ip, as_user, as_admin,
}

-- `_translate_error`
unfoldable pub translate_error : {A : Type 0} → Error → Response A
translate_error resource_not_found = http_error 404 "resource_not_found"
translate_error resource_conflict = http_error 409 "resource_conflict"
translate_error resource_in_use = http_error 409 "resource_in_use"
translate_error stale_version = http_error 409 "stale_listener_version"
translate_error master_key_required = http_error 503 "master_key_not_configured"
translate_error (driver_validation reason) = http_error 422 reason
translate_error (driver_operation reason) = http_error 502 reason
translate_error e = uncaught e

pub data OperationCall : Type 0 where
  get_devices get_listeners get_engine resume_engine pause_engine : OperationCall
  create_device : String → DeviceInput → Fields → OperationCall
  discover_device_host_key : String → Fields → Fields → OperationCall
  update_device_at : ℕ → DeviceInput → Option Fields → OperationCall
  delete_device_at test_device : ℕ → OperationCall
  create_listener : ListenerInput → Option ℕ → OperationCall
  update_listener_at : ℕ → ℕ → ListenerInput → ℕ → OperationCall
  delete_listener_at : ℕ → OperationCall

-- The bodies of the responses.
pub data Answer : Type 0 where
  devices : List DeviceView → Answer
  device : DeviceView → Answer
  host_key : HostKeyDiscoveryResult → Answer
  tested : Health × Option ℕ × Option String → Answer
  listeners : List ListenerView → Answer
  listener : ListenerView → Answer
  engine : EngineView → Answer
  no_content : Answer

-- `actor_id=user.id, client_ip=_client_ip(request)`
abbrev pub context : Site → Request → AuthenticatedUser → Context
context site request u = record {
  actor_id = u.id;
  client_ip = client_ip request;
  now = site.host.now;
  new_id = request.new_id;
  audit_id = request.audit_id;
}

abbrev after_reconcile : {B : Type 0} → B → Result Unit × World → Response B × World
after_reconcile b (ok _, w) = (sent b, w)
after_reconcile b (err e, w) = (translate_error e, w)

-- The `try` of a route that reconciles the runtime after its service.
unfoldable pub then_reconcile :
    {A B : Type 0} → Site → (A → B) → Result A × Db → Runtime → Response B × World
unfolding translate_error
then_reconcile site body (err e, db) rt = (translate_error e, record { db = db; runtime = rt })
then_reconcile site body (ok a, db) rt =
    after_reconcile (body a)
      (reconcile_if_active site.host site.failures_text (record { db = db; runtime = rt }))

-- The `try` of a route that does not.
unfoldable pub then_send : {A B : Type 0} → (A → B) → Result A × Db → Runtime → Response B × World
unfolding translate_error
then_send body (err e, db) rt = (translate_error e, record { db = db; runtime = rt })
then_send body (ok a, db) rt = (sent (body a), record { db = db; runtime = rt })

-- Outside a `try`.
abbrev pub untranslated : {A B : Type 0} → (A → B) → Result A → Response B
untranslated body (ok a) = sent (body a)
untranslated body (err e) = uncaught e

abbrev pub transition_to :
    Site → Request → AuthenticatedUser → Desired → Observed → Option String → Route Answer
transition_to site request u desired observed error w =
    let r = transition (context site request u) desired observed error w.db in
    (untranslated engine r.0, record w { db = r.1 })

-- `observed, error = runtime.resume()`, and the transition
unfoldable pub after_resume :
    Site
    → Request
    → AuthenticatedUser
    → Result (Observed × Option String) × World
    → Response Answer × World
unfolding transition
after_resume site request u (err e, w) = (uncaught e, w)
after_resume site request u (ok (observed, error), w) =
    transition_to site request u Desired.active observed error w

-- The order of device names is the database's.
unfoldable pub handle_operation :
    (String → String → Bool) → Site → Request → OperationCall → Route Answer
unfolding as_user as_admin then_reconcile then_send after_resume
handle_operation before site request get_devices =
    as_user site request (λ u w. (sent (devices (list_devices before w.db)), w))
handle_operation before site request (create_device driver_type input credentials) =
    as_admin site request (λ u w.
      then_reconcile site device
        (Devices.create site.host.registry site.host.cipher (context site request u) driver_type
          input credentials request.nonce w.db)
        w.runtime)
handle_operation before site request (discover_device_host_key driver_type configuration secret) =
    as_admin site request (λ u w.
      then_send host_key
        (discover_host_key site.host.registry (context site request u) driver_type configuration
          secret w.db)
        w.runtime)
handle_operation before site request (update_device_at device_id input credentials) =
    as_admin site request (λ u w.
      then_reconcile site device
        (update_device site.host.registry site.host.cipher (context site request u) device_id input
          credentials request.nonce w.db)
        w.runtime)
handle_operation before site request (delete_device_at device_id) = as_admin site request (λ u w.
    then_send (λ _. no_content) (delete_device (context site request u) device_id w.db) w.runtime)
handle_operation before site request (test_device device_id) = as_user site request (λ u w.
    then_send tested
      (test_connection site.host.registry site.host.cipher (context site request u) device_id w.db)
      w.runtime)
handle_operation before site request get_listeners =
    as_user site request (λ u w. (sent (listeners (list_listeners w.db)), w))
handle_operation before site request (create_listener input udp_port) =
    as_admin site request (λ u w.
      then_reconcile site listener
        (Listeners.create site.network site.host.registry (context site request u) input udp_port
          w.db)
        w.runtime)
handle_operation before site request (update_listener_at listener_id version input udp_port) =
    as_admin site request (λ u w.
      then_reconcile site listener
        (update_listener site.network site.host.registry (context site request u) listener_id
          version input udp_port w.db)
        w.runtime)
handle_operation before site request (delete_listener_at listener_id) =
    as_admin site request (λ u w.
      then_reconcile site (λ _. no_content)
        (delete_listener (context site request u) listener_id w.db) w.runtime)
handle_operation before site request get_engine =
    as_user site request (λ u w. (untranslated engine (EngineStates.get w.db), w))
handle_operation before site request resume_engine =
    as_user site request
      (λ u w. after_resume site request u (resume site.host site.failures_text w))
handle_operation before site request pause_engine =
    as_user site request
      (λ u w. transition_to site request u Desired.paused Observed.paused none (pause site.host w))
