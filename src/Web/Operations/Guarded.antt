-- ===== src/Web/Operations/Guarded.antt =====
-- Who can run the routes of app/web/operations_routes.py.
use wolt.Prelude.{String, Bool, true, none, some, ◌≡◌, inl, inr, arith}
use wolt.Errors.{ok}
use wolt.Db.{Db, constraints}
use wolt.Auth.{AuthenticatedUser, Draws}
use wolt.Auth.Login.{current_user, logout}
use wolt.Auth.Sessions.{current_user-logout}
use wolt.Engine.{Runtime, World}
use wolt.Web.Access.{Site, Request, is_admin}
use wolt.Web.Access.Guarded.{IsGuarded, IsRefusal, anyone, as_user-IsGuarded, as_admin-IsGuarded}
use wolt.Web.Operations.{
  OperationCall, get_devices, get_listeners, get_engine, resume_engine, pause_engine, create_device,
  discover_device_host_key, update_device_at, delete_device_at, test_device, create_listener,
  update_listener_at, delete_listener_at, handle_operation,
}

-- Every user may read, test a device, and resume and pause the engine; what changes or probes the
-- configuration takes an owner or an administrator.
abbrev pub required : OperationCall → AuthenticatedUser → Bool
required get_devices = anyone
required get_listeners = anyone
required get_engine = anyone
required resume_engine = anyone
required pause_engine = anyone
required (test_device _) = anyone
required _ = is_admin

-- Each operation route either was called with the cookie of a live session of an enabled user who
-- has the role that the route takes, or it answers without a body, with 401 or 403 where it
-- answers with a status, and leaves the database and the runtime as they were.
pub handle_operation-IsGuarded :
    (before : String → String → Bool) (site : Site) (request : Request) (call : OperationCall)
    (w : World)
    → IsGuarded site request (required call) w (handle_operation before site request call w)
unfolding handle_operation
handle_operation-IsGuarded before site request get_devices w = as_user-IsGuarded site request w _
handle_operation-IsGuarded before site request get_listeners w = as_user-IsGuarded site request w _
handle_operation-IsGuarded before site request get_engine w = as_user-IsGuarded site request w _
handle_operation-IsGuarded before site request resume_engine w = as_user-IsGuarded site request w _
handle_operation-IsGuarded before site request pause_engine w = as_user-IsGuarded site request w _
handle_operation-IsGuarded before site request (test_device i) w =
    as_user-IsGuarded site request w _
handle_operation-IsGuarded before site request (create_device d i c) w =
    as_admin-IsGuarded site request w _
handle_operation-IsGuarded before site request (discover_device_host_key d c s) w =
    as_admin-IsGuarded site request w _
handle_operation-IsGuarded before site request (update_device_at i d c) w =
    as_admin-IsGuarded site request w _
handle_operation-IsGuarded before site request (delete_device_at i) w =
    as_admin-IsGuarded site request w _
handle_operation-IsGuarded before site request (create_listener i p) w =
    as_admin-IsGuarded site request w _
handle_operation-IsGuarded before site request (update_listener_at i v l p) w =
    as_admin-IsGuarded site request w _
handle_operation-IsGuarded before site request (delete_listener_at i) w =
    as_admin-IsGuarded site request w _

-- After a logout on a database that satisfies its constraints, every operation route that is called
-- with the cookie of that session answers without a body and changes nothing.
pub handle_operation-logout :
    (before : String → String → Bool) (site : Site) (request : Request) (call : OperationCall)
    (draws : Draws) (token ip : String) (db db' : Db) (runtime : Runtime)
    → constraints db ≡ true
    → logout site.library draws token ip db ≡ (ok tt, db')
    → request.session_token ≡ some token
    → let w : World = record { db = db'; runtime = runtime } in
      IsRefusal (handle_operation before site request call w).0
      × ((handle_operation before site request call w).1 ≡ w)
handle_operation-logout before site request call draws token ip db db' runtime c out given =
    let w : World = record { db = db'; runtime = runtime } in
    elim (handle_operation-IsGuarded before site request call w) [
      | inl (other, u, cookie, current, passes) ↦
          let nobody : current_user site.library site.host.now token db' ≡ ok none =
            current_user-logout site.library draws token ip db db' site.host.now c out in
          absurd (ground arith)
      | inr refused ↦ refused
    ]
