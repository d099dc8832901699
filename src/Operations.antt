-- ===== src/Operations.antt =====
-- The services of app/application/operations_service.py. `Context` is who calls and from where,
-- with the time of the call and the UUIDs that it draws.
pub mod Listeners
pub mod Devices
pub mod EngineStates
use wolt.Prelude.{ℕ, String, some}
use wolt.Json.{Fields}
use wolt.Db.{Db}
use wolt.Db.Models.{AuditEvent, ObjectId}
use wolt.Prelude.{◌∷◌, List, [], ◌++◌}

pub record Context : Type 0 where
  pub actor_id : ℕ
  pub client_ip : String
  pub now : ℕ
  pub new_id : ℕ
  pub audit_id : ℕ

-- `_audit`
unfoldable pub audit : Context → String → String → ObjectId → Fields → AuditEvent
audit ctx action object_type object_id changes = record {
  id = ctx.audit_id;
  actor_user_id = some ctx.actor_id;
  action = action;
  object_type = object_type;
  object_id = some object_id;
  safe_changes = changes;
  client_ip = ctx.client_ip;
  occurred_at = ctx.now;
}

-- `session.add(_audit(…))`
abbrev pub add_audit : AuditEvent → Db → Db
add_audit e db = record db { audit_events = db.audit_events ++ (e ∷ []) }
