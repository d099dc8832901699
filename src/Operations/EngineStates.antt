-- ===== src/Operations/EngineStates.antt =====
-- `EngineStateService`: the one row of `engine_state`.
use wolt.Prelude.{ℕ, String, Option, none, some, count}
use wolt.Errors.{Result, ok, err, or_raise, resource_not_found}
use wolt.Json.{end, field, text, optional_text}
use wolt.Db.{Db}
use wolt.Db.Models.{EngineState, Desired, Observed, is_active, ObjectId}
use wolt.Db.Session.{Tx, ◌>>=◌, ◌>>◌, lift, modify, commit, with_session}
use wolt.Operations.{Context, audit, add_audit}

pub record EngineView : Type 0 where
  pub state : EngineState
  pub active_listeners : ℕ
  pub enabled_listeners : ℕ

unfoldable pub get : Db → Result EngineView
get db = elim db.engine [
  | none ↦ err resource_not_found
  | some s ↦ ok (record {
    state = s;
    active_listeners = count (λ m. is_active m.status) db.listeners;
    enabled_listeners = count (λ m. m.enabled) db.listeners;
  })
]

abbrev observed_text : Observed → String
observed_text Observed.starting = "starting"
observed_text Observed.active = "active"
observed_text Observed.degraded = "degraded"
observed_text Observed.paused = "paused"

abbrev transition_action : Desired → String
transition_action Desired.active = "engine.active"
transition_action Desired.paused = "engine.paused"

unfoldable pub transition_tx : Context → Desired → Observed → Option String → Tx Unit
unfolding audit
transition_tx ctx desired observed last_error = do
  state ← (λ db. lift (or_raise db.engine resource_not_found) db)
  modify (λ db. record db {
    engine = some (record state {
      desired_state = desired;
      observed_state = observed;
      last_error = last_error;
      last_transition_at = some ctx.now;
      heartbeat_at = some ctx.now;
    });
  })
  modify (
      add_audit (
        audit ctx (transition_action desired) "engine" (ObjectId.literal "1") (
          field "observed_state" (text (observed_text observed))
            (field "last_error" (optional_text last_error) end))))
  commit

abbrev view_after : Result Unit × Db → Result EngineView × Db
view_after (ok _, db) = (get db, db)
view_after (err e, db) = (err e, db)

unfoldable pub transition :
    Context → Desired → Observed → Option String → Db → Result EngineView × Db
unfolding transition_tx get
transition ctx desired observed last_error db =
    view_after (with_session (transition_tx ctx desired observed last_error) db)
