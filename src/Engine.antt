-- ===== src/Engine.antt =====
-- The engine runtime (app/application/engine_runtime.py): the bound UDP listeners, and how they are
-- started and stopped. `Host` is what the operating system and the clocks answer to one call.
pub mod Handle
pub mod Resume
use wolt.Prelude.{
  ℕ, zero, suc, String, ◌*◌, Bool, true, false, not, ◌&&◌, Option, none, some, List, [], ◌∷◌, ◌++◌,
  ◌==◌, any, select, update, map, if◌then◌else◌,
}
use wolt.Errors.{
  Error, Result, ok, err, resource_conflict, credential_crypto, os_error, attribute_error,
}
use wolt.Json.{Fields}
use wolt.Db.{Db}
use wolt.Db.Models.{
  Device, ListenerMapping, EngineState, ApplicationSettings, Status, inactive, is_active, Desired,
  wants_active, Observed,
}
use wolt.Driver.{DriverRegistry}
use wolt.Driver
use wolt.RateLimit.{RateLimiter, new_limiter}
use wolt.Operations.Listeners.{find_device}
use wolt.Operations.Devices.{CredentialCipher, runtime_material}

pub record RuntimeMapping : Type 0 where
  pub id : ℕ
  pub device_id : ℕ
  pub port : ℕ
  pub allowed_source_ip : String
  pub driver_parameters : Fields

-- `EngineRuntime._listeners`, and the limiter that the listeners of one `resume` share.
pub record Runtime : Type 0 where
  pub listeners : List RuntimeMapping
  pub limiter : RateLimiter

pub record World : Type 0 where
  pub db : Db
  pub runtime : Runtime

-- The services that the runtime holds, whether a socket can be bound to a port, the time, and the
-- number of clock units in a second.
pub record Host : Type 0 where
  pub registry : DriverRegistry
  pub cipher : Option CredentialCipher
  pub can_bind : ℕ → Bool
  pub now : ℕ
  pub second : ℕ

abbrev pub runtime_mapping : ListenerMapping → RuntimeMapping
runtime_mapping row = record {
  id = row.id;
  device_id = row.device_id;
  port = row.udp_port;
  allowed_source_ip = row.allowed_source_ip;
  driver_parameters = row.driver_parameters;
}

-- The `WHERE` of `resume`, over the join with the device.
unfoldable pub is_served : List Device → ListenerMapping → Bool
is_served devices m = m.enabled && any (λ d. d.id == m.device_id && d.enabled) devices

-- `_close_all`
abbrev pub close_all : Runtime → Runtime
close_all rt = record rt { listeners = [] }

-- `_set_mapping_status`; no constraint mentions the columns that it writes.
unfoldable pub set_mapping_status : ℕ → ℕ → Status → Option String → Db → Db
set_mapping_status now mapping_id status error db = record db {
  listeners =
      update (λ m. m.id == mapping_id)
        (λ m. record m { status = status; last_error = error; updated_at = now }) db.listeners;
}

-- `_heartbeat`
unfoldable pub heartbeat : ℕ → Desired → Observed → Option String → Db → Db
heartbeat now desired observed error db = elim db.engine [
  | none ↦ db
  | some s ↦ record db {
    engine = some (record s {
      desired_state = desired;
      observed_state = observed;
      last_error = error;
      heartbeat_at = some now;
      last_transition_at = some now;
    });
  }
]

-- How the body of the loop ends for one row: the listener runs, an exception was caught with a
-- reason, or one propagates.
pub data Start : Type 0 where
  started : Start
  failed : String → Start
  raised : Error → Start

-- `except (OSError, ResourceConflictError, CredentialCryptoError)`; `str` of an exception that was
-- raised without arguments is empty.
unfoldable pub handler : Error → Start
handler os_error = failed "port_bind_failed"
handler resource_conflict = failed ""
handler (credential_crypto reason) = failed reason
handler e = raised e

-- The `try` of the loop, up to `listener.start()`.
unfoldable pub try_start : Host → Db → ListenerMapping → Result Unit
unfolding Driver.get
try_start host db row = elim (runtime_material host.cipher row.device_id db) [
  | err e ↦ err e
  | ok material ↦ elim (Driver.get host.registry material.driver_type) [
    | err e ↦ err e
    | ok driver ↦ elim (driver.validate_listener_parameters row.driver_parameters) [
      | err e ↦ err e
      | ok _ ↦ if host.can_bind row.udp_port then ok tt else err os_error
    ]
  ]
]

unfoldable pub start : Host → Db → ListenerMapping → Start
unfolding handler
start host db row = elim (try_start host db row) [ ok _ ↦ started | err e ↦ handler e ]

-- `self._listeners[row.id] = listener`; `_close_all` came before, and the rows have distinct ids.
abbrev add_listener : RuntimeMapping → Runtime → Runtime
add_listener m rt = record rt { listeners = rt.listeners ++ (m ∷ []) }

-- The loop over the rows; `failures` counts the caught exceptions.
unfoldable pub start_rows : Host → List ListenerMapping → ℕ → World → Result ℕ × World
start_rows host [] failures w = (ok failures, w)
start_rows host (row ∷ rows) failures w = elim (start host w.db row) [
  | started ↦ start_rows host rows failures (record {
    db = set_mapping_status host.now row.id Status.active none w.db;
    runtime = add_listener (runtime_mapping row) w.runtime;
  })
  | failed reason ↦
      start_rows host rows (suc failures)
        (record w { db = set_mapping_status host.now row.id Status.error (some reason) w.db })
  | raised e ↦ (err e, w)
]

abbrev pub observed_after : ℕ → Observed
observed_after zero = Observed.active
observed_after (suc n) = Observed.degraded

-- `f"{failures}_listener_failures"`, for a given decimal printer.
abbrev pub error_after : (ℕ → String) → ℕ → Option String
error_after failures_text zero = none
error_after failures_text (suc n) = some (failures_text (suc n))

abbrev finish_resume :
    Host → (ℕ → String) → Result ℕ × World → Result (Observed × Option String) × World
finish_resume host failures_text (err e, w) = (err e, w)
finish_resume host failures_text (ok n, w) =
    let observed = observed_after n in
    let error = error_after failures_text n in
    (ok (observed, error), record w { db = heartbeat host.now Desired.active observed error w.db })

unfoldable pub resume : Host → (ℕ → String) → World → Result (Observed × Option String) × World
unfolding start_rows is_served heartbeat
resume host failures_text w = elim w.db.settings [
  | none ↦ (err attribute_error, record w { runtime = close_all w.runtime })
  | some s ↦ finish_resume host failures_text (
      start_rows host (select (is_served w.db.devices) w.db.listeners) 0 (record w {
        runtime = record {
          listeners = [];
          limiter = new_limiter (s.rate_limit_seconds * host.second);
        };
      }))
]

unfoldable pub pause : Host → World → World
unfolding heartbeat
pause host w = record {
  db = heartbeat host.now Desired.paused Observed.paused none (record w.db {
    listeners =
        update (λ m. is_active m.status)
          (λ m. record m { status = inactive; last_error = none; updated_at = host.now })
          w.db.listeners;
  });
  runtime = close_all w.runtime;
}

-- `state.desired_state == "active"`, false where there is no row.
abbrev pub is_desired_active : Db → Bool
is_desired_active db = elim db.engine [ none ↦ false | some s ↦ wants_active s.desired_state ]

abbrev drop_result : {A : Type 0} → Result A × World → Result Unit × World
drop_result (ok _, w) = (ok tt, w)
drop_result (err e, w) = (err e, w)

unfoldable pub start_from_desired_state : Host → (ℕ → String) → World → Result Unit × World
unfolding resume pause
start_from_desired_state host failures_text w =
    if is_desired_active w.db
    then drop_result (resume host failures_text w)
    else (ok tt, pause host w)

unfoldable pub reconcile_if_active : Host → (ℕ → String) → World → Result Unit × World
unfolding resume
reconcile_if_active host failures_text w =
    if is_desired_active w.db then drop_result (resume host failures_text w) else (ok tt, w)

-- `shutdown`
unfoldable pub shutdown : World → World
shutdown w = record w { runtime = close_all w.runtime }
