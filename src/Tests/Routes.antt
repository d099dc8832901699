-- ===== src/Tests/Routes.antt =====
-- Tests of the routes of app/web/auth_routes.py and app/web/operations_routes.py.
use wolt.Prelude.{
  String, ◌≤◌, ◌≡◌, Bool, true, false, none, some, List, [], ◌∷◌, refl, count, any, decimal, ◌==◌,
  arith, strip, All,
}
use wolt.Errors.{ok}
use wolt.Db.{
  Db, constraints, users_ok, sessions_ok, recovery_codes_ok, invitations_ok, reset_tokens_ok,
  devices_ok, credentials_ok, listeners_ok, wake_events_ok, smtp_ok, settings_ok,
}
use wolt.Db.Models.{Desired, Observed}
use wolt.RateLimit.{new_limiter}
use wolt.Auth.Login.{login, logout, current_user}
use wolt.Operations.EngineStates.{EngineView, transition}
use wolt.Operations.EngineStates as EngineStates
use wolt.Operations.Listeners.Change.{delete_listener}
use wolt.Engine.{
  RuntimeMapping, World, resume, pause, start, try_start, is_served, reconcile_if_active,
  start_from_desired_state,
}
use wolt.Operations.Devices.{runtime_material}
use wolt.Web.Access.{Site, Request, sent}
use wolt.Web.Access.Guarded.{IsGuarded, IsRefusal}
use wolt.Web.Attempts.{LoginAttemptLimiter}
use wolt.Web.Attempts as Attempts
use wolt.Web.Operations.{
  no_content, engine, delete_listener_at, pause_engine, create_listener, handle_operation,
}
use wolt.Web.Operations.Guarded.{required, handle_operation-IsGuarded, handle_operation-logout}
use wolt.Web.Operations.Reconciled.{delete_listener_at-unbound}
use wolt.Web.Operations.Paused.{pause_engine-start}
use wolt.Web.Login.{AuthSite, Gate, Visit, AuthResponse, login_route, setup_owner}
use wolt.Web.Login.Throttled.{Guess, login_run, is_tried, IsFailed, login_run-bound}
use wolt.Samples.{db, empty_db, library, network, host, draws, input}
use wolt.Tests.Listeners.{db_constraints}

abbrev pub site : Site
site = record { library = library; network = network; host = host; failures_text = decimal }

abbrev pub request : Request
request = record {
  session_token = some "cookie";
  client = some "10.0.0.9";
  new_id = 8;
  audit_id = 91;
  nonce = 1;
}

abbrev before : String → String → Bool
before a b = true

-- The mapping is served, and nothing refers to it.
abbrev pub world : World
world = record {
  db = record db { wake_events = [] };
  runtime = record { listeners = []; limiter = new_limiter 1 };
}

handle_operation-IsGuarded_example :
    IsGuarded site request
      (required (create_listener input none))
      world
      (handle_operation before site request (create_listener input none) world)
handle_operation-IsGuarded_example =
    handle_operation-IsGuarded before site request (create_listener input none) world

abbrev left : Db
left = (logout library draws "cookie" "10.0.0.9" db).1

left_db : logout library draws "cookie" "10.0.0.9" db ≡ (ok tt, left)
unfolding logout constraints users_ok sessions_ok recovery_codes_ok invitations_ok reset_tokens_ok
    devices_ok credentials_ok listeners_ok wake_events_ok smtp_ok settings_ok
left_db = refl

handle_operation-logout_example :
    IsRefusal
      (handle_operation before site request pause_engine
        (record { db = left; runtime = world.runtime })).0
    × ((handle_operation before site request pause_engine
          (record { db = left; runtime = world.runtime })).1
        ≡ record { db = left; runtime = world.runtime })
handle_operation-logout_example =
    handle_operation-logout before site request pause_engine draws "cookie" "10.0.0.9" db left
      world.runtime db_constraints left_db refl

abbrev after_delete : World
after_delete = (handle_operation before site request (delete_listener_at 7) world).1

delete_answer :
    handle_operation before site request (delete_listener_at 7) world
    ≡ (sent no_content, after_delete)
unfolding handle_operation reconcile_if_active resume start try_start runtime_material is_served
    delete_listener constraints users_ok sessions_ok recovery_codes_ok invitations_ok
    reset_tokens_ok devices_ok credentials_ok listeners_ok wake_events_ok smtp_ok settings_ok
    current_user
delete_answer = refl

delete_listener_at-unbound_example :
    any (λ (m : RuntimeMapping). m.id == 7) after_delete.runtime.listeners ≡ false
delete_listener_at-unbound_example =
    delete_listener_at-unbound before site request 7 world after_delete no_content refl
      delete_answer

abbrev after_pause : World
after_pause = (handle_operation before site request pause_engine world).1

abbrev paused_view : EngineView
paused_view = record {
  state = record {
    desired_state = Desired.paused;
    observed_state = Observed.paused;
    heartbeat_at = some 100;
    last_transition_at = some 100;
    last_error = none;
  };
  active_listeners = 0;
  enabled_listeners = 1;
}

pause_answer :
    handle_operation before site request pause_engine world
    ≡ (sent (engine paused_view), after_pause)
unfolding handle_operation pause transition EngineStates.get current_user constraints users_ok
    sessions_ok recovery_codes_ok invitations_ok reset_tokens_ok devices_ok credentials_ok
    listeners_ok wake_events_ok smtp_ok settings_ok
pause_answer = refl

pause_engine-start_example :
    (after_pause.runtime.listeners ≡ [])
    × ((start_from_desired_state host decimal
          (record { db = after_pause.db; runtime = world.runtime })).1.runtime.listeners
        ≡ [])
pause_engine-start_example =
    pause_engine-start before site request world after_pause (engine paused_view) host decimal
      world.runtime pause_answer

abbrev auth_site : AuthSite
auth_site = record {
  library = library;
  upper = λ s. s;
  bootstrap_token = "boot";
  session_hours = 12;
  session_secure = true;
  hour = 36000;
}

abbrev visit : Visit
visit = record {
  client = some "10.0.0.9";
  session_token = none;
  monotonic = 40;
  draws = record draws { token = "drawn" };
}

abbrev gate : Gate
gate = record {
  db = db;
  limiter = record { limit = 2; window = 100; attempts = ("10.0.0.9", 30 ∷ []) ∷ [] };
  bootstrap_limiter = record { limit = 5; window = 100; attempts = [] };
}

abbrev guess : Guess
guess = record { visit = visit; identifier = "ada"; password = "wrong" }

abbrev guesses : List Guess
guesses = guess ∷ guess ∷ guess ∷ []

-- The first guess is the second attempt that the limiter remembers.
one_tried : count is_tried (login_run auth_site guesses gate) ≡ 1
unfolding login_run Attempts.allow login strip
one_tried = refl

none_open : All IsFailed (login_run auth_site guesses gate)
unfolding login_run Attempts.allow login strip
none_open = (tt, (tt, (tt, tt)))

login_run-bound_example : count is_tried (login_run auth_site guesses gate) ≤ 2
login_run-bound_example =
    login_run-bound auth_site "10.0.0.9" 40 guesses gate
      (
        (refl, omega arith, omega arith),
        ((refl, omega arith, omega arith), ((refl, omega arith, omega arith), tt)),
      )
      none_open

abbrev fresh_gate : Gate
fresh_gate = record gate { db = empty_db }

abbrev owner_token : String
owner_token = "boot"

abbrev set_up : Gate
set_up = (setup_owner auth_site visit "boot" "ada" "ada@example.org" "secret" fresh_gate).1

abbrev owner_answer : AuthResponse
owner_answer = record {
  user = record { id = 3; username = "ada"; email = "ada@example.org"; role = "owner" };
  recovery_code = some "AAAA-BBBB";
  cookie = record { value = "drawn"; max_age = 43200; secure = true };
}

abbrev entered : Gate
entered = (login_route auth_site visit "ada" "secret" gate).1

abbrev ada_answer : AuthResponse
ada_answer = record {
  user = record { id = 1; username = "ada"; email = "ada@example.org"; role = "owner" };
  recovery_code = none;
  cookie = record { value = "drawn"; max_age = 43200; secure = true };
}
