-- ===== src/Web/Operations/Paused.antt =====
-- What `POST /engine/pause` (app/web/operations_routes.py) leaves behind.
use wolt.Prelude.{ℕ, String, Bool, false, none, [], ◌≡◌, refl, sym, ap, ◌∙◌, arith}
use wolt.Errors.{Result, ok, err}
use wolt.Db.{Db}
use wolt.Db.Models.{Desired, Observed}
use wolt.Auth.{AuthenticatedUser}
use wolt.Operations.{Context}
use wolt.Operations.EngineStates.{EngineView, transition, transition_tx}
use wolt.Operations.EngineStates as EngineStates
use wolt.Engine.{Runtime, World, Host, pause, is_desired_active, start_from_desired_state}
use wolt.Web.Access.{
  Response, sent, http_error, uncaught, Site, Request, Route, as_user, with_user, require_user,
}
use wolt.Web.Operations.{untranslated, engine, context, handle_operation, pause_engine, Answer}

transition-paused :
    (ctx : Context) (db : Db) (view : EngineView)
    → (transition ctx Desired.paused Observed.paused none db).0 ≡ ok view
    → is_desired_active (transition ctx Desired.paused Observed.paused none db).1 ≡ false
unfolding transition transition_tx EngineStates.get
transition-paused ctx db view h = ground arith

start_paused :
    (host : Host) (failures_text : ℕ → String) (w : World)
    → is_desired_active w.db ≡ false
    → (start_from_desired_state host failures_text w).1.runtime.listeners ≡ []
unfolding start_from_desired_state pause
start_paused host failures_text w h = rw h refl

untranslated-sent :
    {A B : Type 0} (body : A → B) (r : Result A) (b : B)
    → untranslated body r ≡ sent b
    → (a : A) × (r ≡ ok a)
untranslated-sent body (ok a) b h = (a, refl)
untranslated-sent body (err e) b h = absurd (ground arith)

with_user-sent :
    {A : Type 0} (r : Response AuthenticatedUser) (route : AuthenticatedUser → Route A)
    (w w' : World) (a : A)
    → with_user r route w ≡ (sent a, w')
    → (u : AuthenticatedUser) × (route u w ≡ (sent a, w'))
with_user-sent (sent u) route w w' a h = (u, h)
with_user-sent (http_error status detail) route w w' a h = absurd (ground arith)
with_user-sent (uncaught e) route w w' a h = absurd (ground arith)

-- Once `POST /engine/pause` has answered without an error, no listener is bound, and whenever the
-- process starts again on that database, on any host, it binds none either.
pub pause_engine-start :
    (before : String → String → Bool) (site : Site) (request : Request) (w w' : World)
    (answer : Answer) (host : Host) (failures_text : ℕ → String) (runtime : Runtime)
    → handle_operation before site request pause_engine w ≡ (sent answer, w')
    → (w'.runtime.listeners ≡ [])
      × (let restarted : World = record { db = w'.db; runtime = runtime } in
          (start_from_desired_state host failures_text restarted).1.runtime.listeners ≡ [])
unfolding handle_operation as_user pause
pause_engine-start before site request w w' answer host failures_text runtime h =
    let (u, paused) =
      with_user-sent (require_user site.library site.host.now request.session_token w.db) _ w w'
        answer h in
    let db = (pause site.host w).db in
    let ctx = context site request u in
    let (view, fine) =
      untranslated-sent engine (transition ctx Desired.paused Observed.paused none db).0 answer
        (ap (λ r. r.0) paused) in
    let state : w'.db ≡ (transition ctx Desired.paused Observed.paused none db).1 =
      ap (λ r. r.1.db) (sym paused) in
    (
      ap (λ r. r.1.runtime.listeners) (sym paused) ∙ refl,
      start_paused host failures_text (record { db = w'.db; runtime = runtime })
          (rw state (transition-paused ctx db view fine)),
    )
