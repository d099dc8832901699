-- ===== src/Web/Operations/Reconciled.antt =====
-- What the runtime listens on after a route of app/web/operations_routes.py has reconciled it.
use wolt.Prelude.{
  ℕ, String, Bool, true, false, Option, List, [], ◌∷◌, ◌==◌, ◌≡◌, refl, ap, inl, inr, arith, any,
  select, remove, map,
}
use wolt.Errors.{Error, Result, ok, err, Result-cases}
use wolt.Db.{Db}
use wolt.Db.Models.{ListenerMapping, Observed}
use wolt.Auth.{AuthenticatedUser}
use wolt.Operations.{Context}
use wolt.Operations.Listeners.Change.{delete_listener, delete_tx}
use wolt.Engine.{
  Runtime, RuntimeMapping, World, Host, is_served, runtime_mapping, resume, reconcile_if_active,
  is_desired_active,
}
use wolt.Engine.Resume.{can_start, resume_lem}
use wolt.Web.Access.{
  Response, sent, http_error, uncaught, Site, Request, Route, as_admin, with_user, require_user,
  allowed_if, is_admin,
}
use wolt.Web.Operations.{
  translate_error, delete_listener_at, Answer, context, then_reconcile, after_reconcile,
  handle_operation, no_content,
}

-- The mappings of a database that the runtime can serve.
abbrev pub bound_for : Host → Db → List RuntimeMapping
bound_for host db =
    map runtime_mapping (select (can_start host db) (select (is_served db.devices) db.listeners))

translate_error-sent : {A : Type 0} (e : Error) (a : A) → translate_error e ≡ sent a → ⊥
unfolding translate_error
translate_error-sent e a h = ground arith

reconcile_if_active-ok :
    (host : Host) (failures_text : ℕ → String) (w w' : World)
    → is_desired_active w.db ≡ true
    → reconcile_if_active host failures_text w ≡ (ok tt, w')
    → (observed : Observed) × (error : Option String) × (resume host failures_text w
        ≡ (ok (observed, error), w'))
unfolding reconcile_if_active
reconcile_if_active-ok host failures_text w w' active h =
    let r = resume host failures_text w in
    elim (Result-cases r.0) [
      | inl ((observed, error), fine) ↦ (observed, error, ground arith)
      | inr (e, failed) ↦ absurd (ground arith)
    ]

after_reconcile-sent :
    {B : Type 0} (a b : B) (r : Result Unit × World) (w' : World)
    → after_reconcile a r ≡ (sent b, w')
    → r ≡ (ok tt, w')
after_reconcile-sent a b (ok tt, w) w' h = ground arith
after_reconcile-sent a b (err e, w) w' h = absurd (translate_error-sent e b (ap (λ r. r.0) h))

-- A body is sent only after the service and the runtime have both succeeded.
then_reconcile-sent :
    {A B : Type 0} (site : Site) (body : A → B) (r : Result A × Db) (rt : Runtime) (b : B)
    (w' : World)
    → then_reconcile site body r rt ≡ (sent b, w')
    → (a : A) × (r.0 ≡ ok a)
      × (reconcile_if_active site.host site.failures_text (record { db = r.1; runtime = rt })
          ≡ (ok tt, w'))
unfolding then_reconcile
then_reconcile-sent site body (err e, db) rt b w' h =
    absurd (translate_error-sent e b (ap (λ r. r.0) h))
then_reconcile-sent site body (ok a, db) rt b w' h = (
  a,
  refl,
  after_reconcile-sent (body a) b
      (reconcile_if_active site.host site.failures_text (record { db = db; runtime = rt })) w' h,
)

-- Then, if the engine is to be active, it listens for the mappings that the service has left.
then_reconcile-bound :
    {A B : Type 0} (site : Site) (body : A → B) (r : Result A × Db) (rt : Runtime) (b : B)
    (w' : World)
    → then_reconcile site body r rt ≡ (sent b, w')
    → is_desired_active r.1 ≡ true
    → w'.runtime.listeners ≡ bound_for site.host r.1
then_reconcile-bound site body r rt b w' h active =
    let w : World = record { db = r.1; runtime = rt } in
    let (a, served, reconciled) = then_reconcile-sent site body r rt b w' h in
    let (observed, error, resumed) =
      reconcile_if_active-ok site.host site.failures_text w w' active reconciled in
    (resume_lem site.host site.failures_text w w' observed error resumed).0

-- What a sent body tells of the service of an administrator's route.
as_admin-sent :
    {A : Type 0} (site : Site) (request : Request) (route : AuthenticatedUser → Route A)
    (w w' : World) (a : A)
    → as_admin site request route w ≡ (sent a, w')
    → (u : AuthenticatedUser) × (route u w ≡ (sent a, w'))
unfolding as_admin
as_admin-sent site request route w w' a h =
    with_user-sent
      (allowed_if is_admin (require_user site.library site.host.now request.session_token w.db)) h
  where
    with_user-sent :
        (r : Response AuthenticatedUser)
        → with_user r route w ≡ (sent a, w')
        → (u : AuthenticatedUser) × (route u w ≡ (sent a, w'))
    with_user-sent (sent u) h = (u, h)
    with_user-sent (http_error status detail) h = absurd (ground arith)
    with_user-sent (uncaught e) h = absurd (ground arith)

desired_same :
    (db db' : Db)
    → db'.engine ≡ db.engine
    → is_desired_active db ≡ true
    → is_desired_active db' ≡ true
desired_same db db' e h = ground arith

any-removed :
    (i : ℕ) (p q : ListenerMapping → Bool) (ms : List ListenerMapping)
    → any
        (λ (m : RuntimeMapping). m.id == i)
        (map runtime_mapping (select p (select q (remove (λ m. m.id == i) ms))))
      ≡ false
any-removed i p q [] = refl
any-removed i p q (m ∷ ms) = ground (arith, any-removed i p q ms)

delete_listener-ok :
    (ctx : Context) (i : ℕ) (db : Db)
    → (delete_listener ctx i db).0 ≡ ok tt
    → ((delete_listener ctx i db).1.listeners ≡ remove (λ m. m.id == i) db.listeners)
      × ((delete_listener ctx i db).1.engine ≡ db.engine)
unfolding delete_listener delete_tx
delete_listener-ok ctx i db h = ground arith

-- While the engine is to be active, once `DELETE /listeners/{id}` has answered without an error, no
-- listener is bound for that mapping.
pub delete_listener_at-unbound :
    (before : String → String → Bool) (site : Site) (request : Request) (i : ℕ) (w w' : World)
    (answer : Answer)
    → is_desired_active w.db ≡ true
    → handle_operation before site request (delete_listener_at i) w ≡ (sent answer, w')
    → any (λ (m : RuntimeMapping). m.id == i) w'.runtime.listeners ≡ false
unfolding handle_operation
delete_listener_at-unbound before site request i w w' answer active h =
    let (u, sent_by) = as_admin-sent site request _ w w' answer h in
    let r = delete_listener (context site request u) i w.db in
    let (done, fine, reconciled) =
      then_reconcile-sent site (λ _. no_content) r w.runtime answer w' sent_by in
    let (gone, engine) = delete_listener-ok (context site request u) i w.db fine in
    let bound : w'.runtime.listeners ≡ bound_for site.host r.1 =
      then_reconcile-bound site (λ _. no_content) r w.runtime answer w' sent_by
        (desired_same w.db r.1 engine active) in
    rw (bound, gone)
      (any-removed i (can_start site.host r.1) (is_served r.1.devices) w.db.listeners)
