-- ===== src/Web/Access.antt =====
-- Who may call a route (`require_user`, `require_admin` and `require_owner` of app/web/auth_routes.py,
-- operations_routes.py, identity_routes.py and observability_routes.py), and what a route answers.
pub mod Guarded
use wolt.Prelude.{
  ℕ, String, Bool, true, false, ◌||◌, Option, none, some, ◌≡◌, refl, ◌⊎◌, inl, inr, str_eq,
  is_empty, Bool-cases, Option-cases, if◌then◌else◌, arith,
}
use wolt.Errors.{Error, Result, ok, err, Result-cases}
use wolt.Db.{Db}
use wolt.Auth.{Library, AuthenticatedUser}
use wolt.Auth.Login.{current_user}
use wolt.Engine.{Runtime, World, Host}
use wolt.Operations.{Context}
use wolt.Operations.Listeners.{Network}

-- A response: the body, an `HTTPException`, or an exception that nothing translates.
pub data Response (A : Type 0) : Type 0 where
  sent : A → Response A
  http_error : ℕ → String → Response A
  uncaught : Error → Response A

-- What the routers are made with.
pub record Site : Type 0 where
  pub library : Library
  pub network : Network
  pub host : Host
  -- the decimal text of a number
  pub failures_text : ℕ → String

-- The parts of a request that the routes share, and the ids and the nonce that its services draw.
pub record Request : Type 0 where
  pub session_token : Option String
  pub client : Option String
  pub new_id : ℕ
  pub audit_id : ℕ
  pub nonce : ℕ

-- `_client_ip`
abbrev pub client_ip : Request → String
client_ip r = elim r.client [ none ↦ "unknown" | some ip ↦ ip ]

abbrev pub Route : Type 0 → Type 0
Route A = World → Response A × World

abbrev pub unauthenticated : {A : Type 0} → Response A
unauthenticated = http_error 401 "authentication_required"

abbrev pub forbidden : {A : Type 0} → Response A
forbidden = http_error 403 "insufficient_permissions"

abbrev pub user_or_401 : Result (Option AuthenticatedUser) → Response AuthenticatedUser
user_or_401 (err e) = uncaught e
user_or_401 (ok none) = unauthenticated
user_or_401 (ok (some u)) = sent u

-- `require_user`, on the cookie of the session
unfoldable pub require_user : Library → ℕ → Option String → Db → Response AuthenticatedUser
require_user lib now none db = unauthenticated
require_user lib now (some token) db =
    if is_empty token then unauthenticated else user_or_401 (current_user lib now token db)

abbrev pub is_admin : AuthenticatedUser → Bool
is_admin u = str_eq u.role "owner" || str_eq u.role "administrator"

abbrev pub is_owner : AuthenticatedUser → Bool
is_owner u = str_eq u.role "owner"

-- `require_admin` and `require_owner`, after `require_user`
abbrev pub allowed_if :
    (AuthenticatedUser → Bool) → Response AuthenticatedUser → Response AuthenticatedUser
allowed_if p (sent u) = if p u then sent u else forbidden
allowed_if p (http_error status detail) = http_error status detail
allowed_if p (uncaught e) = uncaught e

-- A dependency that raises ends the request.
abbrev pub with_user :
    {A : Type 0} → Response AuthenticatedUser → (AuthenticatedUser → Route A) → Route A
with_user (sent u) route w = route u w
with_user (http_error status detail) route w = (http_error status detail, w)
with_user (uncaught e) route w = (uncaught e, w)

module _ {A : Type 0} (site : Site) (request : Request) where
  -- `Depends(require_user)`
  unfoldable pub as_user : (AuthenticatedUser → Route A) → Route A
  unfolding require_user
  as_user route w =
      with_user (require_user site.library site.host.now request.session_token w.db) route w

  -- `Depends(require_admin)`
  unfoldable pub as_admin : (AuthenticatedUser → Route A) → Route A
  unfolding require_user
  as_admin route w =
      with_user
        (allowed_if is_admin (require_user site.library site.host.now request.session_token w.db))
        route w

  -- `Depends(require_owner)`
  unfoldable pub as_owner : (AuthenticatedUser → Route A) → Route A
  unfolding require_user
  as_owner route w =
      with_user
        (allowed_if is_owner (require_user site.library site.host.now request.session_token w.db))
        route w
