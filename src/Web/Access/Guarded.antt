-- ===== src/Web/Access/Guarded.antt =====
-- The guards of the routes (app/web): what a request that gets past them has shown.
use wolt.Prelude.{
  ℕ, String, Bool, true, Option, none, some, ◌≡◌, refl, ◌⊎◌, inl, inr, is_empty, Bool-cases, arith,
}
use wolt.Errors.{Result, ok, err}
use wolt.Db.{Db}
use wolt.Auth.{Library, AuthenticatedUser}
use wolt.Auth.Login.{current_user}
use wolt.Engine.{World}
use wolt.Web.Access.{
  Response, sent, http_error, uncaught, Site, Request, Route, user_or_401, require_user, is_admin,
  is_owner, allowed_if, with_user, as_user, as_admin, as_owner,
}

-- The cookie belongs to a user who passes the test: one with a session that is neither revoked nor
-- over, in an enabled account.
abbrev pub IsCalledBy : Site → Request → (AuthenticatedUser → Bool) → Db → Type 0
IsCalledBy site request p db =
    (token : String) × (u : AuthenticatedUser) × (request.session_token ≡ some token)
    × (current_user site.library site.host.now token db ≡ ok (some u))
    × (p u ≡ true)

-- Not a body.
abbrev pub IsRefusal : {A : Type 0} → Response A → Type 0
IsRefusal (sent _) = ⊥
IsRefusal (http_error status _) = (status ≡ 401) ⊎ (status ≡ 403)
IsRefusal (uncaught _) = Unit

-- The request came from a user who passes the test, or it was refused and nothing has changed.
abbrev pub IsGuarded :
    {A : Type 0} → Site → Request → (AuthenticatedUser → Bool) → World → Response A × World → Type 0
IsGuarded site request p w r = IsCalledBy site request p w.db ⊎ (IsRefusal r.0 × (r.1 ≡ w))

-- Every user passes.
abbrev pub anyone : AuthenticatedUser → Bool
anyone _ = true

user_or_401-sent :
    (r : Result (Option AuthenticatedUser)) (u : AuthenticatedUser)
    → user_or_401 r ≡ sent u
    → r ≡ ok (some u)
user_or_401-sent (err e) u h = absurd (ground arith)
user_or_401-sent (ok none) u h = absurd (ground arith)
user_or_401-sent (ok (some v)) u h = ground arith

user_or_401-status :
    (r : Result (Option AuthenticatedUser)) (status : ℕ) (detail : String)
    → user_or_401 r ≡ http_error status detail
    → status ≡ 401
user_or_401-status (err e) status detail h = absurd (ground arith)
user_or_401-status (ok none) status detail h = ground arith
user_or_401-status (ok (some v)) status detail h = absurd (ground arith)

module _ (lib : Library) (now : ℕ) (db : Db) where
  -- The user that `require_user` answers with is the one of the cookie.
  pub require_user-sent :
      (cookie : Option String) (u : AuthenticatedUser)
      → require_user lib now cookie db ≡ sent u
      → (token : String) × (cookie ≡ some token) × (current_user lib now token db ≡ ok (some u))
  unfolding require_user
  require_user-sent none u h = absurd (ground arith)
  require_user-sent (some token) u h =
      (token, refl, user_or_401-sent (current_user lib now token db) u (ground arith))

  require_user-status :
      (cookie : Option String) (status : ℕ) (detail : String)
      → require_user lib now cookie db ≡ http_error status detail
      → status ≡ 401
  unfolding require_user
  require_user-status none status detail h = ground arith
  require_user-status (some token) status detail h = elim (Bool-cases (is_empty token)) [
    | inl blank ↦ ground arith
    | inr filled ↦ user_or_401-status (current_user lib now token db) status detail (rw filled at h)
  ]

module _ {A : Type 0} (site : Site) (request : Request) (w : World)
    (route : AuthenticatedUser → Route A) where
  with_user-IsGuarded :
      (p : AuthenticatedUser → Bool) (r : Response AuthenticatedUser)
      → require_user site.library site.host.now request.session_token w.db ≡ r
      → IsGuarded site request p w (with_user (allowed_if p r) route w)
  with_user-IsGuarded p (sent u) h = elim (Bool-cases (p u)) [
    | inl passes ↦
        let (token, given, current) =
          require_user-sent site.library site.host.now w.db request.session_token u h in
        inl (token, u, given, current, passes)
    | inr fails ↦ rw fails (inr (inr refl, refl))
  ]
  with_user-IsGuarded p (http_error status detail) h = inr (
    inl (require_user-status site.library site.host.now w.db request.session_token status detail h),
    refl,
  )
  with_user-IsGuarded p (uncaught e) h = inr (tt, refl)

  allowed_anyone :
      (r : Response AuthenticatedUser)
      → with_user r route w ≡ with_user (allowed_if anyone r) route w
  allowed_anyone (sent u) = refl
  allowed_anyone (http_error status detail) = refl
  allowed_anyone (uncaught e) = refl

  pub as_user-IsGuarded : IsGuarded site request anyone w (as_user site request route w)
  unfolding as_user
  as_user-IsGuarded =
      let r = require_user site.library site.host.now request.session_token w.db in
      rw (allowed_anyone r) (with_user-IsGuarded anyone r refl)

  pub as_admin-IsGuarded : IsGuarded site request is_admin w (as_admin site request route w)
  unfolding as_admin
  as_admin-IsGuarded =
      with_user-IsGuarded is_admin
        (require_user site.library site.host.now request.session_token w.db) refl

  pub as_owner-IsGuarded : IsGuarded site request is_owner w (as_owner site request route w)
  unfolding as_owner
  as_owner-IsGuarded =
      with_user-IsGuarded is_owner
        (require_user site.library site.host.now request.session_token w.db) refl
