-- ===== src/Web/Login.antt =====
-- The routes of app/web/auth_routes.py.
pub mod Throttled
pub mod Once
pub mod Me
use wolt.Prelude.{
  ℕ, String, ◌*◌, Bool, true, false, not, ◌&&◌, Option, none, some, leb, str_eq, is_empty,
  all_chars, if◌then◌else◌,
}
use wolt.Errors.{Error, Result, ok, err, setup_already_completed, invalid_credentials, type_error}
use wolt.Db.{Db}
use wolt.Auth.{Library, Draws, AuthenticatedUser, AuthenticationResult}
use wolt.Auth.Login.{login, logout}
use wolt.Auth.Owner.{create_owner, recover_owner}
use wolt.Web.Access.{Response, sent, http_error, uncaught, require_user}
use wolt.Web.Attempts.{LoginAttemptLimiter, allow, clear, new_limiter}

-- What the router is made with: the services' library, `str.upper`, the fields of the settings that
-- it reads, and the number of units of time in an hour.
pub record AuthSite : Type 0 where
  pub library : Library
  pub upper : String → String
  pub bootstrap_token : String
  pub session_hours : ℕ
  pub session_secure : Bool
  pub hour : ℕ

-- The database and the two limiters of the router.
pub record Gate : Type 0 where
  pub db : Db
  pub limiter : LoginAttemptLimiter
  pub bootstrap_limiter : LoginAttemptLimiter

-- `limiter = LoginAttemptLimiter()` and `LoginAttemptLimiter(limit=5, window_seconds=300)`, where
-- `second` is the number of clock units in a second
unfoldable pub new_gate : ℕ → Db → Gate
unfolding new_limiter
new_gate second db = record {
  db = db;
  limiter = new_limiter 5 (300 * second);
  bootstrap_limiter = new_limiter 5 (300 * second);
}

-- Who sends a request, the clock that the limiters read, and what its service draws.
pub record Visit : Type 0 where
  pub client : Option String
  pub session_token : Option String
  pub monotonic : ℕ
  pub draws : Draws

-- `_client_ip`
abbrev pub visitor_ip : Visit → String
visitor_ip v = elim v.client [ none ↦ "unknown" | some ip ↦ ip ]

-- The cookie that `_set_session_cookie` sets; it is `httponly` and `samesite="strict"`.
pub record SessionCookie : Type 0 where
  pub value : String
  pub max_age : ℕ
  pub secure : Bool

pub record AuthResponse : Type 0 where
  pub user : AuthenticatedUser
  pub recovery_code : Option String
  pub cookie : SessionCookie

-- `_set_session_cookie`, with the body of the response
abbrev pub auth_response : AuthSite → Option String → AuthenticationResult → AuthResponse
auth_response site code r = record {
  user = r.user;
  recovery_code = code;
  cookie = record {
    value = r.session_token;
    max_age = site.session_hours * 3600;
    secure = site.session_secure;
  };
}

abbrev pub lifetime : AuthSite → ℕ
lifetime site = site.session_hours * site.hour

-- `hmac.compare_digest` on texts, which raises `TypeError` for one that is not all ASCII
abbrev pub compare_digest : String → String → Result Bool
compare_digest a b =
    if all_chars (λ c. leb c 127) a && all_chars (λ c. leb c 127) b
    then ok (str_eq a b)
    else err type_error

abbrev pub setup_done :
    AuthSite → String → Result AuthenticationResult × Db → Gate → Response AuthResponse × Gate
setup_done site key (ok r, db) g = (
  sent (auth_response site r.recovery_code r),
  record g { db = db; bootstrap_limiter = clear key g.bootstrap_limiter },
)
setup_done site key (err setup_already_completed, db) g =
    (http_error 409 "setup_already_completed", record g { db = db })
setup_done site key (err e, db) g = (uncaught e, record g { db = db })

abbrev pub setup_checked :
    AuthSite → Visit → String → String → String → Result Bool → Gate → Response AuthResponse × Gate
setup_checked site v username email password (err e) g = (uncaught e, g)
setup_checked site v username email password (ok false) g =
    (http_error 403 "invalid_bootstrap_token", g)
setup_checked site v username email password (ok true) g =
    setup_done site (visitor_ip v)
      (create_owner site.library (lifetime site) v.draws username email password (visitor_ip v)
        g.db)
      g

abbrev pub setup_allowed :
    AuthSite
    → Visit
    → String
    → String
    → String
    → String
    → Bool
    → Gate
    → Response AuthResponse × Gate
setup_allowed site v token username email password false g =
    (http_error 429 "too_many_setup_attempts", g)
setup_allowed site v token username email password true g =
    if is_empty site.bootstrap_token
    then (http_error 503 "bootstrap_token_not_configured", g)
    else setup_checked site v username email password (compare_digest token site.bootstrap_token) g

-- `POST /setup/owner`
unfoldable pub setup_owner :
    AuthSite → Visit → String → String → String → String → Gate → Response AuthResponse × Gate
unfolding allow clear create_owner
setup_owner site v token username email password g =
    let r = allow (visitor_ip v) v.monotonic g.bootstrap_limiter in
    setup_allowed site v token username email password r.0 (record g { bootstrap_limiter = r.1 })

-- What follows the services of `login` and `recover`; `refused` answers to wrong credentials.
abbrev pub credentials_done :
    AuthSite
    → String
    → Response AuthResponse
    → (AuthenticationResult → Option String)
    → Result AuthenticationResult × Db
    → Gate
    → Response AuthResponse × Gate
credentials_done site key refused code (ok r, db) g =
    (sent (auth_response site (code r) r), record g { db = db; limiter = clear key g.limiter })
credentials_done site key refused code (err invalid_credentials, db) g =
    (refused, record g { db = db })
credentials_done site key refused code (err e, db) g = (uncaught e, record g { db = db })

abbrev pub login_allowed :
    AuthSite → Visit → String → String → Bool → Gate → Response AuthResponse × Gate
login_allowed site v identifier password false g = (http_error 429 "too_many_login_attempts", g)
login_allowed site v identifier password true g =
    credentials_done site (visitor_ip v) (http_error 401 "invalid_credentials") (λ _. none)
      (login site.library (lifetime site) v.draws identifier password (visitor_ip v) g.db) g

-- `POST /auth/login`
unfoldable pub login_route :
    AuthSite → Visit → String → String → Gate → Response AuthResponse × Gate
unfolding allow clear login
login_route site v identifier password g =
    let r = allow (visitor_ip v) v.monotonic g.limiter in
    login_allowed site v identifier password r.0 (record g { limiter = r.1 })

abbrev recover_allowed :
    AuthSite → Visit → String → String → String → Bool → Gate → Response AuthResponse × Gate
recover_allowed site v email code password false g =
    (http_error 429 "too_many_recovery_attempts", g)
recover_allowed site v email code password true g =
    credentials_done site (visitor_ip v) (http_error 400 "invalid_recovery_credentials")
      (λ r. r.recovery_code)
      (recover_owner site.library (lifetime site) v.draws email (site.upper code) password
        (visitor_ip v) g.db)
      g

-- `POST /auth/recover`
unfoldable pub recover_route :
    AuthSite → Visit → String → String → String → Gate → Response AuthResponse × Gate
unfolding allow clear recover_owner
recover_route site v email code password g =
    let r = allow (visitor_ip v) v.monotonic g.limiter in
    recover_allowed site v email code password r.0 (record g { limiter = r.1 })

-- `GET /auth/me`
unfoldable pub me_route : AuthSite → Visit → Gate → Response AuthenticatedUser
unfolding require_user
me_route site v g = require_user site.library v.draws.now v.session_token g.db

-- `POST /auth/logout`; the response deletes the cookie.
abbrev logged_out : Result Unit × Db → Gate → Response Unit × Gate
logged_out (ok _, db) g = (sent tt, record g { db = db })
logged_out (err e, db) g = (uncaught e, record g { db = db })

unfoldable pub logout_route : AuthSite → Visit → Gate → Response Unit × Gate
unfolding logout
logout_route site v g = elim v.session_token [
  | none ↦ (sent tt, g)
  | some token ↦
      if is_empty token
      then (sent tt, g)
      else logged_out (logout site.library v.draws token (visitor_ip v) g.db) g
]
