-- ===== src/Auth/Login.antt =====
-- `AuthService.login`, `current_user` and `logout`.
pub mod Live
use wolt.Prelude.{
  ℕ, String, Bool, true, false, ◌&&◌, ◌||◌, Option, none, some, List, [], ◌∷◌, ◌++◌, ◌==◌, str_eq,
  strip, first, select, update, ltb, if◌then◌else◌,
}
use wolt.Errors.{Result, ok, err, invalid_credentials}
use wolt.Json.{end}
use wolt.Db.{Db}
use wolt.Db.Models.{User, UserSession, ObjectId}
use wolt.Db.Session.{Tx, ◌>>=◌, ◌>>◌, pure, gets, lift, modify, commit, with_session, one_or_none}
use wolt.Auth.{
  Library, Draws, AuthenticatedUser, AuthenticationResult, token_hash, public_user, verify,
  new_session, add_session, add_event, is_open, result_for,
}

-- The user that `login` finds for an identifier.
unfoldable pub login_user : Library → String → Db → Option User
login_user lib identifier db =
    let normalized = lib.lower (strip identifier) in
    first
      (λ u.
        u.enabled
        && (str_eq (lib.sql_lower u.username) normalized
            || str_eq (lib.sql_lower u.email) normalized))
      db.users

abbrev password_ok : Library → String → Option User → Result User
password_ok lib password none = err invalid_credentials
password_ok lib password (some u) = elim (verify lib u.password_hash password) [
  | true ↦ ok u
  | false ↦ err invalid_credentials
]

-- The hash is renewed where the library asks for it.
abbrev rehashed : Library → ℕ → String → Option String → Option String
rehashed lib salt password none = none
rehashed lib salt password (some h) =
    if lib.needs_rehash h then some (lib.hash salt password) else some h

unfoldable pub login_tx : Library → ℕ → Draws → String → String → String → Tx AuthenticationResult
unfolding login_user verify
login_tx lib lifetime draws identifier password client_ip = do
  found ← gets (login_user lib identifier)
  user ← lift (password_ok lib password found)
  modify (λ db. record db {
    users =
        update (λ u. u.id == user.id)
          (λ u. record u {
            password_hash = rehashed lib draws.salt password u.password_hash;
            last_login_at = some draws.now;
          })
          db.users;
  })
  modify (add_session (new_session lib lifetime draws user.id client_ip))
  modify
      (add_event draws.audit_id draws.now (some user.id) "auth.login" "session" none end client_ip)
  commit
  pure (result_for user draws lifetime none)

unfoldable pub login :
    Library → ℕ → Draws → String → String → String → Db → Result AuthenticationResult × Db
unfolding login_tx
login lib lifetime draws identifier password client_ip db =
    with_session (login_tx lib lifetime draws identifier password client_ip) db

-- A session with this token that is neither revoked nor over.
abbrev pub is_live : Library → ℕ → String → UserSession → Bool
is_live lib now token s =
    str_eq s.token_hash (token_hash lib token) && is_open s && ltb now s.expires_at

-- The enabled users of the live sessions: the rows of the join in `current_user`.
unfoldable pub live_users : Library → ℕ → String → List User → List UserSession → List User
live_users lib now token users [] = []
live_users lib now token users (s ∷ ss) =
    let rest = live_users lib now token users ss in
    let owners = select (λ u. u.id == s.user_id && u.enabled) users in
    if is_live lib now token s then owners ++ rest else rest

abbrev public_of : Option User → Option AuthenticatedUser
public_of none = none
public_of (some u) = some (public_user u)

abbrev map_public : Result (Option User) → Result (Option AuthenticatedUser)
map_public (ok o) = ok (public_of o)
map_public (err e) = err e

unfoldable pub current_user : Library → ℕ → String → Db → Result (Option AuthenticatedUser)
unfolding live_users
current_user lib now token db =
    map_public (one_or_none (live_users lib now token db.users db.sessions))

abbrev revoke_one : ℕ → ℕ → Db → Db
revoke_one session_id now db = record db {
  sessions = update (λ s. s.id == session_id) (λ s. record s { revoked_at = some now }) db.sessions;
}

abbrev pub open_session : Library → String → Db → Option UserSession
open_session lib token db =
    first (λ s. str_eq s.token_hash (token_hash lib token) && is_open s) db.sessions

unfoldable pub logout : Library → Draws → String → String → Db → Result Unit × Db
logout lib draws token client_ip db = elim (open_session lib token db) [
  | none ↦ (ok tt, db)
  | some s ↦
      with_session
        (do
          modify (revoke_one s.id draws.now)
          modify (
              add_event draws.audit_id draws.now (some s.user_id) "auth.logout" "session"
                (some (ObjectId.row s.id)) end client_ip)
          commit)
        db
]
