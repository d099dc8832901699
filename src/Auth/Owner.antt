-- ===== src/Auth/Owner.antt =====
-- `AuthService.create_owner` and `recover_owner`.
use wolt.Prelude.{
  ℕ, String, Bool, true, false, not, ◌&&◌, Option, none, some, List, [], ◌∷◌, ◌++◌, ◌==◌, str_eq,
  strip, any, select, update, is_some,
}
use wolt.Errors.{Result, ok, err, setup_already_completed, invalid_credentials}
use wolt.Json.{end, field, text, boolean}
use wolt.Db.{Db}
use wolt.Db.Models.{User, RecoveryCode, ObjectId}
use wolt.Db.Session.{
  Tx, ◌>>=◌, ◌>>◌, pure, raise_if, gets, lift, modify, commit, with_session, scalar_one,
  one_or_none,
}
use wolt.Auth.{
  Library, Draws, AuthenticationResult, verify, new_session, add_session, add_event, is_open,
  result_for,
}

abbrev pub is_owner : User → Bool
is_owner u = str_eq u.role "owner"

abbrev pub owner_row : Library → Draws → String → String → String → User
owner_row lib draws username email password = record {
  id = draws.user_id;
  username = strip username;
  email = lib.lower (strip email);
  password_hash = some (lib.hash draws.salt password);
  role = "owner";
  enabled = true;
  last_login_at = some draws.now;
  created_at = draws.now;
}

unfoldable pub create_owner_tx :
    Library → ℕ → Draws → String → String → String → String → Tx AuthenticationResult
create_owner_tx lib lifetime draws username email password client_ip = do
  stored ← gets (λ db. db.settings)
  lift (scalar_one stored)
  exists ← gets (λ db. any is_owner db.users)
  raise_if exists setup_already_completed
  let user = owner_row lib draws username email password
  modify (λ db. record db { users = db.users ++ (user ∷ []) })
  commit
  modify (λ db. record db {
    recovery_codes =
        db.recovery_codes
        ++ (record {
          user_id = user.id;
          code_hash = lib.hash draws.code_salt draws.recovery_code;
          created_at = draws.now;
          used_at = none;
        }
            ∷ []);
  })
  modify (add_session (new_session lib lifetime draws user.id client_ip))
  modify (
      add_event draws.audit_id draws.now (some user.id) "owner.created" "user"
        (some (ObjectId.row user.id)) (field "role" (text "owner") end) client_ip)
  commit
  pure (result_for user draws lifetime (some draws.recovery_code))

unfoldable pub create_owner :
    Library → ℕ → Draws → String → String → String → String → Db → Result AuthenticationResult × Db
unfolding create_owner_tx
create_owner lib lifetime draws username email password client_ip db =
    with_session (create_owner_tx lib lifetime draws username email password client_ip) db

-- One user with each unused recovery code, the rows of the join in `recover_owner`.
abbrev pairs_with :
    User → List RecoveryCode → List (User × RecoveryCode) → List (User × RecoveryCode)
pairs_with u [] rest = rest
pairs_with u (c ∷ cs) rest = (u, c) ∷ pairs_with u cs rest

owners_with_codes : (User → Bool) → List RecoveryCode → List User → List (User × RecoveryCode)
owners_with_codes p codes [] = []
owners_with_codes p codes (u ∷ us) =
    let rest = owners_with_codes p codes us in
    let own = select (λ c. c.user_id == u.id && not (is_some c.used_at)) codes in
    elim (p u) [ true ↦ pairs_with u own rest | false ↦ rest ]

unfoldable pub recovery_rows : Library → String → Db → List (User × RecoveryCode)
unfolding owners_with_codes
recovery_rows lib email db =
    owners_with_codes
      (λ u. str_eq (lib.sql_lower u.email) (lib.lower (strip email)) && is_owner u && u.enabled)
      db.recovery_codes db.users

-- `update(UserSession).where(user_id == …, revoked_at.is_(None)).values(revoked_at=now)`
abbrev pub revoke_all : ℕ → ℕ → Db → Db
revoke_all user_id now db = record db {
  sessions =
      update (λ s. s.user_id == user_id && is_open s) (λ s. record s { revoked_at = some now })
        db.sessions;
}

abbrev pub set_password : ℕ → String → Db → Db
set_password user_id hash db = record db {
  users = update (λ u. u.id == user_id) (λ u. record u { password_hash = some hash }) db.users;
}

abbrev verified : Library → String → Option (User × RecoveryCode) → Result (User × RecoveryCode)
verified lib code none = err invalid_credentials
verified lib code (some (u, c)) = elim (verify lib (some c.code_hash) code) [
  | true ↦ ok (u, c)
  | false ↦ err invalid_credentials
]

unfoldable pub recover_owner_tx :
    Library → ℕ → Draws → String → String → String → String → Tx AuthenticationResult
unfolding recovery_rows verify
recover_owner_tx lib lifetime draws email recovery_code new_password client_ip = do
  rows ← gets (recovery_rows lib email)
  row ← lift (one_or_none rows)
  found ← lift (verified lib recovery_code row)
  let user = found.0
  modify (set_password user.id (lib.hash draws.salt new_password))
  modify (revoke_all user.id draws.now)
  modify (λ db. record db {
    recovery_codes =
        update (λ c. c.user_id == user.id)
          (λ c. record c {
            code_hash = lib.hash draws.code_salt draws.recovery_code;
            created_at = draws.now;
            used_at = none;
          })
          db.recovery_codes;
  })
  modify (add_session (new_session lib lifetime draws user.id client_ip))
  modify (
      add_event draws.audit_id draws.now (some user.id) "auth.recovered" "user"
        (some (ObjectId.row user.id)) (field "sessions_revoked" (boolean true) end) client_ip)
  commit
  pure (result_for user draws lifetime (some draws.recovery_code))

unfoldable pub recover_owner :
    Library → ℕ → Draws → String → String → String → String → Db → Result AuthenticationResult × Db
unfolding recover_owner_tx
recover_owner lib lifetime draws email recovery_code new_password client_ip db =
    with_session (recover_owner_tx lib lifetime draws email recovery_code new_password client_ip) db
