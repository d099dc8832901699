-- ===== src/Identity.antt =====
-- Users and their sessions (app/application/identity_service.py).
pub mod Owners
pub mod Tokens
pub mod Revoked
pub mod Users
pub mod Mail
pub mod Invite
pub mod Reset
pub mod Smtp
use wolt.Prelude.{
  ℕ, String, Bool, true, false, not, ◌&&◌, ◌||◌, Option, none, some, List, [], ◌∷◌, ◌++◌, ◌==◌, leb,
  str_eq, any, first, update, count, is_some,
}
use wolt.Errors.{Result, ok, err, or_raise, identity_not_found, invitation_not_accepted, last_owner}
use wolt.Json.{Json, Fields, Items, nil, item, end, field, text, boolean, number, array}
use wolt.Db.{Db}
use wolt.Db.Models.{User, ObjectId}
use wolt.Db.Session.{Tx, ◌>>=◌, ◌>>◌, pure, raise_if, gets, lift, modify, commit, with_session}
use wolt.Auth.{add_event, is_open}
use wolt.Auth.Owner.{is_owner, revoke_all}

-- Who calls, from where and when, with the id of the audit event.
pub record Call : Type 0 where
  pub actor_id : ℕ
  pub client_ip : String
  pub now : ℕ
  pub audit_id : ℕ

abbrev pub find_user : ℕ → Db → Option User
find_user user_id db = first (λ u. u.id == user_id) db.users

-- `select(func.count())` of the enabled owners.
abbrev pub owner_count : List User → ℕ
owner_count users = count (λ u. is_owner u && u.enabled) users

abbrev pub json_pair : Json → Json → Json
json_pair a b = array (item a (item b nil))

-- `user.role == "owner" and (role != "owner" or not enabled)`
abbrev demotes : User → String → Bool → Bool
demotes u role enabled = is_owner u && (not (str_eq role "owner") || not enabled)

abbrev pub set_user : ℕ → String → Bool → Db → Db
set_user user_id role enabled db = record db {
  users = update (λ u. u.id == user_id) (λ u. record u { role = role; enabled = enabled }) db.users;
}

-- `if not enabled: session.execute(update(UserSession)…)`
abbrev revoke_if : Bool → ℕ → ℕ → Db → Db
revoke_if true user_id now db = db
revoke_if false user_id now db = revoke_all user_id now db

unfoldable pub update_user_tx : Call → ℕ → String → Bool → Tx Unit
update_user_tx call user_id role enabled = do
  user ← (λ db. lift (or_raise (find_user user_id db) identity_not_found) db)
  raise_if (enabled && not (is_some user.password_hash)) invitation_not_accepted
  owners ← gets (λ db. owner_count db.users)
  raise_if (demotes user role enabled && leb owners 1) last_owner
  modify (set_user user_id role enabled)
  modify (revoke_if enabled user_id call.now)
  modify (
      add_event call.audit_id call.now (some call.actor_id) "user.updated" "user"
        (some (ObjectId.row user.id))
        (field "role" (json_pair (text user.role) (text role))
          (field "enabled" (json_pair (boolean user.enabled) (boolean enabled)) end))
        call.client_ip)
  commit

unfoldable pub update_user : Call → ℕ → String → Bool → Db → Result Unit × Db
unfolding update_user_tx
update_user call user_id role enabled db =
    with_session (update_user_tx call user_id role enabled) db

unfoldable pub revoke_sessions_tx : Call → ℕ → Tx Unit
revoke_sessions_tx call user_id = do
  user ← (λ db. lift (or_raise (find_user user_id db) identity_not_found) db)
  revoked ← gets (λ db. count (λ s. s.user_id == user_id && is_open s) db.sessions)
  modify (revoke_all user_id call.now)
  modify (
      add_event call.audit_id call.now (some call.actor_id) "user.sessions_revoked" "user"
        (some (ObjectId.row user_id)) (field "count" (number revoked) end) call.client_ip)
  commit

unfoldable pub revoke_sessions : Call → ℕ → Db → Result Unit × Db
unfolding revoke_sessions_tx
revoke_sessions call user_id db = with_session (revoke_sessions_tx call user_id) db
