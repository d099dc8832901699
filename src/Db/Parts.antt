-- ===== src/Db/Parts.antt =====
-- What the constraints of a database say of each table.
use wolt.Prelude.{◌≡◌, true, List, arith, str_eq}
use wolt.Db.{
  Db, constraints, unique, users_ok, sessions_ok, recovery_codes_ok, invitations_ok,
  reset_tokens_ok, devices_ok, credentials_ok, listeners_ok, wake_events_ok, settings_ok,
}
use wolt.Db.Models.{User, UserSession, UserInvitation, PasswordResetToken, Device, ListenerMapping}
use wolt.Db.Rows.{distinct}

pub record Parts (db : Db) : Type 0 where
  pub users : users_ok db.users ≡ true
  pub sessions : sessions_ok db.users db.sessions ≡ true
  pub recovery_codes : recovery_codes_ok db.users db.recovery_codes ≡ true
  pub invitations : invitations_ok db.users db.invitations ≡ true
  pub reset_tokens : reset_tokens_ok db.users db.reset_tokens ≡ true
  pub devices : devices_ok db.devices ≡ true
  pub credentials : credentials_ok db.devices db.credentials ≡ true
  pub listeners : listeners_ok db.devices db.listeners ≡ true
  pub wake_events : wake_events_ok db.devices db.listeners db.wake_events ≡ true
  pub settings : settings_ok db.settings ≡ true

pub constraints-Parts : (db : Db) → constraints db ≡ true → Parts db
unfolding constraints
constraints-Parts db h = ground arith

pub users-distinct : (us : List User) → users_ok us ≡ true → distinct (λ (u : User). u.id) us ≡ true
unfolding users_ok
users-distinct us h = ground arith

pub sessions-unique :
    (us : List User) (ss : List UserSession)
    → sessions_ok us ss ≡ true
    → unique (λ (a b : UserSession). str_eq a.token_hash b.token_hash) ss ≡ true
unfolding sessions_ok
sessions-unique us ss h = ground arith

pub invitations-unique :
    (us : List User) (is : List UserInvitation)
    → invitations_ok us is ≡ true
    → unique (λ (a b : UserInvitation). str_eq a.token_hash b.token_hash) is ≡ true
unfolding invitations_ok
invitations-unique us is h = ground arith

pub reset_tokens-unique :
    (us : List User) (ts : List PasswordResetToken)
    → reset_tokens_ok us ts ≡ true
    → unique (λ (a b : PasswordResetToken). str_eq a.token_hash b.token_hash) ts ≡ true
unfolding reset_tokens_ok
reset_tokens-unique us ts h = ground arith

pub listeners-distinct :
    (ds : List Device) (ms : List ListenerMapping)
    → listeners_ok ds ms ≡ true
    → distinct (λ (m : ListenerMapping). m.id) ms ≡ true
unfolding listeners_ok
listeners-distinct ds ms h = ground arith
