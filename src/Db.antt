-- ===== src/Db.antt =====
-- The database: its tables, what a commit checks, and sessions. A block `with database.session()`
-- is a transaction: what it wrote is kept only if it reaches its commit.
pub mod Models
pub mod Session
pub mod Rows
pub mod Parts
use wolt.Prelude.{
  ℕ, String, Bool, true, false, Option, none, some, List, [], ◌∷◌, ◌&&◌, not, any, ◌==◌, str_eq,
  leb, ◌+◌, ◌-◌,
}
use Models.{
  User, UserSession, RecoveryCode, UserInvitation, PasswordResetToken, SmtpSettings, Device,
  DeviceCredential, ListenerMapping, WakeEvent, AuditEvent, ApplicationSettings, EngineState,
}

pub record Db : Type 0 where
  pub users : List User
  pub sessions : List UserSession
  pub recovery_codes : List RecoveryCode
  pub invitations : List UserInvitation
  pub reset_tokens : List PasswordResetToken
  pub smtp : Option SmtpSettings
  pub devices : List Device
  pub credentials : List DeviceCredential
  pub listeners : List ListenerMapping
  pub wake_events : List WakeEvent
  pub audit_events : List AuditEvent
  pub settings : Option ApplicationSettings
  pub engine : Option EngineState

-- No two rows are `same`, for a unique column or a primary key.
module _ {ℓ} {A : Type ℓ} where
  unfoldable pub unique : (A → A → Bool) → List A → Bool
  unique same [] = true
  unique same (x ∷ xs) = not (any (same x) xs) && unique same xs

  unfoldable pub every : (A → Bool) → List A → Bool
  every p [] = true
  every p (x ∷ xs) = p x && every p xs

unfoldable pub users_ok : List User → Bool
unfolding unique
users_ok users =
    unique (λ a b. a.id == b.id) users
    && unique (λ a b. str_eq a.username b.username) users
    && unique (λ a b. str_eq a.email b.email) users

abbrev pub user_exists : ℕ → List User → Bool
user_exists i = any (λ u. u.id == i)

unfoldable pub sessions_ok : List User → List UserSession → Bool
unfolding unique every
sessions_ok users sessions =
    unique (λ a b. a.id == b.id) sessions
    && unique (λ a b. str_eq a.token_hash b.token_hash) sessions
    && every (λ s. user_exists s.user_id users) sessions

unfoldable pub recovery_codes_ok : List User → List RecoveryCode → Bool
unfolding unique every
recovery_codes_ok users codes =
    unique (λ a b. a.user_id == b.user_id) codes && every (λ c. user_exists c.user_id users) codes

unfoldable pub invitations_ok : List User → List UserInvitation → Bool
unfolding unique every
invitations_ok users invitations =
    unique (λ a b. a.id == b.id) invitations
    && unique (λ a b. str_eq a.token_hash b.token_hash) invitations
    && every (λ i. user_exists i.user_id users) invitations

unfoldable pub reset_tokens_ok : List User → List PasswordResetToken → Bool
unfolding unique every
reset_tokens_ok users tokens =
    unique (λ a b. a.id == b.id) tokens
    && unique (λ a b. str_eq a.token_hash b.token_hash) tokens
    && every (λ t. user_exists t.user_id users) tokens

unfoldable pub devices_ok : List Device → Bool
unfolding unique
devices_ok devices =
    unique (λ a b. a.id == b.id) devices && unique (λ a b. str_eq a.name b.name) devices

abbrev pub device_exists : ℕ → List Device → Bool
device_exists i = any (λ d. d.id == i)

unfoldable pub credentials_ok : List Device → List DeviceCredential → Bool
unfolding unique every
credentials_ok devices credentials =
    unique (λ a b. a.device_id == b.device_id) credentials
    && every (λ c. device_exists c.device_id devices) credentials

unfoldable pub listeners_ok : List Device → List ListenerMapping → Bool
unfolding unique every
listeners_ok devices listeners =
    unique (λ a b. a.id == b.id) listeners
    && unique (λ a b. a.udp_port == b.udp_port) listeners
    && every (λ m. device_exists m.device_id devices) listeners

abbrev pub listener_exists : ℕ → List ListenerMapping → Bool
listener_exists i = any (λ m. m.id == i)

unfoldable pub wake_events_ok : List Device → List ListenerMapping → List WakeEvent → Bool
unfolding unique every
wake_events_ok devices listeners events =
    unique (λ a b. a.id == b.id) events
    && unique (λ a b. a.correlation_id == b.correlation_id) events
    && every (λ e. listener_exists e.mapping_id listeners && device_exists e.device_id devices)
        events

unfoldable pub smtp_ok : Option SmtpSettings → Bool
smtp_ok none = true
smtp_ok (some s) =
    leb 1 s.port && leb s.port 65535 && any (str_eq s.security) ("starttls" ∷ "tls" ∷ "none" ∷ [])

unfoldable pub settings_ok : Option ApplicationSettings → Bool
settings_ok none = true
settings_ok (some s) =
    leb 1024 s.udp_port_start
    && leb s.udp_port_start 65535
    && leb s.udp_port_start s.udp_port_end
    && leb s.udp_port_end 65535
    && leb (s.udp_port_end + 1 - s.udp_port_start) 100

-- The unique, foreign-key and check constraints of all tables. `audit_events.actor_user_id` and
-- `invited_by` are set to null when the user goes.
unfoldable pub constraints : Db → Bool
constraints db =
    users_ok db.users
    && sessions_ok db.users db.sessions
    && recovery_codes_ok db.users db.recovery_codes
    && invitations_ok db.users db.invitations
    && reset_tokens_ok db.users db.reset_tokens
    && devices_ok db.devices
    && credentials_ok db.devices db.credentials
    && listeners_ok db.devices db.listeners
    && wake_events_ok db.devices db.listeners db.wake_events
    && smtp_ok db.smtp
    && settings_ok db.settings
