-- ===== src/Db/Models.antt =====
-- The tables (app/infrastructure/database/models.py). UUIDs are numbers, which the code only
-- compares; times are numbers of one unit. The enumerated columns are data types.
use wolt.Prelude.{ℕ, String, Bool, true, false, Option}
use wolt.Json.{Fields}

pub record User : Type 0 where
  pub id : ℕ
  pub username : String
  pub email : String
  pub password_hash : Option String
  pub role : String
  pub enabled : Bool
  pub last_login_at : Option ℕ
  pub created_at : ℕ

pub record UserSession : Type 0 where
  pub id : ℕ
  pub user_id : ℕ
  pub token_hash : String
  pub expires_at : ℕ
  pub revoked_at : Option ℕ
  pub client_ip : String
  pub created_at : ℕ

pub record RecoveryCode : Type 0 where
  pub user_id : ℕ
  pub code_hash : String
  pub created_at : ℕ
  pub used_at : Option ℕ

pub record UserInvitation : Type 0 where
  pub id : ℕ
  pub user_id : ℕ
  pub invited_by : Option ℕ
  pub token_hash : String
  pub expires_at : ℕ
  pub accepted_at : Option ℕ
  pub created_at : ℕ

pub record PasswordResetToken : Type 0 where
  pub id : ℕ
  pub user_id : ℕ
  pub token_hash : String
  pub expires_at : ℕ
  pub used_at : Option ℕ
  pub created_at : ℕ

pub record SmtpSettings : Type 0 where
  pub host : String
  pub port : ℕ
  pub security : String
  pub from_email : String
  pub from_name : String
  pub public_base_url : String
  pub encrypted_credentials : String
  pub key_id : String
  pub enabled : Bool
  pub updated_at : ℕ

pub data Health : Type 0 where
  unknown healthy unhealthy disabled : Health

pub record Device : Type 0 where
  pub id : ℕ
  pub name : String
  pub driver_type : String
  pub configuration : Fields
  pub enabled : Bool
  pub health_status : Health
  pub last_checked_at : Option ℕ
  pub created_at : ℕ

pub record DeviceCredential : Type 0 where
  pub device_id : ℕ
  pub encrypted_payload : String
  pub key_id : String
  pub rotated_at : ℕ

pub data Status : Type 0 where
  inactive active error : Status

-- `status == "active"`
abbrev pub is_active : Status → Bool
is_active active = true
is_active _ = false

pub record ListenerMapping : Type 0 where
  pub id : ℕ
  pub device_id : ℕ
  pub name : String
  pub description : Option String
  pub udp_port : ℕ
  pub allowed_source_ip : String
  pub driver_parameters : Fields
  pub enabled : Bool
  pub status : Status
  pub last_error : Option String
  pub version : ℕ
  pub created_at : ℕ
  pub updated_at : ℕ

pub record WakeEvent : Type 0 where
  pub id : ℕ
  pub mapping_id : ℕ
  pub device_id : ℕ
  pub event_type : String
  pub mac_address : String
  pub source_ip : String
  pub source_port : ℕ
  pub result_code : String
  pub duration_ms : Option ℕ
  pub correlation_id : ℕ
  pub occurred_at : ℕ

-- The column holds `str(uuid)` or a fixed text.
pub data ObjectId : Type 0 where
  row : ℕ → ObjectId
  literal : String → ObjectId

pub record AuditEvent : Type 0 where
  pub id : ℕ
  pub actor_user_id : Option ℕ
  pub action : String
  pub object_type : String
  pub object_id : Option ObjectId
  pub safe_changes : Fields
  pub client_ip : String
  pub occurred_at : ℕ

pub record ApplicationSettings : Type 0 where
  pub udp_port_start : ℕ
  pub udp_port_end : ℕ
  pub rate_limit_seconds : ℕ
  pub wake_event_retention_days : ℕ
  pub audit_event_retention_days : ℕ
  pub locale : String
  pub timezone : String
  pub updated_at : ℕ

pub data Desired : Type 0 where
  active paused : Desired

abbrev pub wants_active : Desired → Bool
wants_active Desired.active = true
wants_active Desired.paused = false

pub data Observed : Type 0 where
  starting active degraded paused : Observed

pub record EngineState : Type 0 where
  pub desired_state : Desired
  pub observed_state : Observed
  pub heartbeat_at : Option ℕ
  pub last_transition_at : Option ℕ
  pub last_error : Option String
