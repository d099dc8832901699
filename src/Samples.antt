-- ===== src/Samples.antt =====
-- Concrete services and a small database, on which the tests run.
use wolt.Prelude.{true, false, none, some, [], ◌∷◌, str_eq, if◌then◌else◌}
use wolt.Json.{end}
use wolt.Errors.{ok}
use wolt.Db.{Db}
use wolt.Db.Models.{
  User, UserSession, UserInvitation, PasswordResetToken, RecoveryCode, Device, DeviceCredential,
  ListenerMapping, ApplicationSettings, WakeEvent, Health, Status, Desired, Observed,
}
use wolt.Driver.{DeviceDriver, DriverRegistry}
use wolt.Auth.{Library, Draws, Verdict}
use wolt.Operations.{Context}
use wolt.Operations.Listeners.{Network, ListenerInput}
use wolt.Operations.Devices.{CredentialCipher}
use wolt.Engine.{Host}

-- Hashing leaves texts as they are.
abbrev pub library : Library
library = record {
  lower = λ s. s;
  sql_lower = λ s. s;
  sha256_hex = λ s. s;
  hash = λ _ p. p;
  verify =
      λ stored candidate. if str_eq stored candidate then Verdict.accepted else Verdict.mismatch;
  needs_rehash = λ _. false;
}

abbrev pub network : Network
network = record { ip_address = λ s. some s; port_available = λ _. true }

abbrev pub driver : DeviceDriver
driver = record {
  validate_configuration = λ f. ok f;
  validate_credentials = λ f. ok f;
  validate_listener_parameters = λ f. ok f;
  test_connection = λ _ _. ok (record { status = Health.healthy; latency_ms = 3 });
  discover_host_key = λ _ _. ok (record {
    status = Health.healthy;
    latency_ms = 3;
    reason = none;
    host_key = "key";
    fingerprint = "print";
    algorithm = "ssh-ed25519";
    bits = 256;
  });
  execute_wake = λ _ _ _ _. ok tt;
}

abbrev pub registry : DriverRegistry
registry = record { fortigate_ssh = driver }

abbrev pub cipher : CredentialCipher
cipher = record { key_id = "k1"; encrypt = λ _ _. "sealed"; decrypt = λ _. ok end }

abbrev pub host : Host
host = record {
  registry = registry;
  cipher = some cipher;
  can_bind = λ _. true;
  now = 100;
  second = 10;
}

abbrev pub draws : Draws
draws = record {
  now = 100;
  user_id = 3;
  session_id = 11;
  audit_id = 90;
  token = "fresh";
  recovery_code = "AAAA-BBBB";
  salt = 0;
  code_salt = 1;
}

abbrev pub context : Context
context = record { actor_id = 1; client_ip = "10.0.0.9"; now = 100; new_id = 8; audit_id = 91 }

abbrev pub owner : User
owner = record {
  id = 1;
  username = "ada";
  email = "ada@example.org";
  password_hash = some "secret";
  role = "owner";
  enabled = true;
  last_login_at = none;
  created_at = 1;
}

abbrev pub guest : User
guest = record owner {
  id = 2;
  username = "bob";
  email = "bob@example.org";
  password_hash = none;
  role = "viewer";
  enabled = false;
}

abbrev session : UserSession
session = record {
  id = 10;
  user_id = 1;
  token_hash = "cookie";
  expires_at = 500;
  revoked_at = none;
  client_ip = "10.0.0.9";
  created_at = 20;
}

abbrev invitation : UserInvitation
invitation = record {
  id = 20;
  user_id = 2;
  invited_by = some 1;
  token_hash = "invite";
  expires_at = 500;
  accepted_at = none;
  created_at = 30;
}

abbrev reset : PasswordResetToken
reset = record {
  id = 30;
  user_id = 1;
  token_hash = "reset";
  expires_at = 500;
  used_at = none;
  created_at = 40;
}

abbrev code : RecoveryCode
code = record { user_id = 1; code_hash = "CODE"; created_at = 2; used_at = none }

abbrev pub device : Device
device = record {
  id = 5;
  name = "edge";
  driver_type = "fortigate_ssh";
  configuration = end;
  enabled = true;
  health_status = Health.unknown;
  last_checked_at = none;
  created_at = 5;
}

abbrev credential : DeviceCredential
credential = record { device_id = 5; encrypted_payload = "sealed"; key_id = "k1"; rotated_at = 5 }

abbrev pub mapping : ListenerMapping
mapping = record {
  id = 7;
  device_id = 5;
  name = "desk";
  description = none;
  udp_port = 40000;
  allowed_source_ip = "10.0.0.2";
  driver_parameters = end;
  enabled = true;
  status = Status.inactive;
  last_error = none;
  version = 1;
  created_at = 6;
  updated_at = 6;
}

abbrev pub settings : ApplicationSettings
settings = record {
  udp_port_start = 40000;
  udp_port_end = 40009;
  rate_limit_seconds = 5;
  wake_event_retention_days = 2;
  audit_event_retention_days = 3;
  locale = "en";
  timezone = "UTC";
  updated_at = 1;
}

abbrev pub event : WakeEvent
event = record {
  id = 70;
  mapping_id = 7;
  device_id = 5;
  event_type = "wake_request";
  mac_address = "01:02:03:04:05:06";
  source_ip = "10.0.0.2";
  source_port = 9;
  result_code = "success";
  duration_ms = some 12;
  correlation_id = 71;
  occurred_at = 50;
}

-- Before the first run.
abbrev pub empty_db : Db
empty_db = record {
  users = [];
  sessions = [];
  recovery_codes = [];
  invitations = [];
  reset_tokens = [];
  smtp = none;
  devices = [];
  credentials = [];
  listeners = [];
  wake_events = [];
  audit_events = [];
  settings = some settings;
  engine = some (record {
    desired_state = Desired.active;
    observed_state = Observed.paused;
    heartbeat_at = none;
    last_transition_at = none;
    last_error = none;
  });
}

abbrev pub db : Db
db = record empty_db {
  users = owner ∷ guest ∷ [];
  sessions = session ∷ [];
  recovery_codes = code ∷ [];
  invitations = invitation ∷ [];
  reset_tokens = reset ∷ [];
  devices = device ∷ [];
  credentials = credential ∷ [];
  listeners = mapping ∷ [];
  wake_events = event ∷ [];
}

abbrev pub input : ListenerInput
input = record {
  device_id = 5;
  name = " lab ";
  description = none;
  allowed_source_ip = "10.0.0.3";
  driver_parameters = end;
  enabled = true;
}
