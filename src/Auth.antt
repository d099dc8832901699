-- ===== src/Auth.antt =====
-- Accounts and login sessions (app/application/auth_service.py). Hashing is a library's, and so are
-- the case mappings of Python and of the database.
pub mod Owner
pub mod Login
pub mod Setup
pub mod Sessions
use wolt.Prelude.{
  ℕ, String, ◌+◌, Bool, true, false, Option, none, some, List, [], ◌∷◌, ◌++◌, ◌==◌, str_eq,
  is_empty, strip,
}
use wolt.Json.{Fields}
use wolt.Db.{Db}
use wolt.Db.Models.{User, UserSession, AuditEvent, ObjectId}

-- What `PasswordHasher.verify` does: it returns, or raises one of the two exceptions.
pub data Verdict : Type 0 where
  accepted mismatch invalid_hash : Verdict

pub record Library : Type 0 where
  -- `str.lower`, and SQL's `lower`
  pub lower : String → String
  pub sql_lower : String → String
  -- `hashlib.sha256(token.encode("utf-8")).hexdigest()`
  pub sha256_hex : String → String
  -- `argon2.PasswordHasher`; `hash` takes the salt that it draws
  pub hash : ℕ → String → String
  pub verify : String → String → Verdict
  pub needs_rehash : String → Bool

-- What one call draws: the time, the ids of the rows that it adds, a session token
-- (`secrets.token_urlsafe`), a recovery code (`_new_recovery_code`) and the salts.
pub record Draws : Type 0 where
  pub now : ℕ
  pub user_id : ℕ
  pub session_id : ℕ
  pub audit_id : ℕ
  pub token : String
  pub recovery_code : String
  pub salt : ℕ
  pub code_salt : ℕ

pub record AuthenticatedUser : Type 0 where
  pub id : ℕ
  pub username : String
  pub email : String
  pub role : String

pub record AuthenticationResult : Type 0 where
  pub user : AuthenticatedUser
  pub session_token : String
  pub expires_at : ℕ
  pub recovery_code : Option String

-- `_token_hash`
abbrev pub token_hash : Library → String → String
token_hash lib token = lib.sha256_hex token

-- `_public_user`
abbrev pub public_user : User → AuthenticatedUser
public_user u = record { id = u.id; username = u.username; email = u.email; role = u.role }

-- `_verify`
unfoldable pub verify : Library → Option String → String → Bool
verify lib none candidate = false
verify lib (some stored) candidate = elim (is_empty stored) [
  | true ↦ false
  | false ↦ elim (lib.verify stored candidate) [ accepted ↦ true | _ ↦ false ]
]

-- The row that `_create_session` adds.
abbrev pub new_session : Library → ℕ → Draws → ℕ → String → UserSession
new_session lib lifetime draws user_id client_ip = record {
  id = draws.session_id;
  user_id = user_id;
  token_hash = token_hash lib draws.token;
  expires_at = draws.now + lifetime;
  revoked_at = none;
  client_ip = client_ip;
  created_at = draws.now;
}

abbrev pub add_session : UserSession → Db → Db
add_session s db = record db { sessions = db.sessions ++ (s ∷ []) }

-- `session.add(AuditEvent(…))`
abbrev pub add_event :
    ℕ → ℕ → Option ℕ → String → String → Option ObjectId → Fields → String → Db → Db
add_event audit_id now actor action object_type object_id changes client_ip db = record db {
  audit_events =
      db.audit_events
      ++ (record {
        id = audit_id;
        actor_user_id = actor;
        action = action;
        object_type = object_type;
        object_id = object_id;
        safe_changes = changes;
        client_ip = client_ip;
        occurred_at = now;
      }
          ∷ []);
}

abbrev pub is_open : UserSession → Bool
is_open s = elim s.revoked_at [ none ↦ true | some _ ↦ false ]

abbrev pub result_for : User → Draws → ℕ → Option String → AuthenticationResult
result_for u draws lifetime code = record {
  user = public_user u;
  session_token = draws.token;
  expires_at = draws.now + lifetime;
  recovery_code = code;
}
