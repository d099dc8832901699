-- ===== src/Identity/Reset.antt =====
-- `IdentityService.request_password_reset` and `complete_password_reset`.
use wolt.Prelude.{
  ℕ, String, ◌+◌, ◌*◌, true, not, ◌&&◌, Option, none, some, [], ◌∷◌, ◌++◌, ◌==◌, ltb, str_eq, strip,
  first, update, is_some,
}
use wolt.Errors.{Result, ok, err, or_raise, invalid_token, smtp_not_configured}
use wolt.Json.{end, field, boolean}
use wolt.Db.{Db}
use wolt.Db.Models.{User, PasswordResetToken, SmtpSettings, ObjectId}
use wolt.Db.Session.{Tx, ◌>>=◌, ◌>>◌, raise_if, lift, modify, commit, with_session}
use wolt.Auth.{Library, token_hash, add_event}
use wolt.Auth.Owner.{revoke_all, set_password}
use wolt.Identity.{find_user}
use wolt.Identity.Smtp.{SmtpConfiguration}

-- What `request_password_reset` draws.
pub record ResetDraws : Type 0 where
  pub now : ℕ
  pub token_id : ℕ
  pub audit_id : ℕ
  pub token : String

-- The enabled user with this address.
abbrev pub user_by_email : Library → String → Db → Option User
user_by_email lib email db =
    first (λ u. str_eq (lib.sql_lower u.email) (lib.lower (strip email)) && u.enabled) db.users

abbrev pub use_tokens : ℕ → ℕ → Db → Db
use_tokens user_id now db = record db {
  reset_tokens =
      update (λ t. t.user_id == user_id && not (is_some t.used_at))
        (λ t. record t { used_at = some now }) db.reset_tokens;
}

-- The session, for a user who has a password. A minute is `minute` units of time.
unfoldable pub request_tx : Library → ℕ → ResetDraws → User → String → Tx Unit
request_tx lib minute draws user client_ip = do
  modify (use_tokens user.id draws.now)
  modify (λ db. record db {
    reset_tokens =
        db.reset_tokens
        ++ (record {
          id = draws.token_id;
          user_id = user.id;
          token_hash = token_hash lib draws.token;
          expires_at = draws.now + minute * 30;
          used_at = none;
          created_at = draws.now;
        }
            ∷ []);
  })
  modify (
      add_event draws.audit_id draws.now none "identity.password_reset_requested" "identity"
        (some (ObjectId.row user.id)) end client_ip)
  commit

abbrev pub mail_after : Result Unit → Result Unit × Db → Result Unit × Db
mail_after mailed (ok _, db) = (mailed, db)
mail_after mailed (err e, db) = (err e, db)

abbrev pub request_for :
    Library → ℕ → Result Unit → ResetDraws → String → Db → Option User → Result Unit × Db
request_for lib minute mailed draws client_ip db none = (ok tt, db)
request_for lib minute mailed draws client_ip db (some user) = elim user.password_hash [
  | none ↦ (ok tt, db)
  | some _ ↦ mail_after mailed (with_session (request_tx lib minute draws user client_ip) db)
]

-- `request_password_reset`, given what `_stored_smtp` returned and how the mailer ends.
unfoldable pub request_password_reset :
    Library
    → ℕ
    → Result (SmtpSettings × SmtpConfiguration)
    → (SmtpConfiguration → Result Unit)
    → ResetDraws
    → String
    → String
    → Db
    → Result Unit × Db
unfolding request_tx
request_password_reset lib minute (err smtp_not_configured) mailer draws email client_ip db =
    (ok tt, db)
request_password_reset lib minute (err e) mailer draws email client_ip db = (err e, db)
request_password_reset lib minute (ok (_, smtp)) mailer draws email client_ip db =
    request_for lib minute (mailer smtp) draws client_ip db (user_by_email lib email db)

-- The reset that a token still opens.
abbrev pub open_reset : Library → ℕ → String → Db → Option PasswordResetToken
open_reset lib now token db =
    first
      (λ t.
        str_eq t.token_hash (token_hash lib token)
        && (not (is_some t.used_at) && ltb now t.expires_at))
      db.reset_tokens

abbrev pub mark_used : ℕ → ℕ → Db → Db
mark_used token_id now db = record db {
  reset_tokens =
      update (λ t. t.id == token_id) (λ t. record t { used_at = some now }) db.reset_tokens;
}

unfoldable pub complete_tx : Library → ℕ → ℕ → ℕ → String → String → String → Tx Unit
complete_tx lib now audit_id salt token password client_ip = do
  reset ← (λ db. lift (or_raise (open_reset lib now token db) invalid_token) db)
  user ← (λ db. lift (or_raise (find_user reset.user_id db) invalid_token) db)
  raise_if (not user.enabled) invalid_token
  modify (set_password user.id (lib.hash salt password))
  modify (mark_used reset.id now)
  modify (revoke_all user.id now)
  modify (
      add_event audit_id now (some user.id) "identity.password_reset_completed" "identity"
        (some (ObjectId.row user.id)) (field "sessions_revoked" (boolean true) end) client_ip)
  commit

unfoldable pub complete_password_reset :
    Library → ℕ → ℕ → ℕ → String → String → String → Db → Result Unit × Db
unfolding complete_tx
complete_password_reset lib now audit_id salt token password client_ip db =
    with_session (complete_tx lib now audit_id salt token password client_ip) db
