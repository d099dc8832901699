-- ===== src/Identity/Smtp.antt =====
-- The SMTP settings: `save_smtp` and `_stored_smtp`.
use wolt.Prelude.{ℕ, String, Bool, true, false, Option, none, some, is_empty, if◌then◌else◌}
use Prim.Native.Char.{code}
use wolt.Prelude.{◌==◌, ◌&&◌}
use wolt.Errors.{Result, ok, err, or_raise, smtp_not_configured, identity_master_key}
use wolt.Json.{get_text, Json, Fields, end, field, text, number, boolean}
use wolt.Db.{Db}
use wolt.Db.Models.{SmtpSettings, ObjectId}
use wolt.Db.Session.{Tx, ◌>>=◌, ◌>>◌, gets, lift, modify, commit, with_session}
use wolt.Auth.{add_event}
use wolt.Operations.Devices.{CredentialCipher}
use wolt.Identity.{Call}

pub record SmtpInput : Type 0 where
  pub host : String
  pub port : ℕ
  pub security : String
  pub from_email : String
  pub from_name : String
  pub public_base_url : String
  pub username : String
  pub password : String
  pub enabled : Bool

pub record SmtpConfiguration : Type 0 where
  pub host : String
  pub port : ℕ
  pub security : String
  pub username : String
  pub password : String
  pub from_email : String
  pub from_name : String

-- What Python's `str` makes of a JSON value that is no text.
module _ (str_of : Json → String) where
  -- `_require_cipher`
  abbrev pub identity_cipher : Option CredentialCipher → Result CredentialCipher
  identity_cipher cipher = or_raise cipher identity_master_key

  -- The configuration of the stored row, decrypted.
  abbrev configuration_of : SmtpSettings → Fields → SmtpConfiguration
  configuration_of s values = record {
    host = s.host;
    port = s.port;
    security = s.security;
    username = get_text str_of "username" values;
    password = get_text str_of "password" values;
    from_email = s.from_email;
    from_name = s.from_name;
  }

  abbrev decrypted : Option CredentialCipher → SmtpSettings → Result Fields
  decrypted none s = err identity_master_key
  decrypted (some cipher) s = cipher.decrypt s.encrypted_credentials

  abbrev with_configuration :
      SmtpSettings → Result Fields → Result (SmtpSettings × SmtpConfiguration)
  with_configuration s (ok values) = ok (s, configuration_of s values)
  with_configuration s (err e) = err e

  abbrev enabled_smtp :
      Option CredentialCipher → SmtpSettings → Bool → Result (SmtpSettings × SmtpConfiguration)
  enabled_smtp cipher s true = with_configuration s (decrypted cipher s)
  enabled_smtp cipher s false = err smtp_not_configured

  -- `_stored_smtp`
  unfoldable pub stored_smtp :
      Option CredentialCipher → Db → Result (SmtpSettings × SmtpConfiguration)
  unfolding get_text
  stored_smtp cipher db = elim db.smtp [
    | none ↦ err smtp_not_configured
    | some s ↦ enabled_smtp cipher s s.enabled
  ]

  -- The password to store: the given one, or the stored one where none is given.
  abbrev kept_password : CredentialCipher → Option SmtpSettings → String → Result String
  kept_password cipher none password = ok password
  kept_password cipher (some s) password = elim (is_empty password) [
    | false ↦ ok password
    | true ↦ elim (cipher.decrypt s.encrypted_credentials) [
      | ok values ↦ ok (get_text str_of "password" values)
      | err e ↦ err e
    ]
  ]

  unfoldable pub rstrip_slash : String → String
  rstrip_slash String.[] = String.[]
  rstrip_slash (String.◌∷◌ c s) =
      let rest = rstrip_slash s in
      if code c == 47 && is_empty rest then String.[] else String.◌∷◌ c rest

  unfoldable pub save_smtp_tx : Call → Option CredentialCipher → SmtpInput → ℕ → Tx Unit
  unfolding get_text rstrip_slash
  save_smtp_tx call configured values nonce = do
    cipher ← lift (identity_cipher configured)
    stored ← gets (λ db. db.smtp)
    password ← lift (kept_password cipher stored values.password)
    let credentials = field "username" (text values.username) (field "password" (text password) end)
    modify (λ db. record db {
      smtp = some (record {
        host = values.host;
        port = values.port;
        security = values.security;
        from_email = values.from_email;
        from_name = values.from_name;
        public_base_url = rstrip_slash values.public_base_url;
        encrypted_credentials = cipher.encrypt nonce credentials;
        key_id = cipher.key_id;
        enabled = values.enabled;
        updated_at = call.now;
      });
    })
    modify (
        add_event call.audit_id call.now (some call.actor_id) "identity.smtp_updated" "identity"
          (some (ObjectId.literal "1"))
          (field "host" (text values.host) (
            field "port" (number values.port) (
              field "security" (text values.security)
                (field "enabled" (boolean values.enabled) end))))
          call.client_ip)
    commit

  unfoldable pub save_smtp : Call → Option CredentialCipher → SmtpInput → ℕ → Db → Result Unit × Db
  unfolding save_smtp_tx
  save_smtp call configured values nonce db =
      with_session (save_smtp_tx call configured values nonce) db
