-- ===== src/Identity/Mail.antt =====
-- What `save_smtp` stores is what `_stored_smtp` gives to the mailer.
use wolt.Prelude.{ℕ, String}
use wolt.Json.{Json, Fields, end, field, text}
use wolt.Db.Models.{SmtpSettings}
use wolt.Db.{Db}
use wolt.Operations.Devices.{CredentialCipher}
use wolt.Identity.{Call}
use wolt.Identity.Smtp.{SmtpInput, SmtpConfiguration, rstrip_slash}

-- The configuration that the caller of `save_smtp` means.
abbrev pub meant : SmtpInput → SmtpConfiguration
meant v = record {
  host = v.host;
  port = v.port;
  security = v.security;
  username = v.username;
  password = v.password;
  from_email = v.from_email;
  from_name = v.from_name;
}

-- The credentials that are encrypted.
abbrev pub sealed_fields : SmtpInput → Fields
sealed_fields v = field "username" (text v.username) (field "password" (text v.password) end)

-- The row that `save_smtp` writes.
abbrev saved_row : (Json → String) → Call → CredentialCipher → SmtpInput → ℕ → SmtpSettings
saved_row str_of call cipher v nonce = record {
  host = v.host;
  port = v.port;
  security = v.security;
  from_email = v.from_email;
  from_name = v.from_name;
  public_base_url = rstrip_slash str_of v.public_base_url;
  encrypted_credentials = cipher.encrypt nonce (sealed_fields v);
  key_id = cipher.key_id;
  enabled = v.enabled;
  updated_at = call.now;
}
