-- ===== src/Tests/Secrets.antt =====
-- Tests of what is encrypted and stored, and of what the services show.
use wolt.Prelude.{String, ◌≡◌, refl, true, false, some, [], ◌∷◌}
use wolt.Errors.{ok}
use wolt.Json.{Json, end}
use wolt.Db.{
  Db, constraints, users_ok, sessions_ok, recovery_codes_ok, invitations_ok, reset_tokens_ok,
  devices_ok, credentials_ok, listeners_ok, wake_events_ok, smtp_ok, settings_ok,
}
use wolt.Driver
use wolt.Operations.Devices.{DeviceInput, DeviceView, CredentialCipher, create}
use wolt.Operations.Devices.Query.{list_devices}
use wolt.Identity.{Call, update_user, revoke_sessions}
use wolt.Identity.Smtp.{SmtpInput, save_smtp}
use wolt.Identity.Mail.{sealed_fields}
use wolt.Identity.Users.{UserStatus, list_users}
use wolt.Samples.{db, registry, cipher, context, device, owner, guest}

abbrev branch : DeviceInput
branch = record { name = "branch "; configuration = end; enabled = true }

abbrev branch_view : DeviceView
branch_view = record {
  device = record device { id = 8; name = "branch"; created_at = 100 };
  listener_count = 0;
  credential_configured = true;
}

abbrev with_branch : Db
with_branch = (create registry (some cipher) context "fortigate_ssh" branch end 0 db).1

list_devices_test :
    list_devices (λ _ _. true) db
    ≡ record { device = device; listener_count = 1; credential_configured = true } ∷ []
unfolding list_devices
list_devices_test = refl

abbrev mail : SmtpInput
mail = record {
  host = "mail.example.org";
  port = 587;
  security = "starttls";
  from_email = "wolt@example.org";
  from_name = "WOLT";
  public_base_url = "https://wolt.example.org/";
  username = "wolt";
  password = "pass";
  enabled = true;
}

-- It seals the one value.
abbrev mail_cipher : CredentialCipher
mail_cipher = record {
  key_id = "k1";
  encrypt = λ _ _. "sealed";
  decrypt = λ _. ok (sealed_fields mail);
}

abbrev str_of : Json → String
str_of _ = ""

abbrev call : Call
call = record { actor_id = 1; client_ip = "ip"; now = 100; audit_id = 92 }

abbrev with_mail : Db
with_mail = (save_smtp str_of call (some mail_cipher) mail 0 db).1

abbrev after_update : Db
after_update = (update_user call 2 "viewer" false db).1

guest_disabled : update_user call 2 "viewer" false db ≡ (ok tt, after_update)
unfolding update_user constraints users_ok sessions_ok recovery_codes_ok invitations_ok
    reset_tokens_ok devices_ok credentials_ok listeners_ok wake_events_ok smtp_ok settings_ok
guest_disabled = refl

abbrev revoked : Db
revoked = (revoke_sessions call 1 db).1

sessions_revoked : revoke_sessions call 1 db ≡ (ok tt, revoked)
unfolding revoke_sessions constraints users_ok sessions_ok recovery_codes_ok invitations_ok
    reset_tokens_ok devices_ok credentials_ok listeners_ok wake_events_ok smtp_ok settings_ok
sessions_revoked = refl

list_users_test :
    list_users 100 db
    ≡ record { user = owner; status = UserStatus.active; active_sessions = 1 }
      ∷ record { user = guest; status = UserStatus.pending; active_sessions = 0 }
      ∷ []
unfolding list_users
list_users_test = refl
