-- ===== src/Tests/Accounts.antt =====
-- Tests of the accounts, their sessions and their tokens.
use wolt.Prelude.{◌≤◌, ◌≡◌, refl, true, some, arith, strip}
use wolt.Errors.{ok, err, invalid_token}
use wolt.Db.{
  Db, constraints, users_ok, sessions_ok, recovery_codes_ok, invitations_ok, reset_tokens_ok,
  devices_ok, credentials_ok, listeners_ok, wake_events_ok, smtp_ok, settings_ok,
}
use wolt.Db.Models.{PasswordResetToken}
use wolt.Auth.{AuthenticatedUser, AuthenticationResult}
use wolt.Auth.Owner.{create_owner, recover_owner}
use wolt.Auth.Login.{current_user, logout}
use wolt.Auth.Sessions.{open_count}
use wolt.Identity.{Call, owner_count, update_user}
use wolt.Identity.Owners.{update_user_keeps_owner}
use wolt.Identity.Invite.{accept_invitation}
use wolt.Identity.Reset.{open_reset, complete_password_reset}
use wolt.Identity.Tokens.{accept_invitation_once, complete_password_reset_once}
use wolt.Samples.{db, empty_db, draws, library}
use wolt.Tests.Listeners.{db_constraints}

abbrev ada : AuthenticatedUser
ada = record { id = 3; username = "ada"; email = "ada@example.org"; role = "owner" }

abbrev granted : AuthenticationResult
granted = record {
  user = ada;
  session_token = "fresh";
  expires_at = 150;
  recovery_code = some "AAAA-BBBB";
}

abbrev owned_db : Db
owned_db = (create_owner library 50 draws " ada" "ada@example.org" "pass" "ip" empty_db).1

owner_created :
    create_owner library 50 draws " ada" "ada@example.org" "pass" "ip" empty_db
    ≡ (ok granted, owned_db)
unfolding create_owner strip constraints users_ok sessions_ok recovery_codes_ok invitations_ok
    reset_tokens_ok devices_ok credentials_ok listeners_ok wake_events_ok smtp_ok settings_ok
owner_created = refl

abbrev logged_out : Db
logged_out = (logout library draws "cookie" "ip" db).1

logout_returns : logout library draws "cookie" "ip" db ≡ (ok tt, logged_out)
unfolding logout constraints users_ok sessions_ok recovery_codes_ok invitations_ok reset_tokens_ok
    devices_ok credentials_ok listeners_ok wake_events_ok smtp_ok settings_ok
logout_returns = refl

cookie_works :
    current_user library 100 "cookie" db
    ≡ ok (some (record { id = 1; username = "ada"; email = "ada@example.org"; role = "owner" }))
unfolding current_user
cookie_works = refl

abbrev recovered : Db
recovered = (recover_owner library 50 draws "ada@example.org" "CODE" "new" "ip" db).1

abbrev recovery : AuthenticationResult
recovery = record granted { user = record ada { id = 1 } }

owner_recovered :
    recover_owner library 50 draws "ada@example.org" "CODE" "new" "ip" db ≡ (ok recovery, recovered)
unfolding recover_owner strip constraints users_ok sessions_ok recovery_codes_ok invitations_ok
    reset_tokens_ok devices_ok credentials_ok listeners_ok wake_events_ok smtp_ok settings_ok
owner_recovered = refl

abbrev call : Call
call = record { actor_id = 1; client_ip = "ip"; now = 100; audit_id = 92 }

update_user_keeps_owner_example : 1 ≤ owner_count (update_user call 1 "viewer" true db).1.users
update_user_keeps_owner_example =
    update_user_keeps_owner call 1 "viewer" true db db_constraints (omega arith)

abbrev accepted : Db
accepted = (accept_invitation library 100 93 0 "invite" "pass" "ip" db).1

invitation_accepted : accept_invitation library 100 93 0 "invite" "pass" "ip" db ≡ (ok tt, accepted)
unfolding accept_invitation constraints users_ok sessions_ok recovery_codes_ok invitations_ok
    reset_tokens_ok devices_ok credentials_ok listeners_ok wake_events_ok smtp_ok settings_ok
invitation_accepted = refl

accept_invitation_once_example :
    accept_invitation library 101 94 1 "invite" "other" "ip" accepted
    ≡ (err invalid_token, accepted)
accept_invitation_once_example =
    accept_invitation_once library 100 93 0 "invite" "pass" "ip" db accepted 101 94 1 "other" "ip"
      db_constraints invitation_accepted

abbrev reset_db : Db
reset_db = (complete_password_reset library 100 95 0 "reset" "pass" "ip" db).1

reset_completed :
    complete_password_reset library 100 95 0 "reset" "pass" "ip" db ≡ (ok tt, reset_db)
unfolding complete_password_reset constraints users_ok sessions_ok recovery_codes_ok invitations_ok
    reset_tokens_ok devices_ok credentials_ok listeners_ok wake_events_ok smtp_ok settings_ok
reset_completed = refl

complete_password_reset_once_example :
    ((t : PasswordResetToken) × (open_reset library 100 "reset" db ≡ some t)
      × (open_count t.user_id reset_db.sessions ≡ 0))
    × (complete_password_reset library 101 96 1 "reset" "other" "ip" reset_db
        ≡ (err invalid_token, reset_db))
complete_password_reset_once_example =
    complete_password_reset_once library 100 95 0 "reset" "pass" "ip" db reset_db 101 96 1 "other"
      "ip" db_constraints reset_completed
