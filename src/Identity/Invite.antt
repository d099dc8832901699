-- ===== src/Identity/Invite.antt =====
-- `IdentityService.invite_user` and `accept_invitation`.
use wolt.Prelude.{
  ℕ, String, ◌+◌, ◌*◌, Bool, true, false, not, ◌&&◌, ◌||◌, Option, none, some, [], ◌∷◌, ◌++◌, ◌==◌,
  ltb, str_eq, strip, any, first, remove, update, is_some, if◌then◌else◌,
}
use wolt.Errors.{Result, ok, err, or_raise, identity_conflict, invalid_token}
use wolt.Json.{end, field, text}
use wolt.Db.{Db}
use wolt.Db.Models.{User, UserInvitation, SmtpSettings, ObjectId}
use wolt.Db.Session.{
  Tx, ◌>>=◌, ◌>>◌, pure, raise_if, gets, lift, modify, commit, catch_integrity, with_session,
}
use wolt.Auth.{Library, token_hash, add_event}
use wolt.Identity.{Call, find_user}
use wolt.Identity.Smtp.{SmtpConfiguration}

-- What `invite_user` draws beside the call's: the ids of the user and the invitation, and the token.
pub record InviteDraws : Type 0 where
  pub user_id : ℕ
  pub invitation_id : ℕ
  pub token : String

-- `select(User)` by either name, compared in lower case.
abbrev same_person : Library → String → String → User → Bool
same_person lib username email u =
    str_eq (lib.sql_lower u.username) (lib.lower (strip username))
    || str_eq (lib.sql_lower u.email) (lib.lower (strip email))

-- The rows of users go, and with them what refers to them: sessions, recovery codes, invitations and
-- reset tokens are deleted, `invited_by` and `actor_user_id` are set to null.
abbrev null_if : (ℕ → Bool) → Option ℕ → Option ℕ
null_if gone none = none
null_if gone (some i) = if gone i then none else some i

unfoldable pub delete_users : (User → Bool) → Db → Db
delete_users p db =
    let gone = λ (i : ℕ). any (λ u. u.id == i && p u) db.users in
    record db {
      users = remove p db.users;
      sessions = remove (λ s. gone s.user_id) db.sessions;
      recovery_codes = remove (λ c. gone c.user_id) db.recovery_codes;
      invitations =
          update (λ i. true) (λ i. record i { invited_by = null_if gone i.invited_by })
            (remove (λ i. gone i.user_id) db.invitations);
      reset_tokens = remove (λ t. gone t.user_id) db.reset_tokens;
      audit_events =
          update (λ e. true) (λ e. record e { actor_user_id = null_if gone e.actor_user_id })
            db.audit_events;
    }

-- The session of `invite_user`. An hour is `hour` units of time.
unfoldable pub invite_tx : Library → ℕ → Call → InviteDraws → String → String → String → Tx ℕ
unfolding delete_users
invite_tx lib hour call draws username email role = do
  taken ← gets (λ db.
      any (λ u. same_person lib username email u && (is_some u.password_hash || u.enabled))
        db.users)
  raise_if taken identity_conflict
  modify (delete_users (same_person lib username email))
  commit
  modify (λ db. record db {
    users =
        db.users
        ++ (record {
          id = draws.user_id;
          username = strip username;
          email = lib.lower (strip email);
          password_hash = none;
          role = role;
          enabled = false;
          last_login_at = none;
          created_at = call.now;
        }
            ∷ []);
  })
  commit
  modify (λ db. record db {
    invitations =
        db.invitations
        ++ (record {
          id = draws.invitation_id;
          user_id = draws.user_id;
          invited_by = some call.actor_id;
          token_hash = token_hash lib draws.token;
          expires_at = call.now + hour * 24;
          accepted_at = none;
          created_at = call.now;
        }
            ∷ []);
  })
  modify (
      add_event call.audit_id call.now (some call.actor_id) "user.invited" "user"
        (some (ObjectId.row draws.user_id))
        (field "username" (text (strip username))
          (field "email" (text (lib.lower (strip email))) (field "role" (text role) end)))
        call.client_ip)
  commit
  pure draws.user_id

-- The mail has gone out, or the invited user, unless enabled in the meantime, is deleted.
unfoldable pub after_mail : Result Unit → ℕ → Db → Result ℕ × Db
unfolding delete_users
after_mail (ok _) user_id db = (ok user_id, db)
after_mail (err e) user_id db = elim (find_user user_id db) [
  | none ↦ (err e, db)
  | some u ↦ (err e, if u.enabled then db else delete_users (λ v. v.id == user_id) db)
]

-- `invite_user`, given what `_stored_smtp` returned and how the mailer ends for a configuration.
abbrev send_after :
    (SmtpConfiguration → Result Unit) → SmtpConfiguration → Result ℕ × Db → Result ℕ × Db
send_after mailer smtp (ok user_id, db) = after_mail (mailer smtp) user_id db
send_after mailer smtp (err e, db) = (err e, db)

unfoldable pub invite_user :
    Library
    → ℕ
    → Result (SmtpSettings × SmtpConfiguration)
    → (SmtpConfiguration → Result Unit)
    → Call
    → InviteDraws
    → String
    → String
    → String
    → Db
    → Result ℕ × Db
unfolding invite_tx after_mail
invite_user lib hour (err e) mailer call draws username email role db = (err e, db)
invite_user lib hour (ok (_, smtp)) mailer call draws username email role db =
    send_after mailer smtp (
      with_session
        (catch_integrity identity_conflict (invite_tx lib hour call draws username email role)) db)

-- The invitation that a token still opens.
abbrev pub open_invitation : Library → ℕ → String → Db → Option UserInvitation
open_invitation lib now token db =
    first
      (λ i.
        str_eq i.token_hash (token_hash lib token)
        && (not (is_some i.accepted_at) && ltb now i.expires_at))
      db.invitations

abbrev enable_user : ℕ → String → Db → Db
enable_user user_id hash db = record db {
  users =
      update (λ u. u.id == user_id) (λ u. record u { password_hash = some hash; enabled = true })
        db.users;
}

abbrev pub mark_accepted : ℕ → ℕ → Db → Db
mark_accepted invitation_id now db = record db {
  invitations =
      update (λ i. i.id == invitation_id) (λ i. record i { accepted_at = some now }) db.invitations;
}

unfoldable pub accept_tx : Library → ℕ → ℕ → ℕ → String → String → String → Tx Unit
accept_tx lib now audit_id salt token password client_ip = do
  invitation ← (λ db. lift (or_raise (open_invitation lib now token db) invalid_token) db)
  user ← (λ db. lift (or_raise (find_user invitation.user_id db) invalid_token) db)
  modify (enable_user user.id (lib.hash salt password))
  modify (mark_accepted invitation.id now)
  modify (
      add_event audit_id now (some user.id) "user.invitation_accepted" "user"
        (some (ObjectId.row user.id)) (field "role" (text user.role) end) client_ip)
  commit

unfoldable pub accept_invitation :
    Library → ℕ → ℕ → ℕ → String → String → String → Db → Result Unit × Db
unfolding accept_tx
accept_invitation lib now audit_id salt token password client_ip db =
    with_session (accept_tx lib now audit_id salt token password client_ip) db
