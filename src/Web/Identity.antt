-- ===== src/Web/Identity.antt =====
-- The routes of app/web/identity_routes.py. The texts of mails and their recipients are left out, as in
-- Identity; FastAPI checks the fields of a payload.
pub mod Guarded
pub mod Neutral
use wolt.Prelude.{ℕ, String, Bool, true, false, Option, none, some, List, strip, if◌then◌else◌}
use wolt.Errors.{
  Error, Result, ok, err, identity_not_found, identity_conflict, last_owner, invalid_token,
  smtp_not_configured, identity_master_key, invitation_not_accepted, mail_failed,
}
use wolt.Json.{Json}
use wolt.Db.{Db}
use wolt.Auth.{Library, AuthenticatedUser}
use wolt.Identity.{Call, update_user, revoke_sessions}
use wolt.Identity.Users.{UserView, SmtpView, list_users, smtp_view, test_smtp}
use wolt.Identity.Smtp.{SmtpInput, SmtpConfiguration, stored_smtp, rstrip_slash, save_smtp}
use wolt.Identity.Invite.{InviteDraws, invite_user, accept_invitation}
use wolt.Identity.Reset.{ResetDraws, request_password_reset, complete_password_reset}
use wolt.Engine.{World}
use wolt.Web.Access.{
  Response, sent, http_error, uncaught, Site, Request, Route, client_ip, as_owner,
}
use wolt.Web.Attempts.{LoginAttemptLimiter, allow}

-- `_translate`
unfoldable pub translate : {A : Type 0} → Error → Response A
translate identity_conflict = http_error 409 "user_already_exists"
translate invalid_token = http_error 400 "invalid_or_expired_token"
translate (mail_failed reason) = http_error 502 reason
translate identity_not_found = http_error 404 "user_not_found"
translate last_owner = http_error 409 "last_owner_required"
translate smtp_not_configured = http_error 503 "smtp_not_configured"
translate identity_master_key = http_error 503 "master_key_not_configured"
translate invitation_not_accepted = http_error 503 "invitation_not_accepted"
translate e = uncaught e

-- The mailer, Python's `str` of a JSON value, and the units of time in a minute and an hour.
pub record Post : Type 0 where
  pub mailer : SmtpConfiguration → Result Unit
  pub str_of : Json → String
  pub minute : ℕ
  pub hour : ℕ

-- `_smtp_input`
unfoldable pub smtp_input : Post → SmtpInput → SmtpInput
unfolding strip rstrip_slash
smtp_input post p = record p {
  host = strip p.host;
  from_name = strip p.from_name;
  public_base_url = rstrip_slash post.str_of p.public_base_url;
  username = strip p.username;
}

-- The routes for owners; an invitation comes with what its service draws.
pub data IdentityCall : Type 0 where
  get_users get_smtp : IdentityCall
  invite : InviteDraws → String → String → String → IdentityCall
  put_user : ℕ → String → Bool → IdentityCall
  post_revoke : ℕ → IdentityCall
  put_smtp post_smtp_test : SmtpInput → IdentityCall

pub data IdentityAnswer : Type 0 where
  users : List UserView → IdentityAnswer
  invited : ℕ → IdentityAnswer
  smtp : Option SmtpView → IdentityAnswer
  no_content : IdentityAnswer

abbrev pub identity_call : Site → Request → AuthenticatedUser → Call
identity_call site q u = record {
  actor_id = u.id;
  client_ip = client_ip q;
  now = site.host.now;
  audit_id = q.audit_id;
}

-- The `try` of a route: the service, and what it raises.
unfoldable pub answered :
    {A : Type 0} → (A → IdentityAnswer) → Result A × Db → World → Response IdentityAnswer × World
unfolding translate
answered body (ok a, db) w = (sent (body a), record w { db = db })
answered body (err e, db) w = (translate e, record w { db = db })

-- `save_smtp` answers with the view of what it has saved.
abbrev pub view_after : Post → Site → Result Unit × Db → Result (Option SmtpView) × Db
view_after post site (ok _, db) = (smtp_view post.str_of site.host.cipher db, db)
view_after post site (err e, db) = (err e, db)

unfoldable pub handle_identity : Post → Site → Request → IdentityCall → Route IdentityAnswer
unfolding as_owner answered smtp_input
handle_identity post site q get_users =
    as_owner site q (λ u w. (sent (users (list_users site.host.now w.db)), w))
handle_identity post site q (invite draws username email role) = as_owner site q (λ u w.
    answered invited
      (invite_user site.library post.hour (stored_smtp post.str_of site.host.cipher w.db)
        post.mailer (identity_call site q u) draws username email role w.db)
      w)
handle_identity post site q (put_user user_id role enabled) = as_owner site q (λ u w.
    answered (λ _. no_content) (update_user (identity_call site q u) user_id role enabled w.db) w)
handle_identity post site q (post_revoke user_id) =
    as_owner site q
      (λ u w. answered (λ _. no_content) (revoke_sessions (identity_call site q u) user_id w.db) w)
handle_identity post site q get_smtp =
    as_owner site q (λ u w. answered smtp (smtp_view post.str_of site.host.cipher w.db, w.db) w)
handle_identity post site q (put_smtp p) = as_owner site q (λ u w.
    answered smtp
      (view_after post site (
        save_smtp post.str_of (identity_call site q u) site.host.cipher (smtp_input post p) q.nonce
          w.db))
      w)
handle_identity post site q (post_smtp_test p) = as_owner site q (λ u w.
    answered (λ _. no_content)
      (test_smtp post.str_of site.host.cipher post.mailer (smtp_input post p) w.db, w.db) w)

-- The routes without a session.
abbrev pub no_body : Result Unit × Db → World → Response Unit × World
no_body (ok _, db) w = (sent tt, record w { db = db })
no_body (err e, db) w = (translate e, record w { db = db })

-- `POST /auth/accept-invitation`, with the salt that it draws
unfoldable pub accept_route : Site → Request → ℕ → String → String → Route Unit
unfolding translate
accept_route site q salt token password w =
    no_body
      (accept_invitation site.library site.host.now q.audit_id salt token password (client_ip q)
        w.db)
      w

-- `POST /auth/password-reset/complete`
unfoldable pub complete_route : Site → Request → ℕ → String → String → Route Unit
unfolding translate
complete_route site q salt token password w =
    no_body
      (complete_password_reset site.library site.host.now q.audit_id salt token password
        (client_ip q) w.db)
      w

-- `except EmailDeliveryError: pass`
abbrev pub accepted : Result Unit → Response Unit
accepted (ok _) = sent tt
accepted (err (mail_failed _)) = sent tt
accepted (err e) = uncaught e

abbrev pub request_allowed :
    Post → Site → Request → ResetDraws → String → Bool → World → Response Unit × World
request_allowed post site q draws email false w = (sent tt, w)
request_allowed post site q draws email true w =
    let r =
      request_password_reset site.library post.minute
        (stored_smtp post.str_of site.host.cipher w.db) post.mailer draws email (client_ip q)
        w.db in
    (accepted r.0, record w { db = r.1 })

-- `POST /auth/password-reset/request`, with the limiter of the router, which takes 3 attempts in 300
-- seconds, and the reading of its clock
unfoldable pub request_route :
    Post
    → Site
    → Request
    → ResetDraws
    → ℕ
    → String
    → LoginAttemptLimiter
    → World
    → Response Unit × (LoginAttemptLimiter × World)
unfolding allow
request_route post site q draws monotonic email limiter w =
    let r = allow (client_ip q) monotonic limiter in
    let answer = request_allowed post site q draws email r.0 w in (answer.0, (r.1, answer.1))
