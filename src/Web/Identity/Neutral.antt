-- ===== src/Web/Identity/Neutral.antt =====
-- What `POST /auth/password-reset/request` (app/web/identity_routes.py) tells of an account.
use wolt.Prelude.{String, ◌≡◌, ◌⊎◌}
use wolt.Errors.{Result, ok, err, integrity_error, mail_failed}
use wolt.Db.{Db}
use wolt.Identity.Smtp.{SmtpConfiguration}
use wolt.Web.Access.{sent, uncaught}
use wolt.Web.Identity.{accepted}

-- The mailer raises no other exception than its own.
abbrev pub IsSafeMailer : (SmtpConfiguration → Result Unit) → Type 0
IsSafeMailer mailer =
    (c : SmtpConfiguration)
    → (mailer c ≡ ok tt) ⊎ ((reason : String) × (mailer c ≡ err (mail_failed reason)))

-- How the service may end once a configuration is stored.
abbrev IsHarmless : Result Unit → Type 0
IsHarmless r = (accepted r ≡ sent tt) ⊎ (accepted r ≡ uncaught integrity_error)
