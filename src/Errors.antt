-- ===== src/Errors.antt =====
-- The exceptions that the services raise, as values, and results that may be one.
use wolt.Prelude.{ℕ, String, Bool, true, false, Option, none, some, ◌≡◌, ◌⊎◌, inl, inr, refl, arith}

pub data Error : Type 0 where
  -- app/drivers/base.py and app/infrastructure/crypto/credentials.py, with their messages
  driver_validation : String → Error
  driver_operation : String → Error
  credential_crypto : String → Error
  -- app/application/operations_service.py
  resource_not_found resource_conflict resource_in_use stale_version master_key_required : Error
  -- app/application/auth_service.py
  setup_already_completed invalid_credentials : Error
  -- app/application/identity_service.py
  identity_not_found identity_conflict last_owner invalid_token smtp_not_configured
        identity_master_key invitation_not_accepted :
      Error
  -- app/application/observability_service.py
  udp_range_outside_published udp_range_excludes_listeners : Error
  -- what SQLAlchemy and the operating system raise
  integrity_error no_result_found multiple_results_found os_error : Error
  -- an attribute read on `None`, and an argument of the wrong kind
  attribute_error type_error : Error
  -- Python's ValueError with a message, and what paramiko raises for a broken host key
  value_error : String → Error
  invalid_host_key : Error
  -- app/config.py and app/web/config.py, with their messages
  config_error : String → Error
  -- host_agent/server.py, with the status of the response
  agent_error : String → ℕ → Error
  -- app/fortigate.py, with its reason
  fortigate_error : String → Error
  -- what a mailer raises
  mail_failed : String → Error

pub data Result (A : Type 0) : Type 0 where
  ok : A → Result A
  err : Error → Result A

-- `or_raise o e` is `o`, or the exception `e` where it is `None`.
abbrev pub or_raise : {A : Type 0} → Option A → Error → Result A
or_raise none e = err e
or_raise (some a) e = ok a

abbrev pub is_ok : {A : Type 0} → Result A → Bool
is_ok (ok _) = true
is_ok (err _) = false

pub Result-cases :
    {A : Type 0} (r : Result A) → ((a : A) × (r ≡ ok a)) ⊎ ((e : Error) × (r ≡ err e))
Result-cases (ok a) = inl (a, refl)
Result-cases (err e) = inr (e, refl)

-- A result for what comes next; an exception ends it all.
infixl 5 ◌>>=◌
abbrev pub ◌>>=◌ : {A B : Type 0} → Result A → (A → Result B) → Result B
◌>>=◌ (ok a) f = f a
◌>>=◌ (err e) f = err e

pub bind-ok :
    {A B : Type 0} (r : Result A) (f : A → Result B) (b : B)
    → (r >>= f) ≡ ok b
    → (a : A) × (r ≡ ok a) × (f a ≡ ok b)
bind-ok (ok a) f b h = (a, refl, h)
bind-ok (err e) f b h = absurd (ground arith)
