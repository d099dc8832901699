-- ===== src/Identity/Users.antt =====
-- `IdentityService.list_users`, `smtp_view` and `test_smtp`.
use wolt.Prelude.{
  ℕ, String, Bool, true, false, not, ◌&&◌, Option, none, some, List, [], ◌∷◌, ◌==◌, leb, ltb, any,
  count, is_some, is_empty, str_eq, if◌then◌else◌,
}
use wolt.Errors.{Result, ok, err, identity_master_key}
use wolt.Json.{get_text, Json, Fields, field, end, text, null, boolean, number, array, object, nil}
use wolt.Db.{Db}
use wolt.Db.Models.{User, SmtpSettings}
use wolt.Auth.{is_open}
use wolt.Operations.Devices.{CredentialCipher}
use wolt.Identity.Smtp.{SmtpInput, SmtpConfiguration}

pub data UserStatus : Type 0 where
  pending active disabled : UserStatus

pub record UserView : Type 0 where
  pub user : User
  pub status : UserStatus
  pub active_sessions : ℕ

-- Whether an invitation of the user waits to be accepted.
abbrev is_pending : ℕ → Db → User → Bool
is_pending now db u =
    any (λ i. i.user_id == u.id && (not (is_some i.accepted_at) && ltb now i.expires_at))
      db.invitations

abbrev user_status : Bool → Bool → UserStatus
user_status true enabled = pending
user_status false true = active
user_status false false = disabled

abbrev user_view : ℕ → Db → User → UserView
user_view now db u = record {
  user = u;
  status = user_status (is_pending now db u) u.enabled;
  active_sessions =
      count (λ s. s.user_id == u.id && (is_open s && ltb now s.expires_at)) db.sessions;
}

-- `ORDER BY created_at`
abbrev insert_by_age : User → List User → List User
insert_by_age u [] = u ∷ []
insert_by_age u (v ∷ rest) =
    if leb u.created_at v.created_at then u ∷ v ∷ rest else v ∷ insert_by_age u rest

by_age : List User → List User
by_age [] = []
by_age (u ∷ rest) = insert_by_age u (by_age rest)

user_views : ℕ → Db → List User → List UserView
user_views now db [] = []
user_views now db (u ∷ rest) = user_view now db u ∷ user_views now db rest

unfoldable pub list_users : ℕ → Db → List UserView
unfolding by_age user_views
list_users now db = user_views now db (by_age db.users)

-- What the view shows of the stored settings; it is `none` where nothing is configured.
pub record SmtpView : Type 0 where
  pub enabled : Bool
  pub host : String
  pub port : ℕ
  pub security : String
  pub from_email : String
  pub from_name : String
  pub public_base_url : String
  pub username : String
  pub password_configured : Bool
  pub updated_at : ℕ

-- Python's truth of a JSON value.
abbrev truth : Json → Bool
truth null = false
truth (boolean b) = b
truth (number n) = not (n == 0)
truth (text s) = not (is_empty s)
truth (array nil) = false
truth (array _) = true
truth (object end) = false
truth (object _) = true

-- `bool(credentials.get("password"))`
has_password : Fields → Bool
has_password end = false
has_password (field k v rest) =
    let later = has_password rest in if str_eq k "password" then truth v else later

module _ (str_of : Json → String) where
  abbrev smtp_shown : SmtpSettings → Result Fields → Result (Option SmtpView)
  smtp_shown s (err e) = err e
  smtp_shown s (ok credentials) = ok (
      some (record {
        enabled = s.enabled;
        host = s.host;
        port = s.port;
        security = s.security;
        from_email = s.from_email;
        from_name = s.from_name;
        public_base_url = s.public_base_url;
        username = get_text str_of "username" credentials;
        password_configured = has_password credentials;
        updated_at = s.updated_at;
      }))

  abbrev opened : Option CredentialCipher → SmtpSettings → Result Fields
  opened none s = err identity_master_key
  opened (some cipher) s = cipher.decrypt s.encrypted_credentials

  unfoldable pub smtp_view : Option CredentialCipher → Db → Result (Option SmtpView)
  unfolding get_text has_password
  smtp_view cipher db = elim db.smtp [ none ↦ ok none | some s ↦ smtp_shown s (opened cipher s) ]

  -- The password for a test: the given one, or the stored one.
  abbrev test_password : Option CredentialCipher → Db → String → Result String
  test_password cipher db given = elim (is_empty given) [
    | false ↦ ok given
    | true ↦ elim db.smtp [
      | none ↦ ok given
      | some s ↦ elim (opened cipher s) [
        | err e ↦ err e
        | ok credentials ↦ ok (get_text str_of "password" credentials)
      ]
    ]
  ]

  -- `test_smtp`, given how the mailer ends for a configuration.
  unfoldable pub test_smtp :
      Option CredentialCipher → (SmtpConfiguration → Result Unit) → SmtpInput → Db → Result Unit
  unfolding get_text
  test_smtp cipher mailer values db = elim (test_password cipher db values.password) [
    | err e ↦ err e
    | ok password ↦ mailer (record {
      host = values.host;
      port = values.port;
      security = values.security;
      username = values.username;
      password = password;
      from_email = values.from_email;
      from_name = values.from_name;
    })
  ]
