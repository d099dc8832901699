-- ===== src/Auth/Setup.antt =====
-- The first run: exactly one owner can be set up.
use wolt.Prelude.{
  ℕ, String, ◌≡◌, true, false, some, [], ◌∷◌, ◌++◌, arith, any, any-append, Option-cases, inl, inr,
}
use wolt.Errors.{ok, err, setup_already_completed}
use wolt.Db.{Db}
use wolt.Db.Models.{ApplicationSettings}
use wolt.Auth.{Library, Draws, AuthenticationResult, new_session}
use wolt.Auth.Owner.{is_owner, owner_row, create_owner}

module _ (lib : Library) (lifetime : ℕ) (draws : Draws)
    (username email password client_ip : String) where
  -- Whoever tries, `create_owner` succeeds only in a database without an owner: then it adds the
  -- owner, enabled and with the given password's hash, one recovery code and one session.
  pub create_owner_lem :
      (db db' : Db) (r : AuthenticationResult)
      → create_owner lib lifetime draws username email password client_ip db ≡ (ok r, db')
      → (any is_owner db.users ≡ false)
        × (db'.users ≡ db.users ++ (owner_row lib draws username email password ∷ []))
        × (db'.sessions
            ≡ db.sessions ++ (new_session lib lifetime draws draws.user_id client_ip ∷ []))
        × (r.session_token ≡ draws.token)
        × (r.recovery_code ≡ some draws.recovery_code)
  unfolding create_owner
  create_owner_lem db db' r h = ground arith

  created :
      (db db' : Db) (r : AuthenticationResult)
      → create_owner lib lifetime draws username email password client_ip db ≡ (ok r, db')
      → (s : ApplicationSettings) × (db'.settings ≡ some s) × (any is_owner db'.users ≡ true)
  unfolding create_owner
  created db db' r h = elim (Option-cases db.settings) [
    | inl missing ↦ absurd (ground arith)
    | inr (s, e) ↦ (
      s,
      ground arith,
      ground
          (arith, any-append is_owner db.users (owner_row lib draws username email password ∷ [])),
    )
  ]

  refused :
      (db : Db) (s : ApplicationSettings)
      → db.settings ≡ some s
      → any is_owner db.users ≡ true
      → create_owner lib lifetime draws username email password client_ip db
        ≡ (err setup_already_completed, db)
  unfolding create_owner
  refused db s e h = ground arith

-- Once `create_owner` has succeeded, every further call, with whatever names, password and draws,
-- raises `SetupAlreadyCompletedError` and changes nothing.
pub create_owner_once :
    (lib : Library) (lifetime : ℕ) (draws draws' : Draws)
    (username email password client_ip username' email' password' client_ip' : String) (db db' : Db)
    (r : AuthenticationResult)
    → create_owner lib lifetime draws username email password client_ip db ≡ (ok r, db')
    → create_owner lib lifetime draws' username' email' password' client_ip' db'
      ≡ (err setup_already_completed, db')
create_owner_once lib lifetime draws draws' username email password client_ip username' email'
      password' client_ip' db db' r h =
    let (s, stored, owned) =
      created lib lifetime draws username email password client_ip db db' r h in
    refused lib lifetime draws' username' email' password' client_ip' db' s stored owned
