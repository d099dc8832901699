-- ===== src/Auth/Login/Live.antt =====
-- A session from `login` to `current_user` (app/application/auth_service.py).
use wolt.Prelude.{
  ℕ, String, ◌+◌, ◌<◌, Bool, true, false, ◌&&◌, ◌||◌, Option, none, some, List, [], ◌∷◌, ◌++◌, ◌≡◌,
  refl, ◌==◌, str_eq, any, first, select, update, str_eq_iff, &&-eq-true, lt→ltb, arith, inl, inr,
  Bool-cases, first-eq-some,
}
use wolt.Errors.{ok, Result-cases}
use wolt.Db.{Db, constraints, unique}
use wolt.Db.Models.{User, UserSession}
use wolt.Db.Rows.{distinct}
use wolt.Db.Parts.{constraints-Parts, users-distinct, sessions-unique}
use wolt.Auth.{Library, Draws, AuthenticationResult, token_hash, public_user, new_session, verify}
use wolt.Auth.Login.{
  login_user, login_tx, login, live_users, is_live, current_user, password_ok, rehashed,
}

-- The last row under a unique column.
unique-last :
    {A : Type 0} (same : A → A → Bool) (xs : List A) (s : A)
    → unique same (xs ++ (s ∷ [])) ≡ true
    → any (λ x. same x s) xs ≡ false
unfolding unique
unique-last same [] s h = refl
unique-last same (x ∷ xs) s h = ground (arith, unique-last same xs s, any_last (same x) xs s)
  where
    any_last :
        {A : Type 0} (p : A → Bool) (xs : List A) (s : A)
        → any p (xs ++ (s ∷ [])) ≡ (any p xs || p s)
    any_last p [] s = ground arith
    any_last p (x ∷ xs) s = ground (arith, any_last p xs s)

module _ (lib : Library) (now : ℕ) (token : String) (users : List User) where
  live_users-last :
      (ss : List UserSession) (s : UserSession)
      → any (λ x. str_eq x.token_hash (token_hash lib token)) ss ≡ false
      → live_users lib now token users (ss ++ (s ∷ [])) ≡ live_users lib now token users (s ∷ [])
  unfolding live_users
  live_users-last [] s h = refl
  live_users-last (x ∷ ss) s h = ground (arith, live_users-last ss s)

not_first :
    (p q : User → Bool) (us : List User) (u : User)
    → any q us ≡ false
    → first p us ≡ some u
    → q u ≡ false
not_first p q [] u h f = absurd (ground arith)
not_first p q (x ∷ us) u h f = ground (arith, not_first p q us u)

-- The row of a user under the primary key, when an update has changed it.
module _ (f : User → User) (i : ℕ) (f-id : (u : User) → (f u).id ≡ u.id)
    (f-enabled : (u : User) → (f u).enabled ≡ u.enabled) where
  select_none :
      (x : User) (us : List User)
      → x.id ≡ i
      → any (λ y. x.id == y.id) us ≡ false
      → select (λ y. y.id == i && y.enabled) (update (λ y. y.id == i) f us) ≡ []
  select_none x [] e h = refl
  select_none x (y ∷ us) e h = ground (arith, select_none x us)

  select_one :
      (p : User → Bool) (us : List User) (u : User)
      → distinct (λ (u : User). u.id) us ≡ true
      → first p us ≡ some u
      → u.id ≡ i
      → u.enabled ≡ true
      → select (λ y. y.id == i && y.enabled) (update (λ y. y.id == i) f us) ≡ f u ∷ []
  unfolding unique
  select_one p [] u d h e on = absurd (ground arith)
  select_one p (x ∷ us) u d h e on = elim (Bool-cases (p x)) [
    | inl hit ↦ ground (arith, select_none x us, f-id x, f-enabled x)
    | inr miss ↦ ground (arith, select_one p us u, not_first p (λ y. x.id == y.id) us u)
  ]

-- The row of the user after a login.
abbrev pub logged_in : Library → Draws → String → User → User
logged_in lib draws password u = record u {
  password_hash = rehashed lib draws.salt password u.password_hash;
  last_login_at = some draws.now;
}

password_ok-eq :
    (lib : Library) (password : String) (o : Option User) (u : User)
    → password_ok lib password o ≡ ok u
    → o ≡ some u
password_ok-eq lib password none u h = absurd (ground arith)
password_ok-eq lib password (some v) u h = elim (Bool-cases (verify lib v.password_hash password)) [
  | inl right ↦ ground (arith, right)
  | inr wrong ↦ absurd (ground (arith, wrong))
]

login_tx-ok :
    (lib : Library) (lifetime : ℕ) (draws : Draws) (identifier password client_ip : String)
    (db db' : Db) (r : AuthenticationResult)
    → login_tx lib lifetime draws identifier password client_ip db ≡ ok (r, db')
    → (u : User) × (login_user lib identifier db ≡ some u)
      × (constraints db' ≡ true)
      × (db'.sessions ≡ db.sessions ++ (new_session lib lifetime draws u.id client_ip ∷ []))
      × (db'.users ≡ update (λ x. x.id == u.id) (logged_in lib draws password) db.users)
      × (r.user ≡ public_user u)
      × (r.session_token ≡ draws.token)
      × (r.expires_at ≡ draws.now + lifetime)
unfolding login_tx
login_tx-ok lib lifetime draws identifier password client_ip db db' r h =
    elim (Result-cases (password_ok lib password (login_user lib identifier db))) [
      | inl (u, right) ↦ (
        u,
        password_ok-eq lib password (login_user lib identifier db) u right,
        ground arith,
        ground arith,
        ground arith,
        ground arith,
        ground arith,
        ground arith,
      )
      | inr (e, wrong) ↦ absurd (ground arith)
    ]

login_user-enabled :
    (lib : Library) (identifier : String) (db : Db) (u : User)
    → login_user lib identifier db ≡ some u
    → u.enabled ≡ true
unfolding login_user
login_user-enabled lib identifier db u h = (&&-eq-true _ _ (first-eq-some _ db.users u h)).0

current_user-live :
    (lib : Library) (now : ℕ) (token : String) (db : Db) (u : User)
    → live_users lib now token db.users db.sessions ≡ u ∷ []
    → current_user lib now token db ≡ ok (some (public_user u))
unfolding current_user
current_user-live lib now token db u h = rw h refl

is_live-new :
    (lib : Library) (lifetime now : ℕ) (draws : Draws) (user_id : ℕ) (client_ip : String)
    → now < draws.now + lifetime
    → is_live lib now draws.token (new_session lib lifetime draws user_id client_ip) ≡ true
is_live-new lib lifetime now draws user_id client_ip h =
    let hash = token_hash lib draws.token in
    rw ((str_eq_iff hash hash).1 refl) (lt→ltb now (draws.now + lifetime) h)

-- The new session is the one that is live for the new token.
live_users-login :
    (lib : Library) (lifetime now : ℕ) (draws : Draws) (client_ip password : String)
    (identifier : String) (db db' : Db) (u : User)
    → constraints db ≡ true
    → constraints db' ≡ true
    → login_user lib identifier db ≡ some u
    → db'.sessions ≡ db.sessions ++ (new_session lib lifetime draws u.id client_ip ∷ [])
    → db'.users ≡ update (λ x. x.id == u.id) (logged_in lib draws password) db.users
    → now < draws.now + lifetime
    → live_users lib now draws.token db'.users db'.sessions ≡ logged_in lib draws password u ∷ []
unfolding live_users login_user
live_users-login lib lifetime now draws client_ip password identifier db db' u c c' found sessions
      users early =
    let s = new_session lib lifetime draws u.id client_ip in
    let fresh : any (λ x. str_eq x.token_hash (token_hash lib draws.token)) db.sessions ≡ false =
      unique-last (λ (a b : UserSession). str_eq a.token_hash b.token_hash) db.sessions s
        (rw sessions at
          (sessions-unique db'.users db'.sessions (constraints-Parts db' c').sessions)) in
    let own : select (λ y. y.id == u.id && y.enabled) db'.users
        ≡ logged_in lib draws password u ∷ [] =
      rw users (
        select_one (logged_in lib draws password) u.id (λ x. refl) (λ x. refl) _ db.users u
          (users-distinct db.users (constraints-Parts db c).users) found refl
          (login_user-enabled lib identifier db u found)) in
    rw (sessions, live_users-last lib now draws.token db'.users db.sessions s fresh)
      (rw (is_live-new lib lifetime now draws u.id client_ip early, own) refl)

-- On a database that satisfies its constraints, after a login that succeeds, the token that it
-- returned is the session of the user that it returned, until the session is over.
pub login-current_user :
    (lib : Library) (lifetime : ℕ) (draws : Draws) (identifier password client_ip : String)
    (db db' : Db) (r : AuthenticationResult) (now : ℕ)
    → constraints db ≡ true
    → login lib lifetime draws identifier password client_ip db ≡ (ok r, db')
    → now < r.expires_at
    → current_user lib now r.session_token db' ≡ ok (some r.user)
unfolding login
login-current_user lib lifetime draws identifier password client_ip db db' r now c h early =
    let (u, found, c', sessions, users, user, token, expires) =
      login_tx-ok lib lifetime draws identifier password client_ip db db' r (ground arith) in
    let live =
      live_users-login lib lifetime now draws client_ip password identifier db db' u c c' found
        sessions users (omega (arith, early, expires)) in
    rw (token, user)
      (current_user-live lib now draws.token db' (logged_in lib draws password u) live)

-- The token and the end of the session that a login opens.
pub login_tokens :
    (lib : Library) (lifetime : ℕ) (draws : Draws) (identifier password client_ip : String)
    (db db' : Db) (r : AuthenticationResult)
    → login lib lifetime draws identifier password client_ip db ≡ (ok r, db')
    → (r.session_token ≡ draws.token) × (r.expires_at ≡ draws.now + lifetime)
unfolding login
login_tokens lib lifetime draws identifier password client_ip db db' r h =
    let (u, _, _, _, _, _, token, expires) =
      login_tx-ok lib lifetime draws identifier password client_ip db db' r (ground arith) in
    (token, expires)
