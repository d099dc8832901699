-- ===== src/Auth/Sessions.antt =====
-- Which sessions are open after `logout` and after a recovery.
use wolt.Prelude.{
  ℕ, String, ◌+◌, ◌≡◌, refl, inl, inr, Bool, true, false, ◌&&◌, none, some, List, [], ◌∷◌, ◌++◌,
  arith, ◌==◌, str_eq, any, first, count, update, Option-cases,
}
use wolt.Errors.{ok}
use wolt.Db.{Db, constraints}
use wolt.Db.Models.{User, UserSession}
use wolt.Db.Parts.{constraints-Parts, sessions-unique}
use wolt.Db.Rows.{closed_after}
use wolt.Auth.{Library, Draws, AuthenticationResult, token_hash, is_open, new_session}
use wolt.Auth.Owner.{revoke_all, recover_owner_tx, recover_owner}
use wolt.Auth.Login.{live_users, current_user, open_session, logout}

-- No open session carries the token.
abbrev pub IsShut : Library → String → Db → Type 0
IsShut lib token db =
    any (λ s. str_eq s.token_hash (token_hash lib token) && is_open s) db.sessions ≡ false

live_users-shut :
    (lib : Library) (now : ℕ) (token : String) (users : List User) (ss : List UserSession)
    → any (λ s. str_eq s.token_hash (token_hash lib token) && is_open s) ss ≡ false
    → live_users lib now token users ss ≡ []
unfolding live_users
live_users-shut lib now token users [] h = refl
live_users-shut lib now token users (s ∷ ss) h =
    ground (arith, live_users-shut lib now token users ss)

pub current_user-shut :
    (lib : Library) (now : ℕ) (token : String) (db : Db)
    → IsShut lib token db
    → current_user lib now token db ≡ ok none
unfolding current_user
current_user-shut lib now token db h = rw (live_users-shut lib now token db.users db.sessions h)

first-none→any : {A : Type 0} (p : A → Bool) (xs : List A) → first p xs ≡ none → any p xs ≡ false
first-none→any p [] h = refl
first-none→any p (x ∷ xs) h = ground (arith, first-none→any p xs)

logout_nothing :
    (lib : Library) (draws : Draws) (token client_ip : String) (db db' : Db)
    → open_session lib token db ≡ none
    → logout lib draws token client_ip db ≡ (ok tt, db')
    → db'.sessions ≡ db.sessions
unfolding logout
logout_nothing lib draws token client_ip db db' e h = ground arith

logout_one :
    (lib : Library) (draws : Draws) (token client_ip : String) (db db' : Db) (s : UserSession)
    → open_session lib token db ≡ some s
    → logout lib draws token client_ip db ≡ (ok tt, db')
    → db'.sessions
      ≡ update (λ x. x.id == s.id) (λ x. record x { revoked_at = some draws.now }) db.sessions
unfolding logout
logout_one lib draws token client_ip db db' s e h = ground arith

logout-IsShut :
    (lib : Library) (draws : Draws) (token client_ip : String) (db db' : Db)
    → constraints db ≡ true
    → logout lib draws token client_ip db ≡ (ok tt, db')
    → IsShut lib token db'
logout-IsShut lib draws token client_ip db db' c h =
    elim (Option-cases (open_session lib token db)) [
      | inl nothing ↦
          rw (logout_nothing lib draws token client_ip db db' nothing h)
            (first-none→any _ db.sessions nothing)
      | inr (s, found) ↦ rw (logout_one lib draws token client_ip db db' s found h) (
          closed_after (λ (x : UserSession). x.id) (λ x. x.token_hash) is_open
            (λ x. record x { revoked_at = some draws.now }) (λ x. refl) (λ x. refl)
            (token_hash lib token) is_open db.sessions s
            (sessions-unique db.users db.sessions (constraints-Parts db c).sessions) found)
    ]

-- After a logout that returns, from a database whose constraints hold, the token authenticates
-- nobody, at any later or earlier time.
pub current_user-logout :
    (lib : Library) (draws : Draws) (token client_ip : String) (db db' : Db) (now : ℕ)
    → constraints db ≡ true
    → logout lib draws token client_ip db ≡ (ok tt, db')
    → current_user lib now token db' ≡ ok none
current_user-logout lib draws token client_ip db db' now c h =
    current_user-shut lib now token db' (logout-IsShut lib draws token client_ip db db' c h)

-- The open sessions of a user.
abbrev pub open_count : ℕ → List UserSession → ℕ
open_count user_id = count (λ s. s.user_id == user_id && is_open s)

pub open_count-revoked :
    (user_id now : ℕ) (ss : List UserSession)
    → open_count user_id (
        update
          (λ s. s.user_id == user_id && is_open s)
          (λ s. record s { revoked_at = some now })
          ss)
      ≡ 0
open_count-revoked user_id now [] = refl
open_count-revoked user_id now (s ∷ ss) = ground (arith, open_count-revoked user_id now ss)

pub open_count-append :
    (user_id : ℕ) (s : UserSession) (ss : List UserSession)
    → s.user_id ≡ user_id
    → is_open s ≡ true
    → open_count user_id (ss ++ (s ∷ [])) ≡ open_count user_id ss + 1
open_count-append user_id s [] e o = ground arith
open_count-append user_id s (x ∷ ss) e o = ground (arith, open_count-append user_id s ss)

recover_tx-sessions :
    (lib : Library) (lifetime : ℕ) (draws : Draws) (email code password client_ip : String)
    (db db' : Db) (r : AuthenticationResult)
    → recover_owner_tx lib lifetime draws email code password client_ip db ≡ ok (r, db')
    → db'.sessions
      ≡ (revoke_all r.user.id draws.now db).sessions
        ++ (new_session lib lifetime draws r.user.id client_ip ∷ [])
unfolding recover_owner_tx
recover_tx-sessions lib lifetime draws email code password client_ip db db' r h = ground arith

-- After a recovery that succeeds the owner has exactly one open session, the new one: all earlier
-- ones are revoked.
pub recover_owner_sessions :
    (lib : Library) (lifetime : ℕ) (draws : Draws) (email code password client_ip : String)
    (db db' : Db) (r : AuthenticationResult)
    → recover_owner lib lifetime draws email code password client_ip db ≡ (ok r, db')
    → open_count r.user.id db'.sessions ≡ 1
unfolding recover_owner
recover_owner_sessions lib lifetime draws email code password client_ip db db' r h =
    rw
      (recover_tx-sessions lib lifetime draws email code password client_ip db db' r (ground arith))
      (omega (
        arith,
        open_count-append r.user.id (new_session lib lifetime draws r.user.id client_ip)
            (revoke_all r.user.id draws.now db).sessions refl refl,
        open_count-revoked r.user.id draws.now db.sessions,
      ))
