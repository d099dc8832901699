-- ===== src/Identity/Revoked.antt =====
-- Disabling a user, and revoking sessions, shuts the user's sessions and no others.
use wolt.Prelude.{
  ℕ, String, ◌≡◌, refl, inl, inr, false, ◌&&◌, some, List, [], ◌∷◌, arith, ◌==◌, update,
  Option-cases,
}
use wolt.Errors.{ok}
use wolt.Db.{Db}
use wolt.Db.Models.{UserSession}
use wolt.Auth.{is_open}
use wolt.Auth.Owner.{revoke_all}
use wolt.Auth.Sessions.{open_count, open_count-revoked}
use wolt.Identity.{
  Call, find_user, update_user_tx, update_user, revoke_sessions_tx, revoke_sessions,
}

open_count-others :
    (user_id other now : ℕ) (ss : List UserSession)
    → (user_id == other) ≡ false
    → open_count other (
        update
          (λ s. s.user_id == user_id && is_open s)
          (λ s. record s { revoked_at = some now })
          ss)
      ≡ open_count other ss
open_count-others user_id other now [] h = refl
open_count-others user_id other now (s ∷ ss) h =
    ground (arith, open_count-others user_id other now ss)

disabled_sessions :
    (call : Call) (user_id : ℕ) (role : String) (db db' : Db)
    → update_user_tx call user_id role false db ≡ ok (tt, db')
    → db'.sessions ≡ (revoke_all user_id call.now db).sessions
unfolding update_user_tx
disabled_sessions call user_id role db db' h = elim (Option-cases (find_user user_id db)) [
  | inl missing ↦ absurd (ground arith)
  | inr (u, found) ↦ ground arith
]

revoked_sessions :
    (call : Call) (user_id : ℕ) (db db' : Db)
    → revoke_sessions_tx call user_id db ≡ ok (tt, db')
    → db'.sessions ≡ (revoke_all user_id call.now db).sessions
unfolding revoke_sessions_tx
revoked_sessions call user_id db db' h = elim (Option-cases (find_user user_id db)) [
  | inl missing ↦ absurd (ground arith)
  | inr (u, found) ↦ ground arith
]

-- When an update that disables a user succeeds, no session of that user is open, and every other
-- user has as many open sessions as before.
pub update_user_disabled :
    (call : Call) (user_id other : ℕ) (role : String) (db db' : Db)
    → (user_id == other) ≡ false
    → update_user call user_id role false db ≡ (ok tt, db')
    → (open_count user_id db'.sessions ≡ 0)
      × (open_count other db'.sessions ≡ open_count other db.sessions)
unfolding update_user
update_user_disabled call user_id other role db db' ne h =
    let same = disabled_sessions call user_id role db db' (ground arith) in
    (
      rw same (open_count-revoked user_id call.now db.sessions),
      rw same (open_count-others user_id other call.now db.sessions ne),
    )

-- When `revoke_sessions` succeeds, no session of the user is open, and every other user has as many
-- open sessions as before.
pub revoke_sessions_lem :
    (call : Call) (user_id other : ℕ) (db db' : Db)
    → (user_id == other) ≡ false
    → revoke_sessions call user_id db ≡ (ok tt, db')
    → (open_count user_id db'.sessions ≡ 0)
      × (open_count other db'.sessions ≡ open_count other db.sessions)
unfolding revoke_sessions
revoke_sessions_lem call user_id other db db' ne h =
    let same = revoked_sessions call user_id db db' (ground arith) in
    (
      rw same (open_count-revoked user_id call.now db.sessions),
      rw same (open_count-others user_id other call.now db.sessions ne),
    )
