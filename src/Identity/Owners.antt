-- ===== src/Identity/Owners.antt =====
-- `update_user` never takes away the last enabled owner.
use wolt.Prelude.{
  ℕ, String, ◌≤◌, ◌≡◌, inl, inr, Bool, true, false, ◌&&◌, none, some, List, arith, ◌==◌, first,
  update, Option-cases, leb,
}
use wolt.Errors.{ok}
use wolt.Db.{Db, users_ok, constraints}
use wolt.Db.Models.{User}
use wolt.Db.Parts.{constraints-Parts, users-distinct}
use wolt.Db.Rows.{distinct, count-update}
use wolt.Db.Session.Keeps.{with_session-keeps}
use wolt.Auth.Owner.{is_owner}
use wolt.Identity.{Call, find_user, owner_count, demotes, set_user, update_user_tx, update_user}

update_user_tx-ok :
    (call : Call) (user_id : ℕ) (role : String) (enabled : Bool) (db db' : Db) (u : User)
    → find_user user_id db ≡ some u
    → update_user_tx call user_id role enabled db ≡ ok (tt, db')
    → ((demotes u role enabled && leb (owner_count db.users) 1) ≡ false)
      × (db'.users ≡ (set_user user_id role enabled db).users)
unfolding update_user_tx
update_user_tx-ok call user_id role true db db' u found h = (ground arith, ground arith)
update_user_tx-ok call user_id role false db db' u found h = (ground arith, ground arith)

missing_user :
    (call : Call) (user_id : ℕ) (role : String) (enabled : Bool) (db db' : Db)
    → find_user user_id db ≡ none
    → update_user_tx call user_id role enabled db ≡ ok (tt, db')
    → ⊥
unfolding update_user_tx
missing_user call user_id role enabled db db' missing h = ground arith

-- The owners after the change of one user, counted from those before.
owners_left :
    (users : List User) (user_id : ℕ) (role : String) (enabled : Bool) (u : User)
    → distinct (λ (v : User). v.id) users ≡ true
    → first (λ v. v.id == user_id) users ≡ some u
    → (demotes u role enabled && leb (owner_count users) 1) ≡ false
    → 1 ≤ owner_count users
    → 1
      ≤ owner_count
          (update (λ v. v.id == user_id) (λ v. record v { role = role; enabled = enabled }) users)
owners_left users user_id role enabled u d found kept some_owner = ground (
  arith,
  count-update (λ (v : User). v.id) (λ v. is_owner v && v.enabled)
      (λ v. record v { role = role; enabled = enabled }) user_id users u,
)

-- In a database whose constraints hold, an enabled owner is left after `update_user`, whether it
-- succeeds or raises, if there was one before.
pub update_user_keeps_owner :
    (call : Call) (user_id : ℕ) (role : String) (enabled : Bool) (db : Db)
    → constraints db ≡ true
    → 1 ≤ owner_count db.users
    → 1 ≤ owner_count (update_user call user_id role enabled db).1.users
unfolding update_user users_ok
update_user_keeps_owner call user_id role enabled db c some_owner =
    with_session-keeps (λ d. 1 ≤ owner_count d.users) (update_user_tx call user_id role enabled) db
      some_owner
      λ _ db' h. elim (Option-cases (find_user user_id db)) [
        | inl missing ↦ absurd (missing_user call user_id role enabled db db' missing h)
        | inr (u, found) ↦
            let (kept, after) = update_user_tx-ok call user_id role enabled db db' u found h in
            rw after (
              owners_left db.users user_id role enabled u
                (users-distinct db.users ((constraints-Parts db c).users)) found kept some_owner)
      ]
