-- ===== src/Observability/Retention/Removed.antt =====
-- What a cleanup removes and keeps.
use wolt.Prelude.{
  ℕ, ◌+◌, ◌≡◌, refl, Bool, true, false, some, List, [], ◌∷◌, any, count, remove, length, arith,
}
use wolt.Errors.{ok}
use wolt.Db.{Db}
use wolt.Db.Models.{ApplicationSettings}
use wolt.Observability.Retention.{CleanupResult, is_old_wake, is_old_audit, is_expired, cleanup}

module _ {ℓ} {A : Type ℓ} where
  any-remove : (p : A → Bool) (xs : List A) → any p (remove p xs) ≡ false
  any-remove p [] = refl
  any-remove p (x ∷ xs) = ground (arith, any-remove p xs)

  count-remove : (p : A → Bool) (xs : List A) → length (remove p xs) + count p xs ≡ length xs
  count-remove p [] = refl
  count-remove p (x ∷ xs) = ground (arith, count-remove p xs)

-- A cleanup that has the lock, of a database with settings, succeeds: afterwards no event is older
-- than its retention time and no session has expired, and the result counts the rows that went.
pub cleanup_lem :
    (day now : ℕ) (db : Db) (s : ApplicationSettings)
    → db.settings ≡ some s
    → (r : CleanupResult) × ((cleanup day now true db).0 ≡ ok r)
      × (let db' = (cleanup day now true db).1 in
          (any (is_old_wake day now s) db'.wake_events ≡ false)
          × (any (is_old_audit day now s) db'.audit_events ≡ false)
          × (any (is_expired now) db'.sessions ≡ false)
          × (length db'.wake_events + r.wake_events ≡ length db.wake_events)
          × (length db'.audit_events + r.audit_events ≡ length db.audit_events)
          × (length db'.sessions + r.sessions ≡ length db.sessions))
unfolding cleanup
cleanup_lem day now db s set =
    let r : CleanupResult = record {
      acquired = true;
      wake_events = count (is_old_wake day now s) db.wake_events;
      audit_events = count (is_old_audit day now s) db.audit_events;
      sessions = count (is_expired now) db.sessions;
    } in
    (
      r,
      ground arith,
      rw (set, cleanup)
          (
            any-remove (is_old_wake day now s) db.wake_events,
            any-remove (is_old_audit day now s) db.audit_events,
            any-remove (is_expired now) db.sessions,
            count-remove (is_old_wake day now s) db.wake_events,
            count-remove (is_old_audit day now s) db.audit_events,
            count-remove (is_expired now) db.sessions,
          ),
    )
