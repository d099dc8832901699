-- ===== src/Observability/Retention.antt =====
-- `RetentionService.cleanup`: old events and expired sessions are deleted, under an advisory lock.
pub mod Removed
use wolt.Prelude.{ℕ, ◌+◌, ◌*◌, Bool, true, false, none, some, ltb, count, remove}
use wolt.Errors.{Result, ok, err, no_result_found}
use wolt.Db.{Db}
use wolt.Db.Models.{ApplicationSettings, WakeEvent, AuditEvent, UserSession}

pub record CleanupResult : Type 0 where
  pub acquired : Bool
  pub wake_events : ℕ
  pub audit_events : ℕ
  pub sessions : ℕ

-- `occurred_at < now - timedelta(days=days)`, with the difference moved to the other side. A day
-- is `day` units of time.
abbrev pub is_old_wake : ℕ → ℕ → ApplicationSettings → WakeEvent → Bool
is_old_wake day now s e = ltb (e.occurred_at + s.wake_event_retention_days * day) now

abbrev pub is_old_audit : ℕ → ℕ → ApplicationSettings → AuditEvent → Bool
is_old_audit day now s e = ltb (e.occurred_at + s.audit_event_retention_days * day) now

abbrev pub is_expired : ℕ → UserSession → Bool
is_expired now s = ltb s.expires_at now

-- The transaction under the lock. Nothing refers to the deleted rows.
unfoldable pub delete_old : ℕ → ℕ → Db → Result CleanupResult × Db
delete_old day now db = elim db.settings [
  | none ↦ (err no_result_found, db)
  | some s ↦ (
    ok (record {
      acquired = true;
      wake_events = count (is_old_wake day now s) db.wake_events;
      audit_events = count (is_old_audit day now s) db.audit_events;
      sessions = count (is_expired now) db.sessions;
    }),
    record db {
      wake_events = remove (is_old_wake day now s) db.wake_events;
      audit_events = remove (is_old_audit day now s) db.audit_events;
      sessions = remove (is_expired now) db.sessions;
    },
  )
]

-- `cleanup`, given whether `pg_try_advisory_lock` got the lock.
unfoldable pub cleanup : ℕ → ℕ → Bool → Db → Result CleanupResult × Db
unfolding delete_old
cleanup day now false db =
    (ok (record { acquired = false; wake_events = 0; audit_events = 0; sessions = 0 }), db)
cleanup day now true db = delete_old day now db
