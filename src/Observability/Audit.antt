-- ===== src/Observability/Audit.antt =====
-- `ObservabilityService.audit_events` (app/application/observability_service.py).
use wolt.Prelude.{
  ℕ, String, Bool, ◌&&◌, ◌||◌, Option, none, some, List, ◌==◌, leb, ltb, count, select, is_empty,
  sort_by, map, if◌then◌else◌,
}
use wolt.Db.{Db}
use wolt.Db.Models.{AuditEvent, User}
use wolt.Identity.{find_user}
use wolt.Observability.Events.{
  Sql, AuditFilters, AuditRow, audit_filters, passes, Page, page_count, page_rows,
}

abbrev pub username_of : Option User → Option String
username_of none = none
username_of (some u) = some u.username

abbrev pub actor_of : Option ℕ → Db → Option User
actor_of none db = none
actor_of (some i) db = find_user i db

-- The outer join with the users, on their primary key: one row for each event.
abbrev pub audit_row : Db → AuditEvent → AuditRow
audit_row db e = record { event = e; username = username_of (actor_of e.actor_user_id db) }

abbrev pub newer : AuditRow → AuditRow → Bool
newer a b =
    ltb b.event.occurred_at a.event.occurred_at
    || (a.event.occurred_at == b.event.occurred_at && leb b.event.id a.event.id)

-- An entry of the page: the columns of the event, and the actor.
pub record AuditView : Type 0 where
  pub event : AuditEvent
  pub actor : String

-- `username or "system"`
abbrev pub actor_text : Option String → String
actor_text none = "system"
actor_text (some name) = if is_empty name then "system" else name

abbrev pub audit_view : AuditRow → AuditView
audit_view r = record { event = r.event; actor = actor_text r.username }

unfoldable pub audit_rows : Sql → AuditFilters → Db → List AuditRow
unfolding sort_by audit_filters passes
audit_rows sql f db =
    sort_by newer (select (passes (audit_filters sql f)) (map (audit_row db) db.audit_events))

-- For a page and a size that are at least 1, as the route has them.
unfoldable pub audit_events : Sql → ℕ → ℕ → AuditFilters → Db → Page AuditView
unfolding audit_rows page_count page_rows
audit_events sql page page_size f db =
    let total = count (passes (audit_filters sql f)) (map (audit_row db) db.audit_events) in
    record {
      items = map audit_view (page_rows page page_size (audit_rows sql f db));
      page = page;
      page_size = page_size;
      total = total;
      pages = page_count total page_size;
    }
