-- ===== src/Observability/Events.antt =====
-- The pages of wake events and audit events (app/application/observability_service.py:
-- `_wake_filters`, `wake_events`, `_wake_view` and `audit_events`).
pub mod Paging
pub mod Pages
use wolt.Prelude.{
  ℕ, String, ◌+◌, ◌-◌, ◌*◌, ◌/◌, Bool, true, false, not, ◌&&◌, ◌||◌, Option, none, some, List, [],
  ◌∷◌, ◌++◌, ◌==◌, str_eq, is_empty, leb, ltb, count, select, take, drop, length, append, strip,
  sort_by, if◌then◌else◌,
}
use wolt.Db.{Db, every}
use wolt.Db.Models.{WakeEvent, AuditEvent, User, Device, ListenerMapping, ObjectId}
use wolt.Operations.Listeners.{find_device, find_listener}

-- SQL's `ILIKE` on a text and a pattern, and the text of a UUID.
pub record Sql : Type 0 where
  pub ilike : String → String → Bool
  pub uuid_text : ℕ → String

pub record WakeFilters : Type 0 where
  pub result_code : Option String
  pub mapping_id : Option ℕ
  pub device_id : Option ℕ
  pub query : Option String
  pub occurred_after : Option ℕ
  pub occurred_before : Option ℕ

-- `f"%{query.strip()}%"`
unfoldable pub like_pattern : String → String
like_pattern query = append "%" (append (strip query) "%")

-- Not one of the two codes that the other tests of the code name.
abbrev pub is_failure : WakeEvent → Bool
is_failure e = not (str_eq e.result_code "success" || str_eq e.result_code "rate_limited")

unfoldable pub result_filter : Option String → List (WakeEvent → Bool)
result_filter none = []
result_filter (some code) =
    if is_empty code
    then []
    else if str_eq code "failed"
    then is_failure ∷ []
    else (λ e. str_eq e.result_code code) ∷ []

-- The filter for an argument that is always true where it is given.
abbrev pub given : {A : Type 0} → Option ℕ → (ℕ → A → Bool) → List (A → Bool)
given none test = []
given (some i) test = test i ∷ []

-- The filter for a text, which counts as not given where it is empty.
abbrev pub given_text : {A : Type 0} → Option String → (String → A → Bool) → List (A → Bool)
given_text none test = []
given_text (some t) test = if is_empty t then [] else test t ∷ []

abbrev pub query_matches : Sql → String → WakeEvent → Bool
query_matches sql query e =
    let pattern = like_pattern query in
    sql.ilike e.mac_address pattern
    || sql.ilike e.source_ip pattern
    || sql.ilike (sql.uuid_text e.correlation_id) pattern

unfoldable pub wake_filters : Sql → WakeFilters → List (WakeEvent → Bool)
unfolding result_filter like_pattern
wake_filters sql f =
    result_filter f.result_code
    ++ given f.mapping_id (λ i e. e.mapping_id == i)
    ++ given f.device_id (λ i e. e.device_id == i)
    ++ given_text f.query (query_matches sql)
    ++ given f.occurred_after (λ t e. leb t e.occurred_at)
    ++ given f.occurred_before (λ t e. leb e.occurred_at t)

-- `WHERE` with a list of filters
unfoldable pub passes : {A : Type 0} → List (A → Bool) → A → Bool
unfolding every
passes filters a = every (λ p. p a) filters

-- `_wake_view`: the columns of the event, and the two names.
pub record WakeView : Type 0 where
  pub event : WakeEvent
  pub mapping_name : String
  pub device_name : String

-- `ORDER BY occurred_at DESC, id DESC`
abbrev pub newer : WakeEvent → WakeEvent → Bool
newer a b = ltb b.occurred_at a.occurred_at || (a.occurred_at == b.occurred_at && leb b.id a.id)

-- The two inner joins for one event. Both are on a primary key: at most one row matches each.
abbrev pub with_device : WakeEvent → String → Option Device → List WakeView → List WakeView
with_device e mapping_name none rest = rest
with_device e mapping_name (some d) rest =
    record { event = e; mapping_name = mapping_name; device_name = d.name } ∷ rest

abbrev pub with_mapping :
    WakeEvent → Option ListenerMapping → Option Device → List WakeView → List WakeView
with_mapping e none d rest = rest
with_mapping e (some m) d rest = with_device e m.name d rest

unfoldable pub join_names : Db → List WakeEvent → List WakeView
join_names db [] = []
join_names db (e ∷ es) =
    with_mapping e (find_listener e.mapping_id db) (find_device e.device_id db) (join_names db es)

-- The rows of the query in order, before `OFFSET` and `LIMIT`.
unfoldable pub wake_rows : Sql → WakeFilters → Db → List WakeView
unfolding sort_by join_names wake_filters passes
wake_rows sql f db =
    join_names db (sort_by newer (select (passes (wake_filters sql f)) db.wake_events))

pub record Page (A : Type 0) : Type 0 where
  pub items : List A
  pub page : ℕ
  pub page_size : ℕ
  pub total : ℕ
  pub pages : ℕ

-- `max(1, (total + page_size - 1) // page_size)`
unfoldable pub page_count : ℕ → ℕ → ℕ
page_count total page_size =
    let pages = (total + page_size - 1) / page_size in if leb pages 1 then 1 else pages

-- `.offset((page - 1) * page_size).limit(page_size)`
unfoldable pub page_rows : {A : Type 0} → ℕ → ℕ → List A → List A
page_rows page page_size rows = take page_size (drop ((page - 1) * page_size) rows)

-- `wake_events`, for a page and a size that are at least 1, as the route has them. The total counts
-- the events without the joins.
unfoldable pub wake_events : Sql → ℕ → ℕ → WakeFilters → Db → Page WakeView
unfolding wake_rows page_count page_rows
wake_events sql page page_size f db =
    let total = count (passes (wake_filters sql f)) db.wake_events in
    record {
      items = page_rows page page_size (wake_rows sql f db);
      page = page;
      page_size = page_size;
      total = total;
      pages = page_count total page_size;
    }

pub record AuditFilters : Type 0 where
  pub action : Option String
  pub object_type : Option String
  pub query : Option String

-- A row of the outer join: the event, and the name of its actor where there is one.
pub record AuditRow : Type 0 where
  pub event : AuditEvent
  pub username : Option String

unfoldable pub object_text : Sql → Option ObjectId → Option String
object_text sql none = none
object_text sql (some (ObjectId.row i)) = some (sql.uuid_text i)
object_text sql (some (ObjectId.literal t)) = some t

-- `ILIKE` of `NULL` is `NULL`, which does not make an `OR` true.
abbrev pub ilike_null : Sql → Option String → String → Bool
ilike_null sql none pattern = false
ilike_null sql (some t) pattern = sql.ilike t pattern

abbrev pub audit_matches : Sql → String → AuditRow → Bool
audit_matches sql query r =
    let pattern = like_pattern query in
    sql.ilike r.event.action pattern
    || sql.ilike r.event.object_type pattern
    || ilike_null sql (object_text sql r.event.object_id) pattern
    || sql.ilike r.event.client_ip pattern
    || ilike_null sql r.username pattern

unfoldable pub audit_filters : Sql → AuditFilters → List (AuditRow → Bool)
unfolding like_pattern object_text
audit_filters sql f =
    given_text f.action (λ t r. str_eq r.event.action t)
    ++ given_text f.object_type (λ t r. str_eq r.event.object_type t)
    ++ given_text f.query (audit_matches sql)
