-- ===== src/Observability/Events/Pages.antt =====
-- What the pages of wake events hold together (app/application/observability_service.py).
use wolt.Prelude.{
  ℕ, ◌*◌, ◌≤◌, Bool, true, false, not, ◌&&◌, List, [], ◌∷◌, map, ◌≡◌, refl, sym, ap, ◌∙◌, ◌==◌,
  count, select, length, is_some, sort_by, InOrder, count-sort_by, sort_by-InOrder, arith,
  &&-eq-true,
}
use wolt.Db.{Db, constraints, every, wake_events_ok, listener_exists, device_exists}
use wolt.Db.Models.{WakeEvent}
use wolt.Operations.Listeners.{find_device, find_listener}
use wolt.Observability.Events.{
  Sql, WakeFilters, wake_filters, passes, newer, join_names, wake_rows, page_count, wake_events,
}
use wolt.Observability.Events.Paging.{
  all_pages, take_all, all_pages-take, page_count-enough, count-select, count_mono, any-first,
  length-map, sorted-length,
}

-- Both joins find a row for the event.
abbrev is_named : Db → WakeEvent → Bool
is_named db e = is_some (find_listener e.mapping_id db) && is_some (find_device e.device_id db)

join_names-events :
    (db : Db) (es : List WakeEvent)
    → count (λ e. not (is_named db e)) es ≡ 0
    → map (λ v. v.event) (join_names db es) ≡ es
unfolding join_names
join_names-events db [] h = refl
join_names-events db (e ∷ es) h = ground (arith, join_names-events db es)

-- Every stored event has its mapping and its device.
events_named :
    (db : Db) (es : List WakeEvent)
    → every
        (λ e. listener_exists e.mapping_id db.listeners && device_exists e.device_id db.devices)
        es
      ≡ true
    → count (λ e. not (is_named db e)) es ≡ 0
unfolding every
events_named db [] h = refl
events_named db (e ∷ es) h = ground (
  arith,
  any-first (λ m. m.id == e.mapping_id) db.listeners,
  any-first (λ d. d.id == e.device_id) db.devices,
  events_named db es,
)

constraints-named :
    (db : Db) → constraints db ≡ true → count (λ e. not (is_named db e)) db.wake_events ≡ 0
unfolding constraints wake_events_ok
constraints-named db c = events_named db db.wake_events (ground arith)

wake_rows-events :
    (sql : Sql) (f : WakeFilters) (db : Db)
    → constraints db ≡ true
    → map (λ v. v.event) (wake_rows sql f db)
      ≡ sort_by newer (select (passes (wake_filters sql f)) db.wake_events)
unfolding wake_rows
wake_rows-events sql f db c =
    let p = passes (wake_filters sql f) in
    let unnamed : WakeEvent → Bool = λ e. not (is_named db e) in
    join_names-events db (sort_by newer (select p db.wake_events)) (
      omega (
        arith,
        count-sort_by newer unnamed (select p db.wake_events),
        count-select unnamed p db.wake_events,
        count_mono (λ e. p e && unnamed e) unnamed db.wake_events (λ e h. (&&-eq-true _ _ h).1),
        constraints-named db c,
      ))

newer_total : (a b : WakeEvent) → newer a b ≡ false → newer b a ≡ true
newer_total a b h = ground arith

-- The events on the pages from the first to the last that `wake_events` announces.
abbrev pub listed : Sql → ℕ → WakeFilters → Db → List WakeEvent
listed sql size f db =
    map (λ v. v.event)
      (all_pages (λ i. (wake_events sql i size f db).items) (wake_events sql 1 size f db).pages)

wake_rows-length :
    (sql : Sql) (f : WakeFilters) (db : Db)
    → constraints db ≡ true
    → length (wake_rows sql f db) ≡ count (passes (wake_filters sql f)) db.wake_events
wake_rows-length sql f db c =
    sym (length-map (λ v. v.event) (wake_rows sql f db))
    ∙ ap length (wake_rows-events sql f db c)
    ∙ sorted-length newer (passes (wake_filters sql f)) db.wake_events

listed-sorted :
    (sql : Sql) (size : ℕ) (f : WakeFilters) (db : Db)
    → constraints db ≡ true
    → 1 ≤ size
    → listed sql size f db ≡ sort_by newer (select (passes (wake_filters sql f)) db.wake_events)
unfolding wake_events
listed-sorted sql size f db c h =
    let total = count (passes (wake_filters sql f)) db.wake_events in
    let n = page_count total size in
    let rows = wake_rows sql f db in
    let fits : length rows ≤ n * size =
      omega (arith, wake_rows-length sql f db c, page_count-enough total size h) in
    ap (map (λ v. v.event)) (all_pages-take size n rows ∙ take_all (n * size) rows fits)
    ∙ wake_rows-events sql f db c

-- In a database that satisfies its constraints, the pages of wake events for a page size of at least
-- 1, from the first to the last announced, together list each stored event that passes the filters
-- as often as it is stored (for every test `q`, as many listed events pass it as stored ones that
-- also pass the filters), newest first, and the announced total is their number.
pub wake_events-pages :
    (sql : Sql) (size : ℕ) (f : WakeFilters) (db : Db) (q : WakeEvent → Bool)
    → constraints db ≡ true
    → 1 ≤ size
    → (count q (listed sql size f db)
        ≡ count (λ e. passes (wake_filters sql f) e && q e) db.wake_events)
      × InOrder newer (listed sql size f db)
      × ((wake_events sql 1 size f db).total ≡ length (listed sql size f db))
unfolding wake_events
wake_events-pages sql size f db q c h =
    let p = passes (wake_filters sql f) in
    rw (listed-sorted sql size f db c h) (
      count-sort_by newer q (select p db.wake_events) ∙ count-select q p db.wake_events,
      sort_by-InOrder newer newer_total (select p db.wake_events),
      sym (sorted-length newer p db.wake_events),
    )
