-- ===== src/Tests/Events.antt =====
-- Tests of the event pages, the dashboard, the export and the attempt limiter: app/application/observability_service.py
-- and app/web/auth_routes.py.
use wolt.Prelude.{
  true, false, ◌&&◌, none, some, List, [], ◌∷◌, ◌≡◌, refl, ◌+◌, count, length, take, map, All,
  InOrder, arith, append, str_eq, decimal,
}
use wolt.Db.{
  Db, constraints, users_ok, sessions_ok, recovery_codes_ok, invitations_ok, reset_tokens_ok,
  devices_ok, credentials_ok, listeners_ok, wake_events_ok, smtp_ok, settings_ok,
}
use wolt.Db.Models.{WakeEvent, ListenerMapping}
use wolt.Observability.Events.{
  Sql, WakeFilters, passes, wake_filters, newer, wake_events, wake_rows,
}
use wolt.Observability.Events.Pages.{listed, wake_events-pages}
use wolt.Observability.Dashboard.{dashboard}
use wolt.Observability.Dashboard.Buckets.{sum_of, dashboard-sums}
use wolt.Observability.Export.{header_row, event_row, wake_events_csv}
use wolt.Observability.Export.Reader.{read_csv}
use wolt.Observability.Export.Written.{IsHarmless, read_csv-wake_events_csv}
use wolt.Web.Attempts.{new_limiter}
use wolt.Web.Attempts.Counted.{Call, try_at, succeed, answers, counted, Ordered, answers-counted}
use wolt.Samples.{db, event, mapping}

abbrev calls : List Call
calls =
    try_at "10.0.0.9" 1
    ∷ try_at "10.0.0.9" 2
    ∷ try_at "10.0.0.9" 3
    ∷ try_at "10.0.0.8" 3
    ∷ try_at "10.0.0.9" 12
    ∷ succeed "10.0.0.9"
    ∷ try_at "10.0.0.9" 12
    ∷ []

calls_test : answers calls (new_limiter 2 10) ≡ true ∷ true ∷ false ∷ true ∷ true ∷ true ∷ []
unfolding answers new_limiter
calls_test = refl

answers-counted_example : answers calls (new_limiter 2 10) ≡ counted 2 10 calls []
unfolding Ordered
answers-counted_example =
    answers-counted 2 10 calls
      (omega arith, (omega arith, (omega arith, (omega arith, (omega arith, (omega arith, tt))))))

abbrev failure : WakeEvent
failure = record event {
  id = 72;
  result_code = "driver_failed";
  correlation_id = 73;
  occurred_at = 95;
}

abbrev limited : WakeEvent
limited = record event {
  id = 74;
  result_code = "rate_limited";
  correlation_id = 75;
  occurred_at = 80;
}

-- A mapping whose name would be a formula, with a comma and quotes.
abbrev tricky : ListenerMapping
tricky = record mapping { name = "=A1,\"x\"" }

abbrev busy : Db
busy = record db { wake_events = event ∷ failure ∷ limited ∷ []; listeners = tricky ∷ [] }

abbrev sql : Sql
sql = record {
  ilike = λ t pattern. str_eq (append "%" (append t "%")) pattern;
  uuid_text = decimal;
}

abbrev all_events : WakeFilters
all_events = record {
  result_code = none;
  mapping_id = some 7;
  device_id = none;
  query = none;
  occurred_after = none;
  occurred_before = some 100;
}

pages_test : listed sql 2 all_events busy ≡ failure ∷ limited ∷ event ∷ []
unfolding wake_events
pages_test = refl

busy_ok : constraints busy ≡ true
unfolding constraints users_ok sessions_ok recovery_codes_ok invitations_ok reset_tokens_ok
    devices_ok credentials_ok listeners_ok wake_events_ok smtp_ok settings_ok
busy_ok = refl

wake_events-pages_example :
    (count (λ e. str_eq e.result_code "success") (listed sql 2 all_events busy)
      ≡ count
          (λ e. passes (wake_filters sql all_events) e && str_eq e.result_code "success")
          busy.wake_events)
    × InOrder newer (listed sql 2 all_events busy)
    × ((wake_events sql 1 2 all_events busy).total ≡ length (listed sql 2 all_events busy))
wake_events-pages_example =
    wake_events-pages sql 2 all_events busy (λ e. str_eq e.result_code "success") busy_ok
      (omega arith)

dashboard_test : (dashboard 10 (λ s t. s) 100 5 busy).requests.failed ≡ 1
unfolding dashboard
dashboard_test = refl

dashboard-sums_example :
    (sum_of (λ t. t.success) (dashboard 10 (λ s t. s) 100 5 busy).series
      ≡ (dashboard 10 (λ s t. s) 100 5 busy).requests.success)
    × (sum_of (λ t. t.rate_limited) (dashboard 10 (λ s t. s) 100 5 busy).series
        ≡ (dashboard 10 (λ s t. s) 100 5 busy).requests.rate_limited)
    × (sum_of (λ t. t.failed) (dashboard 10 (λ s t. s) 100 5 busy).series
        ≡ (dashboard 10 (λ s t. s) 100 5 busy).requests.failed)
    × (sum_of (λ t. t.total) (dashboard 10 (λ s t. s) 100 5 busy).series
        ≡ (dashboard 10 (λ s t. s) 100 5 busy).requests.total)
    × ((dashboard 10 (λ s t. s) 100 5 busy).requests.total
        ≡ (dashboard 10 (λ s t. s) 100 5 busy).requests.success
          + (dashboard 10 (λ s t. s) 100 5 busy).requests.rate_limited
          + (dashboard 10 (λ s t. s) 100 5 busy).requests.failed)
dashboard-sums_example = dashboard-sums 10 (λ s t. s) 100 5 busy refl

read_csv-wake_events_csv_example :
    (read_csv (wake_events_csv sql decimal all_events busy)
      ≡ header_row ∷ map (event_row sql decimal) (take 10000 (wake_rows sql all_events busy)))
    × All IsHarmless (map (event_row sql decimal) (take 10000 (wake_rows sql all_events busy)))
read_csv-wake_events_csv_example = read_csv-wake_events_csv sql decimal all_events busy
