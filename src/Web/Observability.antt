-- ===== src/Web/Observability.antt =====
-- The routes of app/web/observability_routes.py. FastAPI checks the query parameters: pages from 1
-- on, page sizes from 1 to 100, from 1 to 168 hours.
pub mod Guarded
pub mod Accepted
use wolt.Prelude.{
  ℕ, ℤ, String, ◌+◌, ◌-◌, Bool, true, false, ◌&&◌, Option, none, some, leb, ltb, append, between,
  if◌then◌else◌,
}
use wolt.Errors.{Error, Result, ok, err, udp_range_outside_published, udp_range_excludes_listeners}
use wolt.Db.{Db}
use wolt.Auth.{AuthenticatedUser}
use wolt.Engine.{World, Runtime, reconcile_if_active}
use wolt.Observability.Settings.{
  Published, SettingsView, get_settings, update_retention, update_udp_range,
}
use wolt.Observability.Retention.{CleanupResult, cleanup}
use wolt.Observability.Events.{Sql, WakeFilters, WakeView, AuditFilters, Page, wake_events}
use wolt.Observability.Audit.{AuditView, audit_events}
use wolt.Observability.Dashboard.{Dashboard, dashboard}
use wolt.Observability.Export.{wake_events_csv}
use wolt.Web.Access.{
  Response, sent, http_error, uncaught, Site, Request, Route, client_ip, as_user, as_admin,
}
use wolt.Web.Operations.{context, untranslated}

-- `UdpRangeRequest`
pub record UdpRangeRequest : Type 0 where
  pub udp_port_start : ℕ
  pub udp_port_end : ℕ

abbrev pub checked_width : ℕ → ℕ → Option UdpRangeRequest
checked_width udp_start udp_end =
    if ltb udp_end udp_start
    then none
    else if ltb 100 (udp_end - udp_start + 1)
    then none
    else some (record { udp_port_start = udp_start; udp_port_end = udp_end })

abbrev pub checked_ends : Option ℕ → Option ℕ → Option UdpRangeRequest
checked_ends none udp_end = none
checked_ends (some udp_start) none = none
checked_ends (some udp_start) (some udp_end) = checked_width udp_start udp_end

-- The bounds of the two fields, and `validate_range`
unfoldable pub udp_range_request : ℤ → ℤ → Option UdpRangeRequest
udp_range_request udp_start udp_end =
    checked_ends (between 1024 65535 udp_start) (between 1024 65535 udp_end)

-- `RetentionSettingsRequest`
pub record RetentionRequest : Type 0 where
  pub wake_event_retention_days : ℕ
  pub audit_event_retention_days : ℕ
  pub rate_limit_seconds : ℕ

abbrev pub checked_retention : Option ℕ → Option ℕ → Option ℕ → Option RetentionRequest
checked_retention (some wake) (some audit) (some seconds) = some (record {
  wake_event_retention_days = wake;
  audit_event_retention_days = audit;
  rate_limit_seconds = seconds;
})
checked_retention _ _ _ = none

unfoldable pub retention_request : ℤ → ℤ → ℤ → Option RetentionRequest
retention_request wake audit seconds =
    checked_retention (between 1 3650 wake) (between 30 3650 audit) (between 0 3600 seconds)

-- What the services of this router are made with, and the number of clock units in an hour and a day.
pub record Reports : Type 0 where
  pub sql : Sql
  pub isoformat : ℕ → String
  pub rounded : ℕ → ℕ → ℕ
  pub published : Published
  pub hour : ℕ
  pub day : ℕ

pub data ReportCall : Type 0 where
  get_dashboard : ℕ → ReportCall
  get_events : ℕ → ℕ → WakeFilters → ReportCall
  export_events : WakeFilters → ReportCall
  get_audit : ℕ → ℕ → AuditFilters → ReportCall
  get_settings_view : ReportCall
  put_retention : RetentionRequest → ReportCall
  put_udp_range : UdpRangeRequest → ReportCall
  -- with the answer of the advisory lock
  run_retention : Bool → ReportCall

pub data Report : Type 0 where
  numbers : Dashboard → Report
  events : Page WakeView → Report
  file : String → Report
  audits : Page AuditView → Report
  settings : SettingsView → Report
  removed : CleanupResult → Report

abbrev pub reconciled : {A : Type 0} → A → Result Unit × World → Response A × World
reconciled a (ok _, w) = (sent a, w)
reconciled a (err e, w) = (uncaught e, w)

-- A route that reconciles the runtime outside a `try`; `refused` translates what its service raises.
unfoldable pub after_service :
    Site → (Error → Response Report) → Result SettingsView × Db → Runtime → Response Report × World
after_service site refused (err e, db) rt = (refused e, record { db = db; runtime = rt })
after_service site refused (ok view, db) rt =
    reconciled (settings view)
      (reconcile_if_active site.host site.failures_text (record { db = db; runtime = rt }))

unfoldable pub range_refused : Error → Response Report
range_refused udp_range_outside_published = http_error 422 "udp_range_outside_published_range"
range_refused udp_range_excludes_listeners = http_error 409 "udp_range_excludes_existing_listeners"
range_refused e = uncaught e

unfoldable pub handle_report : Reports → Site → Request → ReportCall → Route Report
unfolding as_user as_admin after_service range_refused
handle_report r site q (get_dashboard hours) =
    as_user site q
      (λ u w. (sent (numbers (dashboard r.hour r.rounded site.host.now hours w.db)), w))
handle_report r site q (get_events page page_size f) =
    as_user site q (λ u w. (sent (events (wake_events r.sql page page_size f w.db)), w))
handle_report r site q (export_events f) =
    as_user site q
      (λ u w. (sent (file (append "\u{feff}" (wake_events_csv r.sql r.isoformat f w.db))), w))
handle_report r site q (get_audit page page_size f) =
    as_admin site q (λ u w. (sent (audits (audit_events r.sql page page_size f w.db)), w))
handle_report r site q get_settings_view =
    as_admin site q (λ u w. (untranslated settings (get_settings r.published w.db), w))
handle_report r site q (put_retention p) = as_admin site q (λ u w.
    after_service site uncaught
      (update_retention r.published (context site q u) p.wake_event_retention_days
        p.audit_event_retention_days p.rate_limit_seconds w.db)
      w.runtime)
handle_report r site q (put_udp_range p) = as_admin site q (λ u w.
    after_service site range_refused
      (update_udp_range r.published (context site q u) p.udp_port_start p.udp_port_end w.db)
      w.runtime)
handle_report r site q (run_retention acquired) = as_admin site q (λ u w.
    let x = cleanup r.day site.host.now acquired w.db in
    (untranslated removed x.0, record w { db = x.1 }))
