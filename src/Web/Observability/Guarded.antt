-- ===== src/Web/Observability/Guarded.antt =====
-- Who can run the routes of app/web/observability_routes.py.
use wolt.Prelude.{Bool}
use wolt.Auth.{AuthenticatedUser}
use wolt.Engine.{World}
use wolt.Web.Access.{Site, Request, is_admin}
use wolt.Web.Access.Guarded.{IsGuarded, anyone, as_user-IsGuarded, as_admin-IsGuarded}
use wolt.Web.Observability.{
  Reports, ReportCall, get_dashboard, get_events, export_events, get_audit, get_settings_view,
  put_retention, put_udp_range, run_retention, handle_report,
}

-- Every user may see the events; the audit log and the settings take an owner or an administrator.
abbrev pub required : ReportCall → AuthenticatedUser → Bool
required (get_dashboard _) = anyone
required (get_events _ _ _) = anyone
required (export_events _) = anyone
required _ = is_admin

-- Each route either was called with the cookie of a live session of an enabled user who has the role
-- that the route takes, or it answers without a body and leaves the database and the runtime as
-- they were.
pub handle_report-IsGuarded :
    (r : Reports) (site : Site) (q : Request) (c : ReportCall) (w : World)
    → IsGuarded site q (required c) w (handle_report r site q c w)
unfolding handle_report
handle_report-IsGuarded r site q (get_dashboard hours) w = as_user-IsGuarded site q w _
handle_report-IsGuarded r site q (get_events page size f) w = as_user-IsGuarded site q w _
handle_report-IsGuarded r site q (export_events f) w = as_user-IsGuarded site q w _
handle_report-IsGuarded r site q (get_audit page size f) w = as_admin-IsGuarded site q w _
handle_report-IsGuarded r site q get_settings_view w = as_admin-IsGuarded site q w _
handle_report-IsGuarded r site q (put_retention p) w = as_admin-IsGuarded site q w _
handle_report-IsGuarded r site q (put_udp_range p) w = as_admin-IsGuarded site q w _
handle_report-IsGuarded r site q (run_retention acquired) w = as_admin-IsGuarded site q w _
