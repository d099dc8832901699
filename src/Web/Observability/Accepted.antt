-- ===== src/Web/Observability/Accepted.antt =====
-- What `UdpRangeRequest` (app/web/observability_routes.py) accepts, the database takes.
use wolt.Prelude.{◌≤◌, not, ◌||◌, ltb, length, All, List, Bool, not, ◌||◌}
use wolt.Db.{Db}
use wolt.Db.Models.{ApplicationSettings, ListenerMapping}
use wolt.Operations.{Context}
use wolt.Observability.Settings.{Published, settings_view, SettingsView}
use wolt.Web.Observability.{UdpRangeRequest}

-- What `update_udp_range` shows when it succeeds.
abbrev new_view : Published → Context → UdpRangeRequest → ApplicationSettings → Db → SettingsView
new_view published ctx p s db =
    settings_view published
      (record s {
        udp_port_start = p.udp_port_start;
        udp_port_end = p.udp_port_end;
        updated_at = ctx.now;
      })
      (length db.listeners)

-- Every mapping's port lies in the range.
abbrev pub HoldsPorts : UdpRangeRequest → List ListenerMapping → Type 0
HoldsPorts p ms = All (λ m. (p.udp_port_start ≤ m.udp_port) × (m.udp_port ≤ p.udp_port_end)) ms

module _ (p : UdpRangeRequest) where
  abbrev is_outside : ListenerMapping → Bool
  is_outside m = ltb m.udp_port p.udp_port_start || ltb p.udp_port_end m.udp_port
