-- ===== src/Observability/Settings.antt =====
-- `ObservabilityService.update_udp_range`, `update_retention` and `_settings_view`.
use wolt.Prelude.{ℕ, ◌+◌, ◌-◌, true, false, not, ◌||◌, none, some, ◌==◌, ltb, count, length}
use wolt.Errors.{
  Result, ok, err, or_raise, resource_not_found, udp_range_outside_published,
  udp_range_excludes_listeners,
}
use wolt.Json.{Fields, end, field, number, object}
use wolt.Db.{Db}
use wolt.Db.Models.{ApplicationSettings, ObjectId}
use wolt.Db.Session.{Tx, ◌>>=◌, ◌>>◌, pure, raise_if, gets, lift, modify, commit, with_session}
use wolt.Operations.{Context, audit, add_audit}

-- The UDP range that the deployment publishes.
pub record Published : Type 0 where
  pub udp_start : ℕ
  pub udp_end : ℕ

pub record SettingsView : Type 0 where
  pub settings : ApplicationSettings
  pub published : Published
  pub udp_port_capacity : ℕ
  pub udp_ports_used : ℕ

abbrev pub settings_view : Published → ApplicationSettings → ℕ → SettingsView
settings_view published s used = record {
  settings = s;
  published = published;
  udp_port_capacity = s.udp_port_end + 1 - s.udp_port_start;
  udp_ports_used = used;
}

-- `settings`
unfoldable pub get_settings : Published → Db → Result SettingsView
get_settings published db = elim db.settings [
  | none ↦ err resource_not_found
  | some s ↦ ok (settings_view published s (length db.listeners))
]

-- The mappings whose port lies outside a range.
abbrev pub outside_count : ℕ → ℕ → Db → ℕ
outside_count udp_start udp_end db =
    count (λ m. ltb m.udp_port udp_start || ltb udp_end m.udp_port) db.listeners

abbrev pub range_fields : ℕ → ℕ → Fields
range_fields udp_start udp_end =
    field "udp_port_start" (number udp_start) (field "udp_port_end" (number udp_end) end)

unfoldable pub update_udp_range_tx : Published → Context → ℕ → ℕ → Tx SettingsView
unfolding audit
update_udp_range_tx published ctx udp_start udp_end = do
  settings ← (λ db. lift (or_raise db.settings resource_not_found) db)
  outside ← gets (outside_count udp_start udp_end)
  raise_if (not (outside == 0)) udp_range_excludes_listeners
  let changed = record settings {
    udp_port_start = udp_start;
    udp_port_end = udp_end;
    updated_at = ctx.now;
  }
  modify (λ db. record db { settings = some changed })
  modify (
      add_audit (
        audit ctx "settings.udp_range_updated" "application_settings" (ObjectId.literal "1") (
          field "previous" (object (range_fields settings.udp_port_start settings.udp_port_end))
            (field "current" (object (range_fields udp_start udp_end)) end))))
  commit
  used ← gets (λ db. length db.listeners)
  pure (settings_view published changed used)

unfoldable pub update_udp_range : Published → Context → ℕ → ℕ → Db → Result SettingsView × Db
unfolding update_udp_range_tx
update_udp_range published ctx udp_start udp_end db =
    elim (ltb udp_start published.udp_start || ltb published.udp_end udp_end) [
      | true ↦ (err udp_range_outside_published, db)
      | false ↦ with_session (update_udp_range_tx published ctx udp_start udp_end) db
    ]

unfoldable pub update_retention_tx : Published → Context → ℕ → ℕ → ℕ → Tx SettingsView
unfolding audit
update_retention_tx published ctx wake_days audit_days rate_limit_seconds = do
  settings ← (λ db. lift (or_raise db.settings resource_not_found) db)
  let changed = record settings {
    rate_limit_seconds = rate_limit_seconds;
    wake_event_retention_days = wake_days;
    audit_event_retention_days = audit_days;
    updated_at = ctx.now;
  }
  modify (λ db. record db { settings = some changed })
  modify (
      add_audit (
        audit ctx "settings.retention_updated" "application_settings" (ObjectId.literal "1") (
          field "wake_event_retention_days" (number wake_days) (
            field "audit_event_retention_days" (number audit_days)
              (field "rate_limit_seconds" (number rate_limit_seconds) end)))))
  commit
  used ← gets (λ db. length db.listeners)
  pure (settings_view published changed used)

unfoldable pub update_retention : Published → Context → ℕ → ℕ → ℕ → Db → Result SettingsView × Db
unfolding update_retention_tx
update_retention published ctx wake_days audit_days rate_limit_seconds db =
    with_session (update_retention_tx published ctx wake_days audit_days rate_limit_seconds) db
