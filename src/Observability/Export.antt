-- ===== src/Observability/Export.antt =====
-- `ObservabilityService.wake_events_csv` and `_csv_cell` (app/application/observability_service.py),
-- with the writer of Python's `csv` in its default dialect.
pub mod Reader
pub mod Written
use wolt.Prelude.{
  ℕ, String, Bool, true, false, ◌&&◌, ◌||◌, Option, none, some, List, [], ◌∷◌, ◌==◌, take, map,
  append, has_prefix, decimal, if◌then◌else◌,
}
use Prim.Native.Char.{code}
use wolt.Db.{Db}
use wolt.Db.Models.{WakeEvent}
use wolt.Observability.Events.{Sql, WakeFilters, WakeView, wake_rows}

-- `value.startswith(("=", "+", "-", "@"))`
unfoldable pub is_formula : String → Bool
unfolding has_prefix
is_formula value =
    has_prefix "=" value || has_prefix "+" value || has_prefix "-" value || has_prefix "@" value

-- `_csv_cell`
unfoldable pub csv_cell : String → String
unfolding is_formula
csv_cell value = if is_formula value then append "'" value else value

-- The characters for which the writer quotes a field.
abbrev pub is_special : ℕ → Bool
is_special c = c == 44 || c == 34 || c == 13 || c == 10

unfoldable pub needs_quotes : String → Bool
needs_quotes String.[] = false
needs_quotes (String.◌∷◌ c s) = is_special (code c) || needs_quotes s

-- Each quote of a quoted field is written twice.
unfoldable pub double_quotes : String → String
double_quotes String.[] = ""
double_quotes (String.◌∷◌ c s) =
    let rest = double_quotes s in
    if code c == 34 then String.◌∷◌ c (String.◌∷◌ c rest) else String.◌∷◌ c rest

unfoldable pub write_field : String → String
unfolding needs_quotes double_quotes
write_field s = if needs_quotes s then append "\"" (append (double_quotes s) "\"") else s

-- `writer.writerow` of more than one field: commas between them, and the end of the line.
unfoldable pub write_row : List String → String
unfolding write_field
write_row [] = "\r\n"
write_row (f ∷ []) = append (write_field f) "\r\n"
write_row (f ∷ fs) = append (write_field f) (append "," (write_row fs))

unfoldable pub write_rows : List (List String) → String
unfolding write_row
write_rows [] = ""
write_rows (r ∷ rs) = append (write_row r) (write_rows rs)

abbrev pub header_row : List String
header_row =
    "occurred_at" ∷ "result" ∷ "mac_address" ∷ "mapping" ∷ "device" ∷ "source_ip" ∷ "source_port"
    ∷ "duration_ms" ∷ "correlation_id" ∷ []

abbrev pub duration_text : Option ℕ → String
duration_text none = ""
duration_text (some n) = decimal n

-- The row of an event, for a given `isoformat`.
unfoldable pub event_row : Sql → (ℕ → String) → WakeView → List String
unfolding csv_cell
event_row sql isoformat v =
    isoformat v.event.occurred_at
    ∷ csv_cell v.event.result_code
    ∷ v.event.mac_address
    ∷ csv_cell v.mapping_name
    ∷ csv_cell v.device_name
    ∷ v.event.source_ip
    ∷ decimal v.event.source_port
    ∷ duration_text v.event.duration_ms
    ∷ sql.uuid_text v.event.correlation_id
    ∷ []

unfoldable pub wake_events_csv : Sql → (ℕ → String) → WakeFilters → Db → String
unfolding write_rows event_row wake_rows
wake_events_csv sql isoformat f db =
    write_rows (header_row ∷ map (event_row sql isoformat) (take 10000 (wake_rows sql f db)))
