-- ===== src/Observability/Dashboard.antt =====
-- `ObservabilityService.dashboard` (app/application/observability_service.py).
pub mod Tallies
pub mod Buckets
use wolt.Prelude.{
  ℕ, zero, suc, String, ◌+◌, ◌-◌, ◌*◌, Bool, true, false, ◌&&◌, ◌||◌, Option, none, some, List, [],
  ◌∷◌, ◌++◌, ◌==◌, str_eq, leb, ltb, count, select, take, length, sort_by, if◌then◌else◌,
}
use wolt.Db.{Db}
use wolt.Db.Models.{WakeEvent, Device, Health}
use wolt.Observability.Events.{WakeView, join_names}

-- The rows of `SELECT result_code, count(*) … GROUP BY result_code`, as a dictionary.
abbrev pub Counts : Type 0
Counts = List (String × ℕ)

unfoldable pub add_one : String → Counts → Counts
add_one code [] = (code, 1) ∷ []
add_one code ((c, n) ∷ d) =
    let rest = add_one code d in if str_eq c code then (c, suc n) ∷ d else (c, n) ∷ rest

unfoldable pub group_counts : List WakeEvent → Counts
unfolding add_one
group_counts [] = []
group_counts (e ∷ es) = add_one e.result_code (group_counts es)

-- `sum(grouped.values())`
unfoldable pub sum_values : Counts → ℕ
sum_values [] = 0
sum_values ((c, n) ∷ d) = n + sum_values d

-- `grouped.get(code, 0)`
unfoldable pub get_count : String → Counts → ℕ
get_count code [] = 0
get_count code ((c, n) ∷ d) = if str_eq c code then n else get_count code d

pub record Tally : Type 0 where
  pub success : ℕ
  pub rate_limited : ℕ
  pub failed : ℕ
  pub total : ℕ

unfoldable pub tally : List WakeEvent → Tally
unfolding group_counts sum_values get_count
tally es =
    let grouped = group_counts es in
    let total = sum_values grouped in
    let success = get_count "success" grouped in
    let limited = get_count "rate_limited" grouped in
    record {
      success = success;
      rate_limited = limited;
      failed = total - success - limited;
      total = total;
    }

-- `occurred_at >= start`, for `start = end - timedelta(hours=hours)`, with the difference moved to
-- the other side. An hour is `hour` units of time.
abbrev pub is_since : ℕ → ℕ → ℕ → WakeEvent → Bool
is_since hour now hours e = leb now (e.occurred_at + hours * hour)

-- The bucket of an index: from `start + index` hours on, and before an hour later.
abbrev pub in_bucket : ℕ → ℕ → ℕ → ℕ → WakeEvent → Bool
in_bucket hour now hours index e =
    leb (now + index * hour) (e.occurred_at + hours * hour)
    && ltb (e.occurred_at + hours * hour) (now + index * hour + hour)

-- `range(hours)`, up to an index.
unfoldable pub series : ℕ → ℕ → ℕ → List WakeEvent → ℕ → List Tally
unfolding tally
series hour now hours es zero = []
series hour now hours es (suc n) =
    series hour now hours es n ++ (tally (select (in_bucket hour now hours n) es) ∷ [])

abbrev pub is_healthy : Device → Bool
is_healthy d = elim d.health_status [ Health.healthy ↦ true | _ ↦ false ]

pub record Dashboard : Type 0 where
  pub period_hours : ℕ
  pub requests : Tally
  -- in tenths of a percent
  pub success_rate : Option ℕ
  pub healthy_devices : ℕ
  pub total_devices : ℕ
  pub series : List Tally
  pub recent_events : List WakeView

-- `round((successes / total) * 100, 1) if total else None`, for a given rounding.
abbrev pub rate_of : (ℕ → ℕ → ℕ) → ℕ → ℕ → Option ℕ
rate_of rounded success total = if total == 0 then none else some (rounded success total)

-- At the time `now`. Where events of one time are in the way, the order of SQL is not fixed: this is
-- one of its orders.
unfoldable pub dashboard : ℕ → (ℕ → ℕ → ℕ) → ℕ → ℕ → Db → Dashboard
unfolding tally series sort_by join_names
dashboard hour rounded now hours db =
    let requests = tally (select (is_since hour now hours) db.wake_events) in
    record {
      period_hours = hours;
      requests = requests;
      success_rate = rate_of rounded requests.success requests.total;
      healthy_devices = count is_healthy db.devices;
      total_devices = length db.devices;
      series = series hour now hours db.wake_events hours;
      recent_events =
          take 8 (join_names db (sort_by (λ a b. leb b.occurred_at a.occurred_at) db.wake_events));
    }
