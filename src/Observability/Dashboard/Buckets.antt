-- ===== src/Observability/Dashboard/Buckets.antt =====
-- The numbers of the dashboard (app/application/observability_service.py) against each other and
-- against the list of events.
use wolt.Prelude.{
  ℕ, zero, suc, ◌+◌, ◌-◌, ◌*◌, ◌≤◌, Bool, true, false, ◌&&◌, none, some, List, [], ◌∷◌, ◌++◌, ◌≡◌,
  refl, sym, ◌∙◌, leb, ltb, count, select, arith,
}
use native.Mathlib.Nat.{suc-mul, zero-mul}
use wolt.Db.{Db, every}
use wolt.Db.Models.{WakeEvent}
use wolt.Observability.Events.{
  Sql, WakeFilters, is_failure, wake_events, wake_filters, passes, result_filter,
}
use wolt.Observability.Events.Paging.{count-select}
use wolt.Observability.Dashboard.{Tally, tally, is_since, in_bucket, series, dashboard}
use wolt.Observability.Dashboard.Tallies.{
  has_code, tally-total, get_count-group_counts, length_parts, tally-failed, length-count,
}

-- The sum of a number of the tallies.
abbrev pub sum_of : (Tally → ℕ) → List Tally → ℕ
sum_of f [] = 0
sum_of f (t ∷ ts) = f t + sum_of f ts

sum_of_end :
    (f : Tally → ℕ) (ts : List Tally) (t : Tally) → sum_of f (ts ++ (t ∷ [])) ≡ sum_of f ts + f t
sum_of_end f [] t = omega arith
sum_of_end f (u ∷ ts) t = omega (arith, sum_of_end f ts t)

-- From the start on and before the bucket of index `n`.
abbrev before_bucket : ℕ → ℕ → ℕ → ℕ → WakeEvent → Bool
before_bucket hour now hours n e =
    leb now (e.occurred_at + hours * hour) && ltb (e.occurred_at + hours * hour) (now + n * hour)

count_none : {A : Type 0} (p : A → Bool) (xs : List A) → ((a : A) → p a ≡ false) → count p xs ≡ 0
count_none p [] h = refl
count_none p (x ∷ xs) h = ground (arith, h x, count_none p xs h)

module _ (hour now hours : ℕ) (p : WakeEvent → Bool) where
  count_next :
      (n : ℕ) (es : List WakeEvent)
      → count (λ e. before_bucket hour now hours (suc n) e && p e) es
        ≡ count (λ e. before_bucket hour now hours n e && p e) es
          + count (λ e. in_bucket hour now hours n e && p e) es
  count_next n [] = omega arith
  count_next n (e ∷ es) = ground (arith, suc-mul n hour, count_next n es)

  -- A number of the tally that counts the events of a test adds up over the buckets.
  sum_of-series :
      (f : Tally → ℕ) (es : List WakeEvent)
      → ((xs : List WakeEvent) → f (tally xs) ≡ count p xs)
      → (n : ℕ)
      → sum_of f (series hour now hours es n)
        ≡ count (λ e. before_bucket hour now hours n e && p e) es
  unfolding series
  sum_of-series f es h zero = sym (
      count_none (λ e. before_bucket hour now hours zero e && p e) es
        (λ e. ground (arith, zero-mul hour)))
  sum_of-series f es h (suc n) =
      let bucket = select (in_bucket hour now hours n) es in
      omega (
        arith,
        sum_of_end f (series hour now hours es n) (tally bucket),
        sum_of-series f es h n,
        h bucket,
        count-select p (in_bucket hour now hours n) es,
        count_next n es,
      )

  count_past :
      (es : List WakeEvent)
      → count (λ e. leb now e.occurred_at) es ≡ 0
      → count (λ e. before_bucket hour now hours hours e && p e) es
        ≡ count (λ e. is_since hour now hours e && p e) es
  count_past [] h = refl
  count_past (e ∷ es) h = ground (arith, count_past es)

  sum_of-dashboard :
      (f : Tally → ℕ) (rounded : ℕ → ℕ → ℕ) (db : Db)
      → ((xs : List WakeEvent) → f (tally xs) ≡ count p xs)
      → count (λ e. leb now e.occurred_at) db.wake_events ≡ 0
      → sum_of f (dashboard hour rounded now hours db).series
        ≡ f (dashboard hour rounded now hours db).requests
  unfolding dashboard
  sum_of-dashboard f rounded db h past =
      sum_of-series f db.wake_events h hours
      ∙ count_past db.wake_events past
      ∙ sym (count-select p (is_since hour now hours) db.wake_events)
      ∙ sym (h (select (is_since hour now hours) db.wake_events))

-- Where no stored event lies at or after the time of the call, the numbers of the dashboard's hourly
-- buckets add up to those of the whole period: successes, rate-limited and failed requests, and
-- all requests; and in the whole period these three kinds add up to all requests.
pub dashboard-sums :
    (hour : ℕ) (rounded : ℕ → ℕ → ℕ) (now hours : ℕ) (db : Db)
    → count (λ e. leb now e.occurred_at) db.wake_events ≡ 0
    → (sum_of (λ t. t.success) (dashboard hour rounded now hours db).series
        ≡ (dashboard hour rounded now hours db).requests.success)
      × (sum_of (λ t. t.rate_limited) (dashboard hour rounded now hours db).series
          ≡ (dashboard hour rounded now hours db).requests.rate_limited)
      × (sum_of (λ t. t.failed) (dashboard hour rounded now hours db).series
          ≡ (dashboard hour rounded now hours db).requests.failed)
      × (sum_of (λ t. t.total) (dashboard hour rounded now hours db).series
          ≡ (dashboard hour rounded now hours db).requests.total)
      × ((dashboard hour rounded now hours db).requests.total
          ≡ (dashboard hour rounded now hours db).requests.success
            + (dashboard hour rounded now hours db).requests.rate_limited
            + (dashboard hour rounded now hours db).requests.failed)
unfolding dashboard
dashboard-sums hour rounded now hours db past =
    let es = select (is_since hour now hours) db.wake_events in
    (
      sum_of-dashboard hour now hours (has_code "success") (λ t. t.success) rounded db
          (get_count-group_counts "success") past,
      sum_of-dashboard hour now hours (has_code "rate_limited") (λ t. t.rate_limited) rounded db
          (get_count-group_counts "rate_limited") past,
      sum_of-dashboard hour now hours is_failure (λ t. t.failed) rounded db tally-failed past,
      sum_of-dashboard hour now hours (λ _. true) (λ t. t.total) rounded db
          (λ xs. tally-total xs ∙ length-count xs) past,
      omega (
        arith,
        tally-total es,
        tally-failed es,
        length_parts es,
        get_count-group_counts "success" es,
        get_count-group_counts "rate_limited" es,
      ),
    )

-- The filters of the events page for failed requests since a time.
abbrev pub failed_since : ℕ → WakeFilters
failed_since start = record {
  result_code = some "failed";
  mapping_id = none;
  device_id = none;
  query = none;
  occurred_after = some start;
  occurred_before = none;
}

-- Where the period does not reach back behind time zero, the dashboard's number of failed requests
-- is the total that the events page shows with the filter "failed" from the start of the period
-- on, for every page and page size.
pub dashboard-failed :
    (hour : ℕ) (rounded : ℕ → ℕ → ℕ) (now hours : ℕ) (db : Db) (sql : Sql) (page page_size : ℕ)
    → hours * hour ≤ now
    → (dashboard hour rounded now hours db).requests.failed
      ≡ (wake_events sql page page_size (failed_since (now - hours * hour)) db).total
unfolding dashboard wake_events wake_filters passes result_filter every
dashboard-failed hour rounded now hours db sql page page_size h =
    tally-failed (select (is_since hour now hours) db.wake_events)
    ∙ count-select is_failure (is_since hour now hours) db.wake_events
    ∙ same_tests db.wake_events
  where
    same_tests :
        (es : List WakeEvent)
        → count (λ e. is_since hour now hours e && is_failure e) es
          ≡ count (passes (wake_filters sql (failed_since (now - hours * hour)))) es
    same_tests [] = refl
    same_tests (e ∷ es) = ground (arith, h, same_tests es)
