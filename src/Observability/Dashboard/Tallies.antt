-- ===== src/Observability/Dashboard/Tallies.antt =====
-- What the counts by result code (app/application/observability_service.py) come to.
use wolt.Prelude.{
  suc, String, ◌+◌, Bool, true, false, List, [], ◌∷◌, ◌≡◌, refl, ap, ◌∙◌, str_eq, str_eq_iff, count,
  length, if◌then◌else◌, arith,
}
use wolt.Db.Models.{WakeEvent}
use wolt.Observability.Events.{is_failure}
use wolt.Observability.Dashboard.{Counts, add_one, group_counts, sum_values, get_count, tally}

abbrev pub has_code : String → WakeEvent → Bool
has_code code e = str_eq e.result_code code

sum_values-add_one : (code : String) (d : Counts) → sum_values (add_one code d) ≡ suc (sum_values d)
unfolding sum_values add_one
sum_values-add_one code [] = omega arith
sum_values-add_one code ((c, n) ∷ d) = ground (arith, sum_values-add_one code d)

get_count-add_one :
    (code k : String) (d : Counts)
    → get_count k (add_one code d) ≡ (if str_eq code k then suc (get_count k d) else get_count k d)
unfolding get_count add_one
get_count-add_one code k [] = ground arith
get_count-add_one code k ((c, n) ∷ d) =
    ground (arith, str_eq_iff code k, str_eq_iff c code, str_eq_iff c k, get_count-add_one code k d)

pub tally-total : (es : List WakeEvent) → (tally es).total ≡ length es
unfolding tally group_counts sum_values
tally-total [] = refl
tally-total (e ∷ es) =
    sum_values-add_one e.result_code (group_counts es) ∙ ap (λ n. suc n) (tally-total es)

pub get_count-group_counts :
    (code : String) (es : List WakeEvent)
    → get_count code (group_counts es) ≡ count (has_code code) es
unfolding group_counts get_count
get_count-group_counts code [] = refl
get_count-group_counts code (e ∷ es) =
    ground (
      arith,
      get_count-add_one e.result_code code (group_counts es),
      get_count-group_counts code es,
    )

codes_differ : (code : String) → str_eq code "success" ≡ true → str_eq code "rate_limited" ≡ false
codes_differ code h = rw ((str_eq_iff code "success").0 h) refl

-- Each event has one of the two codes, or is a failure.
pub length_parts :
    (es : List WakeEvent)
    → length es
      ≡ count (has_code "success") es + count (has_code "rate_limited") es + count is_failure es
length_parts [] = omega arith
length_parts (e ∷ es) = ground (arith, codes_differ e.result_code, length_parts es)

pub tally-failed : (es : List WakeEvent) → (tally es).failed ≡ count is_failure es
unfolding tally
tally-failed es = omega (
  arith,
  tally-total es,
  length_parts es,
  get_count-group_counts "success" es,
  get_count-group_counts "rate_limited" es,
)

pub length-count : {A : Type 0} (xs : List A) → length xs ≡ count (λ _. true) xs
length-count [] = refl
length-count (x ∷ xs) = omega (arith, length-count xs)
