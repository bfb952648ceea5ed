-- ===== src/Monitoring.antt =====
-- monitoring/views.py: the metrics of a list of prediction logs.
--
-- A latency is a whole number of picoseconds, every other float a fraction, and a rounded number
-- counts its last digit. What the machine's arithmetic and the database give, which is not exact, is
-- a parameter. A log's other columns are left out.
pub mod Sorting
pub mod Answers
pub mod Views
pub mod Dashboard
pub mod Orders
pub mod Totals
use model_deployer.Base.{
  ℕ, zero, suc, ◌+◌, ◌-◌, ◌*◌, ◌/◌, ◌%◌, String, Bool, true, Option, none, some, List, [], ◌∷◌,
  ◌==◌, not, ltb, leb, length, take, keep_if, str_eq, if◌then◌else◌, ◌>>=◌,
}

pub record Fraction : Type 0 where
  pub num : ℕ
  pub den : ℕ

abbrev pub over : ℕ → ℕ → Fraction
over num den = record { num = num; den = den }

-- Python's `round` to a whole number: a half goes to the even neighbour.
unfoldable pub round_half_even : Fraction → ℕ
round_half_even x =
    let q = x.num / x.den in
    let twice = 2 * (x.num % x.den) in
    if ltb twice x.den then q else if ltb x.den twice then suc q else q + q % 2

-- The arithmetic of floats: `int(n * p)`; `low + (n * p - int(n * p)) * (high - low)`; `x / y` and
-- `x / y * 100`, where y is not 0; `statistics.mean` and the database's `Avg`, of one value or more.
pub record Floats : Type 0 where
  pub whole_part : ℕ → Fraction → ℕ
  pub line : ℕ → Fraction → ℕ → ℕ → Fraction
  pub divide : ℕ → ℕ → Fraction
  pub percent : ℕ → ℕ → Fraction
  pub mean : List ℕ → Fraction
  pub database_avg : List ℕ → Fraction

-- `round(x / y, 4)` and `round(x / y * 100, 2)`, which raise ZeroDivisionError; both count
-- ten-thousandths.
abbrev pub round_ratio : Floats → ℕ → ℕ → Option ℕ
round_ratio fl x zero = none
round_ratio fl x (suc y) =
    let q = fl.divide x (suc y) in some (round_half_even (over (q.num * 10000) q.den))

abbrev pub round_percent : Floats → ℕ → ℕ → Option ℕ
round_percent fl x zero = none
round_percent fl x (suc y) =
    let q = fl.percent x (suc y) in some (round_half_even (over (q.num * 100) q.den))

-- A thousandth of a millisecond, and `round(latency, 3)` in thousandths.
abbrev pub thousandth : ℕ
thousandth = 1000000

abbrev pub round_latency : Fraction → ℕ
round_latency x = round_half_even (over x.num (x.den * thousandth))

-- `values[i]`, which raises IndexError past the end.
unfoldable pub get_elem? : List ℕ → ℕ → Option ℕ
get_elem? [] _ = none
get_elem? (x ∷ xs) zero = some x
get_elem? (x ∷ xs) (suc i) = get_elem? xs i

-- `calculate_percentile`, with `p` a fraction.
unfoldable pub calculate_percentile : Floats → List ℕ → Fraction → Option Fraction
calculate_percentile fl [] p = some (over 0 1)
calculate_percentile fl (x ∷ []) p = some (over x 1)
calculate_percentile fl (x ∷ y ∷ rest) p =
    let values = x ∷ y ∷ rest in
    let f = fl.whole_part (length values - 1) p in
    get_elem? values f >>= λ low.
    (if ltb (f + 1) (length values)
      then (get_elem? values (f + 1) >>= λ high. some (fl.line (length values - 1) p low high))
      else some (over low 1))

-- `sorted`, of numbers.
unfoldable pub insert_sorted : ℕ → List ℕ → List ℕ
insert_sorted x [] = x ∷ []
insert_sorted x (y ∷ ys) = let rest = insert_sorted x ys in if leb x y then x ∷ y ∷ ys else y ∷ rest

unfoldable pub sorted : List ℕ → List ℕ
sorted [] = []
sorted (x ∷ xs) = insert_sorted x (sorted xs)

-- `mean(values) if values else 0.0`
unfoldable pub mean_or_zero : Floats → List ℕ → Fraction
mean_or_zero fl [] = over 0 1
mean_or_zero fl (x ∷ xs) = fl.mean (x ∷ xs)

pub record LogRow : Type 0 where
  pub user : ℕ
  pub model : ℕ
  pub status : String
  pub cache_hit : Bool
  pub latency_ms : Option ℕ
  pub gateway_latency_ms : Option ℕ
  pub runner_compute_ms : Option ℕ
  pub created_at : ℕ

-- The ratio and the rate count ten-thousandths, the latencies thousandths of a millisecond.
pub record Metrics : Type 0 where
  pub total_requests : ℕ
  pub success_count : ℕ
  pub error_count : ℕ
  pub cache_hits : ℕ
  pub cache_hit_ratio : ℕ
  pub success_rate : ℕ
  pub avg_latency_ms : ℕ
  pub p95_latency_ms : ℕ
  pub avg_compute_latency_ms : ℕ
  pub p95_compute_latency_ms : ℕ

abbrev pub no_metrics : Metrics
no_metrics = record {
  total_requests = 0;
  success_count = 0;
  error_count = 0;
  cache_hits = 0;
  cache_hit_ratio = 0;
  success_rate = 0;
  avg_latency_ms = 0;
  p95_latency_ms = 0;
  avg_compute_latency_ms = 0;
  p95_compute_latency_ms = 0;
}

unfoldable pub count_if {ℓ} : {A : Type ℓ} → (A → Bool) → List A → ℕ
count_if p [] = 0
count_if p (x ∷ xs) = (if p x then 1 else 0) + count_if p xs

abbrev pub was_success : LogRow → Bool
was_success log = str_eq log.status "SUCCESS"

abbrev pub was_error : LogRow → Bool
was_error log = str_eq log.status "ERROR"

abbrev pub was_hit : LogRow → Bool
was_hit log = log.cache_hit

-- The values of a column that are not null.
unfoldable pub present {ℓ} : {A : Type ℓ} → (A → Option ℕ) → List A → List ℕ
present column [] = []
present column (x ∷ xs) =
    let rest = present column xs in elim (column x) [ none ↦ rest | some v ↦ v ∷ rest ]

-- The column of `filter(cache_hit=False)`.
abbrev pub compute_of : LogRow → Option ℕ
compute_of log = if log.cache_hit then none else log.runner_compute_ms

-- What both branches return of the counts, the averages and the percentiles.
abbrev pub figures : ℕ → ℕ → ℕ → ℕ → ℕ → ℕ → Fraction → Fraction → Fraction → Fraction → Metrics
figures total successes errors hits ratio rate average gateway average_compute compute = record {
  total_requests = total;
  success_count = successes;
  error_count = errors;
  cache_hits = hits;
  cache_hit_ratio = ratio;
  success_rate = rate;
  avg_latency_ms = round_latency average;
  p95_latency_ms = round_latency gateway;
  avg_compute_latency_ms = round_latency average_compute;
  p95_compute_latency_ms = round_latency compute;
}

unfoldable pub report :
    Floats → ℕ → ℕ → ℕ → ℕ → Fraction → List ℕ → Fraction → List ℕ → Option Metrics
report fl total successes errors hits average gateway_lats average_compute compute_lats =
    round_ratio fl hits total >>= λ ratio. round_percent fl successes total >>= λ rate.
    calculate_percentile fl gateway_lats (over 95 100) >>= λ gateway.
    calculate_percentile fl compute_lats (over 95 100) >>= λ compute.
    some (figures total successes errors hits ratio rate average gateway average_compute compute)

-- The database's `Avg`: null where no row has a value.
unfoldable pub average : Floats → List ℕ → Option Fraction
average fl [] = none
average fl (x ∷ xs) = some (fl.database_avg (x ∷ xs))

-- `average or (mean(values) if values else 0.0)`
unfoldable pub average_or_mean : Floats → Option Fraction → List ℕ → Fraction
average_or_mean fl none values = mean_or_zero fl values
average_or_mean fl (some q) values = if q.num == 0 then mean_or_zero fl values else q

-- `[:5000]`
abbrev pub window : ℕ
window = 5000

-- `if not values: values = other`
unfoldable pub or_other : List ℕ → List ℕ → List ℕ
or_other [] other = other
or_other (v ∷ vs) other = v ∷ vs

-- `gateway_lats`: of the rows with a gateway latency, or else of those with a latency.
unfoldable pub query_latencies : List LogRow → List ℕ
query_latencies rows =
    or_other (sorted (take window (present (λ log. log.gateway_latency_ms) rows)))
      (sorted (take window (present (λ log. log.latency_ms) rows)))

unfoldable pub query_compute : List LogRow → List ℕ
query_compute rows = sorted (take window (present compute_of rows))

-- `_compute_metrics` of a QuerySet, with its rows in order.
unfoldable pub compute_metrics : Floats → List LogRow → Option Metrics
compute_metrics fl [] = some no_metrics
compute_metrics fl (row ∷ rest) =
    let rows = row ∷ rest in
    let gateway_lats = query_latencies rows in
    let compute_lats = query_compute rows in
    report fl (length rows) (count_if was_success rows) (count_if was_error rows)
      (count_if was_hit rows)
      (average_or_mean fl (average fl (present (λ log. log.gateway_latency_ms) rows)) gateway_lats)
      gateway_lats (average_or_mean fl (average fl (present compute_of rows)) compute_lats)
      compute_lats

-- `gateway_latency_ms or latency_ms or 0` and `runner_compute_ms or 0`
unfoldable pub or_else : Option ℕ → ℕ → ℕ
or_else (some (suc v)) w = suc v
or_else _ w = w

abbrev pub latency_of : LogRow → Option ℕ
latency_of log = some (or_else log.gateway_latency_ms (or_else log.latency_ms 0))

-- `_compute_metrics` of a list.
unfoldable pub compute_list_metrics : Floats → List LogRow → Option Metrics
compute_list_metrics fl [] = some no_metrics
compute_list_metrics fl (log ∷ rest) =
    let logs = log ∷ rest in
    let gateway_lats = sorted (present latency_of logs) in
    let compute_lats = sorted (present compute_of logs) in
    report fl (length logs) (count_if was_success logs) (count_if was_error logs)
      (count_if was_hit logs) (mean_or_zero fl gateway_lats) gateway_lats
      (mean_or_zero fl compute_lats) compute_lats
