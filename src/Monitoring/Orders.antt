-- ===== src/Monitoring/Orders.antt =====
-- `_compute_metrics` of monitoring/views.py: the branch for a query agrees with the branch for a
-- list on all but the averages, and the latter does not see the order of the logs.
use mathlib.Core.List.{Perm}
use model_deployer.Base.{
  ℕ, zero, suc, ◌≤◌, ◌≡◌, ◌≢◌, refl, sym, ap, ◌∙◌, Option, none, some, List, [], ◌∷◌, arith, length,
  All, take, ◌>>=◌,
}
use model_deployer.Monitoring.{
  Floats, Fraction, over, count_if, was_success, was_error, was_hit, report, compute_metrics,
  compute_list_metrics, Metrics, LogRow, sorted, query_latencies, query_compute, no_metrics,
  or_other, present, window, mean_or_zero, latency_of, or_else, compute_of, round_ratio,
  round_percent, calculate_percentile, figures,
}
use model_deployer.Monitoring.Sorting.{
  length-Perm, count_if-Perm, sorted-present-Perm, length-present, length-sorted,
}

take_all {ℓ} : {A : Type ℓ} (n : ℕ) (xs : List A) → length xs ≤ n → take n xs ≡ xs
take_all zero [] h = refl
take_all (suc n) [] h = refl
take_all zero (x ∷ xs) h = absurd (omega arith)
take_all (suc n) (x ∷ xs) h = ap (◌∷◌ x) (take_all n xs (omega arith))

-- The metrics of a list, from the counts and the sorted columns.
tally : Floats → ℕ → ℕ → ℕ → ℕ → List ℕ → List ℕ → Option Metrics
tally fl zero successes errors hits lats compute = some no_metrics
tally fl (suc n) successes errors hits lats compute =
    report fl (suc n) successes errors hits (mean_or_zero fl lats) lats (mean_or_zero fl compute)
      compute

of_list : Floats → List LogRow → Option Metrics
of_list fl logs =
    tally fl (length logs) (count_if was_success logs) (count_if was_error logs)
      (count_if was_hit logs) (sorted (present latency_of logs)) (sorted (present compute_of logs))

compute_list_metrics-tally :
    (fl : Floats) (logs : List LogRow) → compute_list_metrics fl logs ≡ of_list fl logs
unfolding compute_list_metrics of_list tally
compute_list_metrics-tally fl [] = refl
compute_list_metrics-tally fl (log ∷ rest) = refl

of_list-Perm :
    (fl : Floats) {logs logs' : List LogRow} → Perm logs logs' → of_list fl logs ≡ of_list fl logs'
unfolding of_list
of_list-Perm fl p =
    rw
      (
        length-Perm p,
        count_if-Perm was_success p,
        count_if-Perm was_error p,
        count_if-Perm was_hit p,
        sorted-present-Perm latency_of p,
        sorted-present-Perm compute_of p,
      )
      refl

-- The metrics of a list of logs do not depend on the order of the logs, whatever the arithmetic of
-- floats gives.
pub compute_list_metrics-Perm :
    (fl : Floats) (logs logs' : List LogRow)
    → Perm logs logs'
    → compute_list_metrics fl logs ≡ compute_list_metrics fl logs'
compute_list_metrics-Perm fl logs logs' p =
    compute_list_metrics-tally fl logs
    ∙ of_list-Perm fl p
    ∙ sym (compute_list_metrics-tally fl logs')

-- What `serve` of the gateway writes: one number for both latencies.
abbrev pub Timed : LogRow → Type 0
Timed log = (v : ℕ) × (log.gateway_latency_ms ≡ some v) × (log.latency_ms ≡ some v)

or_else_same : (v : ℕ) → or_else (some v) (or_else (some v) 0) ≡ v
unfolding or_else
or_else_same zero = refl
or_else_same (suc v) = refl

present-latency_of :
    (rows : List LogRow)
    → All Timed rows
    → present (λ log. log.gateway_latency_ms) rows ≡ present latency_of rows
unfolding present or_else
present-latency_of [] h = refl
present-latency_of (row ∷ rest) (t, h) =
    rw (t.1, t.2, present-latency_of rest h)
      (ap (λ v. v ∷ present latency_of rest) (sym (or_else_same t.0)))

or_other_left : (l other : List ℕ) → length l ≢ 0 → or_other l other ≡ l
unfolding or_other
or_other_left [] other h = absurd (h refl)
or_other_left (v ∷ vs) other h = refl

latencies_left :
    (row : LogRow) (rest : List LogRow) (other : List ℕ)
    → or_other (sorted (present latency_of (row ∷ rest))) other
      ≡ sorted (present latency_of (row ∷ rest))
unfolding present
latencies_left row rest other =
    or_other_left _ other (omega (arith, length-sorted (present latency_of (row ∷ rest))))

-- All but the averages, which the database computes for a query and Python for a list.
abbrev pub but_averages : Option Metrics → Option Metrics
but_averages none = none
but_averages (some m) = some (record m { avg_latency_ms = 0; avg_compute_latency_ms = 0 })

report_averages :
    (fl : Floats) (total successes errors hits : ℕ) (a b c d : Fraction) (lats computes : List ℕ)
    → but_averages (report fl total successes errors hits a lats b computes)
      ≡ but_averages (report fl total successes errors hits c lats d computes)
unfolding report
report_averages fl total successes errors hits a b c d lats computes =
    go (round_ratio fl hits total) (round_percent fl successes total)
      (calculate_percentile fl lats (over 95 100)) (calculate_percentile fl computes (over 95 100))
  where
    go :
        (ratio rate : Option ℕ) (x y : Option Fraction)
        → but_averages (
            ratio >>= λ r. rate >>= λ s.
            x >>= λ p. y >>= λ q. some (figures total successes errors hits r s a p b q))
          ≡ but_averages (
              ratio >>= λ r. rate >>= λ s.
              x >>= λ p. y >>= λ q. some (figures total successes errors hits r s c p d q))
    go none rate x y = refl
    go (some r) none x y = refl
    go (some r) (some s) none y = refl
    go (some r) (some s) (some p) none = refl
    go (some r) (some s) (some p) (some q) = refl

-- For at most 5000 rows, each with one number for both latencies, the branch of `_compute_metrics`
-- for a query and the branch for a list return the same metrics, but for the two averages: the
-- counts, the ratios and the percentiles are the same.
pub compute_metrics_agrees :
    (fl : Floats) (rows : List LogRow)
    → All Timed rows
    → length rows ≤ window
    → but_averages (compute_metrics fl rows) ≡ but_averages (compute_list_metrics fl rows)
unfolding compute_metrics compute_list_metrics query_latencies query_compute
compute_metrics_agrees fl [] t h = refl
compute_metrics_agrees fl (row ∷ rest) t h =
    rw
      (
        whole compute_of,
        whole (λ log. log.gateway_latency_ms),
        present-latency_of (row ∷ rest) t,
        latencies_left row rest
            (sorted (take window (present (λ log. log.latency_ms) (row ∷ rest)))),
      )
      (report_averages fl _ _ _ _ _ _ _ _ _ _)
  where
    whole : (c : LogRow → Option ℕ) → take window (present c (row ∷ rest)) ≡ present c (row ∷ rest)
    whole c = take_all window _ (omega (arith, length-present c (row ∷ rest)))
