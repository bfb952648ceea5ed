-- ===== src/Tests/Monitors.antt =====
-- Runs of monitoring/views.py on a few rows.
use model_deployer.Base.{
  ℕ, ◌+◌, ◌-◌, ◌/◌, ◌%◌, ◌*◌, arith, ◌≤◌, ◌≡◌, ◌*◌, refl, true, false, none, some, List, [], ◌∷◌,
  length, min,
}
use mathlib.Core.List.Perm
use model_deployer.Base.Int.{negsuc, pos}
use model_deployer.Monitoring.{
  Floats, over, compute_list_metrics, LogRow, compute_metrics, calculate_percentile, report,
  query_latencies, or_other, sorted, present, insert_sorted, get_elem?, query_compute, count_if,
  round_half_even, average_or_mean, average,
}
use model_deployer.Monitoring.Orders.{
  but_averages, compute_metrics_agrees, compute_list_metrics-Perm,
}
use model_deployer.Monitoring.Views.{Tables, logs_of, newest_first, insert_newest}
use model_deployer.Monitoring.Dashboard.{parsed, recent_predictions, clamp_limit}
use model_deployer.Monitoring.Answers.{Newest, recent_predictions-Newest}

-- Latencies in milliseconds.
abbrev ms : ℕ
ms = 1000000000

abbrev served : ℕ → ℕ → LogRow
served user at = record {
  user = user;
  model = 1;
  status = "SUCCESS";
  cache_hit = false;
  latency_ms = some (3 * ms);
  gateway_latency_ms = some (3 * ms);
  runner_compute_ms = some (2 * ms);
  created_at = at;
}

abbrev hit : ℕ → LogRow
hit at = record {
  user = 7;
  model = 1;
  status = "SUCCESS";
  cache_hit = true;
  latency_ms = some 0;
  gateway_latency_ms = some 0;
  runner_compute_ms = none;
  created_at = at;
}

abbrev broke : ℕ → LogRow
broke at = record {
  user = 7;
  model = 2;
  status = "ERROR";
  cache_hit = false;
  latency_ms = some (9 * ms);
  gateway_latency_ms = some (9 * ms);
  runner_compute_ms = none;
  created_at = at;
}

abbrev rows : List LogRow
rows = served 7 30 ∷ hit 20 ∷ broke 10 ∷ []

abbrev sum : List ℕ → ℕ
sum [] = 0
sum (x ∷ xs) = x + sum xs

-- An arithmetic without rounding.
abbrev exact : Floats
exact = record {
  whole_part = λ n p. n * p.num / p.den;
  line = λ n p low high. over (low * (p.den - n * p.num % p.den) + n * p.num % p.den * high) p.den;
  divide = λ x y. over x y;
  percent = λ x y. over (x * 100) y;
  mean = λ values. over (sum values) (length values);
  database_avg = λ values. over (sum values) (length values);
}

three_metrics :
    compute_metrics exact rows
    ≡ some (record {
      total_requests = 3;
      success_count = 2;
      error_count = 1;
      cache_hits = 1;
      cache_hit_ratio = 3333;
      success_rate = 6667;
      avg_latency_ms = 4000;
      p95_latency_ms = 8400;
      avg_compute_latency_ms = 2000;
      p95_compute_latency_ms = 2000;
    })
unfolding compute_metrics report calculate_percentile query_latencies or_other sorted present
    insert_sorted get_elem? query_compute count_if round_half_even average_or_mean average
three_metrics = refl

compute_metrics_agrees_example :
    but_averages (compute_metrics exact rows) ≡ but_averages (compute_list_metrics exact rows)
compute_metrics_agrees_example =
    compute_metrics_agrees exact rows
      ((3 * ms, refl, refl), ((0, refl, refl), ((9 * ms, refl, refl), tt))) (omega arith)

abbrev tables : Tables
tables = record {
  users = [];
  models = [];
  versions = [];
  deployments = [];
  api_keys = [];
  logs = served 8 40 ∷ rows;
}

compute_list_metrics-Perm_example :
    compute_list_metrics exact rows
    ≡ compute_list_metrics exact (hit 20 ∷ served 7 30 ∷ broke 10 ∷ [])
compute_list_metrics-Perm_example =
    compute_list_metrics-Perm exact rows (hit 20 ∷ served 7 30 ∷ broke 10 ∷ [])
      (Perm.swap (hit 20) (served 7 30) (broke 10 ∷ []))

recent_predictions-Newest_example :
    Newest 7 tables (recent_predictions 7 (parsed (pos 2)) tables)
    × (length (recent_predictions 7 (parsed (pos 2)) tables)
        ≡ min (clamp_limit (parsed (pos 2))) (length (logs_of 7 tables)))
    × (1 ≤ clamp_limit (parsed (pos 2)))
recent_predictions-Newest_example = recent_predictions-Newest 7 (parsed (pos 2)) tables

newest_two : recent_predictions 7 (parsed (pos 2)) tables ≡ served 7 30 ∷ hit 20 ∷ []
unfolding recent_predictions newest_first insert_newest clamp_limit
newest_two = refl

least_limit : clamp_limit (parsed (negsuc 4)) ≡ 1
unfolding clamp_limit
least_limit = refl
