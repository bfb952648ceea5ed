-- ===== src/Monitoring/Dashboard.antt =====
-- monitoring/views.py: the views of the dashboard.
use model_deployer.Base.{
  ℕ, ◌+◌, String, Option, some, List, [], ◌∷◌, ◌==◌, ◌&&◌, leb, min, max, take, keep_if, ◌>>=◌,
}
use model_deployer.Base.Int.{ℤ, pos, negsuc}
use model_deployer.Monitoring.{Floats, LogRow, Metrics, compute_metrics, count_if}
use model_deployer.Monitoring.Views.{
  newest_first, first_row, ModelRow, Tables, logs_of, overview, model_logs, latest_version,
  deployment_of, deployment_status,
}

-- `DashboardSummaryAPIView.get`, at the time `now`.
pub record Summary : Type 0 where
  pub metrics : Metrics
  pub model_count : ℕ
  pub active_api_keys : ℕ
  pub recent_requests_24h : ℕ

abbrev pub day : ℕ
day = 86400

unfoldable pub summary : Floats → ℕ → ℕ → Tables → Option Summary
summary fl now user t = overview fl user t >>= λ metrics. some (record {
  metrics = metrics;
  model_count = count_if (λ m. m.owner == user) t.models;
  active_api_keys = count_if (λ key. (key.user == user) && key.is_active) t.api_keys;
  recent_requests_24h =
      count_if (λ log. (log.user == user) && leb now (log.created_at + day)) t.logs;
})

-- `int(request.query_params.get("limit", 10))`: no parameter, a text that is no number, or a
-- number.
pub data LimitParam : Type 0 where
  absent malformed : LimitParam
  parsed : ℤ → LimitParam

unfoldable pub clamp_limit : LimitParam → ℕ
clamp_limit (parsed (pos n)) = max 1 (min n 50)
clamp_limit (parsed (negsuc n)) = 1
clamp_limit _ = 10

-- `DashboardRecentPredictionsAPIView.get`: the rows of the answer.
unfoldable pub recent_predictions : ℕ → LimitParam → Tables → List LogRow
recent_predictions user limit t =
    take (clamp_limit limit) (newest_first (λ log. log.created_at) (logs_of user t))

-- One item of `DashboardModelsAPIView.get`, and the items.
pub record ModelItem : Type 0 where
  pub model_id : ℕ
  pub latest_version_id : Option ℕ
  pub latest_deployment_status : String
  pub latest_deployment_id : Option ℕ
  pub last_prediction_at : Option ℕ
  pub metrics : Metrics

unfoldable pub item : Floats → ℕ → Tables → ModelRow → Option ModelItem
item fl user t m = compute_metrics fl (model_logs user m.id t) >>= λ metrics.
    let version = latest_version m.id t in
    let d = deployment_of version t in
    let last = first_row (newest_first (λ log. log.created_at) (model_logs user m.id t)) in
    some (record {
      model_id = m.id;
      latest_version_id = version >>= λ v. some v.id;
      latest_deployment_status = deployment_status d;
      latest_deployment_id = d >>= λ r. some r.id;
      last_prediction_at = last >>= λ log. some log.created_at;
      metrics = metrics;
    })

unfoldable pub all_items : Floats → ℕ → Tables → List ModelRow → Option (List ModelItem)
all_items fl user t [] = some []
all_items fl user t (m ∷ ms) =
    item fl user t m >>= λ i. all_items fl user t ms >>= λ items. some (i ∷ items)

unfoldable pub dashboard_models : Floats → ℕ → Tables → Option (List ModelItem)
dashboard_models fl user t =
    all_items fl user t (newest_first (λ m. m.created_at) (keep_if (λ m. m.owner == user) t.models))
