-- ===== src/Monitoring/Views.antt =====
-- monitoring/views.py: the views. A timestamp is a number of seconds, and rows with one timestamp
-- come in any order. What the probes of the health checks find is a parameter; names are left out.
use model_deployer.Base.{
  ℕ, String, Bool, false, Option, none, some, List, [], ◌∷◌, ◌==◌, ◌&&◌, leb, length, keep_if,
  str_eq, if◌then◌else◌, ◌>>=◌,
}
use model_deployer.Deployments.{
  Status, pending, building, running, failed, stopped, status_eq, Deployment,
}
use model_deployer.Registry.{Label, User}
use model_deployer.Monitoring.{Floats, LogRow, Metrics, compute_metrics, count_if}

pub record Health : Type 0 where
  pub code : ℕ
  pub status : String
  pub database : String

abbrev pub up_or_down : Bool → String
up_or_down ok = if ok then "up" else "down"

-- `HealthAPIView.get`: whether the database answers.
unfoldable pub health : Bool → Health
health db_ok = record {
  code = if db_ok then 200 else 503;
  status = if db_ok then "ok" else "degraded";
  database = up_or_down db_ok;
}

pub record ReadyHealth : Type 0 where
  pub code : ℕ
  pub status : String
  pub database : String
  pub redis : String
  pub runner : String

-- The cache's answer to the ping, `none` where a call raised; a missing key is `some none`.
unfoldable pub redis_ok : Option (Option String) → Bool
redis_ok none = false
redis_ok (some none) = false
redis_ok (some (some value)) = str_eq value "1"

-- The status of the runner's /health, `none` where the request raised.
unfoldable pub runner_ok : Option ℕ → Bool
runner_ok none = false
runner_ok (some status_code) = status_code == 200

-- `ReadyHealthAPIView.get`
unfoldable pub ready_health : Bool → Option (Option String) → Option ℕ → ReadyHealth
ready_health db_ok ping reply =
    let is_ready = db_ok && redis_ok ping && runner_ok reply in
    record {
      code = if is_ready then 200 else 503;
      status = if is_ready then "ready" else "degraded";
      database = up_or_down db_ok;
      redis = up_or_down (redis_ok ping);
      runner = up_or_down (runner_ok reply);
    }

-- `order_by("-created_at")`
module _ {ℓ} {A : Type ℓ} (created_at : A → ℕ) where
  unfoldable pub insert_newest : A → List A → List A
  insert_newest x [] = x ∷ []
  insert_newest x (y ∷ ys) =
      let rest = insert_newest x ys in
      if leb (created_at y) (created_at x) then x ∷ y ∷ ys else y ∷ rest

  unfoldable pub newest_first : List A → List A
  newest_first [] = []
  newest_first (x ∷ xs) = insert_newest x (newest_first xs)

abbrev pub first_row {ℓ} : {A : Type ℓ} → List A → Option A
first_row [] = none
first_row (x ∷ xs) = some x

pub record VersionRow : Type 0 where
  pub id : ℕ
  pub model : ℕ
  pub version : Label
  pub created_at : ℕ

pub record ModelRow : Type 0 where
  pub id : ℕ
  pub owner : ℕ
  pub created_at : ℕ

pub record KeyRow : Type 0 where
  pub user : ℕ
  pub is_active : Bool

-- The rows that the views read.
pub record Tables : Type 0 where
  pub users : List User
  pub models : List ModelRow
  pub versions : List VersionRow
  pub deployments : List Deployment
  pub api_keys : List KeyRow
  pub logs : List LogRow

-- `MetricsOverviewAPIView.get`
abbrev pub logs_of : ℕ → Tables → List LogRow
logs_of user t = keep_if (λ log. log.user == user) t.logs

unfoldable pub overview : Floats → ℕ → Tables → Option Metrics
overview fl user t = compute_metrics fl (logs_of user t)

abbrev pub model_logs : ℕ → ℕ → Tables → List LogRow
model_logs user model t = keep_if (λ log. (log.user == user) && (log.model == model)) t.logs

abbrev pub latest_version : ℕ → Tables → Option VersionRow
latest_version model t =
    first_row (newest_first (λ v. v.created_at) (keep_if (λ v. v.model == model) t.versions))

abbrev pub latest_deployment : ℕ → Tables → Option Deployment
latest_deployment version t =
    first_row
      (newest_first (λ d. d.created_at) (keep_if (λ d. d.model_version == version) t.deployments))

-- `latest_deployment` of `latest_version`, if there is one.
abbrev pub deployment_of : Option VersionRow → Tables → Option Deployment
deployment_of version t = version >>= λ v. latest_deployment v.id t

abbrev pub deployment_status : Option Deployment → String
deployment_status none = "NOT_DEPLOYED"
deployment_status (some d) = elim d.status [
  | pending ↦ "PENDING"
  | building ↦ "BUILDING"
  | running ↦ "RUNNING"
  | failed ↦ "FAILED"
  | stopped ↦ "STOPPED"
]

-- The answer's fields that are not the metrics'.
pub record ModelStatus : Type 0 where
  pub model_id : ℕ
  pub latest_version : Option Label
  pub latest_version_id : Option ℕ
  pub latest_deployment_status : String
  pub latest_deployment_id : Option ℕ
  pub latest_deployment_error : Option String
  pub latest_deployment_error_code : Option String
  pub latest_deployment_attempt : ℕ
  pub latest_deployment_task_id : Option String
  pub latest_deployment_created_at : Option ℕ
  pub latest_deployment_stopped_at : Option ℕ
  pub latest_deployment_logs : Option String

abbrev pub status_row : ℕ → Option VersionRow → Option Deployment → ModelStatus
status_row model version d = record {
  model_id = model;
  latest_version = version >>= λ v. some v.version;
  latest_version_id = version >>= λ v. some v.id;
  latest_deployment_status = deployment_status d;
  latest_deployment_id = d >>= λ r. some r.id;
  latest_deployment_error = d >>= λ r. r.last_error;
  latest_deployment_error_code = d >>= λ r. r.last_error_code;
  latest_deployment_attempt = elim d [ none ↦ 0 | some r ↦ r.build_attempt ];
  latest_deployment_task_id = d >>= λ r. r.celery_task_id;
  latest_deployment_created_at = d >>= λ r. some r.created_at;
  latest_deployment_stopped_at = d >>= λ r. r.stopped_at;
  latest_deployment_logs = d >>= λ r. r.build_logs;
}

-- `get_object_or_404(ModelRow, id=model_id, owner=request.user)`; its `none` answers 404.
unfoldable pub own_model : ℕ → ℕ → List ModelRow → Option ModelRow
own_model user model [] = none
own_model user model (m ∷ ms) =
    let rest = own_model user model ms in
    if (m.id == model) && (m.owner == user) then some m else rest

pub data ModelAnswer : Type 0 where
  not_found : ModelAnswer
  found : ModelStatus → Metrics → ModelAnswer

-- `ModelMetricsAPIView.get`; the outer `none` is an exception.
unfoldable pub model_metrics : Floats → ℕ → ℕ → Tables → Option ModelAnswer
model_metrics fl user model t = elim (own_model user model t.models) [
  | none ↦ some not_found
  | some m ↦ compute_metrics fl (model_logs user m.id t) >>= λ metrics.
      let version = latest_version m.id t in
      some (found (status_row m.id version (deployment_of version t)) metrics)
]

pub record Global : Type 0 where
  pub total_users : ℕ
  pub total_models : ℕ
  pub running : ℕ
  pub building : ℕ
  pub pending : ℕ
  pub failed : ℕ
  pub stopped : ℕ
  pub global_telemetry : Metrics

abbrev pub with_status : Status → List Deployment → ℕ
with_status s ds = count_if (λ d. status_eq d.status s) ds

abbrev pub global_of : Tables → Metrics → Global
global_of t telemetry = record {
  total_users = length t.users;
  total_models = length t.models;
  running = with_status running t.deployments;
  building = with_status building t.deployments;
  pending = with_status pending t.deployments;
  failed = with_status failed t.deployments;
  stopped = with_status stopped t.deployments;
  global_telemetry = telemetry;
}

-- `StaffGlobalMetricsAPIView.get`
unfoldable pub global_metrics : Floats → Tables → Option Global
global_metrics fl t = compute_metrics fl t.logs >>= λ telemetry. some (global_of t telemetry)
