-- ===== src/Gateway.antt =====
-- prediction_gateway/views.py: what the two inference endpoints share. `D` stands for the JSON
-- bodies that the runner and the cache hold.
pub mod Flight
pub mod Predict
pub mod Universal
use model_deployer.Base.{
  ℕ, String, Bool, true, false, Option, none, some, List, str_eq, ◌||◌, if◌then◌else◌,
}
use model_deployer.Base.Dict.{Dict, lookup, insert}
use model_deployer.Billing.{Books}
use model_deployer.Manifest.{Instance, Fault}

-- The rows that the handlers read. A price is a number of ten-thousandths of a credit.
pub record Model : Type 0 where
  pub id : ℕ
  pub owner : ℕ
  pub framework : String
  pub is_public : Bool
  pub cost_per_run : ℕ

pub record Served : Type 0 where
  pub deployment : ℕ
  pub model_version : ℕ

-- How the call of the runner ends.
pub data Call (D : Type 0) : Type 0 where
  replied : ℕ → D → Call D
  timeout : Call D
  connection_error : Call D
  failure : Call D

-- What the handlers read of a body: its `error`, and the body that it makes of an error text.
pub record Bodies (D : Type 0) : Type 0 where
  pub error : D → Option String
  pub error_body : String → D

-- A `PredictionLog` row.
pub record Log (D : Type 0) : Type 0 where
  pub user : ℕ
  pub model : ℕ
  pub deployment : ℕ
  pub output_data : Option D
  pub cache_hit : Bool
  pub success : Bool
  pub computed : Bool

pub data Code : Type 0 where
  model_not_found forbidden deployment_not_available invalid_input : Code
  inference_timeout deployment_unavailable prediction_failed inference_failed : Code

-- A response with its status. `raised` is an exception that the view does not catch; the
-- exception handler answers it with 500.
pub data Response (D : Type 0) : Type 0 where
  error_response : ℕ → Code → Response D
  body : ℕ → D → Response D
  insufficient_credits : Response D
  raised : Response D

pub record State (D : Type 0) : Type 0 where
  pub books : Books
  pub cache : Dict D
  pub logs : List (Log D)

-- `RunnerFactory.get_runner` raises a `ValueError` for any other framework.
unfoldable pub has_runner : String → Bool
has_runner framework = str_eq framework "sklearn" || str_eq framework "pytorch"

-- A request: its user, what the queries of the model and of its newest running deployment find,
-- and its rows, where the serializer accepts them.
pub record Request (V : Type 0) : Type 0 where
  pub user : ℕ
  pub model : Option Model
  pub deployment : Option Served
  pub instances : Option (List (Instance V))

-- `cache.get` and `cache.set`; a cache that is down is passed over.
unfoldable pub cache_get {ℓ} : {A : Type ℓ} → Bool → ℕ → Dict A → Option A
cache_get up key cache = if up then lookup key cache else none

unfoldable pub cache_set {ℓ} : {A : Type ℓ} → Bool → ℕ → A → Dict A → Dict A
cache_set up key a cache = if up then insert key a cache else cache
