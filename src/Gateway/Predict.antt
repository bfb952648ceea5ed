-- ===== src/Gateway/Predict.antt =====
-- `PredictAPIView.post`: the endpoint of the platform's own pages. It is not billed, and it
-- calls the runner through the single-flight lock.
pub mod Logs
use model_deployer.Base.{ℕ, Bool, true, false, Option, none, some, List, ◌∷◌, leb, if◌then◌else◌}
use model_deployer.Base.Dict.{Dict}
use model_deployer.Manifest.{Instance, validate_prediction_instances}
use model_deployer.Deployments.Build.{text_or}
use model_deployer.Gateway.{
  Model, Served, Call, replied, timeout, connection_error, failure, Bodies, Log, Code,
  model_not_found, deployment_not_available, invalid_input, inference_timeout,
  deployment_unavailable, prediction_failed, Response, error_response, body, raised, State,
  has_runner, Request, cache_get, cache_set,
}
use model_deployer.Gateway.Flight.{Readings, execute}

-- The settings and the services. `readings` is what the single-flight lock shows this request.
pub record Service (D V : Type 0) : Type 0 where
  pub key : ℕ → ℕ → List (Instance V) → ℕ
  pub cache_readable : Bool
  pub cache_writable : Bool
  pub call : Call D
  pub bodies : Bodies D
  pub readings : Readings D

-- The `output_data={}` of a request whose call has raised is `none`.
abbrev pub log : {D : Type 0} → ℕ → Model → Served → Option D → Bool → Bool → Bool → Log D
log user m d output hit success computed = record {
  user = user;
  model = m.id;
  deployment = d.deployment;
  output_data = output;
  cache_hit = hit;
  success = success;
  computed = computed;
}

module _ {D V : Type 0} (v : Service D V) where
  unfoldable pub serve_cached : ℕ → Model → Served → D → State D → Response D × State D
  serve_cached user m d output s =
      (body 200 output, record s { logs = log user m d (some output) true true false ∷ s.logs })

  -- The reply of the runner, as it is passed on.
  unfoldable pub pass_on : ℕ → Model → Served → ℕ → ℕ → D → State D → Response D × State D
  pass_on user m d key code output s =
      if leb 500 code
      then (let answer =
            v.bodies.error_body (text_or (v.bodies.error output) "Upstream runner error") in
          (
            body 502 answer,
            record s { logs = log user m d (some answer) false false true ∷ s.logs },
          ))
      else if leb 400 code
      then (
        body code output,
        record s { logs = log user m d (some output) false false true ∷ s.logs },
      )
      else (
        body code output,
        record s {
          cache = cache_set v.cache_writable key output s.cache;
          logs = log user m d (some output) false true true ∷ s.logs;
        },
      )

  unfoldable pub serve_failed : ℕ → Model → Served → ℕ → Code → State D → Response D × State D
  serve_failed user m d status code s =
      (error_response status code, record s { logs = log user m d none false false false ∷ s.logs })

  -- The call of the runner, with its exceptions.
  unfoldable pub serve_call : ℕ → Model → Served → ℕ → State D → Response D × State D
  serve_call user m d key s = elim v.call [
    | replied code output ↦ pass_on user m d key code output s
    | timeout ↦ serve_failed user m d 504 inference_timeout s
    | connection_error ↦ serve_failed user m d 502 deployment_unavailable s
    | failure ↦ serve_failed user m d 500 prediction_failed s
  ]

  -- From the first cache lookup on.
  unfoldable pub serve : ℕ → Model → Served → List (Instance V) → State D → Response D × State D
  serve user m d rows s =
      let key = v.key m.id d.model_version rows in
      elim (cache_get v.cache_readable key s.cache) [
        | some output ↦ serve_cached user m d output s
        | none ↦
            if has_runner m.framework
            then elim (execute v.readings) [
              | some output ↦ serve_cached user m d output s
              | none ↦ serve_call user m d key s
            ]
            else (raised, s)
      ]

  -- `PredictAPIView.post`
  unfoldable pub post : Request V → State D → Response D × State D
  post r s = elim r.model [
    | none ↦ (error_response 404 model_not_found, s)
    | some m ↦ elim r.deployment [
      | none ↦ (error_response 503 deployment_not_available, s)
      | some d ↦ elim r.instances [
        | none ↦ (error_response 400 invalid_input, s)
        | some rows ↦ elim (validate_prediction_instances rows) [
          | some fault ↦ (error_response 400 invalid_input, s)
          | none ↦ serve r.user m d rows s
        ]
      ]
    ]
  ]
