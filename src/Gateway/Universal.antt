-- ===== src/Gateway/Universal.antt =====
-- `UniversalInferenceAPIView.post`: the paid endpoint.
pub mod Fees
use model_deployer.Base.{
  ℕ, ◌*◌, Bool, true, false, Option, none, some, List, ◌∷◌, ◌==◌, ◌&&◌, ◌||◌, not, leb,
  if◌then◌else◌,
}
use model_deployer.Base.Int.{ℤ, pos}
use model_deployer.Base.Dict.{Dict}
use model_deployer.Billing.{Books, Columns, debit_credits, refund_credits}
use model_deployer.Manifest.{Instance, validate_prediction_instances}
use model_deployer.Gateway.{
  Model, Served, Call, replied, timeout, connection_error, failure, Log, Code, model_not_found,
  forbidden, deployment_not_available, invalid_input, inference_failed, Response, error_response,
  body, insufficient_credits, raised, State, has_runner, Request, cache_get, cache_set,
}

-- The settings, the state of the services, and `prediction_cache_key` (a digest of the model, the
-- version and the rows).
pub record Service (D V : Type 0) : Type 0 where
  pub billing_enabled : Bool
  pub starting : ℤ
  pub cols : Columns
  pub key : ℕ → ℕ → List (Instance V) → ℕ
  pub cache_readable : Bool
  pub cache_writable : Bool
  pub call : Call D

-- Half-units of a price, and of the discount `effective_cost * Decimal("0.5")`.
abbrev pub full_price : Model → ℤ
full_price m = pos (2 * m.cost_per_run)

abbrev pub discount : Model → ℤ
discount m = pos m.cost_per_run

abbrev pub is_free : Bool → ℕ → Model → Bool
is_free billing_enabled user m = (user == m.owner) || not billing_enabled || m.cost_per_run == 0

module _ {D V : Type 0} (v : Service D V) where
  abbrev pub log : ℕ → Model → Served → Option D → Bool → Bool → Bool → Log D
  log user m d output hit success computed = record {
    user = user;
    model = m.id;
    deployment = d.deployment;
    output_data = output;
    cache_hit = hit;
    success = success;
    computed = computed;
  }

  -- `if debit_tx: _refund_credits(…)`; `none` is a raised exception.
  unfoldable pub refund_if : Option ℕ → ℕ → Model → ℤ → Books → Option Books
  refund_if none user m amount b = some b
  refund_if (some tx) user m amount b = elim (refund_credits v.cols user m.owner m.id amount tx b) [
    | none ↦ none
    | some (_, b') ↦ some b'
  ]

  -- A cache hit: half the price goes back.
  unfoldable pub serve_hit : Option ℕ → ℕ → Model → Served → D → State D → Response D × State D
  serve_hit tx user m d output s = elim (refund_if tx user m (discount m) s.books) [
    | none ↦ (raised, s)
    | some b ↦ (
      body 200 output,
      record s { books = b; logs = log user m d (some output) true true false ∷ s.logs },
    )
  ]

  -- A failed call: the whole price goes back.
  unfoldable pub serve_failure :
      Option ℕ → ℕ → Model → Served → Call D → State D → Response D × State D
  serve_failure tx user m d c s = elim (refund_if tx user m (full_price m) s.books) [
    | none ↦ (raised, s)
    | some b ↦ elim c [
      | replied code output ↦ (
        body code output,
        record s { books = b; logs = log user m d (some output) false false true ∷ s.logs },
      )
      | _ ↦ (error_response 500 inference_failed, record s { books = b })
    ]
  ]

  unfoldable pub serve_cold : Option ℕ → ℕ → Model → Served → ℕ → State D → Response D × State D
  serve_cold tx user m d key s = if not (has_runner m.framework) then (raised, s) else elim v.call [
    | replied code output ↦
        if leb 400 code then serve_failure tx user m d (replied code output) s else (
          body code output,
          record s {
            cache = cache_set v.cache_writable key output s.cache;
            logs = log user m d (some output) false true true ∷ s.logs;
          },
        )
    | timeout ↦ serve_failure tx user m d timeout s
    | connection_error ↦ serve_failure tx user m d connection_error s
    | failure ↦ serve_failure tx user m d failure s
  ]

  -- From the cache lookup on, with the reservation's id.
  unfoldable pub serve :
      Option ℕ → ℕ → Model → Served → List (Instance V) → State D → Response D × State D
  serve tx user m d rows s =
      let key = v.key m.id d.model_version rows in
      elim (cache_get v.cache_readable key s.cache) [
        | some output ↦ serve_hit tx user m d output s
        | none ↦ serve_cold tx user m d key s
      ]

  -- The up-front reservation.
  unfoldable pub reserve : ℕ → Model → Served → List (Instance V) → State D → Response D × State D
  reserve user m d rows s =
      if is_free v.billing_enabled user m
      then serve none user m d rows s
      else elim (debit_credits v.cols v.starting user m.owner m.id (full_price m) s.books) [
        | none ↦ (raised, s)
        | some ((none, _), b) ↦ (insufficient_credits, record s { books = b })
        | some ((some tx, _), b) ↦ serve (some tx) user m d rows (record s { books = b })
      ]

  abbrev reject : ℕ → Code → State D → Response D × State D
  reject status code s = (error_response status code, s)

  -- `UniversalInferenceAPIView.post`
  unfoldable pub post : Request V → State D → Response D × State D
  post r s = elim r.model [
    | none ↦ reject 404 model_not_found s
    | some m ↦
        if not m.is_public && not (m.owner == r.user)
        then reject 403 forbidden s
        else elim r.deployment [
          | none ↦ reject 503 deployment_not_available s
          | some d ↦ elim r.instances [
            | none ↦ reject 400 invalid_input s
            | some rows ↦ elim (validate_prediction_instances rows) [
              | some fault ↦ reject 400 invalid_input s
              | none ↦ reserve r.user m d rows s
            ]
          ]
        ]
  ]
