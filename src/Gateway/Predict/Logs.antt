-- ===== src/Gateway/Predict/Logs.antt =====
-- What `PredictAPIView.post` leaves behind: its log row and its cache entry.
use model_deployer.Base.{
  ℕ, ◌≡◌, ◌≢◌, refl, Bool, true, false, Option, none, some, List, ◌∷◌, arith, leb, ltb, not,
  if◌then◌else◌, Bool-cases, inl, inr,
}
use model_deployer.Base.Dict.{lookup-insert_self}
use model_deployer.Manifest.{Instance}
use model_deployer.Gateway.{
  Model, Served, Call, replied, timeout, connection_error, failure, Log, Code, inference_timeout,
  deployment_unavailable, prediction_failed, Response, error_response, body, insufficient_credits,
  raised, State, has_runner, cache_get, cache_set,
}
use model_deployer.Gateway.Flight.{execute}
use model_deployer.Gateway.Predict.{Service, serve_cached, pass_on, serve_failed, serve_call, serve}

abbrev pub status_of : {D : Type 0} → Response D → ℕ
status_of (error_response status _) = status
status_of (body status _) = status
status_of insufficient_credits = 402
status_of raised = 500

-- One row is added for this user and model. It counts as a success exactly where the answer's
-- status is below 400, and the answer is cached only then; the books stay.
pub record Logged {D : Type 0} (user : ℕ) (m : Model) (s : State D) (answer : Response D × State D)
    : Type 0 where
  pub row : Log D
  pub added : answer.1.logs ≡ row ∷ s.logs
  pub owned : (row.user ≡ user) × (row.model ≡ m.id)
  pub succeeded : row.success ≡ not (leb 400 (status_of answer.0))
  pub failed_uncached : leb 400 (status_of answer.0) ≡ true → answer.1.cache ≡ s.cache
  pub unbilled : answer.1.books ≡ s.books

module _ {D V : Type 0} (v : Service D V) (user : ℕ) (m : Model) (d : Served) (s : State D) where
  serve_cached-Logged : (output : D) → Logged user m s (serve_cached v user m d output s)
  unfolding serve_cached
  serve_cached-Logged output = record {
    row = _;
    added = refl;
    owned = (refl, refl);
    succeeded = refl;
    failed_uncached = λ e. refl;
    unbilled = refl;
  }

  serve_failed-Logged :
      (status : ℕ) (code : Code)
      → leb 400 status ≡ true
      → Logged user m s (serve_failed v user m d status code s)
  unfolding serve_failed
  serve_failed-Logged status code e = record {
    row = _;
    added = refl;
    owned = (refl, refl);
    succeeded = rw e refl;
    failed_uncached = λ e. refl;
    unbilled = refl;
  }

  pass_on-Logged :
      (key code : ℕ) (output : D) → Logged user m s (pass_on v user m d key code output s)
  unfolding pass_on
  pass_on-Logged key code output = elim (Bool-cases (leb 500 code)) [
    | inl late ↦
        rw (pass_on, late)
          (record {
            row = _;
            added = refl;
            owned = (refl, refl);
            succeeded = refl;
            failed_uncached = λ e. refl;
            unbilled = refl;
          })
    | inr early ↦ elim (Bool-cases (leb 400 code)) [
      | inl bad ↦
          rw (pass_on, early, bad)
            (record {
              row = _;
              added = refl;
              owned = (refl, refl);
              succeeded = rw bad refl;
              failed_uncached = λ e. refl;
              unbilled = refl;
            })
      | inr good ↦
          rw (pass_on, early, good)
            (record {
              row = _;
              added = refl;
              owned = (refl, refl);
              succeeded = rw good refl;
              failed_uncached = λ e. cc;
              unbilled = refl;
            })
    ]
  ]

  serve_call-Logged : (key : ℕ) → Logged user m s (serve_call v user m d key s)
  unfolding serve_call
  serve_call-Logged key = go v.call
    where
      go :
          (c : Call D)
          → Logged user m s (elim c [
            | replied code output ↦ pass_on v user m d key code output s
            | timeout ↦ serve_failed v user m d 504 inference_timeout s
            | connection_error ↦ serve_failed v user m d 502 deployment_unavailable s
            | failure ↦ serve_failed v user m d 500 prediction_failed s
          ])
      go (replied code output) = pass_on-Logged key code output
      go timeout = serve_failed-Logged 504 inference_timeout refl
      go connection_error = serve_failed-Logged 502 deployment_unavailable refl
      go failure = serve_failed-Logged 500 prediction_failed refl

  -- Unless an exception escapes the view, as it does where the model's framework has no runner and the
  -- answer is not in the cache, serving a request adds one log row for its user and model, marked
  -- a success exactly where the answer's status is below 400; a failed answer leaves the cache, and
  -- no answer touches the books.
  pub serve-Logged :
      (rows : List (Instance V))
      → (serve v user m d rows s).0 ≢ raised
      → Logged user m s (serve v user m d rows s)
  unfolding serve
  serve-Logged rows ne =
      go (cache_get v.cache_readable key s.cache) (has_runner m.framework) (execute v.readings) ne
    where
      key : ℕ
      key = v.key m.id d.model_version rows

      go :
          (hit : Option D) (ok : Bool) (shared : Option D)
          → let answer : Response D × State D = elim hit [
            | some output ↦ serve_cached v user m d output s
            | none ↦
                if ok
                then elim shared [
                  | some output ↦ serve_cached v user m d output s
                  | none ↦ serve_call v user m d key s
                ]
                else (raised, s)
          ] in
            answer.0 ≢ raised → Logged user m s answer
      go (some output) ok shared ne = serve_cached-Logged output
      go none false shared ne = absurd (ne refl)
      go none true (some output) ne = serve_cached-Logged output
      go none true none ne = serve_call-Logged key

module _ {D V : Type 0} (v : Service D V) (user : ℕ) (m : Model) (d : Served)
    (rows : List (Instance V)) (s : State D) where
  serve_fresh :
      (code : ℕ) (output : D)
      → has_runner m.framework ≡ true
      → cache_get v.cache_readable (v.key m.id d.model_version rows) s.cache ≡ none
      → execute v.readings ≡ none
      → (v.call ≡ replied code output)
      → ltb code 400 ≡ true
      → (serve v user m d rows s).1.cache
        ≡ cache_set v.cache_writable (v.key m.id d.model_version rows) output s.cache
  unfolding serve cache_set serve_call pass_on
  serve_fresh code output ok miss alone reply fine =
      let early : leb 500 code ≡ false = ground arith in
      let good : leb 400 code ≡ false = ground arith in
      rw (serve, miss, ok, alone, serve_call, reply, pass_on, early, good) refl

  serve_stored :
      (output : D)
      → cache_get v.cache_readable (v.key m.id d.model_version rows) s.cache ≡ some output
      → (serve v user m d rows s).0 ≡ body 200 output
  unfolding serve_cached serve
  serve_stored output hit = rw (serve, hit) refl

-- A row that the runner has answered below 400, and that could be cached, is a hit from then on:
-- the same rows for the same model and version give the stored body to every user, whatever the
-- runner would reply and whatever the lock shows.
pub serve_again :
    {D V : Type 0} (v w : Service D V) (user other : ℕ) (m : Model) (d e : Served)
    (rows : List (Instance V)) (s : State D) (code : ℕ) (output : D)
    → (v.cache_writable ≡ true)
    → (w.cache_readable ≡ true)
    → w.key m.id e.model_version rows ≡ v.key m.id d.model_version rows
    → has_runner m.framework ≡ true
    → cache_get v.cache_readable (v.key m.id d.model_version rows) s.cache ≡ none
    → execute v.readings ≡ none
    → (v.call ≡ replied code output)
    → ltb code 400 ≡ true
    → (serve w other m e rows (serve v user m d rows s).1).0 ≡ body 200 output
unfolding cache_get cache_set
serve_again v w user other m d e rows s code output writable readable same ok miss alone reply
      fine =
    serve_stored w other m e rows (serve v user m d rows s).1 output (
      rw
        (
          serve_fresh v user m d rows s code output ok miss alone reply fine,
          same,
          readable,
          writable,
        )
        (lookup-insert_self (v.key m.id d.model_version rows) output s.cache))
