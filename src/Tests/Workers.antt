-- ===== src/Tests/Workers.antt =====
-- Runs of the runner's worker: a line in two pieces, a command with an input, a model that is
-- initialised, and one whose pip fails.
use model_deployer.Base.{
  str_eq, eq_iff, ℕ, ◌≡◌, ◌≢◌, ◌⊎◌, refl, String, true, false, none, some, List, [], ◌∷◌, ◌==◌,
  ◌||◌, ◌&&◌, ltb, arith,
}
use model_deployer.Deployments.Build.{classify, settle_outcome, text_or}
use model_deployer.Runner.Pipes.{readline_bounded}
use model_deployer.Runner.Pipes.Lines.{first_line, stream, ending, readline_bounded-first_line}
use model_deployer.Runner.Commands.{Write, Turn}
use model_deployer.Runner.Replies.{
  HttpError, raised, ok, Content, Manifest, Files, Ran, ModelRequest, bridge_map,
}
use model_deployer.Runner.InitModel
use model_deployer.Runner.InitModel.{init_model, init_body, pip_error, loaded, fetch}
use model_deployer.Runner.InitModel.Ready.{Prepared, init_model-Prepared}
use model_deployer.Runner.InitModel.Errors.{as_result, is_retry, says_retryable}
use model_deployer.Runner.InitModel.Retries.{Transient, is_retry_in, init_model-retried}
use model_deployer.Runner.PredictModel
use model_deployer.Runner.Access.{
  auth_headers, default_auth_header, serve_with, serve_with-auth_headers,
}
use model_deployer.Runner.PredictModel.Marks.{predict-Marked}

readline_bounded-first_line_example :
    readline_bounded 5 (some (104 ∷ 105 ∷ []) ∷ some (33 ∷ 10 ∷ 7 ∷ []) ∷ [])
    ≡ some (
        first_line 5
          (stream (some (104 ∷ 105 ∷ []) ∷ some (33 ∷ 10 ∷ 7 ∷ []) ∷ []))
          (ending (some (104 ∷ 105 ∷ []) ∷ some (33 ∷ 10 ∷ 7 ∷ []) ∷ [])))
readline_bounded-first_line_example =
    readline_bounded-first_line 5 (some (104 ∷ 105 ∷ []) ∷ some (33 ∷ 10 ∷ 7 ∷ []) ∷ [])

abbrev two_turns : List Turn
two_turns =
    record { write = Write.sent 2; stdout = 65 ∷ 66 ∷ []; stderr = []; exited = false }
    ∷ record { write = Write.blocked; stdout = 67 ∷ []; stderr = 68 ∷ []; exited = true }
    ∷ []

-- Every path is there, and the manifest names its requirements and an artifact.
abbrev all_there : Files
all_there = record {
  within_models = λ path. true;
  within_envs = λ path. true;
  exists = λ path. true;
  content = λ path. Content.manifest (record {
    requirements = some "requirements.txt";
    framework = some "pytorch";
    model_artifact = some "model.pt";
    smoke_test_input = false;
  });
  beside = λ path name. name;
  local_manifest = λ id. id;
  env_dir = λ id. id;
  python_bin = λ id. id;
  bridge_path = λ name. name;
}

abbrev fine : Ran
fine = record { failed = false; stdout = ""; stderr = "" }

abbrev reset : Ran
reset = record { failed = true; stdout = ""; stderr = "connection reset" }

abbrev request : ModelRequest
request = record { model_id = "7"; manifest_path = "s3://models/7/v1/model.yaml"; in_s3 = true }

abbrev building : Ran → InitModel.Outside
building pip = record {
  files = all_there;
  download_error = none;
  venv = fine;
  pip = pip;
  validation = fine;
  lower = λ s. s;
  strip = λ s. s;
}

init_model-Prepared_example :
    (path : String) × (m : Manifest) × (fetch (building fine) request ≡ ok path)
    × (all_there.content path ≡ Content.manifest m)
    × Prepared (building fine) path m loaded
    × ◌≢◌ {A = ℕ} 1 0
unfolding init_model init_body bridge_map
init_model-Prepared_example = init_model-Prepared (building fine) request 1 loaded refl

init_model-retried_example :
    (is_retry (classify (as_result "{}" (pip_error (building reset))))
      ≡ says_retryable (pip_error (building reset)).detail)
    × (is_retry_in
          (settle_outcome 5 2 100 (classify (as_result "{}" (pip_error (building reset)))) []).0
        ≡ (says_retryable (pip_error (building reset)).detail && ltb 2 3))
    × ((says_retryable (pip_error (building reset)).detail ≡ false)
        ⊎ (Transient (building reset) request ⊎ ◌≡◌ {A = ℕ} 2 0))
unfolding init_model init_body
init_model-retried_example =
    init_model-retried "{}" (building reset) request 2 (pip_error (building reset)) 5 2 100 [] refl

abbrev serving : PredictModel.Outside
serving = record {
  files = all_there;
  download_error = none;
  warm = none;
  process = reset;
  parse = λ out. PredictModel.Json.object out;
  lower = λ s. s;
  strip = λ s. s;
}

predict-Marked_example :
    ((PredictModel.predict serving request 4).1 ≡ 4)
    × (((answer : PredictModel.Answer) × ((PredictModel.predict serving request 4).0 ≡ ok answer))
        ⊎ ((e : HttpError) × ((PredictModel.predict serving request 4).0 ≡ raised e)
            × (says_retryable e.detail ≡ (e.status == 503 || e.status == 504))))
predict-Marked_example = predict-Marked serving request 4

full : ◌≢◌ {A = String} "5ecret" ""
full h = ground (arith, eq_iff "5ecret" "")

serve_with-auth_headers_example :
    (auth_headers (λ s. s) "5ecret" "" ≡ some (text_or (some "") default_auth_header, "5ecret"))
    × (serve_with (λ s. s) (some "5ecret") false (some "5ecret") ≡ some true)
    × (serve_with (λ s. s) (some "5ecret") false (some "guess") ≡ some (str_eq "guess" "5ecret"))
    × (serve_with (λ s. s) (some "5ecret") false none ≡ some false)
serve_with-auth_headers_example =
    serve_with-auth_headers (λ s. s) "5ecret" "" false "guess" (λ s. refl) full full
