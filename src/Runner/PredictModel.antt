-- ===== src/Runner/PredictModel.antt =====
-- runners/worker.py, `predict`: one inference by the warm runtime or by a process of its own.
pub mod Marks
use model_deployer.Base.{
  ℕ, zero, suc, ◌+◌, String, Bool, true, false, Option, none, some, not, if◌then◌else◌,
}
use model_deployer.RunnerErrors.{
  capacity_exhausted_code, worker_timeout_code, worker_unavailable_code, internal_code,
}
use model_deployer.Runner.Replies.{
  and_finally, mapping, plain, HttpError, Checked, raised, ok, ◌>>=◌, error, require, contains,
  inference_stderr_is_retryable, Manifest, Files, Ran, ModelRequest, parse_manifest, find_manifest,
  find_bridge,
}

-- How the call of the warm runtime ends: with an answer, a TimeoutError or another exception.
pub data Warm : Type 0 where
  answered : String → Warm
  timed_out failed : Warm

-- `json.loads(out)`
pub data Json : Type 0 where
  invalid : Json
  object : String → Json
  no_object : Json

-- `warm` is `none` where RUNNER_WARM_RUNTIME_ENABLED is not set.
pub record Outside : Type 0 where
  pub files : Files
  pub download_error : Option String
  pub warm : Option Warm
  pub process : Ran
  pub parse : String → Json
  pub lower : String → String
  pub strip : String → String

-- An answer, and whether it is the warm runtime's.
abbrev pub Answer : Type 0
Answer = String × Bool

-- An exception of the download is not caught, and becomes FastAPI's own error.
abbrev pub fetch : Outside → ModelRequest → Checked String
fetch out req =
    if req.in_s3
    then elim out.download_error [
      | none ↦ ok (out.files.local_manifest req.model_id)
      | some exc ↦ raised (error 500 (plain exc))
    ]
    else ok req.manifest_path

abbrev pub warm_error : ℕ → String → HttpError
warm_error status code =
    error status (mapping code "warm runtime failed; child was terminated" none true)

abbrev pub call_warm : Warm → Checked Answer
call_warm (answered body) = ok (body, true)
call_warm timed_out = raised (warm_error 504 worker_timeout_code)
call_warm failed = raised (warm_error 503 worker_unavailable_code)

abbrev pub process_error : Outside → HttpError
process_error out =
    let again = inference_stderr_is_retryable out.lower out.process.stderr in
    error (if again then 503 else 500) (
      mapping
        (if contains "timed out" out.process.stderr
          then worker_timeout_code
          else (if again then worker_unavailable_code else internal_code))
        "inference failed" (some (out.strip out.process.stderr)) again)

-- A body that is no object has no `setdefault`, and the exception is FastAPI's own error.
abbrev pub read_answer : Json → Checked Answer
read_answer invalid =
    raised (error 500 (mapping internal_code "bridge returned invalid json" none false))
read_answer (object body) = ok (body, false)
read_answer no_object = raised (error 500 (plain "Internal Server Error"))

abbrev pub infer : Outside → Checked Answer
infer out = elim out.warm [
  | some w ↦ call_warm w
  | none ↦
      require (not out.process.failed) (process_error out)
        (read_answer (out.parse out.process.stdout))
]

-- The body of the `try`.
unfoldable pub predict_body : Outside → ModelRequest → Checked Answer
predict_body out req = fetch out req >>= λ path. find_manifest out.files path (
    require (out.files.exists (out.files.python_bin req.model_id))
      (error 400 (mapping internal_code "environment not initialized" none false))
      (parse_manifest (out.files.content path) >>= λ m.
        find_bridge out.files m >>= λ bridge. infer out))

abbrev pub capacity_error : HttpError
capacity_error =
    error 503 (mapping capacity_exhausted_code "runner predict capacity exhausted" none true)

-- The handler, with the permits that the semaphore has; without one it waits in vain. Otherwise it has
-- one fewer while the body runs.
unfoldable pub predict : Outside → ModelRequest → ℕ → Checked Answer × ℕ
predict out req zero = (raised capacity_error, zero)
predict out req (suc left) = and_finally (predict_body out req) left
