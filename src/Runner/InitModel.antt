-- ===== src/Runner/InitModel.antt =====
-- runners/worker.py, `init_model`: the environment of a model is built and the model is tried.
pub mod Ready
pub mod Errors
pub mod Retries
use model_deployer.Base.{
  zero, suc, ℕ, suc, zero, ◌+◌, String, Bool, true, false, Option, none, some, not, if◌then◌else◌,
  ◌-◌, ◌==◌,
}
use Prim.Native.String.{◌++◌ as ◌<>◌}
use model_deployer.RunnerErrors.{
  capacity_exhausted_code, storage_unavailable_code, invalid_requirements_code,
  missing_artifact_code, deterministic_install_failure_code, worker_unavailable_code,
  smoke_check_failed_code, model_load_failed_code,
}
use model_deployer.Runner.Replies.{
  and_finally, mapping, plain, HttpError, Checked, raised, ok, ◌>>=◌, error, require,
  pip_stderr_is_retryable, Manifest, Files, Ran, ModelRequest, escape_error, parse_manifest,
  find_manifest, is_set, find_bridge,
}

-- What the request meets outside: the message of the download's exception, where it raises, and how
-- each command ends. `strip` and `lower` are Python's.
pub record Outside : Type 0 where
  pub files : Files
  pub download_error : Option String
  pub venv : Ran
  pub pip : Ran
  pub validation : Ran
  pub lower : String → String
  pub strip : String → String

pub data Readiness : Type 0 where
  environment_only loaded loaded_and_smoke : Readiness

abbrev pub fetch : Outside → ModelRequest → Checked String
fetch out req =
    if req.in_s3
    then elim out.download_error [
      | none ↦ ok (out.files.local_manifest req.model_id)
      | some exc ↦ raised (
          error 503
            (mapping storage_unavailable_code ("artifact download failed: " <> exc) none true))
    ]
    else ok req.manifest_path

abbrev pub check_requirements : Files → String → Manifest → Checked String
check_requirements files path m = elim (is_set m.requirements) [
  | none ↦
      raised (
        error 400 (mapping invalid_requirements_code "requirements missing in manifest" none false))
  | some name ↦ require (files.within_models (files.beside path name)) escape_error (
      require (files.exists (files.beside path name))
        (error 404 (mapping invalid_requirements_code "requirements file not found" none false))
        (ok (files.beside path name)))
]

-- The two commands that build the environment.
abbrev pub pip_error : Outside → HttpError
pip_error out =
    let again = pip_stderr_is_retryable out.lower out.pip.stderr in
    error (if again then 503 else 500) (
      mapping (if again then worker_unavailable_code else deterministic_install_failure_code)
        "pip install failed" (some out.pip.stderr) again)

abbrev pub build_env {ℓ} : {A : Type ℓ} → Outside → Checked A → Checked A
build_env out k =
    require (not out.venv.failed)
      (error 500 (
        mapping deterministic_install_failure_code "venv creation failed" (some out.venv.stderr)
          false))
      (require (not out.pip.failed) (pip_error out) k)

-- Loading the model, and the smoke test where the manifest has an input for it.
abbrev pub validation_error : Outside → Manifest → HttpError
validation_error out m =
    let said = out.strip out.validation.stderr in
    error 500 (
      mapping (if m.smoke_test_input then smoke_check_failed_code else model_load_failed_code)
        ("model validation failed: "
          <> elim (is_set (some said)) [ none ↦ "unknown error" | some s ↦ s ])
        (some out.validation.stderr) false)

abbrev pub tried : Manifest → Readiness
tried m = if m.smoke_test_input then loaded_and_smoke else loaded

abbrev pub validate_model : Outside → String → Manifest → Checked Readiness
validate_model out path m = elim (is_set m.model_artifact) [
  | none ↦ ok environment_only
  | some name ↦ require (out.files.within_models (out.files.beside path name)) escape_error (
      require (out.files.exists (out.files.beside path name))
        (error 404 (mapping missing_artifact_code "model artifact file not found" none false))
        (require (not out.validation.failed) (validation_error out m) (ok (tried m))))
]

-- The body of the `try`.
unfoldable pub init_body : Outside → ModelRequest → Checked Readiness
init_body out req = fetch out req >>= λ path. find_manifest out.files path (
    parse_manifest (out.files.content path) >>= λ m.
    check_requirements out.files path m >>= λ requirements_path.
    build_env out (find_bridge out.files m >>= λ bridge. validate_model out path m))

abbrev pub capacity_error : HttpError
capacity_error =
    error 503 (mapping capacity_exhausted_code "runner build capacity exhausted" none true)

-- The handler, with the permits that the semaphore has; without one it waits in vain. Otherwise it has
-- one fewer while the body runs.
unfoldable pub init_model : Outside → ModelRequest → ℕ → Checked Readiness × ℕ
init_model out req zero = (raised capacity_error, zero)
init_model out req (suc left) = and_finally (init_body out req) left
