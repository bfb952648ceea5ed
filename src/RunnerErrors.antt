-- ===== src/RunnerErrors.antt =====
-- core/runner_errors.py: the codes of a failed runner call and which of them are retried.
use model_deployer.Base.{
  String, Bool, true, false, Option, List, [], ◌∷◌, ◌≡◌, refl, not, any_of, str_eq,
}
use Prim.Native.String.{◌++◌ as ◌<>◌}

abbrev pub invalid_manifest_code : String
invalid_manifest_code = "RUNNER_INVALID_MANIFEST"

abbrev pub unsupported_framework_code : String
unsupported_framework_code = "RUNNER_UNSUPPORTED_FRAMEWORK"

abbrev pub missing_artifact_code : String
missing_artifact_code = "RUNNER_MISSING_ARTIFACT"

abbrev pub invalid_requirements_code : String
invalid_requirements_code = "RUNNER_INVALID_REQUIREMENTS"

abbrev pub deterministic_install_failure_code : String
deterministic_install_failure_code = "RUNNER_DETERMINISTIC_INSTALL_FAILURE"

abbrev pub model_load_failed_code : String
model_load_failed_code = "RUNNER_MODEL_LOAD_FAILED"

abbrev pub smoke_check_failed_code : String
smoke_check_failed_code = "RUNNER_SMOKE_CHECK_FAILED"

abbrev pub invalid_input_code : String
invalid_input_code = "RUNNER_INVALID_INPUT"

abbrev pub worker_unavailable_code : String
worker_unavailable_code = "RUNNER_WORKER_UNAVAILABLE"

abbrev pub storage_unavailable_code : String
storage_unavailable_code = "RUNNER_STORAGE_UNAVAILABLE"

abbrev pub worker_timeout_code : String
worker_timeout_code = "RUNNER_WORKER_TIMEOUT"

abbrev pub capacity_exhausted_code : String
capacity_exhausted_code = "RUNNER_CAPACITY_EXHAUSTED"

abbrev pub internal_code : String
internal_code = "RUNNER_INTERNAL"

-- `code in NON_RETRYABLE_CODES`
abbrev non_retryable_codes : List String
non_retryable_codes =
    invalid_manifest_code ∷ unsupported_framework_code ∷ missing_artifact_code
    ∷ invalid_requirements_code ∷ deterministic_install_failure_code ∷ model_load_failed_code
    ∷ smoke_check_failed_code ∷ invalid_input_code ∷ internal_code ∷ []

unfoldable pub is_non_retryable : String → Bool
is_non_retryable code = any_of (str_eq code) non_retryable_codes

-- Without the diagnostics, which none of these methods sets.
pub record RunnerError : Type 0 where
  pub code : String
  pub message : String
  pub retryable : Bool
  pub request_id : Option String

-- The class methods of `RunnerError` that make an error; `unsupported_framework` takes the
-- framework, and each other one a message.
pub data Kind : Type 0 where
  invalid_manifest unsupported_framework missing_artifact invalid_requirements : Kind
  deterministic_install_failure model_load_failed smoke_check_failed invalid_input : Kind
  worker_unavailable storage_unavailable worker_timeout capacity_exhausted internal : Kind

abbrev error_of : String → Bool → String → Option String → RunnerError
error_of code retryable message request_id = record {
  code = code;
  message = message;
  retryable = retryable;
  request_id = request_id;
}

pub make : Kind → String → Option String → RunnerError
make invalid_manifest = error_of invalid_manifest_code false
make unsupported_framework =
    λ framework. error_of unsupported_framework_code false ("unsupported framework: " <> framework)
make missing_artifact = error_of missing_artifact_code false
make invalid_requirements = error_of invalid_requirements_code false
make deterministic_install_failure = error_of deterministic_install_failure_code false
make model_load_failed = error_of model_load_failed_code false
make smoke_check_failed = error_of smoke_check_failed_code false
make invalid_input = error_of invalid_input_code false
make worker_unavailable = error_of worker_unavailable_code true
make storage_unavailable = error_of storage_unavailable_code true
make worker_timeout = error_of worker_timeout_code true
make capacity_exhausted = error_of capacity_exhausted_code true
make internal = error_of internal_code false

-- Every error that the class methods make is marked retryable exactly when its code is not in
-- NON_RETRYABLE_CODES, whatever the message and the request id.
pub make-retryable :
    (kind : Kind) (message : String) (request_id : Option String)
    → (make kind message request_id).retryable
      ≡ not (is_non_retryable (make kind message request_id).code)
unfolding make is_non_retryable
make-retryable invalid_manifest m r = refl
make-retryable _ m r = refl
