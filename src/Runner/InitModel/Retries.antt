-- ===== src/Runner/InitModel/Retries.antt =====
-- runners/worker.py and deployments/services.py: which errors of `init_model` the build of a
-- deployment tries again.
use model_deployer.Base.{
  zero, suc, ℕ, String, Bool, ◌&&◌, ltb, refl, ap, ◌∙◌, true, false, none, some, ◌≡◌, ◌⊎◌, inl, inr,
  arith, Bool-cases, Option-cases, not, if◌then◌else◌,
}
use Prim.Native.String.{◌++◌ as ◌<>◌}
use model_deployer.RunnerErrors.{
  is_non_retryable, internal_code, invalid_requirements_code, unsupported_framework_code,
  smoke_check_failed_code, model_load_failed_code, missing_artifact_code, invalid_manifest_code,
  storage_unavailable_code, capacity_exhausted_code, worker_unavailable_code,
  deterministic_install_failure_code,
}
use model_deployer.Deployments.Build.{
  Outcome, returned, cancelled, retryable, other, TaskResult, retry_in, classify, settle_outcome,
}
use model_deployer.Deployments.{Table}
use model_deployer.Runner.Replies.{
  and_finally-result, Content, unreadable, bad_yaml, no_object, manifest, HttpError, raised, ok,
  pip_stderr_is_retryable, ModelRequest, parse_manifest, find_bridge, is_set, Raises, find_manifest,
  ◌>>=◌, Raises-require, Raises-bind, Raises-raised, Raises-elim, require, Manifest, framework_of,
  bridge_map,
}
use model_deployer.Runner.InitModel.{
  Outside, fetch, check_requirements, build_env, validate_model, init_body, init_model,
  capacity_error, pip_error, validation_error, tried,
}
use model_deployer.Runner.InitModel.Errors.{
  as_result, is_retry, says_retryable, Classified, classify-mapping, final, final_plain, usable,
}

-- The causes that pass by themselves.
abbrev pub Transient : Outside → ModelRequest → Type 0
Transient out req =
    ((req.in_s3 ≡ true) × ((exc : String) × (out.download_error ≡ some exc)))
    ⊎ ((out.pip.failed ≡ true) × (pip_stderr_is_retryable out.lower out.pip.stderr ≡ true))

module _ (text : String) (out : Outside) (req : ModelRequest) {Reason : Type 0}
    (by_store : req.in_s3 ≡ true → (exc : String) → out.download_error ≡ some exc → Reason)
    (by_pip : out.pip.failed ≡ true
      → pip_stderr_is_retryable out.lower out.pip.stderr ≡ true
      → Reason) where
  fetch-Classified : Raises (Classified text Reason) (fetch out req)
  unfolding is_non_retryable
  fetch-Classified = elim (Bool-cases req.in_s3) [
    | inl s ↦ elim (Option-cases out.download_error) [
      | inl q ↦ rw (s, q) tt
      | inr (exc, q) ↦
          rw (s, q)
            (
              classify-mapping text 503 storage_unavailable_code
                  ("artifact download failed: " <> exc) none true,
              inr (by_store s exc q),
            )
    ]
    | inr s ↦ rw s tt
  ]

  pip_error-Classified : out.pip.failed ≡ true → Classified text Reason (pip_error out)
  unfolding is_non_retryable
  pip_error-Classified h = elim (Bool-cases (pip_stderr_is_retryable out.lower out.pip.stderr)) [
    | inl q ↦ rw q (
      classify-mapping text 503 worker_unavailable_code "pip install failed" (some out.pip.stderr)
          true,
      inr (by_pip h q),
    )
    | inr q ↦ rw q (
        final text Reason 500 deterministic_install_failure_code "pip install failed"
          (some out.pip.stderr))
  ]

  parse_manifest-Classified : (c : Content) → Raises (Classified text Reason) (parse_manifest c)
  parse_manifest-Classified unreadable = final_plain text Reason 400 "manifest is not readable"
  parse_manifest-Classified bad_yaml = final_plain text Reason 400 "manifest is not valid yaml"
  parse_manifest-Classified no_object = final_plain text Reason 400 "manifest must be a yaml object"
  parse_manifest-Classified (manifest m) = tt

  check_requirements-Classified :
      (path : String) (m : Manifest)
      → Raises (Classified text Reason) (check_requirements out.files path m)
  check_requirements-Classified path m =
      Raises-elim (Classified text Reason) (is_set m.requirements) _ _
        (final text Reason 400 invalid_requirements_code "requirements missing in manifest" none)
        (λ name.
          usable text Reason (out.files.within_models (out.files.beside path name))
            (out.files.exists (out.files.beside path name)) invalid_requirements_code
            "requirements file not found" (ok (out.files.beside path name)) tt)

  find_bridge-Classified :
      (m : Manifest) → Raises (Classified text Reason) (find_bridge out.files m)
  find_bridge-Classified m =
      Raises-elim (Classified text Reason) (bridge_map (framework_of m)) _ _
        (final text Reason 400 unsupported_framework_code
          ("unsupported framework: " <> framework_of m) none)
        (λ name.
          Raises-require (Classified text Reason) (out.files.exists (out.files.bridge_path name)) _
            (ok (out.files.bridge_path name))
            (λ no. final text Reason 500 internal_code ("bridge script missing: " <> name) none) tt)

  validation_error-Classified : (m : Manifest) → Classified text Reason (validation_error out m)
  validation_error-Classified m =
      final text Reason 500
        (if m.smoke_test_input then smoke_check_failed_code else model_load_failed_code)
        ("model validation failed: " <> elim (is_set (some (out.strip out.validation.stderr))) [
          | none ↦ "unknown error"
          | some s ↦ s
        ])
        (some out.validation.stderr)

  validate_model-Classified :
      (path : String) (m : Manifest) → Raises (Classified text Reason) (validate_model out path m)
  validate_model-Classified path m =
      Raises-elim (Classified text Reason) (is_set m.model_artifact) _ _ tt (λ name.
        usable text Reason (out.files.within_models (out.files.beside path name))
          (out.files.exists (out.files.beside path name)) missing_artifact_code
          "model artifact file not found"
          (require (not out.validation.failed) (validation_error out m) (ok (tried m)))
          (Raises-require (Classified text Reason) (not out.validation.failed)
            (validation_error out m) (ok (tried m)) (λ no. validation_error-Classified m) tt))

  build_env-Classified :
      (path : String) (m : Manifest)
      → Raises
          (Classified text Reason)
          (build_env out (find_bridge out.files m >>= λ bridge. validate_model out path m))
  build_env-Classified path m =
      Raises-require (Classified text Reason) (not out.venv.failed) _ _
        (λ no.
          final text Reason 500 deterministic_install_failure_code "venv creation failed"
            (some out.venv.stderr))
        (Raises-require (Classified text Reason) (not out.pip.failed) (pip_error out) _
          (λ no. pip_error-Classified (ground arith))
          (Raises-bind (Classified text Reason) (find_bridge out.files m) _
            (find_bridge-Classified m) (λ bridge. validate_model-Classified path m)))

  manifest_and_env-Classified :
      (path : String)
      → Raises (Classified text Reason) (
          find_manifest out.files path (
            parse_manifest (out.files.content path) >>= λ m.
            check_requirements out.files path m >>= λ requirements_path.
            build_env out (find_bridge out.files m >>= λ bridge. validate_model out path m)))
  manifest_and_env-Classified path =
      usable text Reason (out.files.within_models path) (out.files.exists path)
        invalid_manifest_code "manifest not found" _
        (Raises-bind (Classified text Reason) (parse_manifest (out.files.content path)) _
          (parse_manifest-Classified (out.files.content path))
          (λ m.
            Raises-bind (Classified text Reason) (check_requirements out.files path m) _
              (check_requirements-Classified path m) (λ name. build_env-Classified path m)))

  init_body-Classified : Raises (Classified text Reason) (init_body out req)
  unfolding init_body
  init_body-Classified =
      Raises-bind (Classified text Reason) (fetch out req) _ fetch-Classified
        manifest_and_env-Classified

classified :
    (text : String) (out : Outside) (req : ModelRequest) (permits : ℕ) (e : HttpError)
    → (init_model out req permits).0 ≡ raised e
    → (is_retry (classify (as_result text e)) ≡ says_retryable e.detail)
      × ((says_retryable e.detail ≡ false) ⊎ (Transient out req ⊎ (permits ≡ 0)))
unfolding init_model is_non_retryable
classified text out req zero e h =
    let same : e ≡ capacity_error = ground arith in
    rw same (
      classify-mapping text 503 capacity_exhausted_code "runner build capacity exhausted" none true,
      inr (inr refl),
    )
classified text out req (suc left) e h =
    Raises-raised (Classified text (Transient out req ⊎ (suc left ≡ 0))) (init_body out req) e
      (init_body-Classified text out req (λ s exc d. inl (inl (s, (exc, d))))
        (λ failed again. inl (inr (failed, again))))
      (and_finally-result (init_body out req) left ∙ h)

-- What the task does with an outcome: it asks for another try where that is retryable and fewer than
-- three tries have been made.
abbrev pub is_retry_in : TaskResult → Bool
is_retry_in (retry_in delay) = true
is_retry_in _ = false

settle_outcome-is_retry :
    (id retries now : ℕ) (o : Outcome) (t : Table)
    → is_retry_in (settle_outcome id retries now o t).0 ≡ (is_retry o && ltb retries 3)
unfolding settle_outcome
settle_outcome-is_retry id retries now returned t = refl
settle_outcome-is_retry id retries now cancelled t = refl
settle_outcome-is_retry id retries now (retryable error code) t = ground arith
settle_outcome-is_retry id retries now (other error code) t = refl

-- Every error of `init_model` is classified by the build as the runner says: it is retryable exactly
-- where its detail has `retryable`, and then the task asks for another try exactly while it has made
-- fewer than three retries. The detail has it only where the semaphore had no permit, the artifact
-- could not be fetched from the store, or pip failed for a passing reason.
pub init_model-retried :
    (text : String) (out : Outside) (req : ModelRequest) (permits : ℕ) (e : HttpError)
    (id retries now : ℕ) (t : Table)
    → (init_model out req permits).0 ≡ raised e
    → (is_retry (classify (as_result text e)) ≡ says_retryable e.detail)
      × (is_retry_in (settle_outcome id retries now (classify (as_result text e)) t).0
          ≡ (says_retryable e.detail && ltb retries 3))
      × ((says_retryable e.detail ≡ false) ⊎ (Transient out req ⊎ (permits ≡ 0)))
init_model-retried text out req permits e id retries now t h =
    let (same, cause) = classified text out req permits e h in
    (
      same,
      settle_outcome-is_retry id retries now (classify (as_result text e)) t
          ∙ ap (λ b. b && ltb retries 3) same,
      cause,
    )
