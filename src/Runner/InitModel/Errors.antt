-- ===== src/Runner/InitModel/Errors.antt =====
-- runners/worker.py and deployments/services.py: how the build of a deployment classifies an error of
-- the runner. The reply's body is the error's `detail`, as FastAPI and `RunnerResult` hand it on.
use model_deployer.Base.{
  ℕ, String, Bool, true, false, Option, none, some, ◌≡◌, refl, ◌⊎◌, inl, arith, ◌∙◌, if◌then◌else◌,
}
use model_deployer.RunnerErrors.{is_non_retryable, internal_code}
use model_deployer.Deployments.Build.{
  Outcome, retryable, other, text_or, or_text, RunnerResult, empty_body, classify,
}
use model_deployer.Runner.Replies.{
  Detail, mapping, plain, HttpError, Checked, Raises, Raises-require, escape_error, error, require,
}

-- `{"detail": …}` with the status code; `text` is `str(data)`.
abbrev pub as_result : String → HttpError → RunnerResult
as_result text e = record {
  status_code = e.status;
  data_body = some empty_body;
  detail = elim e.detail [
    | plain message ↦ none
    | mapping code message stderr again ↦
        some (record { code = some code; error = some message; message = none; retryable = again })
  ];
  text = text;
}

abbrev pub is_retry : Outcome → Bool
is_retry (retryable message code) = true
is_retry _ = false

-- What the runner says of its error.
abbrev pub says_retryable : Detail → Bool
says_retryable (mapping code message stderr again) = again
says_retryable (plain message) = false

-- An error is classified as the runner says, and it says so with a reason only.
abbrev pub Classified : String → Type 0 → HttpError → Type 0
Classified text Reason e =
    (is_retry (classify (as_result text e)) ≡ says_retryable e.detail)
    × ((says_retryable e.detail ≡ false) ⊎ Reason)

is_retry-if :
    (b : Bool) (message code : String) (c : Option String)
    → is_retry (if b then retryable message code else other message c) ≡ b
is_retry-if true message code c = refl
is_retry-if false message code c = refl

-- A mapping's flag counts where its code is not among the deterministic ones.
pub classify-mapping :
    (text : String) (status : ℕ) (code message : String) (stderr : Option String) (again : Bool)
    → is_retry (
        classify
          (as_result text (record { status = status; detail = mapping code message stderr again })))
      ≡ (if is_non_retryable (text_or (or_text (some code) none) internal_code)
          then false
          else again)
unfolding classify
classify-mapping text status code message stderr again =
    is_retry-if
      (if is_non_retryable (text_or (or_text (some code) none) internal_code) then false else again)
      _ _ _

if-false : (b : Bool) → (if b then false else false) ≡ false
if-false b = ground arith

module _ (text : String) (Reason : Type 0) where
  pub final :
      (status : ℕ) (code message : String) (stderr : Option String)
      → Classified text Reason
          (record { status = status; detail = mapping code message stderr false })
  final status code message stderr =
      (classify-mapping text status code message stderr false ∙ if-false _, inl refl)

  pub final_plain :
      (status : ℕ) (message : String)
      → Classified text Reason (record { status = status; detail = plain message })
  unfolding classify is_non_retryable
  final_plain status message = (refl, inl refl)

  -- The two tests on a path that a manifest names.
  pub usable {ℓ} :
      {A : Type ℓ} (within there : Bool) (code message : String) (k : Checked A)
      → Raises (Classified text Reason) k
      → Raises (Classified text Reason) (
          require within escape_error
            (require there (error 404 (mapping code message none false)) k))
  usable within there code message k hk =
      Raises-require (Classified text Reason) within escape_error
        (require there (error 404 (mapping code message none false)) k)
        (λ no. final_plain 400 "Path escapes storage root")
        (Raises-require (Classified text Reason) there (error 404 (mapping code message none false))
          k (λ no. final 404 code message none) hk)
