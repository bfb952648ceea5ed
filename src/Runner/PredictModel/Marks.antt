-- ===== src/Runner/PredictModel/Marks.antt =====
-- runners/worker.py, `predict`: which errors are marked as retryable, and the semaphore.
use model_deployer.Base.{
  ℕ, zero, suc, ◌⊎◌, ◌==◌, ◌||◌, ◌≡◌, refl, not, Bool-cases, inl, inr, Option-cases,
}
use model_deployer.Runner.Replies.{
  and_finally, and_finally-permits, Checked, HttpError, raised, ok, escape_error, Content, manifest,
  Manifest, Files, ModelRequest, parse_manifest, find_bridge, framework_of, bridge_map, Raises,
  Raises-require, Raises-bind, Raises-elim, inference_stderr_is_retryable,
}
use model_deployer.Runner.InitModel.Errors.{says_retryable}
use model_deployer.Runner.PredictModel.{
  Outside, Warm, answered, Json, object, fetch, call_warm, process_error, read_answer, infer,
  predict_body, capacity_error, Answer, predict,
}

-- Marked as retryable exactly where the status is 503 or 504.
abbrev Marked : HttpError → Type 0
Marked e = says_retryable e.detail ≡ (e.status == 503 || e.status == 504)

fetch-Marked : (out : Outside) (req : ModelRequest) → Raises Marked (fetch out req)
fetch-Marked out req = elim (Bool-cases req.in_s3) [
  | inl s ↦ elim (Option-cases out.download_error) [
    | inl q ↦ rw (s, q) tt
    | inr (exc, q) ↦ rw (s, q) refl
  ]
  | inr s ↦ rw s tt
]

parse_manifest-Marked : (c : Content) → Raises Marked (parse_manifest c)
parse_manifest-Marked (manifest m) = tt
parse_manifest-Marked _ = refl

find_bridge-Marked : (files : Files) (m : Manifest) → Raises Marked (find_bridge files m)
find_bridge-Marked files m = Raises-elim Marked (bridge_map (framework_of m)) _ _ refl (λ name.
    Raises-require Marked (files.exists (files.bridge_path name)) _ (ok (files.bridge_path name))
      (λ no. refl) tt)

read_answer-Marked : (j : Json) → Raises Marked (read_answer j)
read_answer-Marked (object body) = tt
read_answer-Marked _ = refl

call_warm-Marked : (w : Warm) → Raises Marked (call_warm w)
call_warm-Marked (answered body) = tt
call_warm-Marked _ = refl

process_error-Marked : (out : Outside) → Marked (process_error out)
process_error-Marked out =
    elim (Bool-cases (inference_stderr_is_retryable out.lower out.process.stderr)) [
      | inl q ↦ rw q refl
      | inr q ↦ rw q refl
    ]

infer-Marked : (out : Outside) → Raises Marked (infer out)
infer-Marked out =
    Raises-elim Marked out.warm _ _
      (Raises-require Marked (not out.process.failed) (process_error out) _
        (λ no. process_error-Marked out) (read_answer-Marked (out.parse out.process.stdout)))
      call_warm-Marked

predict_body-Marked : (out : Outside) (req : ModelRequest) → Raises Marked (predict_body out req)
unfolding predict_body
predict_body-Marked out req = Raises-bind Marked (fetch out req) _ (fetch-Marked out req) (λ path.
    Raises-require Marked (out.files.within_models path) escape_error _ (λ no. refl)
      (Raises-require Marked (out.files.exists path) _ _ (λ no. refl)
        (Raises-require Marked (out.files.exists (out.files.python_bin req.model_id)) _ _
          (λ no. refl)
          (Raises-bind Marked (parse_manifest (out.files.content path)) _
            (parse_manifest-Marked (out.files.content path))
            (λ m.
              Raises-bind Marked (find_bridge out.files m) _ (find_bridge-Marked out.files m)
                (λ bridge. infer-Marked out))))))

and_finally-Marked :
    (body : Checked Answer) (left : ℕ)
    → Raises Marked body
    → ((answer : Answer) × ((and_finally body left).0 ≡ ok answer))
      ⊎ ((e : HttpError) × ((and_finally body left).0 ≡ raised e) × Marked e)
and_finally-Marked (ok answer) left h = inl (answer, refl)
and_finally-Marked (raised e) left h = inr (e, refl, h)

-- Whatever happens in `predict`, whether it answers or fails, the semaphore has as many permits
-- afterwards as before. It answers, or it raises an error that is marked as retryable exactly where
-- its status is 503 or 504.
pub predict-Marked :
    (out : Outside) (req : ModelRequest) (permits : ℕ)
    → ((predict out req permits).1 ≡ permits)
      × (((answer : Answer) × ((predict out req permits).0 ≡ ok answer))
          ⊎ ((e : HttpError) × ((predict out req permits).0 ≡ raised e)
              × (says_retryable e.detail ≡ (e.status == 503 || e.status == 504))))
unfolding predict
predict-Marked out req zero = (refl, inr (capacity_error, refl, refl))
predict-Marked out req (suc left) = (
  and_finally-permits (predict_body out req) left,
  and_finally-Marked (predict_body out req) left (predict_body-Marked out req),
)
