-- ===== src/Runner/Replies.antt =====
-- runners/worker.py: what the request handlers share. Paths are texts; how they are joined and
-- resolved, what the files hold and how a command ends come from outside.
use model_deployer.Base.{
  suc, ◌+◌, String, Bool, true, false, Option, none, some, List, [], ◌∷◌, ℕ, any_of, leb, str_eq,
  if◌then◌else◌, ◌≡◌, refl, subst, arith,
}
use Prim.Native.String.{find, len}
use model_deployer.RunnerErrors.{invalid_manifest_code, unsupported_framework_code, internal_code}
use Prim.Native.String.{◌++◌ as ◌<>◌}

-- The `detail` of an HTTPException: a mapping, with its `stderr` where it has one, or a text.
pub data Detail : Type 0 where
  mapping : String → String → Option String → Bool → Detail
  plain : String → Detail

pub record HttpError : Type 0 where
  pub status : ℕ
  pub detail : Detail

pub data Checked {ℓ} (A : Type ℓ) : Type ℓ where
  raised : HttpError → Checked A
  ok : A → Checked A

infixl 5 ◌>>=◌
abbrev pub ◌>>=◌ {ℓ κ} : {A : Type ℓ} {B : Type κ} → Checked A → (A → Checked B) → Checked B
raised e >>= f = raised e
ok a >>= f = f a

abbrev pub error : ℕ → Detail → HttpError
error status detail = record { status = status; detail = detail }

-- `if not test: raise HTTPException(…)`
abbrev pub require {ℓ} : {A : Type ℓ} → Bool → HttpError → Checked A → Checked A
require true e k = k
require false e k = raised e

-- Python's `token in text`.
unfoldable pub contains : String → String → Bool
contains token text = leb (find text token) (len text)

-- `_inference_stderr_is_retryable` and `_pip_stderr_is_retryable`, by the `str.lower` of Python.
abbrev pub inference_tokens : List String
inference_tokens =
    "timed out" ∷ "timeout" ∷ "deadline exceeded" ∷ "connection refused" ∷ "econnrefused"
    ∷ "connection reset" ∷ "econrefused" ∷ "econnreset" ∷ "temporary failure"
    ∷ "service unavailable" ∷ "503" ∷ "rate limit" ∷ "too many requests" ∷ "429" ∷ []

abbrev pub pip_tokens : List String
pip_tokens =
    "could not fetch" ∷ "network is unreachable" ∷ "name or service not known" ∷ "timed out"
    ∷ "timeout" ∷ "deadline exceeded" ∷ "temporary resolve failure" ∷ "failed to resolve"
    ∷ "service temporarily unavailable" ∷ []

unfoldable pub inference_stderr_is_retryable : (String → String) → String → Bool
inference_stderr_is_retryable lower stderr =
    any_of (λ token. contains token (lower stderr)) inference_tokens

unfoldable pub pip_stderr_is_retryable : (String → String) → String → Bool
pip_stderr_is_retryable lower stderr = any_of (λ token. contains token (lower stderr)) pip_tokens

-- The keys of the manifest that the handlers read; an empty text is as good as none, but for the
-- framework, where `none` is a missing key.
pub record Manifest : Type 0 where
  pub requirements : Option String
  pub framework : Option String
  pub model_artifact : Option String
  pub smoke_test_input : Bool

pub data Content : Type 0 where
  unreadable bad_yaml no_object : Content
  manifest : Manifest → Content

-- What the handlers ask of the file system.
pub record Files : Type 0 where
  pub within_models : String → Bool
  pub within_envs : String → Bool
  pub exists : String → Bool
  pub content : String → Content
  -- `(manifest_path.parent / x).resolve()`
  pub beside : String → String → String
  -- `MODELS_ROOT / model_id / "model.yaml"`, `ENVS_ROOT / model_id`, and the Python in it.
  pub local_manifest : String → String
  pub env_dir : String → String
  pub python_bin : String → String
  -- `Path(__file__).resolve().parent / name`
  pub bridge_path : String → String

-- How a command ends: `failed` is `code != 0`.
pub record Ran : Type 0 where
  pub failed : Bool
  pub stdout : String
  pub stderr : String

-- A request of `/init-model` or `/predict`; `in_s3` is `manifest_path.startswith("s3://")`.
pub record ModelRequest : Type 0 where
  pub model_id : String
  pub manifest_path : String
  pub in_s3 : Bool

abbrev pub escape_error : HttpError
escape_error = error 400 (plain "Path escapes storage root")

-- `release()` of a semaphore.
abbrev pub release_permit : ℕ → ℕ
release_permit permits = permits + 1

-- `finally`, after the body has returned or raised.
abbrev pub and_finally {ℓ} : {A : Type ℓ} → Checked A → ℕ → Checked A × ℕ
and_finally (ok answer) permits = (ok answer, release_permit permits)
and_finally (raised e) permits = (raised e, release_permit permits)

-- The permit is given back whether the body has returned or raised.
pub and_finally-permits {ℓ} :
    {A : Type ℓ} (body : Checked A) (left : ℕ) → (and_finally body left).1 ≡ suc left
and_finally-permits (ok answer) left = omega arith
and_finally-permits (raised e) left = omega arith

pub and_finally-result {ℓ} :
    {A : Type ℓ} (body : Checked A) (left : ℕ) → body ≡ (and_finally body left).0
and_finally-result (ok answer) left = refl
and_finally-result (raised e) left = refl

-- `_ensure_within_root`, the test for existence, `_read_manifest` and `_parse_manifest`.
abbrev pub parse_manifest : Content → Checked Manifest
parse_manifest unreadable = raised (error 400 (plain "manifest is not readable"))
parse_manifest bad_yaml = raised (error 400 (plain "manifest is not valid yaml"))
parse_manifest no_object = raised (error 400 (plain "manifest must be a yaml object"))
parse_manifest (manifest m) = ok m

abbrev pub find_manifest {ℓ} : {A : Type ℓ} → Files → String → Checked A → Checked A
find_manifest files path k = require (files.within_models path) escape_error (
    require (files.exists path)
      (error 404 (mapping invalid_manifest_code "manifest not found" none false)) k)

-- `if not x`, for a value that is a text or missing.
abbrev pub is_set : Option String → Option String
is_set none = none
is_set (some x) = if str_eq x "" then none else some x

-- `manifest.get("framework", "sklearn")` and `BRIDGE_MAP`
abbrev pub framework_of : Manifest → String
framework_of m = elim m.framework [ none ↦ "sklearn" | some name ↦ name ]

unfoldable pub bridge_map : String → Option String
bridge_map framework =
    if str_eq framework "sklearn"
    then some "worker_bridge.py"
    else (if str_eq framework "pytorch" then some "pytorch_bridge.py" else none)

-- The script that runs the framework's models.
abbrev pub find_bridge : Files → Manifest → Checked String
find_bridge files m = elim (bridge_map (framework_of m)) [
  | none ↦ raised (
      error 400 (
        mapping unsupported_framework_code ("unsupported framework: " <> framework_of m) none
          false))
  | some name ↦
      require (files.exists (files.bridge_path name))
        (error 500 (mapping internal_code ("bridge script missing: " <> name) none false))
        (ok (files.bridge_path name))
]

-- What holds of the error, where there is one.
abbrev pub Raises {ℓ κ} : {A : Type ℓ} → (HttpError → Type κ) → Checked A → Type κ
Raises P (raised e) = P e
Raises P (ok a) = Unit

module _ {ℓ κ} {A : Type ℓ} (P : HttpError → Type κ) where
  pub Raises-require :
      (b : Bool) (e : HttpError) (k : Checked A)
      → (b ≡ false → P e)
      → Raises P k
      → Raises P (require b e k)
  Raises-require true e k he hk = hk
  Raises-require false e k he hk = he refl

  pub Raises-bind {ℓ'} :
      {B : Type ℓ'} (m : Checked A) (f : A → Checked B)
      → Raises P m
      → ((a : A) → Raises P (f a))
      → Raises P (m >>= f)
  Raises-bind (raised e) f hm hf = hm
  Raises-bind (ok a) f hm hf = hf a

  pub Raises-elim {ℓ'} :
      {B : Type ℓ'} (o : Option B) (m : Checked A) (f : B → Checked A)
      → Raises P m
      → ((b : B) → Raises P (f b))
      → Raises P (elim o [ none ↦ m | some b ↦ f b ])
  Raises-elim none m f hm hf = hm
  Raises-elim (some b) m f hm hf = hf b

  pub Raises-raised : (m : Checked A) (e : HttpError) → Raises P m → m ≡ raised e → P e
  Raises-raised m e h q = subst (Raises P) q h

-- Inversion of what did not raise.
module _ {ℓ} {A : Type ℓ} where
  pub require-ok :
      (b : Bool) (e : HttpError) (k : Checked A) {a : A}
      → require b e k ≡ ok a
      → (b ≡ true) × (k ≡ ok a)
  require-ok true e k h = (refl, h)
  require-ok false e k h = absurd (ground arith)

  pub bind-ok {κ} :
      {B : Type κ} (m : Checked A) (f : A → Checked B) {b : B}
      → (m >>= f) ≡ ok b
      → (a : A) × (m ≡ ok a) × (f a ≡ ok b)
  bind-ok (raised e) f h = absurd (ground arith)
  bind-ok (ok a) f h = (a, refl, h)
