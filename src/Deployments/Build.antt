-- ===== src/Deployments/Build.antt =====
-- deployments/services.py and deployments/tasks.py: the build of a deployment.
use model_deployer.Base.{
  ℕ, ◌+◌, ◌*◌, ◌^◌, String, Bool, false, Option, none, some, List, [], ◌∷◌, ◌==◌, not, leb, str_eq,
  ◌>>=◌, if◌then◌else◌,
}
use model_deployer.Base.Dict.{Dict, lookup, insert, erase}
use model_deployer.RunnerErrors.{is_non_retryable, internal_code, worker_timeout_code}
use model_deployer.Deployments.{
  Status, status_eq, pending, building, running, failed, stopped, Deployment, transition_to, Table,
  save,
}

-- How `_build_and_run_deployment` ends: it returns, or raises one of its exceptions. `other` is
-- any exception that is neither a cancellation nor retryable, with the code that
-- `getattr(exc, "code", …)` finds.
pub data Outcome : Type 0 where
  returned : Outcome
  cancelled : Outcome
  retryable : String → String → Outcome
  other : String → Option String → Outcome

-- The mappings in a reply's body: `code`, `error`, `message`, and `bool(get("retryable", False))`.
pub record Body : Type 0 where
  pub code : Option String
  pub error : Option String
  pub message : Option String
  pub retryable : Bool

abbrev pub empty_body : Body
empty_body = record { code = none; error = none; message = none; retryable = false }

-- A `RunnerResult`: `data` is `none` where the body is no mapping, and beside it stands its
-- `detail`, where that is a mapping; `text` is `str(data)`.
pub record RunnerResult : Type 0 where
  pub status_code : ℕ
  pub data_body : Option Body
  pub detail : Option Body
  pub text : String

-- Python's `a or b` on texts: an empty text is false.
abbrev pub or_text : Option String → Option String → Option String
or_text none b = b
or_text (some a) b = if str_eq a "" then b else some a

abbrev pub text_or : Option String → String → String
text_or none b = b
text_or (some a) b = if str_eq a "" then b else a

abbrev pub body_or : Option Body → Body → Body
body_or none b = b
body_or (some a) b = a

-- The failed `init_environment`: services.py from `data = init_result.data …` to the raises.
unfoldable pub classify : RunnerResult → Outcome
classify r =
    let body = body_or r.data_body empty_body in
    let detail = body_or r.detail body in
    let err_code = text_or (or_text detail.code body.code) internal_code in
    let err_msg = text_or (or_text detail.error detail.message) r.text in
    let retry = if is_non_retryable err_code then false else detail.retryable in
    if retry then retryable err_msg err_code else other err_msg (some err_code)

-- The readiness loop. A poll gives a status code or raises; the list holds the polls that are
-- made before the deadline.
pub data Readiness : Type 0 where
  ready timed_out raised : Readiness

unfoldable pub await_ready : List (Option ℕ) → Readiness
await_ready [] = timed_out
await_ready (none ∷ polls) = raised
await_ready (some code ∷ polls) =
    let rest = await_ready polls in if code == 200 then ready else rest

-- What the build meets outside: the runner's replies (`none` is a raised exception), whether the
-- artifact's directory is there (or the path is an s3 one), whether the framework has a runner,
-- and what other processes do to the table while the build waits for the runner.
pub record Outside : Type 0 where
  pub artifact_exists : Bool
  pub has_runner : Bool
  pub init_result : Option RunnerResult
  pub polls : List (Option ℕ)
  pub meanwhile : Table → Table
  pub base_url : String
  pub now : ℕ

-- The first transaction of `_build_and_run_deployment`.
pub data Begin : Type 0 where
  skip : Begin
  go_on : Table → Begin
  refuse : Option String → Begin

abbrev pub claim : Deployment → ℕ → Table → Begin
claim d now t = elim (transition_to d building) [
  | none ↦ refuse none
  | some d' ↦ elim (save (record d' { last_error = none; build_logs = none; updated_at = now }) t) [
    | none ↦ refuse none
    | some t' ↦ go_on t'
  ]
]

unfoldable pub begin_status : Status → Deployment → ℕ → Table → Begin
begin_status running d now t = skip
begin_status stopped d now t = skip
begin_status pending d now t = claim d now t
begin_status building d now t = go_on t
begin_status failed d now t = refuse none

unfoldable pub begin : ℕ → ℕ → Table → Begin
unfolding begin_status
begin id now t = elim (lookup id t) [ none ↦ refuse none | some d ↦ begin_status d.status d now t ]

-- The second transaction. Its update sets these fields.
abbrev pub live : Outside → Deployment → Deployment
live out d = record d {
  image_name = none;
  container_name = none;
  container_id = none;
  internal_url = some out.base_url;
  endpoint_url = none;
  build_logs = none;
  started_at = some out.now;
  updated_at = out.now;
}

unfoldable pub finish_row : Deployment → Outside → Table → Outcome × Table
finish_row d out t =
    if status_eq d.status stopped
    then (cancelled, t)
    else if not (status_eq d.status building)
    then (other "Deployment changed state during build" none, t)
    else elim (transition_to d running) [
      | none ↦ (other "Invalid transition" none, t)
      | some d' ↦ elim (save (live out d') t) [
        | none ↦ (other "IntegrityError" none, t)
        | some t' ↦ (returned, t')
      ]
    ]

unfoldable pub finish : ℕ → Outside → Table → Outcome × Table
finish id out t = elim (lookup id t) [
  | none ↦ (other "Deployment matching query does not exist." none, t)
  | some d ↦ finish_row d out t
]

-- The rest of `_build_and_run_deployment`, after the first transaction has claimed the row (the early
-- return for a RUNNING or STOPPED row is in `begin` and `build_and_run`): the runner is called while others may write the table.
unfoldable pub run_build : ℕ → Outside → Table → Outcome × Table
run_build id out t =
    if not out.artifact_exists
    then (other "Model artifact path does not exist" none, t)
    else if not out.has_runner
    then (other "Unsupported framework" none, t)
    else elim out.init_result [
      | none ↦ (other "init_environment raised" none, out.meanwhile t)
      | some r ↦
          if not (r.status_code == 200)
          then (classify r, out.meanwhile t)
          else elim (await_ready out.polls) [
            | raised ↦ (other "readiness raised" none, out.meanwhile t)
            | timed_out ↦
                (retryable "Runner readiness check timed out" worker_timeout_code, out.meanwhile t)
            | ready ↦ finish id out (out.meanwhile t)
          ]
    ]

-- `_build_and_run_deployment`
unfoldable pub build_and_run : ℕ → Outside → Table → Outcome × Table
build_and_run id out t = elim (begin id out.now t) [
  | skip ↦ (returned, t)
  | refuse code ↦ (other "Cannot build deployment" code, t)
  | go_on t' ↦ run_build id out t'
]

-- `_mark_failed` reads the row, and later writes the fields of `update_fields`.
unfoldable pub mark_read : ℕ → Table → Option Deployment
mark_read id t = lookup id t

-- The values that it writes: the status that it computed from the row that it read.
unfoldable pub mark_fields : String → Option String → Deployment → Deployment
mark_fields error code d =
    let d' : Deployment = elim d.status [
      | pending ↦ record d { status = failed }
      | building ↦ record d { status = failed }
      | _ ↦ d
    ] in
    record d' { last_error = some error; last_error_code = some (text_or code internal_code) }

-- `save(update_fields=["status", "last_error", "last_error_code", "updated_at"])` of values that
-- were computed from an earlier row.
unfoldable pub mark_write : Deployment → ℕ → Table → Option Table
mark_write values now t = do
  row ← lookup values.id t
  save
      (record row {
        status = values.status;
        last_error = values.last_error;
        last_error_code = values.last_error_code;
        updated_at = now;
      })
      t

-- `_mark_failed` with nothing in between.
unfoldable pub mark_failed : ℕ → String → Option String → ℕ → Table → Table
mark_failed id error code now t = elim (mark_read id t) [
  | none ↦ t
  | some d ↦ elim (mark_write (mark_fields error code d) now t) [ none ↦ t | some t' ↦ t' ]
]

pub data TaskResult : Type 0 where
  already_running missing task_failed task_stopped task_running : TaskResult
  retry_in : ℕ → TaskResult

-- The cache's build locks: the token that holds each deployment's lock.
pub record World : Type 0 where
  pub table : Table
  pub locks : Dict ℕ

abbrev pub max_retries : ℕ
max_retries = 3

-- `Deployment.objects.filter(id=…).update(celery_task_id=…, build_attempt=…)`
unfoldable pub note_attempt : ℕ → String → ℕ → Table → Table
note_attempt id task_id attempt t = elim (lookup id t) [
  | none ↦ t
  | some d ↦ insert id (record d { celery_task_id = some task_id; build_attempt = attempt }) t
]

-- The `except` clauses of `build_deployment`.
unfoldable pub settle_outcome : ℕ → ℕ → ℕ → Outcome → Table → TaskResult × Table
settle_outcome id retries now returned t = (task_running, t)
settle_outcome id retries now cancelled t = (task_stopped, t)
settle_outcome id retries now (retryable error code) t =
    if leb max_retries retries
    then (task_failed, mark_failed id error (some code) now t)
    else (retry_in (30 * 3 ^ retries), t)
settle_outcome id retries now (other error code) t =
    (task_failed, mark_failed id error (some (text_or code internal_code)) now t)

unfoldable pub task_body : ℕ → String → ℕ → Outside → Table → TaskResult × Table
task_body id task_id retries out t = elim (lookup id t) [
  | none ↦ (missing, t)
  | some d ↦ elim d.status [
    | running ↦ (task_running, t)
    | stopped ↦ (task_stopped, t)
    | _ ↦
        let (outcome, t') = build_and_run id out (note_attempt id task_id (retries + 1) t) in
        settle_outcome id retries out.now outcome t'
  ]
]

-- The `finally` clause: only the holder's own token is removed.
unfoldable pub release : ℕ → ℕ → Dict ℕ → Dict ℕ
release id token locks = elim (lookup id locks) [
  | none ↦ locks
  | some holder ↦ if holder == token then erase id locks else locks
]

-- `build_deployment`, the Celery task. `others` is what other workers do to the locks meanwhile
-- (an expiry and a new holder among them).
unfoldable pub build_deployment :
    ℕ → ℕ → String → ℕ → Outside → (Dict ℕ → Dict ℕ) → World → TaskResult × World
build_deployment id token task_id retries out others w = elim (lookup id w.locks) [
  | some _ ↦ (already_running, w)
  | none ↦
      let held = others (insert id token w.locks) in
      let (result, t) = task_body id task_id retries out w.table in
      (result, record { table = t; locks = release id token held })
]
