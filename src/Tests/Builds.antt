-- ===== src/Tests/Builds.antt =====
-- Runs of a deployment: version 9 is deployed as 5.
use model_deployer.Base.{ℕ, ◌≡◌, ◌≢◌, refl, ◌⊎◌, true, none, some, [], ◌∷◌, arith}
use model_deployer.Base.Dict.{lookup, insert, erase}
use model_deployer.RunnerErrors.{worker_timeout_code}
use model_deployer.Deployments.{
  Status, pending, building, running, stopped, Deployment, transition_to, Table, taken, save,
}
use model_deployer.Deployments.Build.{
  returned, cancelled, go_on, begin_status, task_stopped, RunnerResult, await_ready, Outside,
  finish, finish_row, run_build, build_and_run, begin, World, retry_in, note_attempt,
  settle_outcome, task_body, release, build_deployment,
}
use model_deployer.Deployments.Views.{new_deployment}
use model_deployer.Deployments.Unique.{UniqueActive, save-UniqueActive}
use model_deployer.Deployments.Keeping.{build_deployment-UniqueActive}
use model_deployer.Deployments.Transitions.{
  Answered, Keyed, Served, run_row, build_and_run_returned, build_and_run_stopped,
}

abbrev row_in : Status → Deployment
row_in status = record (new_deployment 5 9 100) { status = status }

abbrev table_in : Status → Table
table_in status = (5, row_in status) ∷ []

abbrev ok_reply : RunnerResult
ok_reply = record { status_code = 200; data_body = none; detail = none; text = "{}" }

-- A runner that comes up at its second poll, while nobody else writes the table.
abbrev runner_up : Outside
runner_up = record {
  artifact_exists = true;
  has_runner = true;
  init_result = some ok_reply;
  polls = some 503 ∷ some 200 ∷ [];
  meanwhile = λ t. t;
  base_url = "http://runner:8000";
  now = 120;
}

-- The same runner, while the user stops the deployment.
abbrev runner_stopped : Outside
runner_stopped = record runner_up { meanwhile = λ t. table_in stopped }

-- A runner that never gets ready.
abbrev runner_slow : Outside
runner_slow = record runner_up { polls = some 503 ∷ [] }

abbrev busy_reply : RunnerResult
busy_reply = record {
  status_code = 503;
  data_body = some (record {
    code = some worker_timeout_code;
    error = some "busy";
    message = none;
    retryable = true;
  });
  detail = none;
  text = "{}";
}

-- The deployment as the first transaction leaves it.
abbrev claimed : Deployment
claimed = record (row_in building) { updated_at = 120 }

keyed : Keyed (table_in pending)
unfolding lookup
keyed k d e = ground arith

built :
    build_and_run 5 runner_up (table_in pending) ≡ (returned, (5, run_row runner_up claimed) ∷ [])
unfolding build_and_run begin begin_status run_build await_ready finish finish_row transition_to
    save taken lookup insert
built = refl

build_and_run_returned_example :
    ((d : Deployment) × (lookup 5 (table_in pending) ≡ some d)
      × ((d.status ≡ running) ⊎ (d.status ≡ stopped))
      × ((5, run_row runner_up claimed) ∷ [] ≡ table_in pending))
    ⊎ ((s : Table) × (d0 : Deployment) × (r : RunnerResult) × (d : Deployment) × (begin 5 120
            (table_in pending)
          ≡ go_on s)
        × (lookup 5 (table_in pending) ≡ some d0)
        × ((d0.status ≡ pending) ⊎ (d0.status ≡ building))
        × (runner_up.init_result ≡ some r)
        × (r.status_code ≡ 200)
        × Answered runner_up.polls
        × (lookup 5 s ≡ some d)
        × (d.status ≡ building)
        × (lookup 5 ((5, run_row runner_up claimed) ∷ []) ≡ some (run_row runner_up d))
        × ((k : ℕ) → k ≢ 5 → lookup k ((5, run_row runner_up claimed) ∷ []) ≡ lookup k s))
build_and_run_returned_example =
    build_and_run_returned 5 runner_up (table_in pending) ((5, run_row runner_up claimed) ∷ [])
      keyed (λ s k. k) built

-- The table after the first transaction.
abbrev started : Table
started = (5, claimed) ∷ []

began : begin 5 120 (table_in pending) ≡ go_on started
unfolding begin begin_status transition_to save taken lookup insert
began = refl

build_and_run_stopped_example :
    (Served runner_stopped
      × (build_and_run 5 runner_stopped (table_in pending) ≡ (cancelled, table_in stopped))
      × (settle_outcome 5 1 120
            (build_and_run 5 runner_stopped (table_in pending)).0
            (table_in stopped)
          ≡ (task_stopped, table_in stopped)))
    ⊎ (¬ Served runner_stopped
        × ((build_and_run 5 runner_stopped (table_in pending)).0 ≢ returned)
        × (((build_and_run 5 runner_stopped (table_in pending)).1 ≡ started)
            ⊎ ((build_and_run 5 runner_stopped (table_in pending)).1 ≡ table_in stopped)))
unfolding lookup
build_and_run_stopped_example =
    build_and_run_stopped 5 1 runner_stopped (table_in pending) started (row_in stopped) began refl
      refl

abbrev waiting : World
waiting = record { table = table_in pending; locks = [] }

-- The first attempt has claimed the deployment, and the task will be run again.
abbrev tried : World
tried = record {
  table =
      (
        5,
        record (row_in building) {
          celery_task_id = some "task";
          build_attempt = 1;
          updated_at = 120;
        },
      )
      ∷ [];
  locks = [];
}

retrying : build_deployment 5 77 "task" 0 runner_slow (λ l. l) waiting ≡ (retry_in 30, tried)
unfolding build_deployment task_body settle_outcome note_attempt build_and_run begin begin_status
    run_build await_ready transition_to save taken lookup insert release erase
retrying = refl

only_row : UniqueActive (table_in stopped)
unfolding lookup
only_row i j d e l k p q r = ground arith

one_row : UniqueActive waiting.table
unfolding lookup
one_row i j d e l k p q r = ground arith

build_deployment-UniqueActive_example :
    UniqueActive (build_deployment 5 77 "task" 0 runner_up (λ l. l) waiting).1.table
build_deployment-UniqueActive_example =
    build_deployment-UniqueActive 5 77 "task" 0 runner_up (λ l. l) waiting one_row (λ s u. u)

save-UniqueActive_example : UniqueActive ((5, row_in stopped) ∷ (6, new_deployment 6 9 140) ∷ [])
unfolding save taken insert
save-UniqueActive_example =
    save-UniqueActive (new_deployment 6 9 140) (table_in stopped)
      ((5, row_in stopped) ∷ (6, new_deployment 6 9 140) ∷ []) only_row refl
