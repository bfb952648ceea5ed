-- ===== src/Deployments/Transitions.antt =====
-- What a build does to its deployment, whatever other processes do meanwhile.
use model_deployer.Base.{
  ℕ, ◌+◌, ◌*◌, ◌^◌, ◌<◌, ◌≡◌, ◌≢◌, ap, ◌∙◌, refl, ◌⊎◌, inl, inr, String, Bool, ◌&&◌, true, false,
  Option, none, some, List, [], ◌∷◌, arith, ◌==◌, Bool-cases, Option-cases,
}
use model_deployer.Base.Dict.{Dict, lookup, insert, lookup-insert, lookup-insert_self, lookup-erase}
use model_deployer.RunnerErrors.{is_non_retryable, internal_code}
use model_deployer.Deployments.{
  Status, pending, building, running, failed, stopped, Deployment, transition_to, Table, save,
}
use model_deployer.Deployments.Unique.{save-at, save_inv}
use model_deployer.Deployments.Build.{
  Begin, skip, go_on, refuse, begin, begin_status, claim, task_stopped, Outcome, returned,
  cancelled, retryable, other, RunnerResult, text_or, classify, await_ready, Outside, Readiness,
  ready, live, note_attempt, build_and_run, finish_row, finish, run_build, mark_fields, mark_write,
  retry_in, World, max_retries, settle_outcome, task_body, release, build_deployment,
}

-- A poll before the deadline answered 200.
abbrev pub Answered : List (Option ℕ) → Type 0
Answered [] = ⊥
Answered (none ∷ polls) = ⊥
Answered (some code ∷ polls) = (code ≡ 200) ⊎ Answered polls

await_ready-Answered : (polls : List (Option ℕ)) → await_ready polls ≡ ready → Answered polls
unfolding await_ready
await_ready-Answered [] e = cc
await_ready-Answered (none ∷ polls) e = cc
await_ready-Answered (some code ∷ polls) e = elim (Bool-cases (code == 200)) [
  | inl ok ↦ inl (ground arith)
  | inr more ↦ inr (await_ready-Answered polls (rw more at e))
]

-- Each row stands under its own id.
abbrev pub Keyed : Table → Type 0
Keyed t = (k : ℕ) (d : Deployment) → lookup k t ≡ some d → d.id ≡ k

save-Keyed : (row : Deployment) (t t' : Table) → Keyed t → save row t ≡ some t' → Keyed t'
save-Keyed row t t' keyed s k d l =
    let l' : lookup k (insert row.id row t) ≡ some d = rw ((save_inv row t t' s).0) at l in
    elim (Bool-cases (k == row.id)) [
      | inl q ↦ ground (arith, lookup-insert k row.id row t)
      | inr q ↦ keyed k d (ground (arith, lookup-insert k row.id row t))
    ]

claim-Keyed : (d : Deployment) (now : ℕ) (t s : Table) → Keyed t → claim d now t ≡ go_on s → Keyed s
claim-Keyed d now t s keyed e = elim (Option-cases (transition_to d building)) [
  | inl q ↦ absurd (ground arith)
  | inr (d', q) ↦
      let row : Deployment = record d' { last_error = none; build_logs = none; updated_at = now } in
      elim (Option-cases (save row t)) [
        | inl w ↦ absurd (ground arith)
        | inr (t', w) ↦
            let same : t' ≡ s = ground arith in save-Keyed row t s keyed (w ∙ ap some same)
      ]
]

claim_skip : (d : Deployment) (now : ℕ) (t : Table) → claim d now t ≢ skip
claim_skip d now t e = ground arith

-- The runner has served the build: both of its requests have been answered with 200 in time.
abbrev pub Served : Outside → Type 0
Served out =
    (out.artifact_exists ≡ true)
    × (out.has_runner ≡ true)
    × (await_ready out.polls ≡ ready)
    × ((r : RunnerResult) × (out.init_result ≡ some r) × (r.status_code ≡ 200))

abbrev replied_ok : Option RunnerResult → Bool
replied_ok none = false
replied_ok (some r) = r.status_code == 200

abbrev is_ready : Readiness → Bool
is_ready ready = true
is_ready _ = false

served : (out : Outside) → Served out ⊎ (¬ Served out)
served out = elim (Bool-cases (out.artifact_exists && out.has_runner)) [
  | inr q ↦ inr (λ (a, b, c, d). absurd (ground arith))
  | inl q ↦ elim (Bool-cases (is_ready (await_ready out.polls))) [
    | inr w ↦ inr (λ (a, b, c, d). absurd (ground arith))
    | inl w ↦ elim (Option-cases out.init_result) [
      | inl x ↦ inr (λ (a, b, c, (r, y, z)). absurd (ground arith))
      | inr (r, x) ↦ elim (Bool-cases (r.status_code == 200)) [
        | inl y ↦ inl (ground arith, ground arith, polled w, (r, x, ground arith))
        | inr y ↦ inr (λ (a, b, c, (r2, z, v)). absurd (ground arith))
      ]
    ]
  ]
]
  where
    polled : is_ready (await_ready out.polls) ≡ true → await_ready out.polls ≡ ready
    polled h = ground arith

abbrev pub run_row : Outside → Deployment → Deployment
run_row out d = live out (record d { status = running })

-- A build that returns has found its deployment BUILDING at the end.
finish_row_returned :
    (out : Outside) (d : Deployment) (t t' : Table)
    → finish_row d out t ≡ (returned, t')
    → (d.status ≡ building) × (save (run_row out d) t ≡ some t')
unfolding finish_row transition_to
finish_row_returned out d t t' e = ground arith

finish_returned :
    (id : ℕ) (out : Outside) (t t' : Table)
    → finish id out t ≡ (returned, t')
    → (d : Deployment) × (lookup id t ≡ some d)
      × (d.status ≡ building)
      × (save (run_row out d) t ≡ some t')
unfolding finish
finish_returned id out t t' e = go (lookup id t) refl e
  where
    go :
        (o : Option Deployment)
        → lookup id t ≡ o
        → ◌≡◌ {A = Outcome × Table}
            (elim o [
              | none ↦ (other "Deployment matching query does not exist." none, t)
              | some d ↦ finish_row d out t
            ])
            (returned, t')
        → (d : Deployment) × (lookup id t ≡ some d)
          × (d.status ≡ building)
          × (save (run_row out d) t ≡ some t')
    go none l p = cc
    go (some d) l p = let (b, s) = finish_row_returned out d t t' p in (d, l, b, s)

finish_stopped :
    (id : ℕ) (out : Outside) (t : Table) (d : Deployment)
    → lookup id t ≡ some d
    → d.status ≡ stopped
    → finish id out t ≡ (cancelled, t)
unfolding finish finish_row
finish_stopped id out t d l s = ground arith

-- A build whose deployment others have stopped writes nothing itself.
run_build_quiet :
    (id : ℕ) (out : Outside) (t : Table) (d : Deployment)
    → lookup id (out.meanwhile t) ≡ some d
    → d.status ≡ stopped
    → ((run_build id out t).0 ≢ returned)
      × (((run_build id out t).1 ≡ t) ⊎ ((run_build id out t).1 ≡ out.meanwhile t))
unfolding run_build classify
run_build_quiet id out t d l s = grind (arith, finish_stopped id out (out.meanwhile t) d l s)

run_build-Served :
    (id : ℕ) (out : Outside) (t : Table)
    → Served out
    → run_build id out t ≡ finish id out (out.meanwhile t)
unfolding run_build
run_build-Served id out t (there, has, polled, (r, replied, ok)) =
    let yes : (r.status_code == 200) ≡ true = ground arith in
    ground (arith, there, has, replied, yes, polled)

-- The second half of a build that others have stopped in between.
run_build_stopped :
    (id retries : ℕ) (out : Outside) (t : Table) (d : Deployment)
    → lookup id (out.meanwhile t) ≡ some d
    → d.status ≡ stopped
    → (Served out
        × (run_build id out t ≡ (cancelled, out.meanwhile t))
        × (settle_outcome id retries out.now (run_build id out t).0 (out.meanwhile t)
            ≡ (task_stopped, out.meanwhile t)))
      ⊎ (¬ Served out
          × ((run_build id out t).0 ≢ returned)
          × (((run_build id out t).1 ≡ t) ⊎ ((run_build id out t).1 ≡ out.meanwhile t)))
unfolding settle_outcome
run_build_stopped id retries out t d l s = elim (served out) [
  | inl up ↦
      let e : run_build id out t ≡ (cancelled, out.meanwhile t) =
        run_build-Served id out t up ∙ finish_stopped id out (out.meanwhile t) d l s in
      inl (up, e, rw e refl)
  | inr down ↦ (let (a, b) = run_build_quiet id out t d l s in inr (down, a, b))
]

-- Where the first transaction of a build goes on, and the user has stopped the deployment by the second
-- one, a build that the runner has served is cancelled, and the task says that the deployment is
-- stopped; a build that it has not served does not return. In both cases the build writes nothing
-- after the first transaction: the table is as that or as others left it.
pub build_and_run_stopped :
    (id retries : ℕ) (out : Outside) (t s : Table) (d : Deployment)
    → begin id out.now t ≡ go_on s
    → lookup id (out.meanwhile s) ≡ some d
    → d.status ≡ stopped
    → (Served out
        × (build_and_run id out t ≡ (cancelled, out.meanwhile s))
        × (settle_outcome id retries out.now (build_and_run id out t).0 (out.meanwhile s)
            ≡ (task_stopped, out.meanwhile s)))
      ⊎ (¬ Served out
          × ((build_and_run id out t).0 ≢ returned)
          × (((build_and_run id out t).1 ≡ s) ⊎ ((build_and_run id out t).1 ≡ out.meanwhile s)))
unfolding build_and_run
build_and_run_stopped id retries out t s d began l stop =
    rw (build_and_run, began) (run_build_stopped id retries out s d l stop)

run_build_silent :
    (id : ℕ) (out : Outside) (t t' : Table)
    → out.init_result ≡ none
    → run_build id out t ≢ (returned, t')
unfolding run_build
run_build_silent id out t t' silent e = ground arith

run_build_inv :
    (id : ℕ) (out : Outside) (t t' : Table)
    → run_build id out t ≡ (returned, t')
    → (r : RunnerResult) × (out.artifact_exists ≡ true)
      × (out.has_runner ≡ true)
      × (out.init_result ≡ some r)
      × (r.status_code ≡ 200)
      × (await_ready out.polls ≡ ready)
      × (finish id out (out.meanwhile t) ≡ (returned, t'))
unfolding run_build classify
run_build_inv id out t t' e = elim (Option-cases out.init_result) [
  | inl silent ↦ absurd (run_build_silent id out t t' silent e)
  | inr (r, replied) ↦
      (r, ground arith, ground arith, replied, ground arith, ground arith, ground arith)
]

-- The second half of a build that returns.
run_build_returned :
    (id : ℕ) (out : Outside) (t t' : Table)
    → ((d : Deployment) → lookup id (out.meanwhile t) ≡ some d → d.id ≡ id)
    → run_build id out t ≡ (returned, t')
    → (r : RunnerResult) × (d : Deployment) × (out.init_result ≡ some r)
      × (r.status_code ≡ 200)
      × Answered out.polls
      × (lookup id (out.meanwhile t) ≡ some d)
      × (d.status ≡ building)
      × (lookup id t' ≡ some (run_row out d))
      × ((k : ℕ) → k ≢ id → lookup k t' ≡ lookup k (out.meanwhile t))
run_build_returned id out t t' keyed e =
    let (r, there, has, replied, ok, polled, f) = run_build_inv id out t t' e in
    let (d, l, b, s) = finish_returned id out (out.meanwhile t) t' f in
    let (at, elsewhere) = save-at (run_row out d) id (out.meanwhile t) t' (keyed d l) s in
    (r, d, replied, ok, await_ready-Answered out.polls polled, l, b, at, elsewhere)

-- The first transaction returns at once only for a row that is RUNNING or STOPPED already.
begin_skip :
    (id now : ℕ) (t : Table)
    → begin id now t ≡ skip
    → (d : Deployment) × (lookup id t ≡ some d) × ((d.status ≡ running) ⊎ (d.status ≡ stopped))
unfolding begin begin_status
begin_skip id now t e = elim (Option-cases (lookup id t)) [
  | inl gone ↦ absurd (ground arith)
  | inr (d, l) ↦ go d l d.status refl
]
  where
    go :
        (d : Deployment)
        → lookup id t ≡ some d
        → (s : Status) → d.status ≡ s
        → (d : Deployment) × (lookup id t ≡ some d) × ((d.status ≡ running) ⊎ (d.status ≡ stopped))
    go d l running p = (d, l, inl p)
    go d l stopped p = (d, l, inr p)
    go d l pending p = absurd (claim_skip d now t (ground arith))
    go d l building p = absurd (ground arith)
    go d l failed p = absurd (ground arith)

begin_go_on :
    (id now : ℕ) (t s : Table)
    → Keyed t
    → begin id now t ≡ go_on s
    → (d : Deployment) × (lookup id t ≡ some d)
      × ((d.status ≡ pending) ⊎ (d.status ≡ building))
      × Keyed s
unfolding begin begin_status
begin_go_on id now t s keyed e = elim (Option-cases (lookup id t)) [
  | inl gone ↦ absurd (ground arith)
  | inr (d, l) ↦ go d l d.status refl
]
  where
    go :
        (d : Deployment)
        → lookup id t ≡ some d
        → (st : Status) → d.status ≡ st
        → (d : Deployment) × (lookup id t ≡ some d)
          × ((d.status ≡ pending) ⊎ (d.status ≡ building))
          × Keyed s
    go d l running p = absurd (ground arith)
    go d l stopped p = absurd (ground arith)
    go d l pending p = (d, l, inl p, claim-Keyed d now t s keyed (ground arith))
    go d l building p = let same : t ≡ s = ground arith in (d, l, inr p, rw (← same) keyed)
    go d l failed p = absurd (ground arith)

begins :
    (b : Begin)
    → (b ≡ skip) ⊎ (((code : Option String) × (b ≡ refuse code)) ⊎ ((s : Table) × (b ≡ go_on s)))
begins skip = inl refl
begins (refuse code) = inr (inl (code, refl))
begins (go_on s) = inr (inr (s, refl))

-- `_build_and_run_deployment` returns in two cases. Either the row was RUNNING or STOPPED when it
-- began, and nothing has changed. Or the row was PENDING or BUILDING, `init_environment` answered
-- 200 and a readiness poll before the deadline answered 200; then at the second transaction the
-- deployment was BUILDING, whatever other processes had done since the first; it is saved RUNNING
-- with the runner's address, and no other row has changed in that transaction. The table is keyed
-- by the rows' ids, and other processes keep it so.
pub build_and_run_returned :
    (id : ℕ) (out : Outside) (t t' : Table)
    → Keyed t
    → ((s : Table) → Keyed s → Keyed (out.meanwhile s))
    → build_and_run id out t ≡ (returned, t')
    → ((d : Deployment) × (lookup id t ≡ some d)
        × ((d.status ≡ running) ⊎ (d.status ≡ stopped))
        × (t' ≡ t))
      ⊎ ((s : Table) × (d0 : Deployment) × (r : RunnerResult) × (d : Deployment) × (begin id out.now
              t
            ≡ go_on s)
          × (lookup id t ≡ some d0)
          × ((d0.status ≡ pending) ⊎ (d0.status ≡ building))
          × (out.init_result ≡ some r)
          × (r.status_code ≡ 200)
          × Answered out.polls
          × (lookup id (out.meanwhile s) ≡ some d)
          × (d.status ≡ building)
          × (lookup id t' ≡ some (run_row out d))
          × ((k : ℕ) → k ≢ id → lookup k t' ≡ lookup k (out.meanwhile s)))
unfolding build_and_run
build_and_run_returned id out t t' keyed others e = elim (begins (begin id out.now t)) [
  | inl q ↦ (let (d, l, s) = begin_skip id out.now t q in inl (d, l, s, ground arith))
  | inr (inl (code, q)) ↦ absurd (ground arith)
  | inr (inr (s, q)) ↦
      (let (d0, l, status, keyed_s) = begin_go_on id out.now t s keyed q in
        let (r, d, replied, ok, polled, found, b, at, elsewhere) =
          run_build_returned id out s t' (others s keyed_s id) (ground arith) in
        inr (s, d0, r, d, q, l, status, replied, ok, polled, found, b, at, elsewhere))
]

settle_outcome-retry_in :
    (id retries now delay : ℕ) (o : Outcome) (t t' : Table)
    → settle_outcome id retries now o t ≡ (retry_in delay, t')
    → (retries < max_retries) × (delay ≡ 30 * 3 ^ retries)
unfolding settle_outcome
settle_outcome-retry_in id retries now delay (retryable error code) t t' e = ground arith
settle_outcome-retry_in id retries now delay _ t t' e = ground arith

task_body-retry_in :
    (id : ℕ) (task_id : String) (retries delay : ℕ) (out : Outside) (t t' : Table)
    → task_body id task_id retries out t ≡ (retry_in delay, t')
    → (retries < max_retries) × (delay ≡ 30 * 3 ^ retries)
unfolding task_body
task_body-retry_in id task_id retries delay out t t' e = ground (
  arith,
  settle_outcome-retry_in id retries out.now delay
      (build_and_run id out (note_attempt id task_id (retries + 1) t)).0
      (build_and_run id out (note_attempt id task_id (retries + 1) t)).1 t',
)

-- The task asks for a retry only while fewer than three have been made, and then after 30, 90 or
-- 270 seconds: 30 * 3 ^ retries.
pub build_deployment-retry_in :
    (id token : ℕ) (task_id : String) (retries delay : ℕ) (out : Outside) (others : Dict ℕ → Dict ℕ)
    (w w' : World)
    → build_deployment id token task_id retries out others w ≡ (retry_in delay, w')
    → (retries < max_retries) × (delay ≡ 30 * 3 ^ retries)
unfolding build_deployment
build_deployment-retry_in id token task_id retries delay out others w w' e =
    ground (arith, task_body-retry_in id task_id retries delay out w.table w'.table)

-- A failed `init_environment` is retried only under a code that is not in NON_RETRYABLE_CODES,
-- whatever the reply says of itself.
pub classify-retryable :
    (r : RunnerResult) (error code : String)
    → classify r ≡ retryable error code
    → is_non_retryable code ≡ false
unfolding classify
classify-retryable r error code e = ground arith

release_own : (id token : ℕ) (locks : Dict ℕ) → lookup id (release id token locks) ≢ some token
unfolding release
release_own id token locks = elim (Option-cases (lookup id locks)) [
  | inl gone ↦ ground arith
  | inr (holder, held) ↦ ground (arith, lookup-erase id id locks)
]

lookup-release :
    (k id token : ℕ) (locks : Dict ℕ) → k ≢ id → lookup k (release id token locks) ≡ lookup k locks
unfolding release
lookup-release k id token locks ne = ground (arith, lookup-erase k id locks)

-- A task that starts with its deployment's lock free leaves no lock with its own token, whatever
-- the outcome and whatever other workers do to the locks; and it leaves the locks of other
-- deployments as those workers did.
pub build_deployment_release :
    (id token : ℕ) (task_id : String) (retries : ℕ) (out : Outside) (others : Dict ℕ → Dict ℕ)
    (w : World)
    → lookup id w.locks ≡ none
    → let w' = (build_deployment id token task_id retries out others w).1 in
      (lookup id w'.locks ≢ some token)
      × ((k : ℕ) → k ≢ id → lookup k w'.locks ≡ lookup k (others (insert id token w.locks)))
unfolding build_deployment release
build_deployment_release id token task_id retries out others w free =
    rw (free, build_deployment)
      (
        release_own id token (others (insert id token w.locks)),
        λ k ne. lookup-release k id token (others (insert id token w.locks)) ne,
      )

-- `_mark_failed` computes its fields from a BUILDING row. When another process stops the deployment
-- before they are written, the write goes through and the row is FAILED.
pub stale_mark_overwrites :
    (error : String) (code : Option String) (now : ℕ) (d row : Deployment) (t : Table)
    → d.status ≡ building
    → lookup d.id t ≡ some row
    → row.id ≡ d.id
    → row.status ≡ stopped
    → (t' : Table) × (mark_write (mark_fields error code d) now t ≡ some t')
      × (row' : Deployment) × (lookup d.id t' ≡ some row')
      × (row'.status ≡ failed)
unfolding mark_write mark_fields save
stale_mark_overwrites error code now d row t b l k s =
    let new : Deployment = record row {
      status = failed;
      last_error = some error;
      last_error_code = some (text_or code internal_code);
      updated_at = now;
    } in
    (insert row.id new t, ground arith, new, rw (← k) (lookup-insert_self row.id new t), refl)
