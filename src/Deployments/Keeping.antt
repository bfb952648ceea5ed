-- ===== src/Deployments/Keeping.antt =====
-- deployments/tasks.py: the build task keeps at most one active deployment for each version.
use model_deployer.Base.{
  ℕ, ◌+◌, leb, subst, bind-eq-some, ◌≡◌, refl, sym, ap, ◌∙◌, String, Option, none, some, arith,
  ◌==◌, ◌⊎◌, inl, inr, Bool-cases, Option-cases,
}
use mathlib.Core.Option.{some-injective}
use model_deployer.Base.Dict.{Dict, lookup, insert, lookup-insert}
use model_deployer.Deployments.{
  Status, status_eq, pending, building, running, failed, stopped, Deployment, transition_to, Table,
  save,
}
use model_deployer.Deployments.Unique.{IsActive, UniqueActive, save-UniqueActive}
use model_deployer.Deployments.Build.{
  Outcome, returned, cancelled, retryable, other, Outside, Begin, skip, go_on, refuse, claim,
  begin_status, begin, live, finish_row, finish, run_build, build_and_run, mark_read, mark_fields,
  mark_write, mark_failed, max_retries, note_attempt, settle_outcome, task_body, World,
  build_deployment,
}

claim-UniqueActive :
    (d : Deployment) (now : ℕ) (t s : Table)
    → UniqueActive t
    → claim d now t ≡ go_on s
    → UniqueActive s
claim-UniqueActive d now t s u e = elim (Option-cases (transition_to d building)) [
  | inl q ↦ absurd (ground arith)
  | inr (d', q) ↦
      let row : Deployment = record d' { last_error = none; build_logs = none; updated_at = now } in
      elim (Option-cases (save row t)) [
        | inl w ↦ absurd (ground arith)
        | inr (t', w) ↦
            let same : t' ≡ s = ground arith in save-UniqueActive row t s u (w ∙ ap some same)
      ]
]

begin_status-UniqueActive :
    (st : Status) (d : Deployment) (now : ℕ) (t s : Table)
    → UniqueActive t
    → begin_status st d now t ≡ go_on s
    → UniqueActive s
unfolding begin_status
begin_status-UniqueActive pending d now t s u e = claim-UniqueActive d now t s u e
begin_status-UniqueActive building d now t s u e = let same : t ≡ s = ground arith in rw (← same) u
begin_status-UniqueActive running d now t s u e = absurd (ground arith)
begin_status-UniqueActive stopped d now t s u e = absurd (ground arith)
begin_status-UniqueActive failed d now t s u e = absurd (ground arith)

begin-UniqueActive :
    (id now : ℕ) (t s : Table) → UniqueActive t → begin id now t ≡ go_on s → UniqueActive s
unfolding begin
begin-UniqueActive id now t s u e = elim (Option-cases (lookup id t)) [
  | inl q ↦ absurd (ground arith)
  | inr (d, q) ↦ begin_status-UniqueActive d.status d now t s u (ground arith)
]

finish_row-UniqueActive :
    (d : Deployment) (out : Outside) (t : Table)
    → UniqueActive t
    → UniqueActive (finish_row d out t).1
unfolding finish_row
finish_row-UniqueActive d out t u = elim (Bool-cases (status_eq d.status stopped)) [
  | inl q ↦ rw (finish_row, q) u
  | inr q ↦ elim (Bool-cases (status_eq d.status building)) [
    | inr r ↦ rw (finish_row, q, r) u
    | inl r ↦ elim (Option-cases (transition_to d running)) [
      | inl v ↦ rw (finish_row, q, r, v) u
      | inr (d', v) ↦ elim (Option-cases (save (live out d') t)) [
        | inl w ↦ rw (finish_row, q, r, v, w) u
        | inr (t', w) ↦ rw (finish_row, q, r, v, w) (save-UniqueActive (live out d') t t' u w)
      ]
    ]
  ]
]

finish-UniqueActive :
    (id : ℕ) (out : Outside) (t : Table) → UniqueActive t → UniqueActive (finish id out t).1
unfolding finish
finish-UniqueActive id out t u = elim (Option-cases (lookup id t)) [
  | inl q ↦ rw (finish, q) u
  | inr (d, q) ↦ rw (finish, q) (finish_row-UniqueActive d out t u)
]

run_build_table :
    (id : ℕ) (out : Outside) (t : Table)
    → ((run_build id out t).1 ≡ t)
      ⊎ (((run_build id out t).1 ≡ out.meanwhile t)
          ⊎ ((run_build id out t).1 ≡ (finish id out (out.meanwhile t)).1))
unfolding run_build
run_build_table id out t = grind arith

module _ (out : Outside)
    (others : (s : Table) → UniqueActive s → UniqueActive (out.meanwhile s)) where
  run_build-UniqueActive :
      (id : ℕ) (t : Table) → UniqueActive t → UniqueActive (run_build id out t).1
  run_build-UniqueActive id t u = elim (run_build_table id out t) [
    | inl q ↦ rw q u
    | inr (inl q) ↦ rw q (others t u)
    | inr (inr q) ↦ rw q (finish-UniqueActive id out (out.meanwhile t) (others t u))
  ]

  build_and_run-UniqueActive :
      (id : ℕ) (t : Table) → UniqueActive t → UniqueActive (build_and_run id out t).1
  unfolding build_and_run
  build_and_run-UniqueActive id t u = go (begin id out.now t) refl
    where
      go :
          (b : Begin)
          → begin id out.now t ≡ b
          → let result : Outcome × Table = elim b [
            | skip ↦ (returned, t)
            | refuse code ↦ (other "Cannot build deployment" code, t)
            | go_on t' ↦ run_build id out t'
          ] in
            UniqueActive result.1
      go skip e = u
      go (refuse code) e = u
      go (go_on s) e = run_build-UniqueActive id s (begin-UniqueActive id out.now t s u e)

-- A row in the place of another with its status and version.
module _ (id : ℕ) (d d' : Deployment) (t : Table) (found : lookup id t ≡ some d)
    (status : d'.status ≡ d.status) (version : d'.model_version ≡ d.model_version) where
  insert-origin :
      (k : ℕ) (x : Deployment)
      → lookup k (insert id d' t) ≡ some x
      → (y : Deployment) × (lookup k t ≡ some y)
        × (x.status ≡ y.status)
        × (x.model_version ≡ y.model_version)
  insert-origin k x l = elim (Bool-cases (k == id)) [
    | inr q ↦ (x, ground (arith, lookup-insert k id d' t), refl, refl)
    | inl q ↦
        let same : d' ≡ x = some-injective _ _ (ground (arith, lookup-insert k id d' t)) in
        let here : k ≡ id = ground arith in
        (
          d,
          ap (λ n. lookup n t) here ∙ found,
          ap (λ (z : Deployment). z.status) (sym same) ∙ status,
          ap (λ (z : Deployment). z.model_version) (sym same) ∙ version,
        )
  ]

  insert-UniqueActive : UniqueActive t → UniqueActive (insert id d' t)
  insert-UniqueActive u i j x y lx ly ax ay v =
      let (x', lx', sx, vx) = insert-origin i x lx in
      let (y', ly', sy, vy) = insert-origin j y ly in
      u i j x' y' lx' ly' (subst IsActive sx ax) (subst IsActive sy ay) (sym vx ∙ v ∙ vy)

note_attempt-UniqueActive :
    (id : ℕ) (task_id : String) (attempt : ℕ) (t : Table)
    → UniqueActive t
    → UniqueActive (note_attempt id task_id attempt t)
unfolding note_attempt
note_attempt-UniqueActive id task_id attempt t u = elim (Option-cases (lookup id t)) [
  | inl q ↦ rw (note_attempt, q) u
  | inr (d, q) ↦ rw (note_attempt, q) (insert-UniqueActive id d _ t q refl refl u)
]

mark_failed-UniqueActive :
    (id : ℕ) (error : String) (code : Option String) (now : ℕ) (t : Table)
    → UniqueActive t
    → UniqueActive (mark_failed id error code now t)
unfolding mark_failed mark_write
mark_failed-UniqueActive id error code now t u = elim (Option-cases (mark_read id t)) [
  | inl q ↦ rw (mark_failed, q) u
  | inr (d, q) ↦ elim (Option-cases (mark_write (mark_fields error code d) now t)) [
    | inl w ↦ rw (mark_failed, q, w) u
    | inr (t', w) ↦
        let (row, found, saved) = bind-eq-some (lookup (mark_fields error code d).id t) _ w in
        rw (mark_failed, q, w) (save-UniqueActive _ t t' u saved)
  ]
]

settle_outcome-UniqueActive :
    (id retries now : ℕ) (o : Outcome) (t : Table)
    → UniqueActive t
    → UniqueActive (settle_outcome id retries now o t).1
unfolding settle_outcome
settle_outcome-UniqueActive id retries now returned t u = u
settle_outcome-UniqueActive id retries now cancelled t u = u
settle_outcome-UniqueActive id retries now (other error code) t u =
    mark_failed-UniqueActive id error _ now t u
settle_outcome-UniqueActive id retries now (retryable error code) t u =
    elim (Bool-cases (leb max_retries retries)) [
      | inl q ↦ rw (settle_outcome, q) (mark_failed-UniqueActive id error (some code) now t u)
      | inr q ↦ rw (settle_outcome, q) u
    ]

task_body-UniqueActive :
    (id : ℕ) (task_id : String) (retries : ℕ) (out : Outside) (t : Table)
    → ((s : Table) → UniqueActive s → UniqueActive (out.meanwhile s))
    → UniqueActive t
    → UniqueActive (task_body id task_id retries out t).1
unfolding task_body
task_body-UniqueActive id task_id retries out t others u = elim (Option-cases (lookup id t)) [
  | inl q ↦ rw (task_body, q) u
  | inr (d, q) ↦
      let built : UniqueActive (build_and_run id out (note_attempt id task_id (retries + 1) t)).1 =
        build_and_run-UniqueActive out others id (note_attempt id task_id (retries + 1) t)
          (note_attempt-UniqueActive id task_id (retries + 1) t u) in
      elim (by_status d q) [
        | inl same ↦ rw same u
        | inr settled ↦ rw settled (settle_outcome-UniqueActive id retries out.now _ _ built)
      ]
]
  where
    by_status :
        (d : Deployment)
        → lookup id t ≡ some d
        → let result = build_and_run id out (note_attempt id task_id (retries + 1) t) in
          ((task_body id task_id retries out t).1 ≡ t)
          ⊎ ((task_body id task_id retries out t).1
              ≡ (settle_outcome id retries out.now result.0 result.1).1)
    by_status d q = grind arith

-- However a build task ends, and whatever else happens to the locks, it keeps at most one deployment
-- of each version that is neither FAILED nor STOPPED, where the other processes do so while it waits:
-- the claim, the end of the build, the count of the attempts and the marking as failed included.
pub build_deployment-UniqueActive :
    (id token : ℕ) (task_id : String) (retries : ℕ) (out : Outside) (locked : Dict ℕ → Dict ℕ)
    (w : World)
    → UniqueActive w.table
    → ((s : Table) → UniqueActive s → UniqueActive (out.meanwhile s))
    → UniqueActive (build_deployment id token task_id retries out locked w).1.table
unfolding build_deployment
build_deployment-UniqueActive id token task_id retries out locked w u others =
    elim (Option-cases (lookup id w.locks)) [
      | inr (holder, q) ↦ rw (build_deployment, q) u
      | inl q ↦
          rw (build_deployment, q) (task_body-UniqueActive id task_id retries out w.table others u)
    ]
