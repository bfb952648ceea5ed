-- ===== src/Deployments/Reaper.antt =====
-- deployments/management/commands/reap_stale_builds.py: builds that have not been written for a
-- while are failed. `cutoff` is the present time less the threshold.
use model_deployer.Base.{
  ℕ, ◌≡◌, refl, Bool, false, none, some, [], ◌∷◌, arith, ltb, length, keep_if, Bool-cases, inl, inr,
  ◌==◌, ◌&&◌, if◌then◌else◌,
}
use model_deployer.Base.Dict.{lookup}
use model_deployer.RunnerErrors.{worker_timeout_code}
use model_deployer.Deployments.{status_eq, building, failed, Deployment, transition_to, Table}

-- The filter `status=BUILDING, updated_at__lt=cutoff`.
abbrev pub is_stale : ℕ → Deployment → Bool
is_stale cutoff d = status_eq d.status building && ltb d.updated_at cutoff

-- The loop's body on one row; the command would stop where the transition is refused.
unfoldable pub reap : ℕ → Deployment → Deployment
reap now d = elim (transition_to d failed) [
  | none ↦ d
  | some d' ↦ record d' {
    last_error = some "reaped: stale BUILDING state";
    last_error_code = some worker_timeout_code;
    updated_at = now;
  }
]

-- The loop over the stale rows, each saved in its place.
reap_rows : ℕ → ℕ → Table → Table
reap_rows cutoff now [] = []
reap_rows cutoff now ((k, d) ∷ t) =
    (k, if is_stale cutoff d then reap now d else d) ∷ reap_rows cutoff now t

-- `handle`: the number of rows found, and the table.
unfoldable pub handle : ℕ → ℕ → Bool → Table → ℕ × Table
unfolding reap_rows
handle cutoff now dry_run t =
    let count = length (keep_if (λ e. is_stale cutoff e.1) t) in
    if count == 0 then (0, t) else (count, if dry_run then t else reap_rows cutoff now t)

reap_rows_fresh :
    (cutoff now : ℕ) (t : Table)
    → length (keep_if (λ e. is_stale cutoff e.1) (reap_rows cutoff now t)) ≡ 0
unfolding reap_rows reap transition_to
reap_rows_fresh cutoff now [] = refl
reap_rows_fresh cutoff now ((k, d) ∷ t) = ground (arith, reap_rows_fresh cutoff now t)

lookup-reap_rows :
    (cutoff now id : ℕ) (d : Deployment) (t : Table)
    → lookup id t ≡ some d
    → lookup id (reap_rows cutoff now t) ≡ some (if is_stale cutoff d then reap now d else d)
unfolding lookup reap_rows
lookup-reap_rows cutoff now id d [] e = cc
lookup-reap_rows cutoff now id d ((k, v) ∷ t) e = ground (arith, lookup-reap_rows cutoff now id d t)

none_stale :
    (cutoff now id : ℕ) (d : Deployment) (t : Table)
    → length (keep_if (λ e. is_stale cutoff e.1) t) ≡ 0
    → lookup id t ≡ some d
    → is_stale cutoff d ≡ false
unfolding lookup
none_stale cutoff now id d [] z e = cc
none_stale cutoff now id d ((k, v) ∷ t) z e = ground (arith, none_stale cutoff now id d t)

-- A reaped table, row by row: a stale row is FAILED with the timeout's code, any other is kept.
pub lookup-handle :
    (cutoff now id : ℕ) (d : Deployment) (t : Table)
    → lookup id t ≡ some d
    → lookup id (handle cutoff now false t).1 ≡ some (if is_stale cutoff d then reap now d else d)
unfolding handle
lookup-handle cutoff now id d t e =
    elim (Bool-cases (length (keep_if (λ e. is_stale cutoff e.1) t) == 0)) [
      | inl none_found ↦ rw (none_found, none_stale cutoff now id d t (ground arith) e) e
      | inr found ↦ rw found (lookup-reap_rows cutoff now id d t e)
    ]

-- After a run no row is stale, so a second run with the same cutoff finds nothing.
pub handle_twice :
    (cutoff now now' : ℕ) (dry_run : Bool) (t : Table)
    → let t' = (handle cutoff now false t).1 in handle cutoff now' dry_run t' ≡ (0, t')
unfolding handle
handle_twice cutoff now now' dry_run t =
    elim (Bool-cases (length (keep_if (λ e. is_stale cutoff e.1) t) == 0)) [
      | inl none_found ↦ rw (none_found, none_found)
      | inr found ↦ rw (found, reap_rows_fresh cutoff now t)
    ]
