-- ===== src/Deployments/Stops.antt =====
-- What stopping a deployment does.
use model_deployer.Base.{ℕ, ◌≡◌, ◌≢◌, refl, ◌∙◌, Bool, true, none, some, arith}
use model_deployer.Base.Dict.{lookup, insert, lookup-insert_self, lookup-insert_ne}
use model_deployer.Deployments.{failed, stopped, is_active, Deployment, transition_to, Table, save}
use model_deployer.Deployments.Views.{owned_row, stop_write, stop}

-- A stop of the user's own active deployment leaves its row STOPPED and every other row as it was,
-- also where the view then raises for a framework without a runner.
pub stop-row :
    (owned : ℕ → Bool) (has_runner : Bool) (id now : ℕ) (t : Table) (d : Deployment)
    → lookup id t ≡ some d
    → d.id ≡ id
    → owned d.model_version ≡ true
    → is_active d.status ≡ true
    → let t' = (stop owned has_runner id now t).1 in
      ((row : Deployment) × (lookup id t' ≡ some row) × (row.status ≡ stopped))
      × ((k : ℕ) → k ≢ id → lookup k t' ≡ lookup k t)
unfolding stop owned_row transition_to stop_write save
stop-row owned has_runner id now t d l e o a =
    let row : Deployment = record d { status = stopped; stopped_at = some now; updated_at = now } in
    let written : (stop owned has_runner id now t).1 ≡ insert d.id row t = ground arith in
    rw written (
      (row, rw (← e) (lookup-insert_self d.id row t), refl),
      λ k ne. lookup-insert_ne k d.id row t (λ p. ne (p ∙ e)),
    )

-- A stop of a FAILED deployment raises, and changes nothing.
pub stop_failed :
    (owned : ℕ → Bool) (has_runner : Bool) (id now : ℕ) (t : Table) (d : Deployment)
    → lookup id t ≡ some d
    → owned d.model_version ≡ true
    → d.status ≡ failed
    → stop owned has_runner id now t ≡ (none, t)
unfolding stop owned_row transition_to
stop_failed owned has_runner id now t d l o f = ground arith
