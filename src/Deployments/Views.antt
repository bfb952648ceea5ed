-- ===== src/Deployments/Views.antt =====
-- deployments/views.py: create, stop and delete. The rows that a view may touch are those of the
-- user's own models: `owned` is that filter, on the version's id. The runner's teardown has no
-- result that the views read (its exceptions are swallowed), so only its call is noted.
use model_deployer.Base.{
  ℕ, Bool, true, false, Option, none, some, [], ◌∷◌, ◌==◌, ◌&&◌, if◌then◌else◌,
}
use model_deployer.Base.Dict.{lookup, erase}
use model_deployer.Deployments.{
  Status, status_eq, pending, stopped, is_active, Deployment, transition_to, Table, save,
}

pub data Reply : Type 0 where
  -- 202 with the new row, and the 409 of an active deployment (its id and status, if still there)
  accepted : Deployment → Reply
  conflict : Option (ℕ × Status) → Reply
  -- 404
  not_found : Reply
  -- 200, with whether the runner was told to tear the version down
  stopped_reply : Deployment → Bool → Reply
  deleted : Bool → Reply

-- `Deployment.objects.filter(model_version=…, status__in=[…]).first()`
unfoldable pub first_active : ℕ → Table → Option (ℕ × Status)
first_active version [] = none
first_active version ((k, d) ∷ t) =
    let rest = first_active version t in
    if d.model_version == version && is_active d.status then some (k, d.status) else rest

abbrev pub new_deployment : ℕ → ℕ → ℕ → Deployment
new_deployment id version now = record {
  id = id;
  model_version = version;
  status = pending;
  endpoint_url = none;
  image_name = none;
  container_name = none;
  container_id = none;
  internal_url = none;
  build_logs = none;
  last_error = none;
  last_error_code = none;
  celery_task_id = none;
  build_attempt = 0;
  started_at = none;
  stopped_at = none;
  created_at = now;
  updated_at = now;
}

-- `DeploymentCreateAPIView.post` on a version that the serializer has accepted. `id` is the fresh
-- `uuid4`; `meanwhile` is what other requests do between the check and the INSERT.
unfoldable pub create : ℕ → ℕ → ℕ → (Table → Table) → Table → Reply × Table
create id version now meanwhile t = elim (first_active version t) [
  | some active ↦ (conflict (some active), t)
  | none ↦
      let t = meanwhile t in
      elim (save (new_deployment id version now) t) [
        | none ↦ (conflict (first_active version t), t)
        | some t' ↦ (accepted (new_deployment id version now), t')
      ]
]

-- The row of a request, if it is one of the user's.
unfoldable pub owned_row : (ℕ → Bool) → ℕ → Table → Option Deployment
owned_row owned id t = elim (lookup id t) [
  | none ↦ none
  | some d ↦ if owned d.model_version then some d else none
]

-- The write of `save(update_fields=["status", "stopped_at", "updated_at"])`.
unfoldable pub stop_write : Deployment → ℕ → Table → Option Table
stop_write values now t = elim (lookup values.id t) [
  | none ↦ none
  | some row ↦
      save (record row { status = values.status; stopped_at = some now; updated_at = now }) t
]

-- `DeploymentStopAPIView.post`: the reply, or `none` for an exception that the view does not catch,
-- and the table. `has_runner` says whether the factory knows the framework; it is asked after the
-- write.
unfoldable pub stop : (ℕ → Bool) → Bool → ℕ → ℕ → Table → Option Reply × Table
stop owned has_runner id now t = elim (owned_row owned id t) [
  | none ↦ (some not_found, t)
  | some d ↦
      if status_eq d.status stopped
      then (some (stopped_reply d false), t)
      else elim (transition_to d stopped) [
        | none ↦ (none, t)
        | some d' ↦ elim (stop_write d' now t) [
          | none ↦ (none, t)
          | some t' ↦ (
            if has_runner
                then some
                    (stopped_reply (record d' { stopped_at = some now; updated_at = now }) true)
                else none,
            t',
          )
        ]
      ]
]

-- `DeploymentDetailAPIView.delete`
unfoldable pub delete : (ℕ → Bool) → Bool → ℕ → ℕ → Table → Option Reply × Table
delete owned has_runner id now t = elim (owned_row owned id t) [
  | none ↦ (some not_found, t)
  | some d ↦
      if is_active d.status
      then elim (transition_to d stopped) [
        | none ↦ (none, t)
        | some d' ↦ elim (stop_write d' now t) [
          | none ↦ (none, t)
          | some t' ↦ if has_runner then (some (deleted true), erase id t') else (none, t')
        ]
      ]
      else (some (deleted false), erase id t)
]
