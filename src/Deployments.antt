-- ===== src/Deployments.antt =====
-- deployments/models.py: the state machine of a deployment and the table of deployments, with the
-- database's constraint `unique_active_deployment_per_version`.
--
-- Keys and times are numbers; `runtime_type`, which is always "container", is left out. A raised exception is `none`; a transaction that raises keeps the
-- table as it was.
pub mod Build
pub mod Views
pub mod Reaper
pub mod Transitions
pub mod Unique
pub mod Keeping
pub mod Stops
use model_deployer.Base.{
  ℕ, ◌≡◌, String, Bool, true, false, Option, none, some, List, [], ◌∷◌, ◌==◌, ◌&&◌, ◌||◌, not,
  any_of, if◌then◌else◌,
}
use model_deployer.Base.Dict.{Dict, lookup, insert}

pub data Status : Type 0 where
  pending building running failed stopped : Status

abbrev pub status_eq : Status → Status → Bool
status_eq pending pending = true
status_eq building building = true
status_eq running running = true
status_eq failed failed = true
status_eq stopped stopped = true
status_eq _ _ = false

pub record Deployment : Type 0 where
  pub id : ℕ
  pub model_version : ℕ
  pub status : Status
  pub endpoint_url : Option String
  pub image_name : Option String
  pub container_name : Option String
  pub container_id : Option String
  pub internal_url : Option String
  pub build_logs : Option String
  pub last_error : Option String
  pub last_error_code : Option String
  pub celery_task_id : Option String
  pub build_attempt : ℕ
  pub started_at : Option ℕ
  pub stopped_at : Option ℕ
  pub created_at : ℕ
  pub updated_at : ℕ

-- `ALLOWED_TRANSITIONS`
abbrev pub allowed_transitions : Status → List Status
allowed_transitions pending = building ∷ failed ∷ stopped ∷ []
allowed_transitions building = running ∷ failed ∷ stopped ∷ []
allowed_transitions running = stopped ∷ []
allowed_transitions stopped = []
allowed_transitions failed = building ∷ []

-- `transition_to`; `none` is the `ValueError`.
unfoldable pub transition_to : Deployment → Status → Option Deployment
transition_to d new_status =
    if any_of (status_eq new_status) (allowed_transitions d.status)
    then some (record d { status = new_status })
    else none

-- The statuses of the constraint's condition, and of `status__in` in the views.
abbrev pub is_active : Status → Bool
is_active pending = true
is_active building = true
is_active running = true
is_active _ = false

abbrev pub Table : Type 0
Table = Dict Deployment

-- Another active row of the version, as the unique index sees it.
unfoldable pub taken : ℕ → ℕ → Table → Bool
taken version id [] = false
taken version id ((k, d) ∷ t) =
    (not (k == id) && (d.model_version == version && is_active d.status)) || taken version id t

-- An INSERT or UPDATE of a row; `none` is the `IntegrityError` of the constraint.
unfoldable pub save : Deployment → Table → Option Table
save d t =
    if is_active d.status && taken d.model_version d.id t then none else some (insert d.id d t)
