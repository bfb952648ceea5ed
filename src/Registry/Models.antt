-- ===== src/Registry/Models.antt =====
-- model_registry/views.py: `ModelUploadAPIView.post` and `ModelDetailAPIView.delete`.
use model_deployer.Base.{
  ℕ, String, Bool, true, false, Option, none, some, List, [], ◌∷◌, ◌==◌, ◌&&◌, ◌||◌, not, ltb,
  any_of, keep_if, str_eq, if◌then◌else◌,
}
use model_deployer.Base.Dict.{Dict, lookup, insert, erase}
use model_deployer.Deployments.{Deployment, Table, is_active, stopped, transition_to, save}
use model_deployer.Deployments.Build.{text_or}
use model_deployer.Registry.{
  numbered, User, Model, ModelVersion, ObjectKey, Registry, may_upload_models, create_version,
  delete_prefix, upload_files, refused, broken, complete, Config, Upload, Settings, Response,
  created, deleted, refusal,
}

-- `Model.objects.create`; `none` is the `IntegrityError` of `unique_together`.
unfoldable pub create_model : Model → Dict Model → Option (Dict Model)
create_model m models =
    if any_of (λ e. e.1.owner == m.owner && str_eq e.1.name m.name) models
    then none
    else some (insert m.id m models)

-- The transaction: the model and its first version.
unfoldable pub create_rows :
    Upload → String → Config → User → Registry → Option (Dict Model × Dict ModelVersion)
create_rows up default_name config user reg =
    let m : Model = record {
      id = up.new_model;
      name = text_or config.name default_name;
      framework = config.framework;
      task_type = text_or config.task_type "unknown";
      owner = user.id;
    } in
    let v : ModelVersion = record {
      id = up.new_version;
      model = up.new_model;
      version = numbered 1;
      has_schema = config.has_schema;
    } in
    if up.database_fails then none else elim (create_model m reg.models) [
      | none ↦ none
      | some models ↦ elim (create_version v reg.versions) [
        | none ↦ none
        | some versions ↦ some (models, versions)
      ]
    ]

-- `post` from the new id on. Only a failed transaction is followed by a clean-up.
unfoldable pub store_model : Upload → String → User → Registry → Response × Registry
store_model up default_name user reg = elim up.bundle [
  | refused code ↦ (refusal 400 code, reg)
  | broken paths ↦ (
    refusal 500 "UPLOAD_FAILED",
    record reg { objects = upload_files up.new_model (numbered 1) paths reg.objects },
  )
  | complete paths config ↦
      let objects = upload_files up.new_model (numbered 1) paths reg.objects in
      elim (create_rows up default_name config user reg) [
        | none ↦ (
          refusal 500 "UPLOAD_FAILED",
          record reg {
            objects = delete_prefix up.new_model (numbered 1) up.cleanup_leaves objects;
          },
        )
        | some (models, versions) ↦ (
          created up.new_version (numbered 1),
          record reg { models = models; versions = versions; objects = objects },
        )
      ]
]

unfoldable pub upload_model : Settings → Upload → String → User → Registry → Response × Registry
upload_model settings up default_name user reg =
    if not (may_upload_models settings.approval_required user)
    then (refusal 403 "UPLOAD_NOT_APPROVED", reg)
    else (if not up.is_zip
        then (refusal 400 "INVALID", reg)
        else (if ltb settings.max_zip_bytes up.size
            then (refusal 400 "", reg)
            else store_model up default_name user reg))

-- The versions of a model, by their ids.
abbrev pub version_ids : ℕ → Dict ModelVersion → List ℕ
version_ids model [] = []
version_ids model (e ∷ d) =
    let rest = version_ids model d in if e.1.model == model then e.0 ∷ rest else rest

-- The loop over `active_deployments`, which the query has found; `none` is a `ValueError`, and the
-- table stands beside it as it is then.
abbrev pub find_active : List ℕ → Table → List Deployment
find_active versions [] = []
find_active versions (e ∷ t) =
    let rest = find_active versions t in
    if any_of (λ v. e.1.model_version == v) versions && is_active e.1.status
    then e.1 ∷ rest
    else rest

unfoldable pub stop_all : ℕ → List Deployment → Table → Bool × Table
stop_all now [] t = (true, t)
stop_all now (d ∷ ds) t = elim (transition_to d stopped) [
  | none ↦ (false, t)
  | some d' ↦ elim (save (record d' { stopped_at = some now; updated_at = now }) t) [
    | none ↦ (false, t)
    | some t' ↦ stop_all now ds t'
  ]
]

-- The rows that go with a model: its versions, and their deployments.
abbrev pub drop_versions : ℕ → Dict ModelVersion → Dict ModelVersion
drop_versions model = keep_if (λ e. not (e.1.model == model))

abbrev pub drop_all_deployments : List ℕ → Table → Table
drop_all_deployments versions = keep_if (λ e. not (any_of (λ v. e.1.model_version == v) versions))

-- The keys below "<model>/".
abbrev pub delete_all : ℕ → Option (ObjectKey → Bool) → List ObjectKey → List ObjectKey
delete_all model none = keep_if (λ key. not (key.model == model))
delete_all model (some left) = keep_if (λ key. not (key.model == model) || left key)

-- After the active deployments are stopped.
unfoldable pub remove_model :
    Option (ObjectKey → Bool) → ℕ → List ℕ → Registry → Response × Registry
remove_model leaves model versions reg =
    let objects = delete_all model leaves reg.objects in
    elim leaves [
      | some left ↦ (refusal 500 "DELETE_FAILED", record reg { objects = objects })
      | none ↦ (
        deleted,
        record reg {
          models = erase model reg.models;
          versions = drop_versions model reg.versions;
          deployments = drop_all_deployments versions reg.deployments;
          objects = objects;
        },
      )
    ]

unfoldable pub delete_model :
    Option (ObjectKey → Bool) → ℕ → User → ℕ → Registry → Response × Registry
delete_model leaves now user model reg = elim (lookup model reg.models) [
  | none ↦ (refusal 404 "MODEL_NOT_FOUND", reg)
  | some m ↦
      if not (m.owner == user.id)
      then (refusal 404 "MODEL_NOT_FOUND", reg)
      else (let versions = version_ids model reg.versions in
          let (ok, t) = stop_all now (find_active versions reg.deployments) reg.deployments in
          let reg' = record reg { deployments = t } in
          if ok
          then remove_model leaves model versions reg'
          else (refusal 500 "DELETE_FAILED", reg'))
]
