-- ===== src/Registry/Versions.antt =====
-- model_registry/views.py: `ModelVersionListCreateAPIView.post` and `ModelVersionDetailAPIView.delete`.
use model_deployer.Base.{
  ℕ, Bool, false, Option, none, some, List, [], ◌∷◌, ◌==◌, ◌&&◌, ◌||◌, not, ltb, if◌then◌else◌,
}
use model_deployer.Base.Dict.{Dict, lookup, erase}
use model_deployer.Deployments.{Table, is_active}
use model_deployer.Registry.{
  Label, label_eq, User, Model, ModelVersion, ObjectKey, Registry, may_upload_models,
  get_next_version, create_version, delete_prefix, upload_files, refused, broken, complete, Upload,
  Settings, Response, created, deleted, refusal,
}

-- The transaction of `post`. After an exception its rows are as before, and the prefix is cleaned.
unfoldable pub publish : Upload → ℕ → Registry → Response × Registry
publish up model reg =
    let label = get_next_version model reg.versions in
    let clean : List ObjectKey → Registry =
      λ objects. record reg { objects = delete_prefix model label up.cleanup_leaves objects } in
    elim up.bundle [
      | refused code ↦ (refusal 400 code, clean reg.objects)
      | broken paths ↦
          (refusal 500 "UPLOAD_FAILED", clean (upload_files model label paths reg.objects))
      | complete paths config ↦
          let objects = upload_files model label paths reg.objects in
          let row : ModelVersion = record {
            id = up.new_version;
            model = model;
            version = label;
            has_schema = config.has_schema;
          } in
          elim (if up.database_fails then none else create_version row reg.versions) [
            | none ↦ (refusal 500 "UPLOAD_FAILED", clean objects)
            | some versions ↦ (
              created up.new_version label,
              record reg { versions = versions; objects = objects },
            )
          ]
    ]

-- A user who is neither the owner nor of the staff.
abbrev pub is_foreign : Model → User → Bool
is_foreign m user = not (m.owner == user.id) && not user.is_staff

unfoldable pub post_version : Settings → Upload → User → ℕ → Registry → Response × Registry
post_version settings up user model_id reg =
    if not (may_upload_models settings.approval_required user)
    then (refusal 403 "UPLOAD_NOT_APPROVED", reg)
    else elim (lookup model_id reg.models) [
      | none ↦ (refusal 404 "MODEL_NOT_FOUND", reg)
      | some m ↦
          if is_foreign m user
          then (refusal 403 "FORBIDDEN", reg)
          else (if not up.is_zip
              then (refusal 400 "INVALID", reg)
              else (if ltb settings.max_zip_bytes up.size
                  then (refusal 400 "FILE_TOO_LARGE", reg)
                  else publish up model_id reg))
    ]

-- `ModelVersion.objects.get(model=model, version=version)`
unfoldable pub find_version : ℕ → Label → Dict ModelVersion → Option ModelVersion
find_version model label [] = none
find_version model label (e ∷ d) =
    if e.1.model == model && label_eq e.1.version label
    then some e.1
    else find_version model label d

-- `active_deps.exists()`
unfoldable pub has_active : ℕ → Table → Bool
has_active version [] = false
has_active version (e ∷ t) =
    (e.1.model_version == version && is_active e.1.status) || has_active version t

-- The rows that go with a version.
unfoldable pub drop_deployments : ℕ → Table → Table
drop_deployments version [] = []
drop_deployments version (e ∷ t) =
    let rest = drop_deployments version t in if e.1.model_version == version then rest else e ∷ rest

-- The end of `delete`: an exception of the store comes before the row is deleted.
unfoldable pub discard : Option (ObjectKey → Bool) → ModelVersion → Registry → Response × Registry
discard leaves v reg =
    let objects = delete_prefix v.model v.version leaves reg.objects in
    elim leaves [
      | some left ↦ (refusal 500 "INTERNAL_ERROR", record reg { objects = objects })
      | none ↦ (
        deleted,
        record reg {
          versions = erase v.id reg.versions;
          deployments = drop_deployments v.id reg.deployments;
          objects = objects;
        },
      )
    ]

unfoldable pub delete_version :
    Option (ObjectKey → Bool) → User → ℕ → Label → Registry → Response × Registry
delete_version leaves user model_id label reg = elim (lookup model_id reg.models) [
  | none ↦ (refusal 404 "MODEL_NOT_FOUND", reg)
  | some m ↦
      if is_foreign m user
      then (refusal 403 "FORBIDDEN", reg)
      else elim (find_version model_id label reg.versions) [
        | none ↦ (refusal 404 "VERSION_NOT_FOUND", reg)
        | some v ↦
            if has_active v.id reg.deployments
            then (refusal 409 "VERSION_IN_USE", reg)
            else discard leaves v reg
      ]
]
