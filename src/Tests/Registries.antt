-- ===== src/Tests/Registries.antt =====
-- Runs of the registry: user 3 owns model 1 with the version v1 and one object.
use model_deployer.Base.{ℕ, ◌≡◌, ◌≢◌, ◌⊎◌, refl, true, false, none, some, [], ◌∷◌, All, arith}
use model_deployer.Base.Dict.{lookup}
use model_deployer.Registry.{
  numbered, User, Model, ModelVersion, Registry, Upload, Bundle, Settings, deleted, next_label,
}
use model_deployer.Registry.Versions.{
  post_version, publish, delete_version, discard, find_version, has_active,
}
use model_deployer.Registry.Models.{upload_model, store_model, delete_model}
use model_deployer.Registry.Owners.{Owned, post_version-unchanged}
use model_deployer.Registry.Rows.{post_version-Owned}
use model_deployer.Registry.Removal.{Idle, Undeployed, Empty, delete_version-Gone}
use model_deployer.Registry.Orphans.{Leftover, upload_model-Leftover, delete_model-Gone}
use model_deployer.Storage.{delete_prefix_paginated}
use model_deployer.Storage.Batches.{Complete, flat, delete_prefix_paginated-Complete}

abbrev owner : User
owner = record { id = 3; is_staff = false; can_upload_models = true }

abbrev iris : Model
iris = record { id = 1; name = "iris"; framework = "sklearn"; task_type = "unknown"; owner = 3 }

abbrev first : ModelVersion
first = record { id = 10; model = 1; version = numbered 1; has_schema = false }

abbrev one_model : Registry
one_model = record {
  models = (1, iris) ∷ [];
  versions = (10, first) ∷ [];
  deployments = [];
  objects = record { model = 1; version = numbered 1; path = "model.yaml" } ∷ [];
}

abbrev settings : Settings
settings = record { approval_required = true; max_zip_bytes = 1000 }

-- An upload that breaks off after two files, and one that does not.
abbrev upload : Bundle → Upload
upload bundle = record {
  is_zip = true;
  size = 500;
  bundle = bundle;
  new_model = 2;
  new_version = 11;
  database_fails = false;
  cleanup_leaves = none;
}

abbrev broken_upload : Upload
broken_upload = upload (Bundle.broken ("model.yaml" ∷ "model.pkl" ∷ []))

post_version-unchanged_example :
    (post_version settings broken_upload owner 1 one_model).1 ≡ one_model
unfolding post_version publish lookup next_label
post_version-unchanged_example =
    post_version-unchanged settings broken_upload owner 1 one_model 500 "UPLOAD_FAILED" (refl, tt)
      refl refl

post_version-Owned_example :
    Owned
      (post_version settings
        (upload (
          Bundle.complete
            ("model.yaml" ∷ [])
            (record { name = none; framework = "sklearn"; task_type = none; has_schema = false })))
        owner
        1
        one_model).1
unfolding lookup
post_version-Owned_example =
    post_version-Owned settings
      (upload (
        Bundle.complete ("model.yaml" ∷ [])
          (record { name = none; framework = "sklearn"; task_type = none; has_schema = false })))
      owner 1 one_model (refl, tt) refl refl

delete_version-Gone_example :
    (m : Model) × (v : ModelVersion) × (lookup 1 one_model.models ≡ some m)
    × ((m.owner ≡ owner.id) ⊎ (owner.is_staff ≡ true))
    × (find_version 1 (numbered 1) one_model.versions ≡ some v)
    × (v.model ≡ 1)
    × (v.version ≡ numbered 1)
    × Idle v.id one_model.deployments
    × (lookup v.id (delete_version none owner 1 (numbered 1) one_model).1.versions ≡ none)
    × Undeployed v.id (delete_version none owner 1 (numbered 1) one_model).1.deployments
    × Empty 1 (numbered 1) (delete_version none owner 1 (numbered 1) one_model).1.objects
unfolding delete_version discard find_version has_active lookup
delete_version-Gone_example = delete_version-Gone none owner 1 (numbered 1) one_model refl

upload_model-Leftover_example :
    Leftover broken_upload
      (upload_model settings broken_upload "model-2" owner one_model).1
      one_model
unfolding upload_model store_model
upload_model-Leftover_example =
    upload_model-Leftover settings broken_upload "model-2" owner one_model 500 "UPLOAD_FAILED"
      (refl, tt) refl refl refl

delete_model-Gone_example :
    ((delete_model none 5 owner 1 one_model).0 ≡ deleted)
    × (lookup 1 (delete_model none 5 owner 1 one_model).1.models ≡ none)
    × ((k : ℕ)
        → k ≢ 1
        → lookup k (delete_model none 5 owner 1 one_model).1.models ≡ lookup k one_model.models)
    × All (λ e. e.1.model ≢ 1) (delete_model none 5 owner 1 one_model).1.versions
    × All (λ key. key.model ≢ 1) (delete_model none 5 owner 1 one_model).1.objects
    × All
        (λ w.
          (w.1.model ≢ 1)
          ⊎ All
              (λ e. e.1.model_version ≢ w.0)
              (delete_model none 5 owner 1 one_model).1.deployments)
        one_model.versions
unfolding lookup
delete_model-Gone_example = delete_model-Gone 5 owner 1 one_model iris refl refl

delete_prefix_paginated-Complete_example :
    Complete false 2
      (flat ((1 ∷ 2 ∷ 3 ∷ []) ∷ (4 ∷ []) ∷ []))
      (delete_prefix_paginated {Key = ℕ} false 2 ((1 ∷ 2 ∷ 3 ∷ []) ∷ (4 ∷ []) ∷ []))
delete_prefix_paginated-Complete_example =
    delete_prefix_paginated-Complete {Key = ℕ} false 2 ((1 ∷ 2 ∷ 3 ∷ []) ∷ (4 ∷ []) ∷ [])
      (omega arith)
