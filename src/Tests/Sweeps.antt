-- ===== src/Tests/Sweeps.antt =====
-- Runs of reconcile_orphans: model 1 has the versions v1 and v10, of which only v10 has an object,
-- and model 9 has an object and no row.
use model_deployer.Base.{
  ◌≡◌, refl, Bool, true, false, List, [], ◌∷◌, ◌||◌, ◌&&◌, arith, keep_if, append-nil,
}
use model_deployer.Base.Dict.{lookup}
use model_deployer.Registry.{numbered, label_eq, Label, ObjectKey, Registry}
use model_deployer.Registry.Reconcile.{
  reconcile, has_row, orphaned_s3_prefixes, s3_prefixes, add_prefix, delete_orphans,
  delete_model_prefix, delete_batches, orphaned_db_versions,
}
use model_deployer.Registry.Reconcile.Orphaned.{reconcile-Clean}
use model_deployer.Storage.{delete_prefix_paginated, add_pages, add_page, add_key}

abbrev model : Registry
model = record {
  models =
      (1, record { id = 1; name = "iris"; framework = "sklearn"; task_type = "unknown"; owner = 3 })
      ∷ [];
  versions =
      (10, record { id = 10; model = 1; version = numbered 1; has_schema = false })
      ∷ (11, record { id = 11; model = 1; version = numbered 10; has_schema = false })
      ∷ [];
  deployments = [];
  objects =
      record { model = 1; version = numbered 10; path = "model.yaml" }
      ∷ record { model = 9; version = numbered 1; path = "model.yaml" }
      ∷ [];
}

abbrev one_page : List ObjectKey → List (List ObjectKey)
one_page keys = keys ∷ []

-- The name of v10 begins with that of v1.
abbrev starts_with : Label → Label → Bool
starts_with a b = label_eq a b || label_eq a (numbered 10) && label_eq b (numbered 1)

starts_with_own : (a b : Label) → label_eq a b ≡ true → starts_with a b ≡ true
starts_with_own a b h = ground (arith, h)

reconcile-Clean_example :
    ((reconcile one_page starts_with true model).1
      ≡ record model { objects = keep_if (λ key. has_row model.models key.model) model.objects })
    × ((reconcile one_page starts_with false model).1 ≡ model)
    × ((reconcile one_page starts_with true model).0.prefixes
        ≡ (reconcile one_page starts_with false model).0.prefixes)
reconcile-Clean_example = reconcile-Clean one_page append-nil starts_with model

-- The object of model 9 is deleted, and v1 is not reported although it has no object.
swept :
    let report = (reconcile one_page starts_with true model).0 in
    (report.prefixes ≡ 9 ∷ []) × (report.deleted_count ≡ 1) × (report.missing ≡ [])
unfolding reconcile orphaned_s3_prefixes s3_prefixes add_prefix lookup delete_orphans
    delete_model_prefix delete_prefix_paginated add_pages add_page add_key orphaned_db_versions
    delete_batches
swept = (refl, refl, refl)
