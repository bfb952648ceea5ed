-- ===== src/Registry/Reconcile.antt =====
-- model_registry/management/commands/reconcile_orphans.py: objects whose model has no row, and
-- versions that have no object.
--
-- Where the store's calls succeed. How its listing is cut into pages is a parameter, as is whether
-- one version's name begins with another's. `sorted` puts the prefixes in some order.
pub mod Orphaned
use mathlib.Core.Option
use model_deployer.Base.{
  ℕ, ◌+◌, Bool, true, false, Option, none, some, List, [], ◌∷◌, ◌==◌, ◌&&◌, not, ltb, any_of,
  keep_if, str_eq, if◌then◌else◌,
}
use model_deployer.Base.Dict.{Dict, lookup}
use model_deployer.Storage.{delete_prefix_paginated}
use model_deployer.Registry.{Label, label_eq, Model, ModelVersion, ObjectKey, Registry}

abbrev pub key_eq : ObjectKey → ObjectKey → Bool
key_eq a b = a.model == b.model && label_eq a.version b.version && str_eq a.path b.path

-- `delete_objects` of the store, and those of several requests.
abbrev pub delete_objects : List ObjectKey → List ObjectKey → List ObjectKey
delete_objects batch = keep_if (λ key. not (any_of (key_eq key) batch))

unfoldable pub delete_batches : List (List ObjectKey) → List ObjectKey → List ObjectKey
delete_batches [] objects = objects
delete_batches (batch ∷ batches) objects = delete_batches batches (delete_objects batch objects)

-- `s3_prefixes`, a set.
unfoldable pub add_prefix : ℕ → List ℕ → List ℕ
add_prefix m [] = m ∷ []
add_prefix m (n ∷ ns) =
    let rest = add_prefix m ns in
    if m == n then n ∷ ns else (if ltb m n then m ∷ n ∷ ns else n ∷ rest)

unfoldable pub s3_prefixes : List ObjectKey → List ℕ
s3_prefixes [] = []
s3_prefixes (key ∷ keys) = add_prefix key.model (s3_prefixes keys)

-- `Model.objects.filter(id=prefix).exists()`
abbrev pub has_row : Dict Model → ℕ → Bool
has_row models m = elim (lookup m models) [ none ↦ false | some _ ↦ true ]

unfoldable pub orphaned_s3_prefixes : Registry → List ℕ
orphaned_s3_prefixes reg = keep_if (λ m. not (has_row reg.models m)) (s3_prefixes reg.objects)

module _ (pages : List ObjectKey → List (List ObjectKey)) where
  -- `delete_prefix_paginated(s3_client, bucket_name, f"{prefix}/")`, with its default batch size.
  unfoldable pub delete_model_prefix : ℕ → List ObjectKey → ℕ × List ObjectKey
  delete_model_prefix m objects =
      let sent =
        delete_prefix_paginated false 1000 (pages (keep_if (λ key. key.model == m) objects)) in
      (sent.1, delete_batches sent.0 objects)

  -- The loop over the orphaned prefixes, with the number that is deleted.
  unfoldable pub delete_orphans : List ℕ → List ObjectKey → ℕ × List ObjectKey
  delete_orphans [] objects = (0, objects)
  delete_orphans (m ∷ ms) objects =
      let deleted = delete_model_prefix m objects in
      let rest = delete_orphans ms deleted.1 in (deleted.0 + rest.0, rest.1)

-- `list_objects_v2(Prefix=s3_key, MaxKeys=1)` finds something: the key has no slash at its end, so
-- the objects of every version whose name begins with this one's are found.
module _ (starts_with : Label → Label → Bool) where
  abbrev pub has_objects : List ObjectKey → ModelVersion → Bool
  has_objects objects v =
      any_of (λ key. key.model == v.model && starts_with key.version v.version) objects

  unfoldable pub orphaned_db_versions : List ObjectKey → Dict ModelVersion → Dict ModelVersion
  orphaned_db_versions objects = keep_if (λ e. not (has_objects objects e.1))

-- What `handle` reports, and what it leaves.
pub record Report : Type 0 where
  pub prefixes : List ℕ
  pub deleted_count : ℕ
  pub missing : Dict ModelVersion

unfoldable pub reconcile :
    (List ObjectKey → List (List ObjectKey))
    → (Label → Label → Bool)
    → Bool
    → Registry
    → Report × Registry
reconcile pages starts_with actually_delete reg =
    let orphans = orphaned_s3_prefixes reg in
    let deleted =
      if actually_delete then delete_orphans pages orphans reg.objects else (0, reg.objects) in
    (
      record {
        prefixes = orphans;
        deleted_count = deleted.0;
        missing = orphaned_db_versions starts_with deleted.1 reg.versions;
      },
      record reg { objects = deleted.1 },
    )
