-- ===== src/Registry/Rows.antt =====
-- model_registry/views.py: after every upload of a version, each object has the row that it is for.
use model_deployer.Base.{
  ℕ, String, Bool, true, false, Option, none, some, List, [], ◌∷◌, ◌++◌, ◌==◌, ◌||◌, not, ◌≡◌, refl,
  sym, subst, ltb, any_of-append, arith, All, Bool-cases, Option-cases, inl, inr, ==_refl,
  if◌then◌else◌,
}
use model_deployer.Base.Dict.{Dict, lookup, insert}
use model_deployer.Registry.{
  Label, label_eq, User, Model, ModelVersion, ObjectKey, Registry, may_upload_models,
  get_next_version, create_version, labels_of, upload_files, Bundle, refused, broken, complete,
  Upload, Settings, Response,
}
use model_deployer.Registry.Versions.{publish, post_version, is_foreign}
use model_deployer.Registry.Owners.{IsOwned, Owned, label_eq_refl, clean-objects}

-- A row with a new id comes last.
labels_of-insert :
    (model id : ℕ) (v : ModelVersion) (d : Dict ModelVersion)
    → lookup id d ≡ none
    → labels_of model (insert id v d)
      ≡ labels_of model d ++ (if v.model == model then v.version ∷ [] else [])
unfolding lookup insert
labels_of-insert model id v [] h = ground arith
labels_of-insert model id v ((k, w) ∷ d) h = elim (Bool-cases (id == k)) [
  | inl q ↦ absurd (ground arith)
  | inr q ↦ rw q (ground (arith, labels_of-insert model id v d (rw q at h)))
]

or_true_right : (b : Bool) → b || true ≡ true
or_true_right b = ground arith

IsOwned-insert :
    (id : ℕ) (v : ModelVersion) (d : Dict ModelVersion) (key : ObjectKey)
    → lookup id d ≡ none
    → IsOwned d key
    → IsOwned (insert id v d) key
IsOwned-insert id v d key h owned =
    rw
      (
        labels_of-insert key.model id v d h,
        any_of-append (label_eq key.version) (labels_of key.model d)
            (if v.model == key.model then v.version ∷ [] else []),
        owned,
      )
      refl

IsOwned-insert_self :
    (id : ℕ) (v : ModelVersion) (d : Dict ModelVersion) (path : String)
    → lookup id d ≡ none
    → IsOwned (insert id v d) (record { model = v.model; version = v.version; path = path })
IsOwned-insert_self id v d path h =
    rw
      (
        labels_of-insert v.model id v d h,
        ==_refl v.model,
        any_of-append (label_eq v.version) (labels_of v.model d) (v.version ∷ []),
        label_eq_refl v.version,
      )
      (or_true_right _)

All-upload_files :
    (versions : Dict ModelVersion) (model : ℕ) (label : Label) (paths : List String)
    (objects : List ObjectKey)
    → ((path : String) → IsOwned versions (record { model = model; version = label; path = path }))
    → All (IsOwned versions) objects
    → All (IsOwned versions) (upload_files model label paths objects)
All-upload_files versions model label [] objects new old = old
All-upload_files versions model label (path ∷ paths) objects new old =
    (new path, All-upload_files versions model label paths objects new old)

All-insert :
    (id : ℕ) (v : ModelVersion) (d : Dict ModelVersion) (objects : List ObjectKey)
    → lookup id d ≡ none
    → All (IsOwned d) objects
    → All (IsOwned (insert id v d)) objects
All-insert id v d [] h owned = tt
All-insert id v d (key ∷ keys) h owned =
    (IsOwned-insert id v d key h owned.0, All-insert id v d keys h owned.1)

created_rows :
    (fails : Bool) (v : ModelVersion) (d d' : Dict ModelVersion)
    → (if fails then none else create_version v d) ≡ some d'
    → d' ≡ insert v.id v d
unfolding create_version
created_rows fails v d d' h = ground arith

module _ (up : Upload) (model : ℕ) (reg : Registry) (owned : Owned reg)
    (cleaned : up.cleanup_leaves ≡ none) (new_id : lookup up.new_version reg.versions ≡ none) where
  kept :
      (objects : List ObjectKey) → objects ≡ reg.objects → Owned (record reg { objects = objects })
  kept objects e = subst (All (IsOwned reg.versions)) (sym e) owned

  publish-Owned : Owned (publish up model reg).1
  unfolding publish
  publish-Owned = go up.bundle refl
    where
      go : (b : Bundle) → up.bundle ≡ b → Owned (publish up model reg).1
      go (refused c) e = rw (publish, e) (kept _ (clean-objects up model reg owned cleaned []))
      go (broken paths) e =
          rw (publish, e) (kept _ (clean-objects up model reg owned cleaned paths))
      go (complete paths config) e =
          let label = get_next_version model reg.versions in
          let row : ModelVersion = record {
            id = up.new_version;
            model = model;
            version = label;
            has_schema = config.has_schema;
          } in
          elim (Option-cases
            (if up.database_fails then none else create_version row reg.versions)) [
              | inl q ↦ rw (publish, e, q) (kept _ (clean-objects up model reg owned cleaned paths))
              | inr (versions, q) ↦
                  let same : versions ≡ insert up.new_version row reg.versions =
                    created_rows up.database_fails row reg.versions versions q in
                  rw (publish, e, q)
                    (subst (λ d. All (IsOwned d) (upload_files model label paths reg.objects))
                      (sym same)
                      (All-upload_files (insert up.new_version row reg.versions) model label paths
                        reg.objects
                        (λ path. IsOwned-insert_self up.new_version row reg.versions path new_id)
                        (All-insert up.new_version row reg.versions reg.objects new_id owned)))
            ]

-- After a `post` that ends in any way, each object is an artifact of a version that has its row, if
-- it was so before, the new row's id is new and the store can be cleaned.
pub post_version-Owned :
    (settings : Settings) (up : Upload) (user : User) (model : ℕ) (reg : Registry)
    → Owned reg
    → up.cleanup_leaves ≡ none
    → lookup up.new_version reg.versions ≡ none
    → Owned (post_version settings up user model reg).1
unfolding post_version
post_version-Owned settings up user model reg owned cleaned new_id =
    guard-Owned (not (may_upload_models settings.approval_required user)) _ _ (
      lookup-Owned (lookup model reg.models) _ _ (λ m. guard-Owned (is_foreign m user) _ _ (
        guard-Owned (not up.is_zip) _ _ (
          guard-Owned (ltb settings.max_zip_bytes up.size) _ _
            (publish-Owned up model reg owned cleaned new_id)))))
  where
    guard-Owned :
        (b : Bool) (r : Response) (k : Response × Registry)
        → Owned k.1
        → Owned (if b then (r, reg) else k).1
    guard-Owned true r k h = owned
    guard-Owned false r k h = h

    lookup-Owned :
        (o : Option Model) (r : Response) (f : Model → Response × Registry)
        → ((m : Model) → Owned (f m).1)
        → Owned (elim o as (λ x. Response × Registry) [ none ↦ (r, reg) | some m ↦ f m ]).1
    lookup-Owned none r f h = owned
    lookup-Owned (some m) r f h = h m
