-- ===== src/Registry/Orphans.antt =====
-- model_registry/views.py, `ModelUploadAPIView.post` and `ModelDetailAPIView.delete`: which objects can
-- be left without a row, and what a deleted model leaves.
use model_deployer.Base.{
  ℕ, String, Bool, true, false, none, some, List, [], ◌∷◌, ◌==◌, ◌&&◌, not, ◌≡◌, ◌⊎◌, refl, ap, ◌∙◌,
  ltb, any_of, All, All-map, ◌≢◌, ◌||◌, arith, Bool-cases, Option-cases, inl, inr, keep_if-All,
  if◌then◌else◌,
}
use model_deployer.Base.Dict.{Dict, lookup, lookup-erase}
use model_deployer.Deployments.{
  Deployment, Table, is_active, stopped, pending, building, running, failed, Status, transition_to,
  save,
}
use model_deployer.Registry.{
  numbered, label_eq, User, Model, ModelVersion, Registry, may_upload_models, labels_of,
  delete_prefix, upload_files, Bundle, refused, broken, complete, Upload, Settings, Response,
  deleted, refusal,
}
use model_deployer.Registry.Owners.{Owned, delete_prefix-fresh, delete_prefix-upload_files}
use model_deployer.Registry.Models.{
  create_rows, store_model, upload_model, version_ids, find_active, stop_all, remove_model,
  delete_model,
}

-- Nothing is new, or the upload broke off after these files, which stay.
abbrev pub Leftover : Upload → Registry → Registry → Type 0
Leftover up reg' reg =
    (reg' ≡ reg)
    ⊎ ((paths : List String) × (up.bundle ≡ broken paths)
        × (reg'
            ≡ record reg { objects = upload_files up.new_model (numbered 1) paths reg.objects }))

module _ (up : Upload) (default_name : String) (user : User) (reg : Registry) (owned : Owned reg)
    (cleaned : up.cleanup_leaves ≡ none)
    (new_id : any_of (label_eq (numbered 1)) (labels_of up.new_model reg.versions) ≡ false)
    (status : ℕ) (code : String) where
  cleaned_objects :
      (paths : List String)
      → delete_prefix up.new_model
          (numbered 1)
          up.cleanup_leaves
          (upload_files up.new_model (numbered 1) paths reg.objects)
        ≡ reg.objects
  cleaned_objects paths =
      ap
        (λ leaves.
          delete_prefix up.new_model (numbered 1) leaves
            (upload_files up.new_model (numbered 1) paths reg.objects))
        cleaned
      ∙ delete_prefix-upload_files up.new_model (numbered 1) paths reg.objects
      ∙ delete_prefix-fresh reg.versions up.new_model (numbered 1) reg.objects new_id owned

  store_model-Leftover :
      (store_model up default_name user reg).0 ≡ refusal status code
      → Leftover up (store_model up default_name user reg).1 reg
  unfolding store_model
  store_model-Leftover h = go up.bundle refl
    where
      go : (b : Bundle) → up.bundle ≡ b → Leftover up (store_model up default_name user reg).1 reg
      go (refused c) e = inl (rw (store_model, e) refl)
      go (broken paths) e = inr (paths, e, rw (store_model, e) refl)
      go (complete paths config) e =
          elim (Option-cases (create_rows up default_name config user reg)) [
            | inl q ↦ inl (
                rw (store_model, e, q)
                  (ap (λ o. record reg { objects = o }) (cleaned_objects paths)))
            | inr ((models, versions), q) ↦ absurd (ground (arith, (rw (store_model, e, q) at h)))
          ]

-- Where an upload of a model is refused or fails and the store can be cleaned, the registry is as it
-- was, but for one case: an upload that breaks off midway leaves the files it has written, and
-- no row names them.
pub upload_model-Leftover :
    (settings : Settings) (up : Upload) (default_name : String) (user : User) (reg : Registry)
    (status : ℕ) (code : String)
    → Owned reg
    → up.cleanup_leaves ≡ none
    → any_of (label_eq (numbered 1)) (labels_of up.new_model reg.versions) ≡ false
    → (upload_model settings up default_name user reg).0 ≡ refusal status code
    → Leftover up (upload_model settings up default_name user reg).1 reg
unfolding upload_model
upload_model-Leftover settings up default_name user reg status code owned cleaned new_id =
    guard (not (may_upload_models settings.approval_required user)) _ _ (
      guard (not up.is_zip) _ _ (
        guard (ltb settings.max_zip_bytes up.size) _ _
          (store_model-Leftover up default_name user reg owned cleaned new_id status code)))
  where
    guard :
        (b : Bool) (r : Response) (k : Response × Registry)
        → (k.0 ≡ refusal status code → Leftover up k.1 reg)
        → (if b then (r, reg) else k).0 ≡ refusal status code
        → Leftover up (if b then (r, reg) else k).1 reg
    guard true r k h e = inl refl
    guard false r k h e = h e

-- Stopping what is active never fails: the transition is allowed and the constraint has nothing to say.
transition_to-stopped :
    (d : Deployment)
    → is_active d.status ≡ true
    → transition_to d stopped ≡ some (record d { status = stopped })
unfolding transition_to
transition_to-stopped d h = go d.status refl
  where
    go :
        (s : Status) → d.status ≡ s → transition_to d stopped ≡ some (record d { status = stopped })
    go pending e = rw e refl
    go building e = rw e refl
    go running e = rw e refl
    go failed e = absurd (ground (arith, (rw e at h)))
    go stopped e = absurd (ground (arith, (rw e at h)))

stop_all-ok :
    (now : ℕ) (ds : List Deployment) (t : Table)
    → All (λ d. is_active d.status ≡ true) ds
    → (stop_all now ds t).0 ≡ true
unfolding stop_all save
stop_all-ok now [] t h = refl
stop_all-ok now (d ∷ ds) t h = rw (stop_all, transition_to-stopped d h.0) (stop_all-ok now ds _ h.1)

find_active-is_active :
    (versions : List ℕ) (t : Table) → All (λ d. is_active d.status ≡ true) (find_active versions t)
find_active-is_active versions [] = tt
find_active-is_active versions (e ∷ t) =
    elim (Bool-cases (any_of (λ v. e.1.model_version == v) versions && is_active e.1.status)) [
      | inl q ↦ rw q (ground arith, find_active-is_active versions t)
      | inr q ↦ rw q (find_active-is_active versions t)
    ]

-- No deployment of any of the model's versions.
abbrev pub Unused : ℕ → Dict ModelVersion → Table → Type 0
Unused model versions t =
    All (λ w. (w.1.model ≢ model) ⊎ All (λ e. e.1.model_version ≢ w.0) t) versions

dropped-Unused :
    (model : ℕ) (versions : Dict ModelVersion) (t : Table)
    → All (λ e. any_of (λ v. e.1.model_version == v) (version_ids model versions) ≡ false) t
    → Unused model versions t
dropped-Unused model [] t h = tt
dropped-Unused model (w ∷ versions) t h = elim (Bool-cases (w.1.model == model)) [
  | inr q ↦ (inl (ground arith), dropped-Unused model versions t (rw q at h))
  | inl q ↦
      let all : All
          (λ e.
            (e.1.model_version == w.0
              || any_of (λ v. e.1.model_version == v) (version_ids model versions))
            ≡ false)
          t =
        rw q at h in
      (
        inr (All-map _ (λ e. e.1.model_version ≢ w.0) (λ e x. ground arith) t all),
        dropped-Unused model versions t (
            All-map _
              (λ e. any_of (λ v. e.1.model_version == v) (version_ids model versions) ≡ false)
              (λ e x. ground arith) t all),
      )
]

-- The owner of a model can delete it whenever the store works: no deployment of it is in the way, and
-- its row, its versions, every deployment of one of them and every object of it are gone, and the
-- rows of other models are as they were.
pub delete_model-Gone :
    (now : ℕ) (user : User) (model : ℕ) (reg : Registry) (m : Model)
    → lookup model reg.models ≡ some m
    → m.owner ≡ user.id
    → ((delete_model none now user model reg).0 ≡ deleted)
      × (lookup model (delete_model none now user model reg).1.models ≡ none)
      × ((k : ℕ)
          → k ≢ model
          → lookup k (delete_model none now user model reg).1.models ≡ lookup k reg.models)
      × All (λ e. e.1.model ≢ model) (delete_model none now user model reg).1.versions
      × All (λ key. key.model ≢ model) (delete_model none now user model reg).1.objects
      × Unused model reg.versions (delete_model none now user model reg).1.deployments
unfolding delete_model remove_model
delete_model-Gone now user model reg m found own =
    let versions = version_ids model reg.versions in
    let owner : (m.owner == user.id) ≡ true = ground arith in
    let stops : (stop_all now (find_active versions reg.deployments) reg.deployments).0 ≡ true =
      stop_all-ok now (find_active versions reg.deployments) reg.deployments
        (find_active-is_active versions reg.deployments) in
    rw (delete_model, found, owner, stops)
      (
        refl,
        ground (arith, lookup-erase model model reg.models),
        λ k ne. ground (arith, lookup-erase k model reg.models),
        All-map _ (λ e. e.1.model ≢ model) (λ e x. ground arith) _
            (keep_if-All (λ e. not (e.1.model == model)) reg.versions),
        All-map _ (λ key. key.model ≢ model) (λ key x. ground arith) _
            (keep_if-All (λ key. not (key.model == model)) reg.objects),
        dropped-Unused model reg.versions _ (
            All-map _ (λ e. any_of (λ v. e.1.model_version == v) versions ≡ false)
              (λ e x. ground arith) _
              (keep_if-All (λ e. not (any_of (λ v. e.1.model_version == v) versions))
                (stop_all now (find_active versions reg.deployments) reg.deployments).1)),
      )
