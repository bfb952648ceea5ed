-- ===== src/Registry/Removal.antt =====
-- model_registry/views.py, `ModelVersionDetailAPIView.delete`: what a deletion leaves.
use model_deployer.Base.{
  ℕ, ◌≢◌, ◌⊎◌, sym, ap, ◌∙◌, subst, ◌&&◌, true, String, Bool, false, Option, none, some, List, [],
  ◌∷◌, ◌==◌, ◌≡◌, refl, All, arith, Bool-cases, Option-cases, inl, inr,
}
use model_deployer.Base.Dict.{Dict, lookup, erase, lookup-erase}
use mathlib.Core.Bool.{true≢false}
use mathlib.Core.Option.{some-injective}
use model_deployer.Deployments.{
  Status, pending, building, running, failed, stopped, is_active, Table,
}
use model_deployer.Registry.Owners.{label_eq_refl, label_eq-≡}
use model_deployer.Registry.{
  Label, label_eq, User, Model, ModelVersion, ObjectKey, Registry, under, delete_prefix, deleted,
  refusal,
}
use model_deployer.Registry.Versions.{
  find_version, has_active, drop_deployments, discard, delete_version, is_foreign,
}

-- No object of the version of the model.
abbrev pub Empty : ℕ → Label → List ObjectKey → Type 0
Empty model label = All (λ key. (key.model ≢ model) ⊎ (key.version ≢ label))

under_not :
    (model : ℕ) (label : Label) (key : ObjectKey)
    → under model label key ≡ false
    → (key.model ≢ model) ⊎ (key.version ≢ label)
under_not model label key q = elim (Bool-cases (key.model == model)) [
  | inr other ↦ inl (ground arith)
  | inl same ↦ inr (λ e.
      true≢false (sym (label_eq_refl key.version) ∙ ap (label_eq key.version) e ∙ (ground arith)))
]

delete_prefix-Empty :
    (model : ℕ) (label : Label) (objects : List ObjectKey)
    → Empty model label (delete_prefix model label none objects)
delete_prefix-Empty model label [] = tt
delete_prefix-Empty model label (key ∷ keys) = elim (Bool-cases (under model label key)) [
  | inl q ↦ rw q (delete_prefix-Empty model label keys)
  | inr q ↦ rw q (under_not model label key q, delete_prefix-Empty model label keys)
]

-- No deployment of the version is left.
abbrev pub Undeployed : ℕ → Table → Type 0
Undeployed version = All (λ e. e.1.model_version ≢ version)

drop_deployments-Undeployed :
    (version : ℕ) (t : Table) → Undeployed version (drop_deployments version t)
unfolding drop_deployments
drop_deployments-Undeployed version [] = tt
drop_deployments-Undeployed version (e ∷ t) = elim (Bool-cases (e.1.model_version == version)) [
  | inl q ↦ rw q (drop_deployments-Undeployed version t)
  | inr q ↦ rw q (ground arith, drop_deployments-Undeployed version t)
]

-- Every deployment of the version is FAILED or STOPPED.
abbrev pub Idle : ℕ → Table → Type 0
Idle version =
    All (λ e. (e.1.model_version ≢ version) ⊎ ((e.1.status ≡ failed) ⊎ (e.1.status ≡ stopped)))

over : (s : Status) → is_active s ≡ false → (s ≡ failed) ⊎ (s ≡ stopped)
over failed h = inl refl
over stopped h = inr refl
over pending h = cc
over building h = cc
over running h = cc

has_active-Idle : (version : ℕ) (t : Table) → has_active version t ≡ false → Idle version t
unfolding has_active
has_active-Idle version [] h = tt
has_active-Idle version (e ∷ t) h = elim (Bool-cases (e.1.model_version == version)) [
  | inl q ↦ (inr (over e.1.status (ground arith)), has_active-Idle version t (ground arith))
  | inr q ↦ (inl (ground arith), has_active-Idle version t (ground arith))
]

find_version-named :
    (model : ℕ) (label : Label) (d : Dict ModelVersion) (v : ModelVersion)
    → find_version model label d ≡ some v
    → (v.model ≡ model) × (v.version ≡ label)
unfolding find_version
find_version-named model label [] v h = cc
find_version-named model label (e ∷ d) v h =
    elim (Bool-cases (e.1.model == model && label_eq e.1.version label)) [
      | inl q ↦
          let same : e.1 ≡ v = some-injective _ _ (rw q at h) in
          rw (← same) (ground arith, label_eq-≡ e.1.version label (ground arith))
      | inr q ↦ find_version-named model label d v (rw q at h)
    ]

allowed :
    (m : Model) (user : User)
    → is_foreign m user ≡ false
    → (m.owner ≡ user.id) ⊎ (user.is_staff ≡ true)
allowed m user h = elim (Bool-cases (m.owner == user.id)) [
  | inl q ↦ inl (ground arith)
  | inr q ↦ inr (ground arith)
]

erased : (k : ℕ) (d : Dict ModelVersion) → lookup k (erase k d) ≡ none
erased k d = ground (arith, lookup-erase k k d)

-- The rows of models and versions, and the deployments, are as before.
abbrev pub SameRows : Registry → Registry → Type 0
SameRows reg' reg =
    (reg'.models ≡ reg.models)
    × (reg'.versions ≡ reg.versions)
    × (reg'.deployments ≡ reg.deployments)

-- A deletion that is refused, or that fails in the store, keeps every row: no artifact is left without
-- the row that names it.
pub delete_version-refused :
    (leaves : Option (ObjectKey → Bool)) (user : User) (model : ℕ) (label : Label) (reg : Registry)
    (status : ℕ) (code : String)
    → (delete_version leaves user model label reg).0 ≡ refusal status code
    → SameRows (delete_version leaves user model label reg).1 reg
unfolding delete_version discard
delete_version-refused leaves user model label reg status code h =
    elim (Option-cases (lookup model reg.models)) [
      | inl q ↦ rw (delete_version, q) (refl, refl, refl)
      | inr (m, found) ↦ elim (Bool-cases (is_foreign m user)) [
        | inl q ↦ rw (delete_version, found, q) (refl, refl, refl)
        | inr own ↦ elim (Option-cases (find_version model label reg.versions)) [
          | inl q ↦ rw (delete_version, found, own, q) (refl, refl, refl)
          | inr (v, there) ↦ elim (Bool-cases (has_active v.id reg.deployments)) [
            | inl q ↦ rw (delete_version, found, own, there, q) (refl, refl, refl)
            | inr idle ↦ elim (Option-cases leaves) [
              | inr (left, q) ↦
                  rw (delete_version, found, own, there, idle, discard, q) (refl, refl, refl)
              | inl q ↦ absurd (ground arith)
            ]
          ]
        ]
      ]
    ]

-- Where a version is deleted, it is the version of the model under that label, all its deployments
-- were FAILED or STOPPED, and the user is its model's owner or of the staff; its row, its
-- deployments and all its objects are gone.
pub delete_version-Gone :
    (leaves : Option (ObjectKey → Bool)) (user : User) (model : ℕ) (label : Label) (reg : Registry)
    → (delete_version leaves user model label reg).0 ≡ deleted
    → (m : Model) × (v : ModelVersion) × (lookup model reg.models ≡ some m)
      × ((m.owner ≡ user.id) ⊎ (user.is_staff ≡ true))
      × (find_version model label reg.versions ≡ some v)
      × (v.model ≡ model)
      × (v.version ≡ label)
      × Idle v.id reg.deployments
      × (lookup v.id (delete_version leaves user model label reg).1.versions ≡ none)
      × Undeployed v.id (delete_version leaves user model label reg).1.deployments
      × Empty model label (delete_version leaves user model label reg).1.objects
unfolding delete_version discard
delete_version-Gone leaves user model label reg h = elim (Option-cases (lookup model reg.models)) [
  | inl q ↦ absurd (ground arith)
  | inr (m, found) ↦ elim (Bool-cases (is_foreign m user)) [
    | inl q ↦ absurd (ground arith)
    | inr own ↦ elim (Option-cases (find_version model label reg.versions)) [
      | inl q ↦ absurd (ground arith)
      | inr (v, there) ↦ elim (Bool-cases (has_active v.id reg.deployments)) [
        | inl q ↦ absurd (ground arith)
        | inr idle ↦ elim (Option-cases leaves) [
          | inr (left, q) ↦ absurd (ground arith)
          | inl q ↦ (
            m,
            v,
            found,
            allowed m user own,
            there,
            (find_version-named model label reg.versions v there).0,
            (find_version-named model label reg.versions v there).1,
            has_active-Idle v.id reg.deployments idle,
            rw (delete_version, found, own, there, idle, discard, q) (erased v.id reg.versions),
            rw (delete_version, found, own, there, idle, discard, q)
                (drop_deployments-Undeployed v.id reg.deployments),
            rw (delete_version, found, own, there, idle, discard, q, q)
                (subst (λ k. Empty model label (delete_prefix k v.version none reg.objects))
                  (sym (find_version-named model label reg.versions v there).0)
                  (subst (λ l. Empty model label (delete_prefix model l none reg.objects))
                    (sym (find_version-named model label reg.versions v there).1)
                    (delete_prefix-Empty model label reg.objects))),
          )
        ]
      ]
    ]
  ]
]
