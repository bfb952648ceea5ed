-- ===== src/Registry.antt =====
-- model_registry/models.py and views.py: models, their versions, and the artifacts of the versions in
-- the object store.
--
-- Keys are numbers. The key of an object, "<model>/<version>/<path>", is taken apart; no id and no
-- version has a slash. Times, descriptions and prices are left out.
pub mod Versions
pub mod Models
pub mod Numbers
pub mod Owners
pub mod Rows
pub mod Removal
pub mod Orphans
pub mod Reconcile
use model_deployer.Base.{
  ℕ, suc, ◌+◌, String, Bool, true, false, Option, none, some, List, [], ◌∷◌, ◌++◌, ◌==◌, ◌&&◌, ◌||◌,
  not, max, any_of, keep_if, length, map, str_eq, if◌then◌else◌,
}
use model_deployer.Base.Dict.{Dict, lookup, insert}
use model_deployer.Deployments.{Table}

-- A version's name: "v" and a number, or any other text.
pub data Label : Type 0 where
  numbered : ℕ → Label
  named : String → Label

abbrev pub label_eq : Label → Label → Bool
label_eq (numbered m) (numbered n) = m == n
label_eq (named s) (named t) = str_eq s t
label_eq _ _ = false

pub record User : Type 0 where
  pub id : ℕ
  pub is_staff : Bool
  pub can_upload_models : Bool

pub record Model : Type 0 where
  pub id : ℕ
  pub name : String
  pub framework : String
  pub task_type : String
  pub owner : ℕ

-- The status is "READY" in every row; the paths are those of the artifacts' prefix, whose id is
-- `model` and whose version is `version`.
pub record ModelVersion : Type 0 where
  pub id : ℕ
  pub model : ℕ
  pub version : Label
  pub has_schema : Bool

pub record ObjectKey : Type 0 where
  pub model : ℕ
  pub version : Label
  pub path : String

-- `objects` are the keys that hold an object, the latest first.
pub record Registry : Type 0 where
  pub models : Dict Model
  pub versions : Dict ModelVersion
  pub deployments : Table
  pub objects : List ObjectKey

-- `may_upload_models`, with the setting UPLOAD_APPROVAL_REQUIRED.
abbrev pub may_upload_models : Bool → User → Bool
may_upload_models approval_required user =
    if not approval_required then true else user.is_staff || user.can_upload_models

-- `get_next_version`: the numbers of the labels, and the next one.
abbrev pub numeric_versions : List Label → List ℕ
numeric_versions [] = []
numeric_versions (numbered n ∷ labels) = n ∷ numeric_versions labels
numeric_versions (named s ∷ labels) = numeric_versions labels

abbrev pub maximum : ℕ → List ℕ → ℕ
maximum n [] = n
maximum n (m ∷ ms) = maximum (max n m) ms

unfoldable pub next_label : List Label → Label
next_label existing = elim (numeric_versions existing) [
  | [] ↦ numbered (length existing + 1)
  | n ∷ ns ↦ numbered (maximum n ns + 1)
]

-- `ModelVersion.objects.filter(model=model)`, the versions' names.
abbrev pub labels_of : ℕ → Dict ModelVersion → List Label
labels_of model [] = []
labels_of model (e ∷ d) =
    let rest = labels_of model d in if e.1.model == model then e.1.version ∷ rest else rest

abbrev pub get_next_version : ℕ → Dict ModelVersion → Label
get_next_version model versions = next_label (labels_of model versions)

-- `ModelVersion.objects.create`; `none` is the `IntegrityError` of `unique_model_version`.
unfoldable pub create_version : ModelVersion → Dict ModelVersion → Option (Dict ModelVersion)
create_version v versions =
    if any_of (label_eq v.version) (labels_of v.model versions)
    then none
    else some (insert v.id v versions)

-- The keys below "<model>/<version>/", and what is left where they are deleted. A deletion that fails
-- midway leaves some of them.
abbrev pub under : ℕ → Label → ObjectKey → Bool
under model label key = key.model == model && label_eq key.version label

abbrev pub delete_prefix : ℕ → Label → Option (ObjectKey → Bool) → List ObjectKey → List ObjectKey
delete_prefix model label none = keep_if (λ key. not (under model label key))
delete_prefix model label (some left) = keep_if (λ key. not (under model label key) || left key)

-- The upload of a bundle's files to the prefix.
abbrev pub upload_files : ℕ → Label → List String → List ObjectKey → List ObjectKey
upload_files model label [] objects = objects
upload_files model label (path ∷ paths) objects =
    record { model = model; version = label; path = path } ∷ upload_files model label paths objects

-- How `_process_and_upload_bundle` ends. An archive or manifest that is refused comes before any
-- upload; otherwise an exception comes after some of the files, or all are there.
pub record Config : Type 0 where
  pub name : Option String
  pub framework : String
  pub task_type : Option String
  pub has_schema : Bool

pub data Bundle : Type 0 where
  refused : String → Bundle
  broken : List String → Bundle
  complete : List String → Config → Bundle

-- What a request brings, and what it meets outside: the new ids, the database, and the deletions.
pub record Upload : Type 0 where
  pub is_zip : Bool
  pub size : ℕ
  pub bundle : Bundle
  pub new_model : ℕ
  pub new_version : ℕ
  pub database_fails : Bool
  pub cleanup_leaves : Option (ObjectKey → Bool)

pub record Settings : Type 0 where
  pub approval_required : Bool
  pub max_zip_bytes : ℕ

pub data Response : Type 0 where
  created : ℕ → Label → Response
  deleted : Response
  refusal : ℕ → String → Response
