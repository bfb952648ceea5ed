-- ===== src/Registry/Owners.antt =====
-- model_registry/views.py: a version that is not published leaves nothing behind, and takes nothing
-- with it.
use model_deployer.Base.{
  ℕ, String, Bool, true, false, Option, none, some, List, [], ◌∷◌, not, ◌≡◌, refl, ap, any_of, ltb,
  arith, All, Bool-cases, Option-cases, inl, inr, ==_refl, eq_iff, if◌then◌else◌, ◌∙◌,
}
use model_deployer.Base.Dict.{Dict, lookup}
use model_deployer.Registry.{
  Label, numbered, named, label_eq, User, Model, ModelVersion, ObjectKey, Registry,
  may_upload_models, get_next_version, create_version, labels_of, under, delete_prefix,
  upload_files, Bundle, refused, broken, complete, Upload, Settings, Response, refusal,
}
use model_deployer.Registry.Numbers.{get_next_version-fresh}
use model_deployer.Registry.Versions.{publish, post_version, is_foreign}

-- Every object is an artifact of a version that has its row.
abbrev pub IsOwned : Dict ModelVersion → ObjectKey → Type 0
IsOwned versions key = any_of (label_eq key.version) (labels_of key.model versions) ≡ true

abbrev pub Owned : Registry → Type 0
Owned reg = All (IsOwned reg.versions) reg.objects

pub label_eq_refl : (l : Label) → label_eq l l ≡ true
label_eq_refl (numbered n) = ==_refl n
label_eq_refl (named s) = (eq_iff s s).1 refl

pub label_eq-≡ : (l m : Label) → label_eq l m ≡ true → l ≡ m
label_eq-≡ (numbered m) (numbered n) h = ap numbered (ground arith)
label_eq-≡ (named s) (named t) h = ap named ((eq_iff s t).0 h)
label_eq-≡ (numbered m) (named t) h = absurd (ground arith)
label_eq-≡ (named s) (numbered n) h = absurd (ground arith)

-- The prefix of a version that has no row holds no object that has an owner.
not-under :
    (versions : Dict ModelVersion) (model : ℕ) (label : Label) (key : ObjectKey)
    → any_of (label_eq label) (labels_of model versions) ≡ false
    → IsOwned versions key
    → under model label key ≡ false
not-under versions model label key fresh owned = elim (Bool-cases (under model label key)) [
  | inl q ↦
      let m : key.model ≡ model = ground arith in
      let l : key.version ≡ label = label_eq-≡ key.version label (ground arith) in
      absurd (ground (arith, rw (m, l) at owned))
  | inr q ↦ q
]

pub delete_prefix-fresh :
    (versions : Dict ModelVersion) (model : ℕ) (label : Label) (objects : List ObjectKey)
    → any_of (label_eq label) (labels_of model versions) ≡ false
    → All (IsOwned versions) objects
    → delete_prefix model label none objects ≡ objects
delete_prefix-fresh versions model label [] fresh owned = refl
delete_prefix-fresh versions model label (key ∷ keys) fresh owned =
    rw (not-under versions model label key fresh owned.0)
      (ap (λ l. key ∷ l) (delete_prefix-fresh versions model label keys fresh owned.1))

pub delete_prefix-upload_files :
    (model : ℕ) (label : Label) (paths : List String) (objects : List ObjectKey)
    → delete_prefix model label none (upload_files model label paths objects)
      ≡ delete_prefix model label none objects
delete_prefix-upload_files model label [] objects = refl
delete_prefix-upload_files model label (path ∷ paths) objects =
    rw (==_refl model, label_eq_refl label) (delete_prefix-upload_files model label paths objects)

module _ (up : Upload) (model : ℕ) (reg : Registry) (owned : Owned reg)
    (cleaned : up.cleanup_leaves ≡ none) where
  -- What the clean-up leaves of the objects.
  pub clean-objects :
      (paths : List String)
      → delete_prefix model
          (get_next_version model reg.versions)
          up.cleanup_leaves
          (upload_files model (get_next_version model reg.versions) paths reg.objects)
        ≡ reg.objects
  clean-objects paths =
      let label = get_next_version model reg.versions in
      ap (λ leaves. delete_prefix model label leaves (upload_files model label paths reg.objects))
        cleaned
      ∙ delete_prefix-upload_files model label paths reg.objects
      ∙ delete_prefix-fresh reg.versions model label reg.objects
          (get_next_version-fresh model reg.versions) owned

  pub same_registry :
      (objects : List ObjectKey) → objects ≡ reg.objects → record reg { objects = objects } ≡ reg
  same_registry objects e = ap (λ o. record reg { objects = o }) e

  publish-unchanged :
      (status : ℕ) (code : String)
      → (publish up model reg).0 ≡ refusal status code
      → (publish up model reg).1 ≡ reg
  unfolding publish
  publish-unchanged status code h = go up.bundle refl
    where
      go : (b : Bundle) → up.bundle ≡ b → (publish up model reg).1 ≡ reg
      go (refused c) e = rw (publish, e) (same_registry _ (clean-objects []))
      go (broken paths) e = rw (publish, e) (same_registry _ (clean-objects paths))
      go (complete paths config) e =
          let label = get_next_version model reg.versions in
          let row : ModelVersion = record {
            id = up.new_version;
            model = model;
            version = label;
            has_schema = config.has_schema;
          } in
          elim (Option-cases
            (if up.database_fails then none else create_version row reg.versions)) [
              | inl q ↦ rw (publish, e, q) (same_registry _ (clean-objects paths))
              | inr (versions, q) ↦ absurd (ground (arith, (rw (publish, e, q) at h)))
            ]

-- An early return does not touch the registry.
module _ (reg : Registry) (status : ℕ) (code : String) where
  abbrev IsKept : Response × Registry → Type 0
  IsKept k = k.0 ≡ refusal status code → k.1 ≡ reg

  guard-IsKept :
      (b : Bool) (r : Response) (k : Response × Registry)
      → IsKept k
      → IsKept (if b then (r, reg) else k)
  guard-IsKept true r k kept h = refl
  guard-IsKept false r k kept h = kept h

  lookup-IsKept :
      (o : Option Model) (r : Response) (f : Model → Response × Registry)
      → ((m : Model) → IsKept (f m))
      → IsKept (elim o [ none ↦ (r, reg) | some m ↦ f m ])
  lookup-IsKept none r f kept h = refl
  lookup-IsKept (some m) r f kept h = kept m h

-- Where `post` refuses a new version or fails, for whatever reason, and the store can be cleaned, the
-- registry is as it was: no row and no object is new, and no object of another version is lost.
pub post_version-unchanged :
    (settings : Settings) (up : Upload) (user : User) (model : ℕ) (reg : Registry) (status : ℕ)
    (code : String)
    → Owned reg
    → up.cleanup_leaves ≡ none
    → (post_version settings up user model reg).0 ≡ refusal status code
    → (post_version settings up user model reg).1 ≡ reg
unfolding post_version
post_version-unchanged settings up user model reg status code owned cleaned =
    guard-IsKept reg status code (not (may_upload_models settings.approval_required user)) _ _ (
      lookup-IsKept reg status code (lookup model reg.models) _ _ (λ m.
        guard-IsKept reg status code (is_foreign m user) _ _ (
          guard-IsKept reg status code (not up.is_zip) _ _ (
            guard-IsKept reg status code (ltb settings.max_zip_bytes up.size) _ _
              (publish-unchanged up model reg owned cleaned status code)))))
