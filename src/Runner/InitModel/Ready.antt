-- ===== src/Runner/InitModel/Ready.antt =====
-- runners/worker.py, `init_model`: what a model that is said to be ready has passed.
use model_deployer.Base.{
  zero, suc, ◌∙◌, ℕ, String, Bool, true, false, Option, none, some, ◌≡◌, ◌≢◌, not, arith,
  Option-cases, inl, inr,
}
use model_deployer.Runner.Replies.{
  and_finally-result, ok, Content, manifest, Manifest, Files, ModelRequest, parse_manifest, is_set,
  framework_of, bridge_map, find_bridge, require-ok, bind-ok, escape_error,
}
use model_deployer.Runner.InitModel.{
  Outside, Readiness, environment_only, fetch, check_requirements, validate_model, init_body,
  init_model,
}

abbrev pub Usable : Files → String → Type 0
Usable files path = (files.within_models path ≡ true) × (files.exists path ≡ true)

-- The manifest's requirements and, where it names one, its artifact are files under the models'
-- root; the environment was built; the framework has its script; a named artifact was loaded.
abbrev pub Artifact : Outside → String → Option String → Readiness → Type 0
Artifact out path none r = r ≡ environment_only
Artifact out path (some name) r =
    Usable out.files (out.files.beside path name)
    × (out.validation.failed ≡ false)
    × (r ≢ environment_only)

abbrev pub Prepared : Outside → String → Manifest → Readiness → Type 0
Prepared out path m r =
    Usable out.files path
    × ((name : String) × (is_set m.requirements ≡ some name)
        × Usable out.files (out.files.beside path name))
    × (out.venv.failed ≡ false)
    × (out.pip.failed ≡ false)
    × ((script : String) × (bridge_map (framework_of m) ≡ some script)
        × (out.files.exists (out.files.bridge_path script) ≡ true))
    × Artifact out path (is_set m.model_artifact) r

parse_manifest-ok : (c : Content) (m : Manifest) → parse_manifest c ≡ ok m → c ≡ manifest m
parse_manifest-ok (manifest m') m h = ground arith
parse_manifest-ok _ m h = absurd (ground arith)

find_bridge-ok :
    (files : Files) (m : Manifest) (bridge : String)
    → find_bridge files m ≡ ok bridge
    → (script : String) × (bridge_map (framework_of m) ≡ some script)
      × (files.exists (files.bridge_path script) ≡ true)
find_bridge-ok files m bridge h = elim (Option-cases (bridge_map (framework_of m))) [
  | inl q ↦ absurd (ground arith)
  | inr (script, q) ↦ (script, q, ground arith)
]

check_requirements-ok :
    (files : Files) (path : String) (m : Manifest) (found : String)
    → check_requirements files path m ≡ ok found
    → (name : String) × (is_set m.requirements ≡ some name) × Usable files (files.beside path name)
check_requirements-ok files path m found h = elim (Option-cases (is_set m.requirements)) [
  | inl q ↦ absurd (ground arith)
  | inr (name, q) ↦ (name, q, (ground arith, ground arith))
]

validate_model-ok :
    (out : Outside) (path : String) (m : Manifest) (r : Readiness)
    → validate_model out path m ≡ ok r
    → Artifact out path (is_set m.model_artifact) r
validate_model-ok out path m r h = elim (Option-cases (is_set m.model_artifact)) [
  | inl q ↦ rw q (ground arith)
  | inr (name, q) ↦ rw q ((ground arith, ground arith), ground arith, λ e. absurd (ground arith))
]

not-true : (b : Bool) → not b ≡ true → b ≡ false
not-true b h = ground arith

init_body-Prepared :
    (out : Outside) (req : ModelRequest) (r : Readiness)
    → init_body out req ≡ ok r
    → (path : String) × (m : Manifest) × (fetch out req ≡ ok path)
      × (out.files.content path ≡ manifest m)
      × Prepared out path m r
unfolding init_body
init_body-Prepared out req r h =
    let (path, fetched, h1) = bind-ok (fetch out req) _ h in
    let (inside, h2) = require-ok (out.files.within_models path) escape_error _ h1 in
    let (there, h3) = require-ok (out.files.exists path) _ _ h2 in
    let (m, parsed, h4) = bind-ok (parse_manifest (out.files.content path)) _ h3 in
    let (found, required, h5) = bind-ok (check_requirements out.files path m) _ h4 in
    let (venv, h6) = require-ok (not out.venv.failed) _ _ h5 in
    let (pip, h7) = require-ok (not out.pip.failed) _ _ h6 in
    let (bridge, bridged, h8) = bind-ok (find_bridge out.files m) _ h7 in
    (
      path,
      m,
      fetched,
      parse_manifest-ok (out.files.content path) m parsed,
      (
        (inside, there),
        check_requirements-ok out.files path m found required,
        not-true out.venv.failed venv,
        not-true out.pip.failed pip,
        find_bridge-ok out.files m bridge bridged,
        validate_model-ok out path m r h8,
      ),
    )

-- Where `init_model` says that a model is ready, the manifest it read is a file under the models'
-- root, its requirements are, the environment was built without an error, its framework is supported,
-- and an artifact that it names is a file under the root that was loaded; a permit was free.
pub init_model-Prepared :
    (out : Outside) (req : ModelRequest) (permits : ℕ) (r : Readiness)
    → (init_model out req permits).0 ≡ ok r
    → (path : String) × (m : Manifest) × (fetch out req ≡ ok path)
      × (out.files.content path ≡ manifest m)
      × Prepared out path m r
      × (permits ≢ 0)
unfolding init_model
init_model-Prepared out req zero r h = absurd (ground arith)
init_model-Prepared out req (suc left) r h =
    let (path, m, fetched, parsed, prepared) =
      init_body-Prepared out req r (and_finally-result (init_body out req) left ∙ h) in
    (path, m, fetched, parsed, prepared, λ z. absurd (omega (arith, z)))
