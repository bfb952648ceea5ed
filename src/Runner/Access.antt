-- ===== src/Runner/Access.antt =====
-- runners/auth.py, with `require_runner_auth` of runners/worker.py: the shared secret of the control
-- plane and the runner. `strip` is Python's.
use model_deployer.Base.{
  String, Bool, true, false, Option, none, some, ◌||◌, not, ◌≡◌, ◌≢◌, refl, arith, str_eq, eq_iff,
  if◌then◌else◌,
}
use model_deployer.Deployments.Build.{text_or}

abbrev pub default_auth_header : String
default_auth_header = "X-Runner-Token"

abbrev pub resolve_auth_token : (String → String) → Option String → String
resolve_auth_token strip raw = strip (text_or raw "")

-- The header's name and value; without a token there is none.
unfoldable pub auth_headers : (String → String) → String → String → Option (String × String)
auth_headers strip token header =
    let secret = resolve_auth_token strip (some token) in
    if str_eq secret "" then none else some (text_or (some header) default_auth_header, secret)

unfoldable pub verify_token : (String → String) → Option String → String → Bool
verify_token strip provided expected =
    let secret = resolve_auth_token strip (some expected) in
    if str_eq secret "" then false else elim provided [ none ↦ false | some p ↦ str_eq p secret ]

-- False is the exception.
unfoldable pub check_auth_configuration : (String → String) → String → Bool → Bool → Bool
check_auth_configuration strip token debug allow =
    not (str_eq (resolve_auth_token strip (some token)) "") || (debug || allow)

-- `require_runner_auth`, whether the request goes on.
unfoldable pub require_runner_auth : (String → String) → String → Option String → Bool
require_runner_auth strip token provided =
    if str_eq token "" then true else verify_token strip provided token

-- The worker's start from its environment, and then a request; `none` where it does not start.
unfoldable pub serve_with : (String → String) → Option String → Bool → Option String → Option Bool
serve_with strip raw allow provided =
    let token = resolve_auth_token strip raw in
    if check_auth_configuration strip token false allow
    then some (require_runner_auth strip token provided)
    else none

-- With one secret that is more than white space on both sides, the client sends it and the runner lets
-- it in, lets nothing else in, and nothing without the header, even where the development opt-out is
-- set; `strip` takes nothing off a text that it has stripped.
pub serve_with-auth_headers :
    (strip : String → String) (raw header : String) (allow : Bool) (p : String)
    → ((s : String) → strip (strip s) ≡ strip s)
    → raw ≢ ""
    → strip raw ≢ ""
    → (auth_headers strip raw header ≡ some (text_or (some header) default_auth_header, strip raw))
      × (serve_with strip (some raw) allow (some (strip raw)) ≡ some true)
      × (serve_with strip (some raw) allow (some p) ≡ some (str_eq p (strip raw)))
      × (serve_with strip (some raw) allow none ≡ some false)
unfolding auth_headers verify_token check_auth_configuration require_runner_auth serve_with
serve_with-auth_headers strip raw header allow p idem sent full =
    let raw_set : str_eq raw "" ≡ false = ground (arith, eq_iff raw "") in
    let set : str_eq (strip raw) "" ≡ false = ground (arith, eq_iff (strip raw) "") in
    let same : str_eq (strip raw) (strip raw) ≡ true = (eq_iff (strip raw) (strip raw)).1 refl in
    (
      rw (raw_set, set) refl,
      rw (raw_set, set, idem raw, set, same) refl,
      rw (raw_set, set, idem raw, set) refl,
      rw (raw_set, set, idem raw, set) refl,
    )

-- Without a secret and without the opt-out the worker does not start, and a client sends no header.
pub serve_with-closed :
    (strip : String → String) (header : String) (provided : Option String)
    → strip "" ≡ ""
    → (serve_with strip none false provided ≡ none) × (auth_headers strip "" header ≡ none)
unfolding auth_headers check_auth_configuration serve_with
serve_with-closed strip header provided h = (rw (h, h) refl, rw h refl)
