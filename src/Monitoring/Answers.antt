-- ===== src/Monitoring/Answers.antt =====
-- monitoring/views.py: what the views' answers say about the rows.
use mathlib.Core.List.{Perm}
use mathlib.Core.List.Perm
use model_deployer.Base.{
  ℕ, ◌+◌, ◌≤◌, ◌≡◌, ◌↔◌, refl, ap, ◌∙◌, String, Bool, true, Option, none, some, List, [], ◌∷◌, ◌++◌,
  arith, ◌==◌, leb, min, length, if◌then◌else◌, All, keep_if-All, drop, take-append-drop,
  length-take-min, All-take, Bool-cases, inl, inr, leb→le, eq_iff,
}
use model_deployer.Base.Int.{pos, negsuc}
use model_deployer.Deployments.{
  Status, Deployment, pending, building, running, failed, stopped, status_eq,
}
use model_deployer.Monitoring.{Floats, LogRow, count_if}
use model_deployer.Monitoring.Sorting.{length-Perm}
use model_deployer.Monitoring.Totals.{Counted, Rounded, compute_metrics-Counted}
use model_deployer.Monitoring.Views.{
  ready_health, redis_ok, runner_ok, insert_newest, newest_first, Tables, logs_of, with_status,
  Global, global_of, global_metrics,
}
use model_deployer.Monitoring.Dashboard.{
  LimitParam, absent, malformed, parsed, clamp_limit, recent_predictions,
}

redis_ok_iff : (ping : Option (Option String)) → (redis_ok ping ≡ true) ↔ (ping ≡ some (some "1"))
unfolding redis_ok
redis_ok_iff none = ground arith
redis_ok_iff (some none) = ground arith
redis_ok_iff (some (some value)) = ground (arith, eq_iff value "1")

runner_ok_iff : (reply : Option ℕ) → (runner_ok reply ≡ true) ↔ (reply ≡ some 200)
unfolding runner_ok
runner_ok_iff none = ground arith
runner_ok_iff (some code) = ground arith

-- The readiness probe answers 200 exactly where the database answers, the cache gives the ping back
-- and the runner's health is 200; whatever raises counts as down.
pub ready_health_iff :
    (db_ok : Bool) (ping : Option (Option String)) (reply : Option ℕ)
    → ((ready_health db_ok ping reply).code ≡ 200)
      ↔ ((db_ok ≡ true) × (ping ≡ some (some "1")) × (reply ≡ some 200))
unfolding ready_health
ready_health_iff db_ok ping reply = ground (arith, redis_ok_iff ping, runner_ok_iff reply)

-- Each row is at least as new as all that follow it.
module _ {ℓ} {A : Type ℓ} (created_at : A → ℕ) where
  abbrev pub Descending : List A → Type 0
  Descending [] = Unit
  Descending (x ∷ xs) = All (λ y. created_at y ≤ created_at x) xs × Descending xs

  insert_newest-Perm : (x : A) (xs : List A) → Perm (insert_newest created_at x xs) (x ∷ xs)
  unfolding insert_newest
  insert_newest-Perm x [] = Perm.rfl
  insert_newest-Perm x (y ∷ ys) = elim (Bool-cases (leb (created_at y) (created_at x))) [
    | inl q ↦ rw q Perm.rfl
    | inr q ↦ rw q (Perm.trans (Perm.cons y (insert_newest-Perm x ys)) (Perm.swap x y ys))
  ]

  newest_first-Perm : (xs : List A) → Perm (newest_first created_at xs) xs
  unfolding newest_first
  newest_first-Perm [] = Perm.rfl
  newest_first-Perm (x ∷ xs) =
      Perm.trans (insert_newest-Perm x (newest_first created_at xs))
        (Perm.cons x (newest_first-Perm xs))

  All-insert_newest :
      (P : A → Type 0) (x : A) (xs : List A)
      → P x
      → All P xs
      → All P (insert_newest created_at x xs)
  unfolding insert_newest
  All-insert_newest P x [] h k = (h, tt)
  All-insert_newest P x (y ∷ ys) h k = elim (Bool-cases (leb (created_at y) (created_at x))) [
    | inl q ↦ rw q (h, k)
    | inr q ↦ rw q (k.0, All-insert_newest P x ys h k.1)
  ]

  pub All-newest_first :
      (P : A → Type 0) (xs : List A) → All P xs → All P (newest_first created_at xs)
  unfolding newest_first
  All-newest_first P [] h = tt
  All-newest_first P (x ∷ xs) h = All-insert_newest P x _ h.0 (All-newest_first P xs h.1)

  All-older :
      {a b : ℕ} (xs : List A)
      → a ≤ b
      → All (λ y. created_at y ≤ a) xs
      → All (λ y. created_at y ≤ b) xs
  All-older [] h k = tt
  All-older (x ∷ xs) h k = (omega (arith, k.0), All-older xs h k.1)

  insert_newest-Descending :
      (x : A) (xs : List A) → Descending xs → Descending (insert_newest created_at x xs)
  unfolding insert_newest
  insert_newest-Descending x [] h = (tt, tt)
  insert_newest-Descending x (y ∷ ys) h = elim (Bool-cases (leb (created_at y) (created_at x))) [
    | inl q ↦ let le = leb→le (created_at y) (created_at x) q in rw q ((le, All-older ys le h.0), h)
    | inr q ↦ rw q (
      All-insert_newest (λ z. created_at z ≤ created_at y) x ys (ground arith) h.0,
      insert_newest-Descending x ys h.1,
    )
  ]

  pub newest_first-Descending : (xs : List A) → Descending (newest_first created_at xs)
  unfolding newest_first
  newest_first-Descending [] = tt
  newest_first-Descending (x ∷ xs) = insert_newest-Descending x _ (newest_first-Descending xs)

clamp_limit_bounds : (limit : LimitParam) → (1 ≤ clamp_limit limit) × (clamp_limit limit ≤ 50)
unfolding clamp_limit
clamp_limit_bounds absent = (omega arith, omega arith)
clamp_limit_bounds malformed = (omega arith, omega arith)
clamp_limit_bounds (parsed (pos n)) = (omega arith, omega arith)
clamp_limit_bounds (parsed (negsuc n)) = (omega arith, omega arith)

-- The rows shown are the user's and at most fifty; with the user's other rows behind them they are
-- all rows of the user, from the newest to the oldest.
pub record Newest (user : ℕ) (t : Tables) (shown : List LogRow) : Type 0 where
  pub rest : List LogRow
  pub all_rows : Perm (shown ++ rest) (logs_of user t)
  pub descending : Descending (λ log. log.created_at) (shown ++ rest)
  pub own : All (λ log. (log.user == user) ≡ true) shown
  pub at_most : length shown ≤ 50

-- Whatever limit is asked for, DashboardRecentPredictionsAPIView shows the newest of the user's own
-- rows, at most fifty: as many as the limit allows, which is never below one.
pub recent_predictions-Newest :
    (user : ℕ) (limit : LimitParam) (t : Tables)
    → Newest user t (recent_predictions user limit t)
      × (length (recent_predictions user limit t)
          ≡ min (clamp_limit limit) (length (logs_of user t)))
      × (1 ≤ clamp_limit limit)
unfolding recent_predictions
recent_predictions-Newest user limit t = (
  record {
    rest = drop n rows;
    all_rows = rw (take-append-drop n rows) (newest_first-Perm created (logs_of user t));
    descending = rw (take-append-drop n rows) (newest_first-Descending created (logs_of user t));
    own =
        All-take own n rows
          (All-newest_first created own _ (keep_if-All (λ log. log.user == user) t.logs));
    at_most = omega (arith, length-take-min n rows, clamp_limit_bounds limit);
  },
  length-take-min n rows ∙ ap (min n) (length-Perm (newest_first-Perm created (logs_of user t))),
  (clamp_limit_bounds limit).0,
)
  where
    n : ℕ
    n = clamp_limit limit

    created : LogRow → ℕ
    created log = log.created_at

    own : LogRow → Type 0
    own log = (log.user == user) ≡ true

    rows : List LogRow
    rows = newest_first created (logs_of user t)

one_status :
    (d : Deployment) (s : Status)
    → d.status ≡ s
    → (if status_eq s running then 1 else 0)
        + (if status_eq s building then 1 else 0)
        + (if status_eq s pending then 1 else 0)
        + (if status_eq s failed then 1 else 0)
        + (if status_eq s stopped then 1 else 0)
      ≡ 1
one_status d running e = refl
one_status d building e = refl
one_status d pending e = refl
one_status d failed e = refl
one_status d stopped e = refl

statuses_total :
    (ds : List Deployment)
    → with_status running ds
        + with_status building ds
        + with_status pending ds
        + with_status failed ds
        + with_status stopped ds
      ≡ length ds
unfolding count_if
statuses_total [] = omega arith
statuses_total (d ∷ ds) = omega (arith, statuses_total ds, one_status d d.status refl)

-- The staff's metrics always come; each deployment is in exactly one of their five counts, and the
-- telemetry counts the rows of all users, without a ratio above one. Of the arithmetic of floats it is
-- assumed that 95 per cent of a number is not above it, that a part is not above the whole, nor above
-- a hundred per cent of it.
pub global_metrics-Total :
    (fl : Floats) (t : Tables)
    → Rounded fl
    → (g : Global) × (global_metrics fl t ≡ some g)
      × (g.running + g.building + g.pending + g.failed + g.stopped ≡ length t.deployments)
      × Counted t.logs g.global_telemetry
unfolding global_metrics
global_metrics-Total fl t rounded =
    let (m, e, counted) = compute_metrics-Counted fl t.logs rounded in
    (global_of t m, rw e refl, statuses_total t.deployments, counted)
