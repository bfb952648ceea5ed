-- ===== src/Runner/Capacity.antt =====
-- The number of runtimes that the manager holds.
use model_deployer.Base.{
  ℕ, suc, ◌≤◌, ◌≡◌, refl, Bool, false, Option, none, some, [], ◌∷◌, arith, ◌==◌, leb, length,
  if◌then◌else◌, Bool-cases, Option-cases, inl, inr,
}
use model_deployer.Base.Dict.{Dict, lookup, insert, erase}
use model_deployer.Runner.{
  WarmRuntime, Start, spawn_failed, bad_frame, ready_frame, start, is_healthy, Manager,
  least_recent, stop_runtime, evict, add_runtime, create_runtime, get_or_create,
}

module _ {V : Type 0} where
  length-erase : (k : ℕ) (d : Dict V) → length (erase k d) ≤ length d
  unfolding erase
  length-erase k [] = omega arith
  length-erase k (e ∷ d) = ground (arith, length-erase k d)

  erase_shrinks :
      (k : ℕ) (v : V) (d : Dict V) → lookup k d ≡ some v → suc (length (erase k d)) ≤ length d
  unfolding erase lookup
  erase_shrinks k v [] e = cc
  erase_shrinks k v ((j, w) ∷ d) e = elim (Bool-cases (k == j)) [
    | inl same ↦ rw same (omega (arith, length-erase k d))
    | inr differ ↦ rw differ (omega (arith, erase_shrinks k v d (rw differ at e)))
  ]

  length-insert : (k : ℕ) (v : V) (d : Dict V) → length (insert k v d) ≤ suc (length d)
  unfolding insert
  length-insert k v [] = omega arith
  length-insert k v (e ∷ d) = ground (arith, length-insert k v d)

-- The least recently used runtime is one of the table, with its time, and no other was used before.
least_recent_lem :
    (d : Dict WarmRuntime) (k t : ℕ)
    → least_recent d ≡ some (k, t)
    → (rt : WarmRuntime) × (lookup k d ≡ some rt)
unfolding least_recent lookup
least_recent_lem [] k t e = cc
least_recent_lem ((j, x) ∷ d) k t e = elim (Bool-cases (k == j)) [
  | inl same ↦ (x, rw same refl)
  | inr differ ↦
      (let (rt, found) = least_recent_lem d k t (older (least_recent d) differ e) in
        (rt, rw differ found))
]
  where
    older :
        (o : Option (ℕ × ℕ))
        → (k == j) ≡ false
        → ◌≡◌ {A = Option (ℕ × ℕ)}
            (elim o [
              | none ↦ some (j, x.last_used_at)
              | some (i, u) ↦ if leb x.last_used_at u then some (j, x.last_used_at) else some (i, u)
            ])
            (some (k, t))
        → o ≡ some (k, t)
    older none differ e = absurd (ground arith)
    older (some (i, u)) differ e = ground arith

stop_runtime_shrinks :
    (id : ℕ) (m : Manager) (rt : WarmRuntime)
    → lookup id m.runtimes ≡ some rt
    → suc (length (stop_runtime id m).runtimes) ≤ length m.runtimes
unfolding stop_runtime
stop_runtime_shrinks id m rt found = rw (stop_runtime, found) (erase_shrinks id rt m.runtimes found)

max_models-stop_runtime : (id : ℕ) (m : Manager) → (stop_runtime id m).max_models ≡ m.max_models
unfolding stop_runtime
max_models-stop_runtime id m = ground arith

evict-room :
    (m m' : Manager)
    → 1 ≤ m.max_models
    → length m.runtimes ≤ m.max_models
    → evict m ≡ some m'
    → (suc (length m'.runtimes) ≤ m'.max_models) × (m'.max_models ≡ m.max_models)
unfolding evict
evict-room m m' some_room le e = elim (Bool-cases (leb m.max_models (length m.runtimes))) [
  | inl full ↦ (elim (Option-cases (least_recent m.runtimes)) [
    | inl empty ↦ absurd (ground arith)
    | inr ((lru, t), oldest) ↦
        (let (rt, found) = least_recent_lem m.runtimes lru t oldest in
          let same : stop_runtime lru m ≡ m' = ground arith in
          let less = stop_runtime_shrinks lru m rt found in
          rw (← same, max_models-stop_runtime) (omega arith, refl))
  ])
  | inr space ↦ (let same : m ≡ m' = ground arith in rw (← same) (ground arith, refl))
]

add_runtime_bound :
    (id now : ℕ) (o : Start) (m : Manager)
    → suc (length m.runtimes) ≤ m.max_models
    → length (add_runtime id now o m).1.runtimes ≤ m.max_models
unfolding add_runtime start
add_runtime_bound id now spawn_failed m le = omega arith
add_runtime_bound id now bad_frame m le = omega arith
add_runtime_bound id now ready_frame m le = omega (arith, length-insert id _ m.runtimes)

create_runtime_bound :
    (id now : ℕ) (o : Start) (m : Manager)
    → 1 ≤ m.max_models
    → length m.runtimes ≤ m.max_models
    → length (create_runtime id now o m).1.runtimes ≤ m.max_models
unfolding create_runtime
create_runtime_bound id now o m room le = elim (Option-cases (evict m)) [
  | inl stuck ↦ rw (create_runtime, stuck) le
  | inr (m', e) ↦
      (let (fits, same) = evict-room m m' room le e in
        rw (create_runtime, e, ← same) (add_runtime_bound id now o m' fits))
]

-- Where at least one warm model is allowed and no more than allowed are held, `get_or_create` keeps
-- the number of runtimes within `max_models`, whether it finds, replaces, evicts or fails.
pub get_or_create_bound :
    (alive : ℕ → Bool) (id now : ℕ) (o : Start) (m : Manager)
    → 1 ≤ m.max_models
    → length m.runtimes ≤ m.max_models
    → length (get_or_create alive id now o m).1.runtimes ≤ m.max_models
unfolding get_or_create
get_or_create_bound alive id now o m room le = elim (Option-cases (lookup id m.runtimes)) [
  | inl absent ↦ rw (get_or_create, absent) (create_runtime_bound id now o m room le)
  | inr (rt, found) ↦ elim (Bool-cases (is_healthy alive rt)) [
    | inl well ↦ rw (get_or_create, found, well) le
    | inr ill ↦
        (let less = stop_runtime_shrinks id m rt found in
          let same = max_models-stop_runtime id m in
          let bound =
            create_runtime_bound id now o (stop_runtime id m) (omega arith) (omega arith) in
          rw (get_or_create, found, ill) (omega arith))
  ]
]
