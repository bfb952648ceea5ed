-- ===== src/Runner/Leaks.antt =====
-- The number of warm runtimes, and that no child process is left behind.
use model_deployer.Base.{
  ℕ, ◌≡◌, ◌≢◌, refl, sym, ◌∙◌, ap, Bool, true, false, Option, none, some, List, [], ◌∷◌, arith,
  ◌==◌, not, leb, length, keep_if, any_of, Bool-cases, Option-cases, inl, inr, ◌⊎◌,
}
use mathlib.Core.Option.{none-ne-some, some-injective}
use model_deployer.Base.Dict.{lookup, erase, lookup-insert_self, lookup-insert_ne, lookup-erase}
use model_deployer.Runner.{
  WarmRuntime, Host, Start, spawn_failed, bad_frame, ready_frame, kill, spawn, start, is_healthy,
  Manager, least_recent, stop_runtime, evict, add_runtime, create_runtime, get_or_create,
}

abbrev pub is_running : ℕ → List ℕ → Bool
is_running pid l = any_of (λ p. pid == p) l

-- Every running process is the process of a runtime that the manager holds.
abbrev pub Held : Manager → Type 0
Held m =
    (pid : ℕ)
    → is_running pid m.host.running ≡ true
    → (k : ℕ) × (rt : WarmRuntime) × (lookup k m.runtimes ≡ some rt) × (rt.proc ≡ some pid)

is_running-keep_if :
    (pid p : ℕ) (l : List ℕ)
    → is_running pid (keep_if (λ q. not (q == p)) l) ≡ true
    → (is_running pid l ≡ true) × (pid ≢ p)
is_running-keep_if pid p [] h = cc
is_running-keep_if pid p (q ∷ l) h = ground (arith, is_running-keep_if pid p l)

pub is_running-kill :
    (pid : ℕ) (proc : Option ℕ) (h : Host)
    → is_running pid (kill proc h).running ≡ true
    → (is_running pid h.running ≡ true) × (proc ≢ some pid)
is_running-kill pid none h r = (r, λ e. cc)
is_running-kill pid (some p) h r =
    let (a, ne) = is_running-keep_if pid p h.running r in (a, λ e. ground arith)

pub stop_runtime-Held : (id : ℕ) (m : Manager) → Held m → Held (stop_runtime id m)
unfolding stop_runtime
stop_runtime-Held id m held = go (lookup id m.runtimes) refl
  where
    clash :
        (k : ℕ) (pid : ℕ) (rt rt' : WarmRuntime)
        → lookup id m.runtimes ≡ some rt
        → lookup k m.runtimes ≡ some rt'
        → rt'.proc ≡ some pid
        → rt.proc ≢ some pid
        → (k == id) ≡ false
    clash k pid rt rt' l found proc other = elim (Bool-cases (k == id)) [
      | inl same ↦
          (let e : k ≡ id = ground arith in
            let x : rt ≡ rt' = some-injective _ _ (sym l ∙ rw (← e) found) in
            absurd (other (ap (λ (y : WarmRuntime). y.proc) x ∙ proc)))
      | inr ne ↦ ne
    ]

    go :
        (o : Option WarmRuntime)
        → lookup id m.runtimes ≡ o
        → Held (elim o [
          | none ↦ m
          | some rt ↦ record m { runtimes = erase id m.runtimes; host = kill rt.proc m.host }
        ])
    go none l = held
    go (some rt) l = λ pid r.
        let (running, other) = is_running-kill pid rt.proc m.host r in
        let (k, rt', found, proc) = held pid running in
        (k, rt', rw (lookup-erase, clash k pid rt rt' l found proc other) found, proc)

lookup-stop_runtime :
    (j id : ℕ) (m : Manager)
    → lookup j m.runtimes ≡ none
    → lookup j (stop_runtime id m).runtimes ≡ none
unfolding stop_runtime
lookup-stop_runtime j id m l = ground (arith, lookup-erase j id m.runtimes)

stop_runtime_gone : (id : ℕ) (m : Manager) → lookup id (stop_runtime id m).runtimes ≡ none
unfolding stop_runtime
stop_runtime_gone id m = ground (arith, lookup-erase id id m.runtimes)

evict-Held :
    (id : ℕ) (m m' : Manager)
    → Held m
    → lookup id m.runtimes ≡ none
    → evict m ≡ some m'
    → Held m' × (lookup id m'.runtimes ≡ none)
unfolding evict
evict-Held id m m' held l e = elim (Bool-cases (leb m.max_models (length m.runtimes))) [
  | inl full ↦ (elim (Option-cases (least_recent m.runtimes)) [
    | inl empty ↦ absurd (ground arith)
    | inr ((lru, t), found) ↦
        (let same : stop_runtime lru m ≡ m' = ground arith in
          rw (← same) (stop_runtime-Held lru m held, lookup-stop_runtime id lru m l))
  ])
  | inr space ↦ (let same : m ≡ m' = ground arith in rw (← same) (held, l))
]

-- A process that is killed right after its start leaves the others.
pub is_running-spawn :
    (pid p : ℕ) (h : Host)
    → is_running pid (spawn p h).running ≡ true
    → (pid ≡ p) ⊎ (is_running pid h.running ≡ true)
is_running-spawn pid p h r = ground arith

add_runtime-Held :
    (id now : ℕ) (o : Start) (m : Manager)
    → Held m
    → lookup id m.runtimes ≡ none
    → Held (add_runtime id now o m).1
unfolding add_runtime start
add_runtime-Held id now spawn_failed m held l = held
add_runtime-Held id now bad_frame m held l = λ pid r.
    let (r', ne) = is_running-kill pid (some m.host.next_pid) (spawn m.host.next_pid m.host) r in
    elim (is_running-spawn pid m.host.next_pid m.host r') [
      | inl new ↦ absurd (ne (ap some (sym new)))
      | inr old ↦ held pid old
    ]
add_runtime-Held id now ready_frame m held l = λ pid r.
    elim (is_running-spawn pid m.host.next_pid m.host r) [
      | inl new ↦ (id, _, lookup-insert_self id _ m.runtimes, ap some (sym new))
      | inr old ↦
          (let (k, rt, found, proc) = held pid old in
            let ne : k ≢ id =
              λ e. none-ne-some _ (sym l ∙ ap (λ j. lookup j m.runtimes) (sym e) ∙ found) in
            (k, rt, lookup-insert_ne k id _ m.runtimes ne ∙ found, proc))
    ]

create_runtime-Held :
    (id now : ℕ) (o : Start) (m : Manager)
    → Held m
    → lookup id m.runtimes ≡ none
    → Held (create_runtime id now o m).1
unfolding create_runtime
create_runtime-Held id now o m held l = elim (Option-cases (evict m)) [
  | inl bad ↦ rw (create_runtime, bad) held
  | inr (m', e) ↦
      (let (held', l') = evict-Held id m m' held l e in
        rw (create_runtime, e) (add_runtime-Held id now o m' held' l'))
]

pub get_or_create-Held :
    (alive : ℕ → Bool) (id now : ℕ) (o : Start) (m : Manager)
    → Held m
    → Held (get_or_create alive id now o m).1
unfolding get_or_create
get_or_create-Held alive id now o m held = elim (Option-cases (lookup id m.runtimes)) [
  | inl absent ↦ rw (get_or_create, absent) (create_runtime-Held id now o m held absent)
  | inr (rt, found) ↦ elim (Bool-cases (is_healthy alive rt)) [
    | inl well ↦ rw (get_or_create, found, well) held
    | inr ill ↦
        rw (get_or_create, found, ill)
          (create_runtime-Held id now o (stop_runtime id m) (stop_runtime-Held id m held)
            (stop_runtime_gone id m))
  ]
]
