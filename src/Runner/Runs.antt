-- ===== src/Runner/Runs.antt =====
-- Runs of the warm-runtime manager, with the predictions of the runtimes that it holds, and a
-- prediction by a runtime that it does not hold any more.
use model_deployer.Base.{
  ℕ, ◌+◌, ◌≡◌, ◌≢◌, refl, sym, ◌∙◌, ap, Bool, true, Option, none, some, [], ◌∷◌, arith, ◌==◌, ltb,
  Bool-cases, inl, inr, ◌⊎◌, ==_refl,
}
use mathlib.Core.Option.{none-ne-some, some-injective}
use model_deployer.Base.Dict.{Dict, lookup, insert, lookup-insert_self, lookup-insert_ne}
use model_deployer.Runner.{
  WarmRuntime, Host, Start, spawn_failed, bad_frame, ready_frame, kill, spawn, start, is_healthy,
  exchange, predict, Manager, stop_runtime, stop_runtime_of, get_or_create, clear, kill_all,
}
use model_deployer.Runner.Leaks.{
  is_running, Held, is_running-kill, is_running-spawn, stop_runtime-Held, get_or_create-Held,
}

-- A running process after a change of one runtime is this runtime's, or was running before and was
-- not this runtime's.
abbrev Owned : WarmRuntime → Host → WarmRuntime → Host → Type 0
Owned rt h rt' h' =
    (pid : ℕ)
    → is_running pid h'.running ≡ true
    → (rt'.proc ≡ some pid) ⊎ ((is_running pid h.running ≡ true) × (rt.proc ≢ some pid))

holds : (proc : Option ℕ) (pid : ℕ) → (proc ≡ some pid) ⊎ (proc ≢ some pid)
holds none pid = inr (λ e. none-ne-some _ e)
holds (some p) pid = elim (Bool-cases (p == pid)) [
  | inl same ↦ inl (ap some (ground arith))
  | inr differ ↦ inr (λ e. ground arith)
]

same-Owned : (rt : WarmRuntime) (h : Host) → Owned rt h rt h
same-Owned rt h pid r = elim (holds rt.proc pid) [ inl own ↦ inl own | inr other ↦ inr (r, other) ]

kill-Owned : (rt : WarmRuntime) (h : Host) → Owned rt h (stop_runtime_of rt) (kill rt.proc h)
kill-Owned rt h pid r = inr (is_running-kill pid rt.proc h r)

Owned-trans :
    (rt rt1 rt2 : WarmRuntime) (h h1 h2 : Host)
    → Owned rt h rt1 h1
    → Owned rt1 h1 rt2 h2
    → Owned rt h rt2 h2
Owned-trans rt rt1 rt2 h h1 h2 f g pid r = elim (g pid r) [
  | inl own ↦ inl own
  | inr (r1, other) ↦ elim (f pid r1) [ inl own ↦ absurd (other own) | inr old ↦ inr old ]
]

start-Owned :
    (now : ℕ) (o : Start) (rt : WarmRuntime) (h : Host)
    → (rt.proc ≡ none)
    → Owned rt h (start now o rt h).1 (start now o rt h).2
unfolding start
start-Owned now spawn_failed rt h idle = kill-Owned rt h
start-Owned now bad_frame rt h idle = λ pid r.
    let (r', ne) = is_running-kill pid (some h.next_pid) (spawn h.next_pid h) r in
    elim (is_running-spawn pid h.next_pid h r') [
      | inl new ↦ absurd (ne (ap some (sym new)))
      | inr old ↦ inr (old, λ e. none-ne-some _ (sym idle ∙ e))
    ]
start-Owned now ready_frame rt h idle = λ pid r. elim (is_running-spawn pid h.next_pid h r) [
  | inl new ↦ inl (ap some (sym new))
  | inr old ↦ inr (old, λ e. none-ne-some _ (sym idle ∙ e))
]

module _ {D : Type 0} where
  exchange-Owned :
      (result : Option D) (rt : WarmRuntime) (h : Host)
      → Owned rt h (exchange result rt h).1 (exchange result rt h).2
  unfolding exchange
  exchange-Owned (some x) rt h = same-Owned rt h
  exchange-Owned none rt h = kill-Owned rt h

  predict-Owned :
      (alive : ℕ → Bool) (now : ℕ) (o : Start) (result : Option D) (rt : WarmRuntime) (h : Host)
      → Owned rt h (predict alive now o result rt h).1 (predict alive now o result rt h).2
  unfolding predict
  predict-Owned alive now o result rt h =
      let used : WarmRuntime = record rt { last_used_at = now } in
      let idle : WarmRuntime =
        stop_runtime_of (record used { restart_count = rt.restart_count + 1 }) in
      let h1 = kill rt.proc h in
      let rt1 = (start now o idle h1).1 in
      let h2 = (start now o idle h1).2 in
      let started : Owned rt h (start now o idle h1).1 (start now o idle h1).2 =
        Owned-trans rt idle (start now o idle h1).1 h h1 (start now o idle h1).2 (kill-Owned rt h)
          (start-Owned now o idle h1 refl) in
      elim (Bool-cases (is_healthy alive used)) [
        | inl well ↦ rw (predict, well) (exchange-Owned result used h)
        | inr ill ↦ elim (Bool-cases (ltb rt.restart_count 3)) [
          | inr over ↦ rw (predict, ill, over) (same-Owned rt h)
          | inl again ↦ elim (Bool-cases (start now o idle h1).0) [
            | inr failed ↦ rw (predict, ill, again, failed) started
            | inl up ↦
                rw (predict, ill, again, up)
                  (Owned-trans rt rt1 (exchange result rt1 h2).1 h h2 (exchange result rt1 h2).2
                    started (exchange-Owned result rt1 h2))
          ]
        ]
      ]

-- A change of a runtime in its place.
changed-Held :
    (id : ℕ) (rt rt' : WarmRuntime) (h' : Host) (m : Manager)
    → Held m
    → lookup id m.runtimes ≡ some rt
    → Owned rt m.host rt' h'
    → Held (record m { runtimes = insert id rt' m.runtimes; host = h' })
changed-Held id rt rt' h' m held l own pid r = elim (own pid r) [
  | inl mine ↦ (id, rt', lookup-insert_self id rt' m.runtimes, mine)
  | inr (old, other) ↦
      (let (k, x, found, proc) = held pid old in
        let ne : k ≢ id = λ e. other (
          ap (λ (y : WarmRuntime). y.proc)
            (some-injective _ _ (sym l ∙ ap (λ j. lookup j m.runtimes) (sym e) ∙ found))
          ∙ proc) in
        (k, x, lookup-insert_ne k id rt' m.runtimes ne ∙ found, proc))
]

kill_all_running :
    (pid : ℕ) (d : Dict WarmRuntime) (h : Host)
    → is_running pid (kill_all d h).running ≡ true
    → (is_running pid h.running ≡ true)
      × ((k : ℕ) (rt : WarmRuntime) → lookup k d ≡ some rt → rt.proc ≢ some pid)
unfolding lookup
kill_all_running pid [] h r = (r, λ k rt l e. none-ne-some _ l)
kill_all_running pid ((j, x) ∷ d) h r =
    let (r1, rest) = kill_all_running pid d (kill x.proc h) r in
    let (r2, other) = is_running-kill pid x.proc h r1 in
    (
      r2,
      λ k rt l. elim (Bool-cases (k == j)) [
        | inl same ↦ (let e : x ≡ rt = some-injective _ _ (rw same at l) in rw (← e) other)
        | inr differ ↦ rest k rt (rw differ at l)
      ],
    )

clear_stops : (m : Manager) (pid : ℕ) → Held m → is_running pid (clear m).host.running ≢ true
unfolding clear
clear_stops m pid held r =
    let (old, none_of) = kill_all_running pid m.runtimes m.host r in
    let (k, rt, found, proc) = held pid old in none_of k rt found proc

-- What the handlers do to the manager, at any time and whatever the processes do.
pub data Step (D : Type 0) (m m' : Manager) : Type 0 where
  got :
      (alive : ℕ → Bool) (id now : ℕ) (o : Start)
      → m' ≡ (get_or_create alive id now o m).1
      → Step D m m'
  predicted :
      (alive : ℕ → Bool) (id now : ℕ) (o : Start) (result : Option D) (rt : WarmRuntime)
      → lookup id m.runtimes ≡ some rt
      → m' ≡ record m {
        runtimes = insert id (predict alive now o result rt m.host).1 m.runtimes;
        host = (predict alive now o result rt m.host).2;
      }
      → Step D m m'
  torn_down : (id : ℕ) → m' ≡ stop_runtime id m → Step D m m'
  cleared : m' ≡ clear m → Step D m m'

pub data Reach (D : Type 0) (m : Manager) : Manager → Type 0 where
  here : Reach D m m
  next : {m' m'' : Manager} → Reach D m m' → Step D m' m'' → Reach D m m''

Step-Held : {D : Type 0} (m m' : Manager) → Step D m m' → Held m → Held m'
Step-Held m m' (got alive id now o e) held = rw e (get_or_create-Held alive id now o m held)
Step-Held m m' (predicted alive id now o result rt l e) held = rw e (
    changed-Held id rt (predict alive now o result rt m.host).1
      (predict alive now o result rt m.host).2 m held l
      (predict-Owned alive now o result rt m.host))
Step-Held m m' (torn_down id e) held = rw e (stop_runtime-Held id m held)
Step-Held m m' (cleared e) held = rw e (λ pid r. absurd (clear_stops m pid held r))

abbrev pub idle_manager : ℕ → Manager
idle_manager max_models = record {
  max_models = max_models;
  runtimes = [];
  host = record { running = []; next_pid = 0 };
}

Reach-Held :
    {D : Type 0} (max_models : ℕ) (m : Manager) → Reach D (idle_manager max_models) m → Held m
Reach-Held max_models m here = λ pid r. cc
Reach-Held max_models m (next r s) = Step-Held _ m s (Reach-Held max_models _ r)

-- After any sequence of requests for runtimes, of predictions by runtimes that the manager holds, of
-- teardowns and of clears from an idle manager, every child process that was started and not
-- stopped belongs to a runtime that the manager holds; a `clear` then leaves none running.
pub Reach-clear :
    {D : Type 0} (max_models : ℕ) (m : Manager)
    → Reach D (idle_manager max_models) m
    → Held m × ((pid : ℕ) → is_running pid (clear m).host.running ≢ true)
Reach-clear max_models m r =
    (Reach-Held max_models m r, λ pid. clear_stops m pid (Reach-Held max_models m r))

-- A prediction by a runtime that has been stopped and deleted meanwhile, for an eviction or a
-- teardown, starts its process again, with fewer than three restarts behind it: where the process
-- comes up and answers, it is running and no runtime of the manager has it.
pub predict_revives :
    {D : Type 0} (alive : ℕ → Bool) (now : ℕ) (x : D) (rt : WarmRuntime) (m : Manager)
    → ltb rt.restart_count 3 ≡ true
    → ((k : ℕ) (other : WarmRuntime)
        → lookup k m.runtimes ≡ some other
        → other.proc ≢ some m.host.next_pid)
    → let (answer, rt', h') = predict alive now ready_frame (some x) (stop_runtime_of rt) m.host in
      (answer ≡ some x)
      × (is_running m.host.next_pid h'.running ≡ true)
      × ¬ Held (record m { host = h' })
unfolding predict start exchange is_healthy
predict_revives alive now x rt m few fresh = rw few (
  refl,
  rw (==_refl m.host.next_pid) refl,
  λ held.
      let (k, other, found, proc) = held m.host.next_pid (rw (==_refl m.host.next_pid) refl) in
      fresh k other found proc,
)
