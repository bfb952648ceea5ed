-- ===== src/Runner.antt =====
-- runners/worker.py, the warm runtimes: one child process for each model that is kept warm.
--
-- Models and processes are numbered. `alive` says whether `proc.poll()` is `None`. `stop` ends the
-- process that it finds (its own failures are swallowed, and it kills what does not end), so a
-- process is counted as running from its start to its `stop`.
pub mod Pipes
pub mod Commands
pub mod Replies
pub mod Access
pub mod InitModel
pub mod PredictModel
pub mod Leaks
pub mod Downloads
pub mod Capacity
pub mod Runs
use model_deployer.Base.{
  ℕ, ◌+◌, Bool, true, false, Option, none, some, List, [], ◌∷◌, ◌==◌, ◌&&◌, not, leb, ltb, length,
  keep_if, if◌then◌else◌,
}
use model_deployer.Base.Dict.{Dict, lookup, insert, erase}

pub data WarmRuntimeState : Type 0 where
  starting ready unhealthy stopping stopped : WarmRuntimeState

abbrev pub is_ready : WarmRuntimeState → Bool
is_ready ready = true
is_ready _ = false

pub record WarmRuntime : Type 0 where
  pub model_id : ℕ
  pub state : WarmRuntimeState
  pub proc : Option ℕ
  pub last_used_at : ℕ
  pub restart_count : ℕ

-- The processes that were started and not stopped, and the next number.
pub record Host : Type 0 where
  pub running : List ℕ
  pub next_pid : ℕ

abbrev pub new_runtime : ℕ → ℕ → WarmRuntime
new_runtime id now = record {
  model_id = id;
  state = starting;
  proc = none;
  last_used_at = now;
  restart_count = 0;
}

-- `WarmRuntime.stop`
abbrev pub kill : Option ℕ → Host → Host
kill none h = h
kill (some pid) h = record h { running = keep_if (λ p. not (p == pid)) h.running }

abbrev pub stop_runtime_of : WarmRuntime → WarmRuntime
stop_runtime_of rt = record rt { proc = none; state = stopped }

-- How a start ends: `Popen` raises, or no valid readiness frame comes in time, or one comes.
pub data Start : Type 0 where
  spawn_failed bad_frame ready_frame : Start

abbrev pub spawn : ℕ → Host → Host
spawn pid h = record { running = pid ∷ h.running; next_pid = pid + 1 }

-- `WarmRuntime.start`; `false` is the exception, after the runtime has been stopped.
unfoldable pub start : ℕ → Start → WarmRuntime → Host → Bool × WarmRuntime × Host
start now spawn_failed rt h = (false, stop_runtime_of rt, kill rt.proc h)
start now bad_frame rt h = (false, stop_runtime_of rt, kill (some h.next_pid) (spawn h.next_pid h))
start now ready_frame rt h = (
  true,
  record rt { state = ready; proc = some h.next_pid; last_used_at = now },
  spawn h.next_pid h,
)

-- `state == READY and proc is not None and proc.poll() is None`
unfoldable pub is_healthy : (ℕ → Bool) → WarmRuntime → Bool
is_healthy alive rt = elim rt.proc [ none ↦ false | some pid ↦ is_ready rt.state && alive pid ]

module _ {D : Type 0} where
  -- The exchange over the pipes: the result, or `none` for an exception (an error reply, a time-out
  -- and an output over the limit among them), which stops the runtime.
  unfoldable pub exchange : Option D → WarmRuntime → Host → Option D × WarmRuntime × Host
  exchange (some result) rt h = (some result, rt, h)
  exchange none rt h = (none, stop_runtime_of rt, kill rt.proc h)

  -- `WarmRuntime.predict`
  unfoldable pub predict :
      (ℕ → Bool) → ℕ → Start → Option D → WarmRuntime → Host → Option D × WarmRuntime × Host
  predict alive now o result rt h =
      let used = record rt { last_used_at = now } in
      if is_healthy alive used
      then exchange result used h
      else if ltb rt.restart_count 3
      then (let (ok, rt', h') =
            start now o (stop_runtime_of (record used { restart_count = rt.restart_count + 1 }))
              (kill rt.proc h) in
          if ok then exchange result rt' h' else (none, rt', h'))
      else (none, record used { state = unhealthy }, h)

-- `WarmRuntimeManager`: its runtimes in the order of their insertion, and the host's processes.
pub record Manager : Type 0 where
  pub max_models : ℕ
  pub runtimes : Dict WarmRuntime
  pub host : Host

-- `min(runtimes, key=last_used_at)`, with the time: the first of the least recently used.
unfoldable pub least_recent : Dict WarmRuntime → Option (ℕ × ℕ)
least_recent [] = none
least_recent ((k, rt) ∷ d) = elim (least_recent d) [
  | none ↦ some (k, rt.last_used_at)
  | some (j, t) ↦ if leb rt.last_used_at t then some (k, rt.last_used_at) else some (j, t)
]

-- `stop_runtime`, and the two other places that stop a runtime and delete it.
unfoldable pub stop_runtime : ℕ → Manager → Manager
stop_runtime id m = elim (lookup id m.runtimes) [
  | none ↦ m
  | some rt ↦ record m { runtimes = erase id m.runtimes; host = kill rt.proc m.host }
]

-- The eviction; `none` is the `ValueError` of `min` on no runtimes.
unfoldable pub evict : Manager → Option Manager
evict m =
    if leb m.max_models (length m.runtimes)
    then elim (least_recent m.runtimes) [
      | none ↦ none
      | some (lru_id, t) ↦ some (stop_runtime lru_id m)
    ]
    else some m

-- The start of a new runtime, which is kept if it comes up.
unfoldable pub add_runtime : ℕ → ℕ → Start → Manager → Option WarmRuntime × Manager
add_runtime id now o m =
    let (ok, rt, h) = start now o (new_runtime id now) m.host in
    if ok
    then (some rt, record m { runtimes = insert id rt m.runtimes; host = h })
    else (none, record m { host = h })

unfoldable pub create_runtime : ℕ → ℕ → Start → Manager → Option WarmRuntime × Manager
create_runtime id now o m = elim (evict m) [ none ↦ (none, m) | some m' ↦ add_runtime id now o m' ]

-- `get_or_create`: the runtime, or `none` for an exception.
unfoldable pub get_or_create : (ℕ → Bool) → ℕ → ℕ → Start → Manager → Option WarmRuntime × Manager
get_or_create alive id now o m = elim (lookup id m.runtimes) [
  | none ↦ create_runtime id now o m
  | some rt ↦
      if is_healthy alive rt then (some rt, m) else create_runtime id now o (stop_runtime id m)
]

-- `clear`
abbrev pub kill_all : Dict WarmRuntime → Host → Host
kill_all [] h = h
kill_all ((k, rt) ∷ d) h = kill_all d (kill rt.proc h)

unfoldable pub clear : Manager → Manager
clear m = record m { runtimes = []; host = kill_all m.runtimes m.host }
