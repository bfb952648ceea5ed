-- ===== src/Tests/Runtimes.antt =====
-- Runs of the warm-runtime manager: model 7 is warmed on an idle runner of five places.
use mathlib.Core.Option.{none-ne-some}
use model_deployer.Base.{ℕ, ◌≤◌, ◌≡◌, ◌≢◌, refl, true, some, length, arith}
use model_deployer.Base.Dict.{lookup, insert}
use model_deployer.Runner.{
  WarmRuntime, ready_frame, Manager, get_or_create, create_runtime, evict, add_runtime, start,
  clear,
}
use model_deployer.Runner.Capacity.{get_or_create_bound}
use model_deployer.Runner.Leaks.{is_running, Held}
use model_deployer.Runner.Runs.{got, here, next, idle_manager, Reach-clear}

abbrev warm : Manager
warm = (get_or_create (λ p. true) 7 1 ready_frame (idle_manager 5)).1

Reach-clear_example : Held warm × ((pid : ℕ) → is_running pid (clear warm).host.running ≢ true)
Reach-clear_example = Reach-clear {D = ℕ} 5 warm (next here (got (λ p. true) 7 1 ready_frame refl))

no_runtime :
    (k : ℕ) (other : WarmRuntime)
    → lookup k (idle_manager 5).runtimes ≡ some other
    → other.proc ≢ some 0
unfolding lookup
no_runtime k other l e = none-ne-some _ l

-- One place, which model 7 has; model 8 takes it.
abbrev full : Manager
full = (get_or_create (λ p. true) 7 1 ready_frame (idle_manager 1)).1

get_or_create_bound_example : length (get_or_create (λ p. true) 8 2 ready_frame full).1.runtimes ≤ 1
unfolding get_or_create create_runtime evict add_runtime start lookup insert
get_or_create_bound_example =
    get_or_create_bound (λ p. true) 8 2 ready_frame full (omega arith) (omega arith)
