-- ===== src/Gateway/Flight/Threads.antt =====
-- prediction_gateway/singleflight.py and views.py: the requests of one key that one gateway process
-- serves at a time. A step is what one request does between two points at which others can come in.
-- The lock is the key's `threading.Lock`, which each process has of its own (gunicorn.conf.py starts
-- two workers or more, and each can have a leader for the key); of the cache it counts whether it
-- holds the key, which here only the requests of this process can bring about.
use model_deployer.Base.{
  ℕ, ◌+◌, Bool, true, false, Option, none, some, List, [], ◌∷◌, ◌==◌, if◌then◌else◌,
}

-- Where a request is. `releasing` and `testing` are in the lock, as are `checking` and `leading`:
-- before the release in `finally`, with whether there is an answer to store, and between the
-- waiter's `acquire` and `release`. A request that is `waiting` looks into the cache next, and one that
-- has `polled` in vain tries the lock. `storing` is the caller's `cache.set`, after `execute`.
pub data Phase : Type 0 where
  looking trying checking leading : Phase
  releasing : Bool → Phase
  waiting polled testing direct storing done : Phase

pub record Flight : Type 0 where
  pub phases : ℕ → Phase
  pub lock : Option ℕ
  pub cached : Bool
  pub calls : ℕ

abbrev pub move : ℕ → Phase → Flight → Flight
move i phase w = record w { phases = λ j. if j == i then phase else w.phases j }

-- The lock is taken, or released, as the request moves.
abbrev pub acquire : ℕ → Phase → Flight → Flight
acquire i phase w = record (move i phase w) { lock = some i }

abbrev pub leave : ℕ → Phase → Flight → Flight
leave i phase w = record (move i phase w) { lock = none }

-- One step of a request. Two things are open: whether the deadline has passed when a waiter that has
-- polled tests it, and whether the call of the runner gives an answer to store.
unfoldable pub step_at : Phase → Bool → Bool → ℕ → Flight → Flight
step_at looking late answered i w = move i (if w.cached then done else trying) w
step_at trying late answered i w = elim w.lock [
  | none ↦ acquire i checking w
  | some holder ↦ move i waiting w
]
step_at checking late answered i w = move i (if w.cached then releasing false else leading) w
step_at leading late answered i w = record (move i (releasing answered) w) { calls = w.calls + 1 }
step_at (releasing stored) late answered i w = leave i (if stored then storing else done) w
step_at waiting late answered i w = move i (if w.cached then done else polled) w
step_at polled late answered i w = elim w.lock [
  | none ↦ acquire i testing w
  | some holder ↦ move i (if late then direct else waiting) w
]
step_at testing late answered i w = leave i direct w
step_at direct late answered i w = record (move i (if answered then storing else done) w) {
  calls = w.calls + 1;
}
step_at storing late answered i w = record (move i done w) { cached = true }
step_at done late answered i w = w

abbrev pub step : Bool → Bool → ℕ → Flight → Flight
step late answered i w = step_at (w.phases i) late answered i w

-- A schedule says who steps, in order, and what is open then.
unfoldable pub run : List (Bool × Bool × ℕ) → Flight → Flight
run [] w = w
run ((late, answered, i) ∷ schedule) w = run schedule (step late answered i w)

abbrev pub no_flight : Flight
no_flight = record { phases = λ i. looking; lock = none; cached = false; calls = 0 }
