-- ===== src/Runner/Commands.antt =====
-- runners/worker.py, `_run_bounded`: the loop that feeds a command and collects its output. The clock,
-- the process group and the decoding of the output to text are not modelled.
pub mod Output
use model_deployer.Base.{
  ℕ, ◌+◌, min, Bool, true, false, Option, none, some, List, [], ◌∷◌, ◌++◌, ltb, length, drop,
  if◌then◌else◌,
}
use model_deployer.Runner.Pipes.{Bytes}

-- The bytes of "\n<output truncated by runner cap>\n".
abbrev pub truncation_marker : Bytes
truncation_marker =
    10 ∷ 60 ∷ 111 ∷ 117 ∷ 116 ∷ 112 ∷ 117 ∷ 116 ∷ 32 ∷ 116 ∷ 114 ∷ 117 ∷ 110 ∷ 99 ∷ 97 ∷ 116 ∷ 101
    ∷ 100 ∷ 32 ∷ 98 ∷ 121 ∷ 32 ∷ 114 ∷ 117 ∷ 110 ∷ 110 ∷ 101 ∷ 114 ∷ 32 ∷ 99 ∷ 97 ∷ 112 ∷ 62 ∷ 10
    ∷ []

-- `stdout_chunks` and `stdout_bytes`, or the same of the standard error.
pub record Capture : Type 0 where
  pub chunks : List Bytes
  pub count : ℕ

-- A read of one stream; no bytes where the stream is not ready, has failed or has ended.
unfoldable pub keep_raw : ℕ → Bytes → Capture → Capture
keep_raw max_output_bytes [] c = c
keep_raw max_output_bytes (b ∷ bs) c =
    if ltb max_output_bytes (c.count + length (b ∷ bs))
    then record { chunks = c.chunks ++ truncation_marker ∷ []; count = max_output_bytes }
    else record { chunks = c.chunks ++ (b ∷ bs) ∷ []; count = c.count + length (b ∷ bs) }

-- What `os.write` does in one turn: the pipe is not writable or would block, it takes bytes, or the
-- child has closed it.
pub data Write : Type 0 where
  blocked : Write
  sent : ℕ → Write
  broken : Write

-- One turn of the loop, in which `proc.poll()` comes last.
pub record Turn : Type 0 where
  pub write : Write
  pub stdout : Bytes
  pub stderr : Bytes
  pub exited : Bool

pub record Command : Type 0 where
  pub stdin_open : Bool
  pub pending_input : Bytes
  pub stdout : Capture
  pub stderr : Capture

-- An input of `none` gives the child no pipe; the pipe of an empty input is closed at once.
abbrev pub start_command : Option Bytes → Command
start_command none = record {
  stdin_open = false;
  pending_input = [];
  stdout = record { chunks = []; count = 0 };
  stderr = record { chunks = []; count = 0 };
}
start_command (some input_bytes) = record {
  stdin_open = ltb 0 (length input_bytes);
  pending_input = input_bytes;
  stdout = record { chunks = []; count = 0 };
  stderr = record { chunks = []; count = 0 };
}

-- The input after a write of at most 65536 bytes.
abbrev pub feed : Write → Bytes → Bytes
feed Write.blocked pending = pending
feed (Write.sent n) pending = drop (min n 65536) pending
feed Write.broken pending = []

unfoldable pub run_turn : ℕ → Turn → Command → Command
run_turn max_output_bytes turn c =
    let pending = if c.stdin_open then feed turn.write c.pending_input else c.pending_input in
    record {
      stdin_open = if c.stdin_open then ltb 0 (length pending) else false;
      pending_input = pending;
      stdout = keep_raw max_output_bytes turn.stdout c.stdout;
      stderr = keep_raw max_output_bytes turn.stderr c.stderr;
    }

-- The loop, over the turns that there are before the deadline; whether it timed out comes first.
unfoldable pub run_loop : ℕ → List Turn → Command → Bool × Command
run_loop max_output_bytes [] c = (true, c)
run_loop max_output_bytes (turn ∷ turns) c = elim turn.exited [
  | true ↦ (false, run_turn max_output_bytes turn c)
  | false ↦ run_loop max_output_bytes turns (run_turn max_output_bytes turn c)
]

-- `_run_bounded`: what it has collected, and whether it timed out.
unfoldable pub run_bounded : ℕ → Option Bytes → List Turn → Bool × Command
run_bounded max_output_bytes input_bytes turns =
    run_loop max_output_bytes turns (start_command input_bytes)
