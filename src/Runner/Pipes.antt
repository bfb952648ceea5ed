-- ===== src/Runner/Pipes.antt =====
-- runners/worker.py, the bounded reads and writes of a child's pipes: `WarmRuntime._readline_bounded`,
-- `_write_bounded` and `_drain_stderr`. A byte is its number.
pub mod Lines
pub mod Tails
use model_deployer.Base.{
  ℕ, zero, suc, ◌+◌, ◌-◌, min, Bool, true, false, Option, none, some, List, [], ◌∷◌, ◌++◌, ◌==◌,
  leb, ltb, length, take, drop, if◌then◌else◌,
}

abbrev pub Bytes : Type 0
Bytes = List ℕ

abbrev pub newline : ℕ
newline = 10

-- What a pipe gives, in order: `none` where `select` runs into the deadline, and the bytes that are
-- there otherwise; no bytes are the end of the stream. Without a further entry nothing comes.
abbrev pub Pipe : Type 0
Pipe = List (Option Bytes)

-- What is left of a burst goes back into the pipe.
abbrev pub put_back : Bytes → Pipe → Pipe
put_back [] p = p
put_back (b ∷ bs) p = some (b ∷ bs) ∷ p

-- `select` and `os.read(fd, n)`
unfoldable pub read : ℕ → Pipe → Option Bytes × Pipe
read n [] = (none, [])
read n (none ∷ p) = (none, p)
read n (some burst ∷ p) = (some (take n burst), put_back (drop n burst) p)

-- `chunk.find(b"\n")`
unfoldable pub find_newline : Bytes → Option ℕ
find_newline [] = none
find_newline (b ∷ bs) =
    let rest = find_newline bs in
    if b == newline then some 0 else elim rest [ none ↦ none | some i ↦ some (suc i) ]

-- The line, or one of the exceptions.
pub data Line : Type 0 where
  got : Bytes → Line
  timed_out : Line
  closed : Line
  exceeded : Line

-- The loop of `_readline_bounded`, with what it has read; `none` where the fuel ran out.
unfoldable pub readline_from : ℕ → ℕ → Bytes → Pipe → Option Line
readline_from zero max_bytes line p = none
readline_from (suc fuel) max_bytes line p =
    let (answer, p') = read (min 4096 (max_bytes + 1 - length line)) p in
    if ltb max_bytes (length line) then some exceeded else elim answer [
      | none ↦ some timed_out
      | some [] ↦ some closed
      | some (b ∷ bs) ↦ elim (find_newline (b ∷ bs)) [
        | none ↦ readline_from fuel max_bytes (line ++ b ∷ bs) p'
        | some i ↦
            if ltb max_bytes (length line + i)
            then some exceeded
            else some (got (line ++ take i (b ∷ bs)))
      ]
    ]

-- `_readline_bounded`
unfoldable pub readline_bounded : ℕ → Pipe → Option Line
readline_bounded max_bytes p = readline_from (max_bytes + 2) max_bytes [] p

-- The loop of `_write_bounded`: each entry is `none` for a time-out of `select`, or the number of
-- bytes that `os.write` takes. The result is whether the loop ends by itself, and what is unsent.
unfoldable pub write_bounded : List (Option ℕ) → Bytes → Bool × Bytes
write_bounded turns [] = (true, [])
write_bounded [] (b ∷ bs) = (false, b ∷ bs)
write_bounded (none ∷ turns) (b ∷ bs) = (false, b ∷ bs)
write_bounded (some taken ∷ turns) (b ∷ bs) = write_bounded turns (drop (min taken 65536) (b ∷ bs))

-- `del tail[:-limit]`, where the tail has grown over the limit; `[:-0]` is empty.
abbrev pub trim : ℕ → Bytes → Bytes
trim limit tail =
    if ltb limit (length tail)
    then (if limit == 0 then tail else drop (length tail - limit) tail)
    else tail

-- `_drain_stderr`: the tail after the chunks up to the end of the stream or an error.
unfoldable pub drain_stderr : ℕ → Bytes → List Bytes → Bytes
drain_stderr limit tail [] = tail
drain_stderr limit tail ([] ∷ chunks) = tail
drain_stderr limit tail ((b ∷ bs) ∷ chunks) =
    drain_stderr limit (trim limit (tail ++ b ∷ bs)) chunks
