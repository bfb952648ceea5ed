-- ===== src/Runner/Pipes/Tails.antt =====
-- runners/worker.py, `WarmRuntime._drain_stderr`: what is kept is the end of what the child wrote.
use model_deployer.Base.{
  ℕ, zero, suc, ◌-◌, ◌≤◌, ◌<◌, ◌≡◌, refl, sym, ap, ◌∙◌, List, [], ◌∷◌, ◌++◌, ltb, length, drop,
  arith, Bool-cases, inl, inr, length-append, length-drop, append_assoc, append-nil, drop-append,
  drop-drop,
}
use model_deployer.Runner.Pipes.{Bytes, trim, drain_stderr}

-- The last bytes, at most `limit` of them.
abbrev pub last_bytes : ℕ → Bytes → Bytes
last_bytes limit s = drop (length s - limit) s

-- What the child wrote, up to the end of the stream.
abbrev pub written : List Bytes → Bytes
written [] = []
written ([] ∷ chunks) = []
written ((b ∷ bs) ∷ chunks) = (b ∷ bs) ++ written chunks

drop-zero : (s : Bytes) (n : ℕ) → n ≡ 0 → drop n s ≡ s
drop-zero [] n h = refl
drop-zero (b ∷ bs) zero h = refl
drop-zero (b ∷ bs) (suc n) h = absurd (omega arith)

last_bytes-short : (limit : ℕ) (s : Bytes) → length s ≤ limit → last_bytes limit s ≡ s
last_bytes-short limit s h = drop-zero s (length s - limit) (omega arith)

trim-last_bytes : (limit : ℕ) (s : Bytes) → 0 < limit → trim limit s ≡ last_bytes limit s
trim-last_bytes limit s h = elim (Bool-cases (ltb limit (length s))) [
  | inl q ↦ ground arith
  | inr q ↦ ground (arith, last_bytes-short limit s)
]

-- Bytes that were dropped before do not come back.
last_bytes-append :
    (limit : ℕ) (s t : Bytes)
    → last_bytes limit (last_bytes limit s ++ t) ≡ last_bytes limit (s ++ t)
last_bytes-append limit s t =
    let cut = length s - limit in
    let kept : last_bytes limit s ++ t ≡ drop cut (s ++ t) =
      sym (drop-append cut s t (omega arith)) in
    ap (last_bytes limit) kept
    ∙ drop-drop (length (drop cut (s ++ t)) - limit) cut (length (s ++ t) - limit) (s ++ t)
        (omega (arith, length-drop cut (s ++ t), length-append s t))

drain_stderr-last_bytes_from :
    (limit : ℕ) (tail : Bytes) (chunks : List Bytes)
    → 0 < limit
    → length tail ≤ limit
    → drain_stderr limit tail chunks ≡ last_bytes limit (tail ++ written chunks)
unfolding drain_stderr
drain_stderr-last_bytes_from limit tail [] pos h =
    rw (append-nil tail) (sym (last_bytes-short limit tail h))
drain_stderr-last_bytes_from limit tail ([] ∷ chunks) pos h =
    rw (append-nil tail) (sym (last_bytes-short limit tail h))
drain_stderr-last_bytes_from limit tail ((b ∷ bs) ∷ chunks) pos h =
    let grown = tail ++ b ∷ bs in
    rw (trim-last_bytes limit grown pos) (
      drain_stderr-last_bytes_from limit (last_bytes limit grown) chunks pos
        (omega (arith, length-drop (length grown - limit) grown))
      ∙ last_bytes-append limit grown (written chunks)
      ∙ ap (last_bytes limit) (append_assoc tail (b ∷ bs) (written chunks)))

-- With a positive limit, `_drain_stderr` keeps exactly the last `limit` bytes of all that the child
-- wrote to its standard error, however the writes come in pieces.
pub drain_stderr-last_bytes :
    (limit : ℕ) (chunks : List Bytes)
    → 0 < limit
    → drain_stderr limit [] chunks ≡ last_bytes limit (written chunks)
drain_stderr-last_bytes limit chunks pos =
    drain_stderr-last_bytes_from limit [] chunks pos (omega arith)
