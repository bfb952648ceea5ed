-- ===== src/Runner/Commands/Output.antt =====
-- runners/worker.py, `_run_bounded`: what is kept of the output of a command.
use model_deployer.Base.{
  ℕ, zero, suc, ◌+◌, ◌*◌, ◌≤◌, ◌<◌, ◌≡◌, refl, sym, ap, ◌∙◌, true, false, Option, none, some, List,
  [], ◌∷◌, ◌++◌, ltb, length, arith, Bool-cases, inl, inr, length-append, append_assoc, append-nil,
  replicate, length-replicate,
}
use model_deployer.Runner.Pipes.{Bytes}
use model_deployer.Runner.Commands.{
  truncation_marker, Capture, keep_raw, Write, Turn, Command, start_command, run_turn, run_loop,
  run_bounded,
}

-- `b"".join(chunks)`
abbrev pub concat : List Bytes → Bytes
concat [] = []
concat (c ∷ cs) = c ++ concat cs

-- The turns up to the one in which the child has exited.
abbrev pub until_exit : List Turn → List Turn
until_exit [] = []
until_exit (t ∷ ts) = elim t.exited [ true ↦ t ∷ [] | false ↦ t ∷ until_exit ts ]

abbrev pub stdout_reads : List Turn → List Bytes
stdout_reads [] = []
stdout_reads (t ∷ ts) = t.stdout ∷ stdout_reads ts

abbrev pub stderr_reads : List Turn → List Bytes
stderr_reads [] = []
stderr_reads (t ∷ ts) = t.stderr ∷ stderr_reads ts

-- One stream by itself.
abbrev pub keep_all : ℕ → List Bytes → Capture → Capture
keep_all most [] c = c
keep_all most (raw ∷ raws) c = keep_all most raws (keep_raw most raw c)

-- The two streams do not influence each other, nor does the input.
run_loop-keep_all :
    (most : ℕ) (turns : List Turn) (c : Command)
    → ((run_loop most turns c).1.stdout ≡ keep_all most (stdout_reads (until_exit turns)) c.stdout)
      × ((run_loop most turns c).1.stderr
          ≡ keep_all most (stderr_reads (until_exit turns)) c.stderr)
unfolding run_loop run_turn
run_loop-keep_all most [] c = (refl, refl)
run_loop-keep_all most (turn ∷ turns) c = elim (Bool-cases turn.exited) [
  | inl q ↦ rw q (refl, refl)
  | inr q ↦ rw q (run_loop-keep_all most turns (run_turn most turn c))
]

concat-append : (xs ys : List Bytes) → concat (xs ++ ys) ≡ concat xs ++ concat ys
concat-append [] ys = refl
concat-append (x ∷ xs) ys = rw (concat-append xs ys) (sym (append_assoc x (concat xs) (concat ys)))

concat-snoc : (xs : List Bytes) (y : Bytes) → concat (xs ++ y ∷ []) ≡ concat xs ++ y
concat-snoc xs y = rw (concat-append xs (y ∷ []), append-nil y) refl

keep_raw-fits :
    (most b : ℕ) (bs : Bytes) (c : Capture)
    → c.count + length (b ∷ bs) ≤ most
    → keep_raw most (b ∷ bs) c
      ≡ record { chunks = c.chunks ++ (b ∷ bs) ∷ []; count = c.count + length (b ∷ bs) }
unfolding keep_raw
keep_raw-fits most b bs c h = ground arith

keep_raw-over :
    (most b : ℕ) (bs : Bytes) (c : Capture)
    → most < c.count + length (b ∷ bs)
    → keep_raw most (b ∷ bs) c
      ≡ record { chunks = c.chunks ++ truncation_marker ∷ []; count = most }
unfolding keep_raw
keep_raw-over most b bs c h = ground arith

keep_raw-nil : (most : ℕ) (c : Capture) → keep_raw most [] c ≡ c
unfolding keep_raw
keep_raw-nil most c = refl

-- Within the budget nothing is lost.
keep_all-within :
    (most : ℕ) (raws : List Bytes) (c : Capture)
    → c.count + length (concat raws) ≤ most
    → concat (keep_all most raws c).chunks ≡ concat c.chunks ++ concat raws
keep_all-within most [] c h = sym (append-nil (concat c.chunks))
keep_all-within most ([] ∷ raws) c h =
    ap (λ x. concat (keep_all most raws x).chunks) (keep_raw-nil most c)
    ∙ keep_all-within most raws c h
keep_all-within most ((b ∷ bs) ∷ raws) c h =
    let whole : length (b ∷ bs ++ concat raws) ≡ length (b ∷ bs) + length (concat raws) =
      length-append (b ∷ bs) (concat raws) in
    ap (λ x. concat (keep_all most raws x).chunks) (keep_raw-fits most b bs c (omega arith))
    ∙ keep_all-within most raws _ (omega arith)
    ∙ ap (λ s. s ++ concat raws) (concat-snoc c.chunks (b ∷ bs))
    ∙ append_assoc (concat c.chunks) (b ∷ bs) (concat raws)

-- Beyond it, every read costs at most a marker.
keep_all-bound :
    (most : ℕ) (raws : List Bytes) (c : Capture)
    → c.count ≤ most
    → length (concat (keep_all most raws c).chunks) + c.count
      ≤ length (concat c.chunks) + most + 34 * length raws
keep_all-bound most [] c h = omega arith
keep_all-bound most ([] ∷ raws) c h = omega (
  arith,
  keep_all-bound most raws c h,
  ap (λ x. length (concat (keep_all most raws x).chunks)) (keep_raw-nil most c),
)
keep_all-bound most ((b ∷ bs) ∷ raws) c h =
    let size : Capture → ℕ = λ x. length (concat (keep_all most raws x).chunks) in
    let joined : (y : Bytes)
        → length (concat (c.chunks ++ y ∷ [])) ≡ length (concat c.chunks) + length y =
      λ y. ap length (concat-snoc c.chunks y) ∙ length-append (concat c.chunks) y in
    elim (Bool-cases (ltb most (c.count + length (b ∷ bs)))) [
      | inl q ↦ omega (
        arith,
        joined truncation_marker,
        keep_all-bound most raws
            (record { chunks = c.chunks ++ truncation_marker ∷ []; count = most }) (omega arith),
        ap size (keep_raw-over most b bs c (ground arith)),
      )
      | inr q ↦ omega (
        arith,
        joined (b ∷ bs),
        keep_all-bound most raws
            (record { chunks = c.chunks ++ (b ∷ bs) ∷ []; count = c.count + length (b ∷ bs) })
            (ground arith),
        ap size (keep_raw-fits most b bs c (ground arith)),
      )
    ]

-- From a fresh capture.
abbrev pub empty_capture : Capture
empty_capture = record { chunks = []; count = 0 }

kept :
    (most : ℕ) (raws : List Bytes) (c : Capture)
    → c ≡ keep_all most raws empty_capture
    → length (concat raws) ≤ most
    → concat c.chunks ≡ concat raws
kept most raws c e h =
    ap (λ x. concat x.chunks) e ∙ keep_all-within most raws empty_capture (omega arith)

-- Where a stream's output, up to the exit of the child, is within the budget, `_run_bounded` has kept
-- it to the byte, for the standard output and the standard error each, and whatever the other is.
pub run_bounded-exact :
    (most : ℕ) (input_bytes : Option Bytes) (turns : List Turn)
    → length (concat (stdout_reads (until_exit turns))) ≤ most
    → length (concat (stderr_reads (until_exit turns))) ≤ most
    → (concat (run_bounded most input_bytes turns).1.stdout.chunks
        ≡ concat (stdout_reads (until_exit turns)))
      × (concat (run_bounded most input_bytes turns).1.stderr.chunks
          ≡ concat (stderr_reads (until_exit turns)))
unfolding run_bounded
run_bounded-exact most none turns ho he =
    let both = run_loop-keep_all most turns (start_command none) in
    (
      kept most (stdout_reads (until_exit turns)) _ both.0 ho,
      kept most (stderr_reads (until_exit turns)) _ both.1 he,
    )
run_bounded-exact most (some bytes) turns ho he =
    let both = run_loop-keep_all most turns (start_command (some bytes)) in
    (
      kept most (stdout_reads (until_exit turns)) _ both.0 ho,
      kept most (stderr_reads (until_exit turns)) _ both.1 he,
    )

length-until_exit : (turns : List Turn) → length (until_exit turns) ≤ length turns
length-until_exit [] = omega arith
length-until_exit (t ∷ ts) = elim (Bool-cases t.exited) [
  | inl q ↦ rw q (omega arith)
  | inr q ↦ rw q (omega (arith, length-until_exit ts))
]

length-stdout_reads : (turns : List Turn) → length (stdout_reads turns) ≡ length turns
length-stdout_reads [] = refl
length-stdout_reads (t ∷ ts) = ap suc (length-stdout_reads ts)

kept_bound :
    (most : ℕ) (turns : List Turn) (c : Command)
    → c.stdout ≡ empty_capture
    → length (concat (run_loop most turns c).1.stdout.chunks) ≤ most + 34 * length turns
kept_bound most turns c fresh = omega (
  arith,
  keep_all-bound most (stdout_reads (until_exit turns)) empty_capture (omega arith),
  ap (λ x. length (concat x.chunks))
      ((run_loop-keep_all most turns c).0
        ∙ ap (keep_all most (stdout_reads (until_exit turns))) fresh),
  length-stdout_reads (until_exit turns),
  length-until_exit turns,
)

-- The standard output that `_run_bounded` keeps is at most the budget and 34 bytes for each turn of
-- the loop.
pub run_bounded-bound :
    (most : ℕ) (input_bytes : Option Bytes) (turns : List Turn)
    → length (concat (run_bounded most input_bytes turns).1.stdout.chunks)
      ≤ most + 34 * length turns
unfolding run_bounded
run_bounded-bound most none turns = kept_bound most turns (start_command none) refl
run_bounded-bound most (some bytes) turns = kept_bound most turns (start_command (some bytes)) refl

-- A child that writes `n` times more than fits.
abbrev pub flooding : ℕ → Turn
flooding most = record {
  write = Write.blocked;
  stdout = replicate (suc most) 65;
  stderr = [];
  exited = false;
}

abbrev pub flood : ℕ → ℕ → List Turn
flood most zero = []
flood most (suc n) = flooding most ∷ flood most n

flood-markers :
    (most n : ℕ) (c : Command)
    → length (concat (run_loop most (flood most n) c).1.stdout.chunks)
      ≡ length (concat c.stdout.chunks) + 34 * n
unfolding run_loop run_turn
flood-markers most zero c = omega arith
flood-markers most (suc n) c =
    let first : keep_raw most (65 ∷ replicate most 65) c.stdout
        ≡ record { chunks = c.stdout.chunks ++ truncation_marker ∷ []; count = most } =
      keep_raw-over most 65 (replicate most 65) c.stdout
        (omega (arith, length-replicate {A = ℕ} most 65)) in
    omega (
      arith,
      flood-markers most n (run_turn most (flooding most) c),
      ap (λ x. length (concat x.chunks)) first,
      ap length (concat-snoc c.stdout.chunks truncation_marker),
      length-append (concat c.stdout.chunks) truncation_marker,
    )

-- No budget bounds what `_run_bounded` keeps: for each bound there is an output whose kept part is
-- longer, since every read beyond the budget appends the marker once more.
pub run_bounded-unbounded :
    (most bound : ℕ)
    → (turns : List Turn) × (bound < length (concat (run_bounded most none turns).1.stdout.chunks))
unfolding run_bounded
run_bounded-unbounded most bound =
    (flood most (suc bound), omega (arith, flood-markers most (suc bound) (start_command none)))
