-- ===== src/Runner/Pipes/Lines.antt =====
-- runners/worker.py, `WarmRuntime._readline_bounded` and `_write_bounded`: the loop ends, and what it
-- returns is the first line of the stream, however the stream comes in pieces.
use model_deployer.Base.{
  ℕ, zero, suc, ◌+◌, ◌-◌, ◌≤◌, ◌<◌, min, ◌≡◌, refl, sym, ap, ◌∙◌, true, false, none, some, List, [],
  ◌∷◌, ◌++◌, ltb, length, take, drop, arith, Bool-cases, Option-cases, inl, inr, length-append,
  append_assoc, take-append-drop, if◌then◌else◌, append-nil, length-take, length-drop, All, map,
}
use model_deployer.Runner.Pipes.{
  Bytes, Pipe, put_back, read, find_newline, Line, readline_from, readline_bounded, write_bounded,
}
use Line.{got, timed_out, closed, exceeded}

-- The bytes that come before the first time-out and before the end of the stream, and which it is.
abbrev pub stream : Pipe → Bytes
stream [] = []
stream (none ∷ p) = []
stream (some [] ∷ p) = []
stream (some (b ∷ bs) ∷ p) = (b ∷ bs) ++ stream p

abbrev pub ending : Pipe → Line
ending [] = timed_out
ending (none ∷ p) = timed_out
ending (some [] ∷ p) = closed
ending (some (b ∷ bs) ∷ p) = ending p

-- The first line of a stream that is all there at once.
unfoldable pub first_line : ℕ → Bytes → Line → Line
first_line max_bytes s last = elim (find_newline s) [
  | none ↦ if ltb max_bytes (length s) then exceeded else last
  | some i ↦ if ltb max_bytes i then exceeded else got (take i s)
]

stream-put_back : (bs : Bytes) (p : Pipe) → stream (put_back bs p) ≡ bs ++ stream p
stream-put_back [] p = refl
stream-put_back (b ∷ bs) p = refl

ending-put_back : (bs : Bytes) (p : Pipe) → ending (put_back bs p) ≡ ending p
ending-put_back [] p = refl
ending-put_back (b ∷ bs) p = refl

-- A piece that is read, with what is put back, is the burst.
stream-read :
    (n : ℕ) (cs : Bytes) (p : Pipe) → take n cs ++ stream (put_back (drop n cs) p) ≡ cs ++ stream p
stream-read n cs p =
    ap (λ s. take n cs ++ s) (stream-put_back (drop n cs) p)
    ∙ sym (append_assoc (take n cs) (drop n cs) (stream p))
    ∙ ap (λ s. s ++ stream p) (take-append-drop n cs)

find_newline-append :
    (xs ys : Bytes)
    → find_newline xs ≡ none
    → find_newline (xs ++ ys)
      ≡ elim (find_newline ys) [ none ↦ none | some i ↦ some (length xs + i) ]
unfolding find_newline
find_newline-append [] ys h = elim (Option-cases (find_newline ys)) [
  | inl q ↦ ground arith
  | inr (i, q) ↦ ground arith
]
find_newline-append (x ∷ xs) ys h = ground (arith, find_newline-append xs ys)

find_newline-append_found :
    (xs ys : Bytes) (i : ℕ) → find_newline xs ≡ some i → find_newline (xs ++ ys) ≡ some i
unfolding find_newline
find_newline-append_found [] ys i h = absurd (ground arith)
find_newline-append_found (x ∷ xs) ys i h = elim (Option-cases (find_newline xs)) [
  | inl q ↦ ground arith
  | inr (j, q) ↦ ground (arith, find_newline-append_found xs ys j q)
]

find_newline-bound : (xs : Bytes) (i : ℕ) → find_newline xs ≡ some i → i < length xs
unfolding find_newline
find_newline-bound [] i h = absurd (ground arith)
find_newline-bound (x ∷ xs) i h = elim (Option-cases (find_newline xs)) [
  | inl q ↦ ground arith
  | inr (j, q) ↦ ground (arith, find_newline-bound xs j q)
]

take-append_short : (i : ℕ) (ys zs : Bytes) → i ≤ length ys → take i (ys ++ zs) ≡ take i ys
take-append_short zero [] [] h = refl
take-append_short zero [] (z ∷ zs) h = refl
take-append_short (suc i) [] zs h = absurd (omega arith)
take-append_short zero (y ∷ ys) zs h = refl
take-append_short (suc i) (y ∷ ys) zs h = ap (λ l. y ∷ l) (take-append_short i ys zs (omega arith))

take-append :
    (k : ℕ) (xs ys zs : Bytes) (i : ℕ)
    → k ≡ length xs + i
    → i ≤ length ys
    → take k (xs ++ (ys ++ zs)) ≡ xs ++ take i ys
take-append k [] ys zs i e h =
    ap (λ n. take n (ys ++ zs)) (omega arith) ∙ take-append_short i ys zs h
take-append zero (x ∷ xs) ys zs i e h = absurd (omega arith)
take-append (suc k) (x ∷ xs) ys zs i e h =
    ap (λ l. x ∷ l) (take-append k xs ys zs i (omega arith) h)

-- A pipe with bytes in front.
read-some :
    (n c : ℕ) (cs : Bytes) (p : Pipe)
    → read (suc n) (some (c ∷ cs) ∷ p) ≡ (some (c ∷ take n cs), put_back (drop n cs) p)
unfolding read
read-some n c cs p = refl

-- What the reference gives where the loop stops.
module _ (max_bytes : ℕ) (line : Bytes) (clean : find_newline line ≡ none) where
  first_line-over :
      (s : Bytes) (last : Line)
      → max_bytes < length line
      → first_line max_bytes (line ++ s) last ≡ exceeded
  unfolding first_line
  first_line-over s last h = elim (Option-cases (find_newline s)) [
    | inl q ↦
        rw (first_line, find_newline-append line s clean, q, length-append line s) (ground arith)
    | inr (i, q) ↦ rw (first_line, find_newline-append line s clean, q) (ground arith)
  ]

  first_line-end :
      (last : Line) → length line ≤ max_bytes → first_line max_bytes (line ++ []) last ≡ last
  unfolding first_line
  first_line-end last h = rw (first_line, append-nil line, clean, append-nil line) (ground arith)

  first_line-got :
      (chunk s : Bytes) (last : Line) (i : ℕ)
      → find_newline chunk ≡ some i
      → length line + i ≤ max_bytes
      → first_line max_bytes (line ++ (chunk ++ s)) last ≡ got (line ++ take i chunk)
  unfolding first_line
  first_line-got chunk s last i found h =
      rw
        (
          first_line,
          find_newline-append line (chunk ++ s) clean,
          find_newline-append_found chunk s i found,
          take-append (length line + i) line chunk s i refl
              (omega (arith, find_newline-bound chunk i found)),
        )
        (ground arith)

  -- Nothing more comes.
  first_line-stop :
      (last : Line)
      → (if ltb max_bytes (length line) then some exceeded else some last)
        ≡ some (first_line max_bytes (line ++ []) last)
  first_line-stop last = elim (Bool-cases (ltb max_bytes (length line))) [
    | inl q ↦ ground (arith, first_line-over [] last)
    | inr q ↦ ground (arith, first_line-end last)
  ]

-- One turn of the loop that reads a piece.
readline_from-piece :
    (fuel max_bytes : ℕ) (line : Bytes) (p p' : Pipe) (c : ℕ) (cs : Bytes)
    → length line ≤ max_bytes
    → read (min 4096 (max_bytes + 1 - length line)) p ≡ (some (c ∷ cs), p')
    → readline_from (suc fuel) max_bytes line p ≡ elim (find_newline (c ∷ cs)) [
      | none ↦ readline_from fuel max_bytes (line ++ c ∷ cs) p'
      | some i ↦
          if ltb max_bytes (length line + i)
          then some exceeded
          else some (got (line ++ take i (c ∷ cs)))
    ]
unfolding readline_from
readline_from-piece fuel max_bytes line p p' c cs h r =
    let q : ltb max_bytes (length line) ≡ false = ground arith in
    elim (Option-cases (find_newline (c ∷ cs))) [
      | inl f ↦ rw (q, r, f, r) refl
      | inr (i, f) ↦ rw (q, r, f) refl
    ]

-- A turn that goes on, by what the later turns give.
readline_from-next :
    (fuel max_bytes : ℕ)
    → ((line : Bytes) (p : Pipe)
        → find_newline line ≡ none
        → length line ≤ max_bytes + 1
        → max_bytes + 2 ≤ fuel + length line
        → readline_from fuel max_bytes line p
          ≡ some (first_line max_bytes (line ++ stream p) (ending p)))
    → (line : Bytes) (p : Pipe) (c : ℕ) (cs : Bytes) → find_newline line ≡ none
    → max_bytes + 2 ≤ suc fuel + length line
    → length line ≤ max_bytes
    → (n : ℕ) → min 4096 (max_bytes + 1 - length line) ≡ suc n
    → readline_from (suc fuel) max_bytes line (some (c ∷ cs) ∷ p)
      ≡ some (first_line max_bytes (line ++ (c ∷ cs ++ stream p)) (ending p))
readline_from-next fuel max_bytes again line p c cs clean enough h n e =
    let rest : Pipe = put_back (drop n cs) p in
    let r : read (min 4096 (max_bytes + 1 - length line)) (some (c ∷ cs) ∷ p)
        ≡ (some (c ∷ take n cs), rest) =
      rw e (read-some n c cs p) in
    let whole : c ∷ take n cs ++ stream rest ≡ c ∷ cs ++ stream p =
      ap (λ s. c ∷ s) (stream-read n cs p) in
    let same : ending rest ≡ ending p = ending-put_back (drop n cs) p in
    let fits : length (take n cs) ≤ n = length-take n cs in
    let line_s : first_line max_bytes (line ++ (c ∷ take n cs ++ stream rest)) (ending rest)
        ≡ first_line max_bytes (line ++ (c ∷ cs ++ stream p)) (ending p) =
      rw (whole, same) refl in
    readline_from-piece fuel max_bytes line (some (c ∷ cs) ∷ p) rest c (take n cs) h r
    ∙ elim (Option-cases (find_newline (c ∷ take n cs))) [
      | inl f ↦
          let longer : length (line ++ c ∷ take n cs) ≡ length line + suc (length (take n cs)) =
            length-append line (c ∷ take n cs) in
          rw f (
            again (line ++ c ∷ take n cs) rest
              (rw (find_newline-append line (c ∷ take n cs) clean, f) refl) (omega arith)
              (omega arith)
            ∙ ap (λ s. some (first_line max_bytes s (ending rest)))
                (append_assoc line (c ∷ take n cs) (stream rest))
            ∙ ap some line_s)
      | inr (i, f) ↦
          let inside : i < suc (length (take n cs)) = find_newline-bound (c ∷ take n cs) i f in
          let below : ltb max_bytes (length line + i) ≡ false = ground arith in
          rw (f, below)
            (ap some (
              sym (
                first_line-got max_bytes line clean (c ∷ take n cs) (stream rest) (ending rest) i f
                  (ground arith))
              ∙ line_s))
    ]

-- The loop, with what it has read so far in front of the stream.
readline_from-first_line :
    (fuel max_bytes : ℕ) (line : Bytes) (p : Pipe)
    → find_newline line ≡ none
    → length line ≤ max_bytes + 1
    → max_bytes + 2 ≤ fuel + length line
    → readline_from fuel max_bytes line p
      ≡ some (first_line max_bytes (line ++ stream p) (ending p))
unfolding readline_from read
readline_from-first_line zero max_bytes line p clean short enough = absurd (omega arith)
readline_from-first_line (suc fuel) max_bytes line [] clean short enough =
    first_line-stop max_bytes line clean timed_out
readline_from-first_line (suc fuel) max_bytes line (none ∷ p) clean short enough =
    first_line-stop max_bytes line clean timed_out
readline_from-first_line (suc fuel) max_bytes line (some [] ∷ p) clean short enough =
    first_line-stop max_bytes line clean closed
readline_from-first_line (suc fuel) max_bytes line (some (c ∷ cs) ∷ p) clean short enough =
    elim (Bool-cases (ltb max_bytes (length line))) [
      | inl q ↦
          rw q (ap some (sym (first_line-over max_bytes line clean _ (ending p) (ground arith))))
      | inr q ↦
          readline_from-next fuel max_bytes (readline_from-first_line fuel max_bytes) line p c cs
            clean enough (ground arith) (min 4096 (max_bytes + 1 - length line) - 1) (ground arith)
    ]

-- `_readline_bounded` returns or raises after finitely many reads, and its outcome is that of the
-- first line of the whole stream: the line without its newline where at most `max_bytes` bytes come
-- before the newline, an overflow where more do, and otherwise the time-out or the end of the stream.
pub readline_bounded-first_line :
    (max_bytes : ℕ) (p : Pipe)
    → readline_bounded max_bytes p ≡ some (first_line max_bytes (stream p) (ending p))
unfolding readline_bounded find_newline
readline_bounded-first_line max_bytes p =
    readline_from-first_line (max_bytes + 2) max_bytes [] p refl (omega arith) (omega arith)

-- `_write_bounded` ends with all of the payload sent, where the pipe never runs into the time-out and
-- takes a byte or more each time, and there are as many turns as bytes.
pub write_bounded-sent :
    (turns : List ℕ) (payload : Bytes)
    → All (λ taken. 1 ≤ taken) turns
    → length payload ≤ length turns
    → write_bounded (map some turns) payload ≡ (true, [])
unfolding write_bounded
write_bounded-sent turns [] pos h = refl
write_bounded-sent [] (b ∷ bs) pos h = absurd (omega arith)
write_bounded-sent (taken ∷ turns) (b ∷ bs) pos h =
    let first : 1 ≤ taken = pos.0 in
    write_bounded-sent turns (drop (min taken 65536) (b ∷ bs)) pos.1
      (omega (arith, length-drop (min taken 65536) (b ∷ bs)))
