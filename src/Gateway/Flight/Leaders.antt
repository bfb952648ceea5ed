-- ===== src/Gateway/Flight/Leaders.antt =====
-- prediction_gateway/singleflight.py: in one gateway process, at most one leader, and nobody waits for ever.
use model_deployer.Base.{
  All, ◌⊎◌, ℕ, suc, ◌-◌, ◌≤◌, ◌≡◌, refl, sym, ap, subst, ◌∙◌, Bool, true, false, none, some, List,
  [], ◌∷◌, ◌==◌, arith, Bool-cases, Option-cases, inl, inr, if◌then◌else◌, ==_refl,
}
use model_deployer.Gateway.Flight.Threads.{
  Phase, looking, trying, checking, leading, releasing, waiting, polled, testing, direct, storing,
  done, Flight, move, acquire, leave, step_at, step, run, no_flight,
}

-- Between an `acquire` and its `release`.
abbrev pub inside : Phase → Bool
inside checking = true
inside leading = true
inside (releasing answered) = true
inside testing = true
inside _ = false

-- Who is in the lock holds it.
abbrev pub Held : Flight → Type 0
Held w = (j : ℕ) → inside (w.phases j) ≡ true → w.lock ≡ some j

module _ (i : ℕ) (phase : Phase) (w : Flight) (held : Held w) where
  move-Held : (inside phase ≡ true → inside (w.phases i) ≡ true) → Held (move i phase w)
  move-Held stays j h = elim (Bool-cases (j == i)) [
    | inl q ↦ held i (stays (rw q at h)) ∙ ap some (ground arith)
    | inr q ↦ held j (rw q at h)
  ]

  acquire-Held : w.lock ≡ none → Held (acquire i phase w)
  acquire-Held free j h = elim (Bool-cases (j == i)) [
    | inl q ↦ ap some (ground arith)
    | inr q ↦ absurd (ground (arith, held j (rw q at h)))
  ]

  leave-Held : inside phase ≡ false → inside (w.phases i) ≡ true → Held (leave i phase w)
  leave-Held out within j h = elim (Bool-cases (j == i)) [
    | inl q ↦ absurd (ground (arith, (rw q at h)))
    | inr q ↦ absurd (ground (arith, held j (rw q at h), held i within))
  ]

step_at-Held :
    (phase : Phase) (late answered : Bool) (i : ℕ) (w : Flight)
    → Held w
    → w.phases i ≡ phase
    → Held (step_at phase late answered i w)
unfolding step_at
step_at-Held looking late answered i w held at_i =
    move-Held i (if w.cached then done else trying) w held (λ h. absurd (ground arith))
step_at-Held trying late answered i w held at_i = elim (Option-cases w.lock) [
  | inl q ↦ rw (step_at, q) (acquire-Held i checking w held q)
  | inr (holder, q) ↦ rw (step_at, q) (move-Held i waiting w held (λ h. absurd (ground arith)))
]
step_at-Held checking late answered i w held at_i =
    move-Held i (if w.cached then releasing false else leading) w held (λ h. ap inside at_i)
step_at-Held leading late answered i w held at_i =
    move-Held i (releasing answered) w held (λ h. ap inside at_i)
step_at-Held (releasing stored) late answered i w held at_i =
    leave-Held i (if stored then storing else done) w held (ground arith) (ap inside at_i)
step_at-Held waiting late answered i w held at_i =
    move-Held i (if w.cached then done else polled) w held (λ h. absurd (ground arith))
step_at-Held polled late answered i w held at_i = elim (Option-cases w.lock) [
  | inl q ↦ rw (step_at, q) (acquire-Held i testing w held q)
  | inr (holder, q) ↦
      rw (step_at, q)
        (move-Held i (if late then direct else waiting) w held (λ h. absurd (ground arith)))
]
step_at-Held testing late answered i w held at_i = leave-Held i direct w held refl (ap inside at_i)
step_at-Held direct late answered i w held at_i =
    move-Held i (if answered then storing else done) w held (λ h. absurd (ground arith))
step_at-Held storing late answered i w held at_i =
    move-Held i done w held (λ h. absurd (ground arith))
step_at-Held done late answered i w held at_i = held

run-Held : (schedule : List (Bool × Bool × ℕ)) (w : Flight) → Held w → Held (run schedule w)
unfolding run
run-Held [] w held = held
run-Held ((late, answered, i) ∷ schedule) w held =
    run-Held schedule (step late answered i w)
      (step_at-Held (w.phases i) late answered i w held refl)

-- However the requests of one key that one gateway process serves are scheduled, at most one of them
-- is in the lock at a time, so two that call the runner as leaders are one.
pub run-leading :
    (schedule : List (Bool × Bool × ℕ)) (i j : ℕ)
    → (run schedule no_flight).phases i ≡ leading
    → (run schedule no_flight).phases j ≡ leading
    → i ≡ j
run-leading schedule i j hi hj =
    let held : Held (run schedule no_flight) =
      run-Held schedule no_flight (λ k h. absurd (ground arith)) in
    ground (arith, held i (ap inside hi), held j (ap inside hj))

-- How many steps a request can have before it, when its deadline has passed.
abbrev pub rank : Phase → ℕ
rank looking = 8
rank trying = 7
rank checking = 5
rank leading = 4
rank (releasing answered) = 3
rank waiting = 6
rank polled = 5
rank testing = 3
rank direct = 2
rank storing = 1
rank done = 0

step_at-rank :
    (phase : Phase) (answered : Bool) (i : ℕ) (w : Flight)
    → w.phases i ≡ phase
    → rank ((step_at phase true answered i w).phases i) ≤ rank phase - 1
unfolding step_at
step_at-rank done answered i w at_i = rw at_i (omega arith)
step_at-rank looking answered i w at_i = ground (arith, ==_refl i)
step_at-rank trying answered i w at_i = ground (arith, ==_refl i)
step_at-rank checking answered i w at_i = ground (arith, ==_refl i)
step_at-rank leading answered i w at_i = ground (arith, ==_refl i)
step_at-rank (releasing stored) answered i w at_i = ground (arith, ==_refl i)
step_at-rank waiting answered i w at_i = ground (arith, ==_refl i)
step_at-rank polled answered i w at_i = ground (arith, ==_refl i)
step_at-rank testing answered i w at_i = ground (arith, ==_refl i)
step_at-rank direct answered i w at_i = ground (arith, ==_refl i)
step_at-rank storing answered i w at_i = ground (arith, ==_refl i)

step_at-other :
    (phase : Phase) (late answered : Bool) (i j : ℕ) (w : Flight)
    → j == i ≡ false
    → (step_at phase late answered i w).phases j ≡ w.phases j
unfolding step_at
step_at-other looking late answered i j w ne = rw ne refl
step_at-other trying late answered i j w ne = ground (arith, ne)
step_at-other checking late answered i j w ne = rw ne refl
step_at-other leading late answered i j w ne = rw ne refl
step_at-other (releasing stored) late answered i j w ne = rw ne refl
step_at-other waiting late answered i j w ne = rw ne refl
step_at-other polled late answered i j w ne = ground (arith, ne)
step_at-other testing late answered i j w ne = rw ne refl
step_at-other direct late answered i j w ne = rw ne refl
step_at-other storing late answered i j w ne = rw ne refl
step_at-other done late answered i j w ne = refl

-- The steps of a request, and that its deadline has passed before all of them, whatever its calls of
-- the runner give.
abbrev pub steps_of : ℕ → List (Bool × Bool × ℕ) → ℕ
steps_of i [] = 0
steps_of i ((late, answered, j) ∷ schedule) =
    let rest = steps_of i schedule in if i == j then suc rest else rest

abbrev pub IsLate : ℕ → List (Bool × Bool × ℕ) → Type 0
IsLate i = All (λ e. (i == e.2 ≡ false) ⊎ (e.0 ≡ true))

run-rank :
    (schedule : List (Bool × Bool × ℕ)) (i : ℕ) (w : Flight)
    → IsLate i schedule
    → rank ((run schedule w).phases i) ≤ rank (w.phases i) - steps_of i schedule
unfolding run
run-rank [] i w h = omega arith
run-rank ((late, answered, j) ∷ schedule) i w h =
    let rest = run-rank schedule i (step late answered j w) h.1 in
    elim (Bool-cases (i == j)) [
      | inr q ↦
          rw q (omega (arith, rest, ap rank (step_at-other (w.phases j) late answered j i w q)))
      | inl q ↦
          let same : i ≡ j = ground arith in
          let passed : late ≡ true = ground arith in
          let one : rank ((step late answered j w).phases i) ≤ rank (w.phases i) - 1 =
            subst (λ k. rank ((step late answered k w).phases i) ≤ rank (w.phases i) - 1) same
              (subst (λ b. rank ((step b answered i w).phases i) ≤ rank (w.phases i) - 1)
                (sym passed) (step_at-rank (w.phases i) answered i w refl)) in
          rw q (omega (arith, one, rest))
    ]

rank-done : (p : Phase) → rank p ≡ 0 → p ≡ done
rank-done done h = refl
rank-done _ h = absurd (omega arith)

rank-bound : (p : Phase) → rank p ≤ 8
rank-bound looking = omega arith
rank-bound _ = omega arith

-- No request waits for ever: after any course of things, one that makes eight steps after its deadline
-- is done, whether its calls of the runner give an answer or fail, whatever the others do or leave
-- undone, and also where one never lets go of the lock.
pub run-done :
    (before after : List (Bool × Bool × ℕ)) (i : ℕ)
    → IsLate i after
    → 8 ≤ steps_of i after
    → (run after (run before no_flight)).phases i ≡ done
run-done before after i late h =
    let w = run before no_flight in
    rank-done ((run after w).phases i)
      (omega (arith, run-rank after i w late, rank-bound (w.phases i)))
