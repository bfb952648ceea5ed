-- ===== src/Gateway/Flight.antt =====
-- prediction_gateway/singleflight.py: which requests of one key call the runner.
pub mod Threads
pub mod Leaders
use model_deployer.Base.{
  ◌≡◌, refl, ◌⊎◌, inl, inr, Bool, true, false, Option, none, some, List, [], ◌∷◌, if◌then◌else◌,
}

-- What one `execute` sees: the cache before the lock is tried, whether the lock was free, the
-- cache again under the lock, and each poll of a waiter before its deadline, with the cache and
-- whether the lock was free then.
pub record Readings (D : Type 0) : Type 0 where
  pub first : Option D
  pub acquired : Bool
  pub second : Option D
  pub polls : List (Option D × Bool)

module _ {D : Type 0} where
  -- The waiter's loop: a cached result, or `none` for the fallback to direct execution.
  unfoldable pub wait : List (Option D × Bool) → Option D
  wait [] = none
  wait ((some d, free) ∷ polls) = some d
  wait ((none, free) ∷ polls) = let rest = wait polls in if free then none else rest

  -- `SingleFlight.execute`: the cached result, or `none` where `execute_fn` is called.
  unfoldable pub execute : Readings D → Option D
  execute r = elim r.first [
    | some d ↦ some d
    | none ↦ if r.acquired then r.second else wait r.polls
  ]

  -- The polls that a waiter makes: up to the first hit or the first free lock.
  abbrev pub Polled : D → List (Option D × Bool) → Type 0
  Polled d [] = ⊥
  Polled d ((o, true) ∷ polls) = o ≡ some d
  Polled d ((o, false) ∷ polls) = (o ≡ some d) ⊎ ((o ≡ none) × Polled d polls)

  -- No poll has hit: the leader has left with nothing cached, or the deadline has passed.
  abbrev pub Missed : List (Option D × Bool) → Type 0
  Missed [] = Unit
  Missed ((o, true) ∷ polls) = o ≡ none
  Missed ((o, false) ∷ polls) = (o ≡ none) × Missed polls

  wait_hit : (polls : List (Option D × Bool)) (d : D) → wait polls ≡ some d → Polled d polls
  unfolding wait
  wait_hit [] d e = cc
  wait_hit ((some x, true) ∷ polls) d e = e
  wait_hit ((some x, false) ∷ polls) d e = inl e
  wait_hit ((none, true) ∷ polls) d e = e
  wait_hit ((none, false) ∷ polls) d e = inr (refl, wait_hit polls d e)

  wait_miss : (polls : List (Option D × Bool)) → wait polls ≡ none → Missed polls
  unfolding wait
  wait_miss [] e = tt
  wait_miss ((some x, true) ∷ polls) e = e
  wait_miss ((some x, false) ∷ polls) e = cc
  wait_miss ((none, true) ∷ polls) e = refl
  wait_miss ((none, false) ∷ polls) e = (refl, wait_miss polls e)

  -- What must have been seen for each result of `execute`.
  abbrev pub Seen : Readings D → Option D → Type 0
  Seen r (some d) =
      (r.first ≡ some d)
      ⊎ ((r.first ≡ none) × (r.acquired ≡ true) × (r.second ≡ some d))
      ⊎ ((r.first ≡ none) × (r.acquired ≡ false) × Polled d r.polls)
  Seen r none =
      (r.first ≡ none)
      × (((r.acquired ≡ true) × (r.second ≡ none)) ⊎ ((r.acquired ≡ false) × Missed r.polls))

  -- A cached result was read from the cache, by the leader or within a waiter's polls. The runner
  -- is called only by the leader after a second miss under the lock, or by a waiter whose polls
  -- all missed until the lock was free or the deadline passed.
  pub execute-Seen : (r : Readings D) → Seen r (execute r)
  unfolding execute
  execute-Seen r = go r.first r.acquired (wait r.polls) refl refl refl
    where
      go :
          (f : Option D) (a : Bool) (w : Option D)
          → r.first ≡ f
          → r.acquired ≡ a
          → wait r.polls ≡ w
          → Seen r (elim f [ some d ↦ some d | none ↦ if a then r.second else w ])
      go (some d) a w p q s = inl p
      go none true w p q s = second r.second refl
        where
          second : (o : Option D) → r.second ≡ o → Seen r o
          second none e = (p, inl (q, e))
          second (some d) e = inr (inl (p, q, e))
      go none false none p q s = (p, inr (q, wait_miss r.polls s))
      go none false (some d) p q s = inr (inr (p, q, wait_hit r.polls d s))
