-- ===== src/Monitoring/Totals.antt =====
-- `_compute_metrics` of monitoring/views.py: it always returns, and its counts and ratios add up.
use native.Mathlib.Nat.{mul-le-mul_left, mul-le-mul_right, mod-lt}
use model_deployer.Base.{
  ℕ, zero, suc, ◌-◌, ◌+◌, ◌*◌, ◌/◌, ◌%◌, ◌≤◌, ◌<◌, ◌≡◌, subst, lt→ltb, refl, sym, Bool, true, false,
  Option, some, List, [], ◌∷◌, arith, ltb, length, Bool-cases, inl, inr, ltb→lt, str_eq, eq_iff,
}
use model_deployer.Monitoring.{
  Floats, get_elem?, Fraction, over, calculate_percentile, round_half_even, count_if, was_success,
  was_error, was_hit, report, figures, compute_metrics, compute_list_metrics, Metrics, LogRow,
  no_metrics,
}

div_le : (num den k : ℕ) → 0 < den → num ≤ k * den → num / den ≤ k
div_le num den k pos le = elim (Bool-cases (ltb k (num / den))) [
  | inl q ↦ absurd (omega (arith, mul-le-mul_right den (ltb→lt k (num / den) q)))
  | inr q ↦ ground arith
]

round_up_to : (num den : ℕ) → round_half_even (over num den) ≤ suc (num / den)
unfolding round_half_even
round_up_to num den = elim (Bool-cases (ltb (2 * (num % den)) den)) [
  | inl q ↦ rw q (omega arith)
  | inr q ↦ elim (Bool-cases (ltb den (2 * (num % den)))) [
    | inl r ↦ rw (q, r) (omega arith)
    | inr r ↦ rw (q, r) (omega (arith, mod-lt (num / den) {m = 2} (omega arith)))
  ]
]

round_whole : (num den : ℕ) → 0 < den → num % den ≡ 0 → round_half_even (over num den) ≡ num / den
unfolding round_half_even
round_whole num den pos z =
    let q : ltb (2 * (num % den)) den ≡ true = lt→ltb _ _ (omega arith) in rw q refl

-- A quotient of at most a whole number is rounded to at most that.
pub round_half_even_le :
    (num den k : ℕ) → 0 < den → num ≤ k * den → round_half_even (over num den) ≤ k
round_half_even_le num den k pos le = elim (Bool-cases (ltb (num / den) k)) [
  | inl q ↦ omega (arith, round_up_to num den, ltb→lt _ _ q)
  | inr q ↦
      let h : k ≤ num / den = ground arith in
      let whole : num % den ≡ 0 = omega (arith, mul-le-mul_left den h) in
      omega (arith, round_whole num den pos whole, div_le num den k pos le)
]

count_if_le {ℓ} : {A : Type ℓ} (p : A → Bool) (xs : List A) → count_if p xs ≤ length xs
unfolding count_if
count_if_le p [] = omega arith
count_if_le p (x ∷ xs) = ground (arith, count_if_le p xs)

-- Tests that no item passes both of.
count_if_disjoint {ℓ} :
    {A : Type ℓ} (p q : A → Bool)
    → ((x : A) → p x ≡ true → q x ≡ false)
    → (xs : List A) → count_if p xs + count_if q xs ≤ length xs
unfolding count_if
count_if_disjoint p q h [] = omega arith
count_if_disjoint p q h (x ∷ xs) = ground (arith, h x, count_if_disjoint p q h xs)

success_or_error : (log : LogRow) → was_success log ≡ true → was_error log ≡ false
success_or_error log h =
    subst (λ s. str_eq s "ERROR" ≡ false) (sym ((eq_iff log.status "SUCCESS").0 h)) refl

-- What rounding keeps of the exact results: 95 per cent of a number is not above it, a part is not
-- above the whole, nor above a hundred per cent of it.
pub record Rounded (fl : Floats) : Type 0 where
  pub whole_part_le : (n : ℕ) → fl.whole_part n (over 95 100) ≤ n
  pub divide_le :
      (x y : ℕ)
      → x ≤ y
      → 0 < y
      → (0 < (fl.divide x y).den) × ((fl.divide x y).num ≤ (fl.divide x y).den)
  pub percent_le :
      (x y : ℕ)
      → x ≤ y
      → 0 < y
      → (0 < (fl.percent x y).den) × ((fl.percent x y).num ≤ 100 * (fl.percent x y).den)

get_elem?-some : (xs : List ℕ) (i : ℕ) → i < length xs → (v : ℕ) × (get_elem? xs i ≡ some v)
unfolding get_elem?
get_elem?-some [] i h = absurd (omega arith)
get_elem?-some (x ∷ xs) zero h = (x, refl)
get_elem?-some (x ∷ xs) (suc i) h = get_elem?-some xs i (omega arith)

percentile_exists :
    (fl : Floats) (values : List ℕ)
    → Rounded fl
    → (x : Fraction) × (calculate_percentile fl values (over 95 100) ≡ some x)
unfolding calculate_percentile
percentile_exists fl [] rounded = (over 0 1, refl)
percentile_exists fl (v ∷ []) rounded = (over v 1, refl)
percentile_exists fl (v ∷ w ∷ rest) rounded =
    let values = v ∷ w ∷ rest in
    let f = fl.whole_part (length values - 1) (over 95 100) in
    let (low, el) =
      get_elem?-some values f (omega (arith, rounded.whole_part_le (length values - 1))) in
    elim (Bool-cases (ltb (f + 1) (length values))) [
      | inl q ↦
          (let (high, eh) = get_elem?-some values (f + 1) (ltb→lt _ _ q) in
            (fl.line (length values - 1) (over 95 100) low high, rw (el, q, eh) refl))
      | inr q ↦ (over low 1, rw (el, q) refl)
    ]

-- The counts are those of the rows; no row counts as both a success and an error, and no ratio or
-- rate is above one, which is ten thousand ten-thousandths.
pub record Counted (rows : List LogRow) (m : Metrics) : Type 0 where
  pub total : m.total_requests ≡ length rows
  pub successes : m.success_count ≡ count_if was_success rows
  pub errors : m.error_count ≡ count_if was_error rows
  pub hits : m.cache_hits ≡ count_if was_hit rows
  pub outcomes : m.success_count + m.error_count ≤ m.total_requests
  pub hits_le : m.cache_hits ≤ m.total_requests
  pub ratio_le : m.cache_hit_ratio ≤ 10000
  pub rate_le : m.success_rate ≤ 10000

abbrev Summed : Option Metrics → List LogRow → Type 0
Summed result rows = (m : Metrics) × (result ≡ some m) × Counted rows m

report-Counted :
    (fl : Floats) (row : LogRow) (rest : List LogRow) (average compute : Fraction)
    (lats computes : List ℕ)
    → Rounded fl
    → let rows = row ∷ rest in
      Summed
        (report fl
          (length rows)
          (count_if was_success rows)
          (count_if was_error rows)
          (count_if was_hit rows)
          average
          lats
          compute
          computes)
        rows
unfolding report
report-Counted fl row rest average compute lats computes rounded =
    let rows = row ∷ rest in
    let (x, found) = percentile_exists fl lats rounded in
    let (y, found') = percentile_exists fl computes rounded in
    let (pos, le) =
      rounded.divide_le (count_if was_hit rows) (length rows) (count_if_le was_hit rows)
        (omega arith) in
    let (pos', le') =
      rounded.percent_le (count_if was_success rows) (length rows) (count_if_le was_success rows)
        (omega arith) in
    let hit : Fraction = fl.divide (count_if was_hit rows) (length rows) in
    let share : Fraction = fl.percent (count_if was_success rows) (length rows) in
    (
      figures (length rows) (count_if was_success rows) (count_if was_error rows)
          (count_if was_hit rows) (round_half_even (over (hit.num * 10000) hit.den))
          (round_half_even (over (share.num * 100) share.den)) average x compute y,
      rw (found, found') refl,
      record {
        total = refl;
        successes = refl;
        errors = refl;
        hits = refl;
        outcomes = count_if_disjoint was_success was_error success_or_error rows;
        hits_le = count_if_le was_hit rows;
        ratio_le = round_half_even_le _ _ 10000 pos (omega arith);
        rate_le = round_half_even_le _ _ 10000 pos' (omega arith);
      },
    )

no_metrics-Counted : Counted [] no_metrics
unfolding count_if
no_metrics-Counted = record {
  total = refl;
  successes = refl;
  errors = refl;
  hits = refl;
  outcomes = omega arith;
  hits_le = omega arith;
  ratio_le = omega arith;
  rate_le = omega arith;
}

pub compute_metrics-Counted :
    (fl : Floats) (rows : List LogRow)
    → Rounded fl
    → (m : Metrics) × (compute_metrics fl rows ≡ some m) × Counted rows m
unfolding compute_metrics
compute_metrics-Counted fl [] rounded = (no_metrics, refl, no_metrics-Counted)
compute_metrics-Counted fl (row ∷ rest) rounded = report-Counted fl row rest _ _ _ _ rounded

pub compute_list_metrics-Counted :
    (fl : Floats) (logs : List LogRow)
    → Rounded fl
    → (m : Metrics) × (compute_list_metrics fl logs ≡ some m) × Counted logs m
unfolding compute_list_metrics
compute_list_metrics-Counted fl [] rounded = (no_metrics, refl, no_metrics-Counted)
compute_list_metrics-Counted fl (log ∷ rest) rounded = report-Counted fl log rest _ _ _ _ rounded
