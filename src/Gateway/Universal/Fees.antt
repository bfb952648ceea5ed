-- ===== src/Gateway/Universal/Fees.antt =====
-- What a request to the paid endpoint costs, on every path through it.
use model_deployer.Base.{
  ℕ, ◌*◌, ◌≡◌, ◌≢◌, refl, sym, ap, ◌∙◌, Bool, true, false, Option, none, some, List, ◌∷◌, arith,
  ◌==◌, not, leb, Option-cases, inl, inr, if◌then◌else◌,
}
use mathlib.Core.Option.{some-injective}
use model_deployer.Base.Int.{ℤ, pos, ◌+ℤ◌, ◌-ℤ◌, int_laws}
use model_deployer.Base.Dict.{lookup}
use model_deployer.Billing.{
  Wallet, Books, IsWhole, IsExact, get_or_create, charge_entry, refund_entry, debit_credits,
  refund_credits,
}
use model_deployer.Billing.Posting.{Whole, Posts, posted_row, when, shifted}
use model_deployer.Billing.Entries.{debit-Posts, refund-Posts}
use model_deployer.Billing.Audit.{Posts-Whole}
use model_deployer.Manifest.{Instance}
use model_deployer.Gateway.{
  Model, Served, Call, replied, timeout, connection_error, failure, Response, error_response, body,
  insufficient_credits, raised, inference_failed, State, has_runner, cache_get, cache_set,
}
use model_deployer.Gateway.Universal.{
  Service, full_price, discount, is_free, log, refund_if, serve_hit, serve_failure, serve_cold,
  serve, reserve,
}

-- The wallet of a user after a payment of `fee` from consumer to creator.
abbrev pub paid_row : Bool → Bool → ℤ → Option Wallet → Option Wallet
paid_row spends earns fee none = none
paid_row spends earns fee (some w) = some (shifted spends earns fee w)

-- What goes back of the full price of a call: all of it for a failed one.
abbrev pub cold_back : {D : Type 0} → Model → Call D → ℤ
cold_back m (replied code _) = if leb 400 code then full_price m else pos 0
cold_back m _ = full_price m

-- What goes back in all: half the price for a cached result.
abbrev pub given_back : {D : Type 0} → Model → Option D → Call D → ℤ
given_back m (some _) call = discount m
given_back m none call = cold_back m call

full_price-IsWhole : (c : ℕ) → IsWhole (pos (2 * c))
full_price-IsWhole c = omega arith

wallet_eq :
    {a b c a' b' c' : ℤ}
    → a ≡ a'
    → b ≡ b'
    → c ≡ c'
    → ◌≡◌ {A = Option Wallet}
        (some (record { credit_balance = a; lifetime_earned = b; lifetime_spent = c }))
        (some (record { credit_balance = a'; lifetime_earned = b'; lifetime_spent = c' }))
wallet_eq p q r = cc

charged_row :
    (user consumer creator model i : ℕ) (a : ℤ) (row : Option Wallet)
    → posted_row user (charge_entry consumer creator model a i) row
      ≡ paid_row (user == consumer) (user == creator) (a -ℤ pos 0) row
charged_row user consumer creator model i a none = refl
charged_row user consumer creator model i a (some w) = go (user == consumer) (user == creator)
  where
    go :
        (s e : Bool)
        → some (record {
          credit_balance = w.credit_balance +ℤ when s (pos 0) -ℤ when s a +ℤ when e a;
          lifetime_earned = w.lifetime_earned +ℤ when e a;
          lifetime_spent = w.lifetime_spent +ℤ when s a;
        })
          ≡ some (shifted s e (a -ℤ pos 0) w)
    go true true = wallet_eq (omega int_laws) (omega int_laws) (omega int_laws)
    go true false = wallet_eq (omega int_laws) (omega int_laws) (omega int_laws)
    go false true = wallet_eq (omega int_laws) (omega int_laws) (omega int_laws)
    go false false = wallet_eq (omega int_laws) (omega int_laws) (omega int_laws)

refunded_row :
    (user consumer creator model tx i j : ℕ) (a h : ℤ) (row : Option Wallet)
    → posted_row user
        (refund_entry consumer creator model h tx j)
        (posted_row user (charge_entry consumer creator model a i) row)
      ≡ paid_row (user == consumer) (user == creator) (a -ℤ h) row
refunded_row user consumer creator model tx i j a h none = refl
refunded_row user consumer creator model tx i j a h (some w) =
    go (user == consumer) (user == creator)
  where
    go :
        (s e : Bool)
        → some (record {
          credit_balance =
              w.credit_balance
              +ℤ when s (pos 0)
              -ℤ when s a
              +ℤ when e a
              +ℤ when s (pos 0)
              -ℤ when s (pos 0 -ℤ h)
              +ℤ when e (pos 0 -ℤ h);
          lifetime_earned = w.lifetime_earned +ℤ when e a +ℤ when e (pos 0 -ℤ h);
          lifetime_spent = w.lifetime_spent +ℤ when s a +ℤ when s (pos 0 -ℤ h);
        })
          ≡ some (shifted s e (a -ℤ h) w)
    go true true = wallet_eq (omega int_laws) (omega int_laws) (omega int_laws)
    go true false = wallet_eq (omega int_laws) (omega int_laws) (omega int_laws)
    go false true = wallet_eq (omega int_laws) (omega int_laws) (omega int_laws)
    go false false = wallet_eq (omega int_laws) (omega int_laws) (omega int_laws)

module _ {D V : Type 0} (v : Service D V) (exact : IsExact v.cols) (user : ℕ) (m : Model)
    (d : Served) where
  -- The wallets of `b'` are those of `b0` after a payment of the price less `back`.
  abbrev pub Paid : ℤ → Books → Books → Type 0
  Paid back b0 b' =
      (other : ℕ)
      → lookup other b'.wallets
        ≡ paid_row (other == user) (other == m.owner) (full_price m -ℤ back)
            (lookup other b0.wallets)

  abbrev Charged : Books → ℕ → Books → Type 0
  Charged b0 i b = Posts b0 (charge_entry user m.owner m.id (full_price m) i) b × Whole b

  Charged-Paid : (b0 b : Books) (i : ℕ) → Charged b0 i b → Paid (pos 0) b0 b
  Charged-Paid b0 b i (p, w) other =
      p.moved other ∙ charged_row other user m.owner m.id i (full_price m) (lookup other b0.wallets)

  refund_if-Paid :
      (tx i : ℕ) (h : ℤ) (b0 b b' : Books)
      → IsWhole h
      → Charged b0 i b
      → refund_if v (some tx) user m h b ≡ some b'
      → Paid h b0 b'
  unfolding refund_if
  refund_if-Paid tx i h b0 b b' wh (p, w) e =
      go (refund_credits v.cols user m.owner m.id h tx b) refl e
    where
      go :
          (o : Option (ℕ × Books))
          → refund_credits v.cols user m.owner m.id h tx b ≡ o
          → ◌≡◌ {A = Option Books} (elim o [ none ↦ none | some (_, b1) ↦ some b1 ]) (some b')
          → Paid h b0 b'
      go none q e = cc
      go (some (id, b1)) q e = λ other.
          let r = (refund-Posts v.cols exact user m.owner m.id h wh tx b b1 id w q).0 in
          let same : b1 ≡ b' = some-injective _ _ e in
          rw (← same) (
            r.moved other
            ∙ rw (p.moved other) (
                refunded_row other user m.owner m.id tx i b.next_id (full_price m) h
                  (lookup other b0.wallets)))

  -- What a handler that starts with a refund replies.
  raised_first :
      (resp : Response D) (s s' : State D) {A : Type 0}
      → ◌≡◌ {A = Response D × State D} (raised, s) (resp, s')
      → resp ≢ raised
      → A
  raised_first resp s s' e ne = absurd (ne (sym (ap (λ r. r.0) e)))

  serve_hit-Paid :
      (tx i : ℕ) (output : D) (s s' : State D) (resp : Response D) (b0 : Books)
      → IsWhole (discount m)
      → Charged b0 i s.books
      → serve_hit v (some tx) user m d output s ≡ (resp, s')
      → resp ≢ raised
      → Paid (discount m) b0 s'.books
  unfolding serve_hit
  serve_hit-Paid tx i output s s' resp b0 wh c e ne =
      elim (Option-cases (refund_if v (some tx) user m (discount m) s.books)) [
        | inl q ↦ raised_first resp s s' (rw (serve_hit, q) at e) ne
        | inr (b, q) ↦
            (let p : b ≡ s'.books = ap (λ r. r.1.books) (rw (serve_hit, q) at e) in
              rw (← p) (refund_if-Paid tx i (discount m) b0 s.books b wh c q))
      ]

  serve_failure-Paid :
      (tx i : ℕ) (c : Call D) (s s' : State D) (resp : Response D) (b0 : Books)
      → IsWhole (full_price m)
      → Charged b0 i s.books
      → serve_failure v (some tx) user m d c s ≡ (resp, s')
      → resp ≢ raised
      → Paid (full_price m) b0 s'.books
  unfolding serve_failure
  serve_failure-Paid tx i c s s' resp b0 wh k e ne =
      elim (Option-cases (refund_if v (some tx) user m (full_price m) s.books)) [
        | inl q ↦ raised_first resp s s' (rw (serve_failure, q) at e) ne
        | inr (b, q) ↦
            (let p : b ≡ s'.books = kept c b (rw (serve_failure, q) at e) in
              rw (← p) (refund_if-Paid tx i (full_price m) b0 s.books b wh k q))
      ]
    where
      kept :
          (c : Call D) (b : Books)
          → ◌≡◌ {A = Response D × State D}
              (elim c [
                | replied code output ↦ (
                  body code output,
                  record s {
                    books = b;
                    logs = log v user m d (some output) false false true ∷ s.logs;
                  },
                )
                | _ ↦ (error_response 500 inference_failed, record s { books = b })
              ])
              (resp, s')
          → b ≡ s'.books
      kept (replied code output) b e = ap (λ r. r.1.books) e
      kept timeout b e = ap (λ r. r.1.books) e
      kept connection_error b e = ap (λ r. r.1.books) e
      kept failure b e = ap (λ r. r.1.books) e

  serve_cold-Paid :
      (tx i key : ℕ) (s s' : State D) (resp : Response D) (b0 : Books)
      → IsWhole (full_price m)
      → Charged b0 i s.books
      → serve_cold v (some tx) user m d key s ≡ (resp, s')
      → resp ≢ raised
      → Paid (cold_back m v.call) b0 s'.books
  unfolding serve_cold
  serve_cold-Paid tx i key s s' resp b0 wh k e ne = go (has_runner m.framework) v.call e
    where
      answered :
          (late : Bool) (code : ℕ) (output : D)
          → ◌≡◌ {A = Response D × State D}
              (if late then serve_failure v (some tx) user m d (replied code output) s else (
                body code output,
                record s {
                  cache = cache_set v.cache_writable key output s.cache;
                  logs = log v user m d (some output) false true true ∷ s.logs;
                },
              ))
              (resp, s')
          → Paid (if late then full_price m else pos 0) b0 s'.books
      answered true code output e =
          serve_failure-Paid tx i (replied code output) s s' resp b0 wh k e ne
      answered false code output e =
          let p : s.books ≡ s'.books = ap (λ r. r.1.books) e in
          rw (← p) (Charged-Paid b0 s.books i k)

      go :
          (ok : Bool) (c : Call D)
          → ◌≡◌ {A = Response D × State D}
              (if not ok then (raised, s) else elim c [
                | replied code output ↦
                    if leb 400 code
                    then serve_failure v (some tx) user m d (replied code output) s
                    else (
                      body code output,
                      record s {
                        cache = cache_set v.cache_writable key output s.cache;
                        logs = log v user m d (some output) false true true ∷ s.logs;
                      },
                    )
                | timeout ↦ serve_failure v (some tx) user m d timeout s
                | connection_error ↦ serve_failure v (some tx) user m d connection_error s
                | failure ↦ serve_failure v (some tx) user m d failure s
              ])
              (resp, s')
          → Paid (cold_back m c) b0 s'.books
      go false c e = raised_first resp s s' e ne
      go true (replied code output) e = answered (leb 400 code) code output e
      go true timeout e = serve_failure-Paid tx i timeout s s' resp b0 wh k e ne
      go true connection_error e = serve_failure-Paid tx i connection_error s s' resp b0 wh k e ne
      go true failure e = serve_failure-Paid tx i failure s s' resp b0 wh k e ne

  serve-Paid :
      (tx i : ℕ) (rows : List (Instance V)) (s s' : State D) (resp : Response D) (b0 : Books)
      → IsWhole (discount m)
      → Charged b0 i s.books
      → serve v (some tx) user m d rows s ≡ (resp, s')
      → resp ≢ raised
      → Paid
          (given_back m
            (cache_get v.cache_readable (v.key m.id d.model_version rows) s.cache)
            v.call)
          b0
          s'.books
  unfolding serve
  serve-Paid tx i rows s s' resp b0 wh k e ne =
      go (cache_get v.cache_readable (v.key m.id d.model_version rows) s.cache) e
    where
      go :
          (o : Option D)
          → ◌≡◌ {A = Response D × State D}
              (elim o [
                | some output ↦ serve_hit v (some tx) user m d output s
                | none ↦ serve_cold v (some tx) user m d (v.key m.id d.model_version rows) s
              ])
              (resp, s')
          → Paid (given_back m o v.call) b0 s'.books
      go (some output) e = serve_hit-Paid tx i output s s' resp b0 wh k e ne
      go none e =
          serve_cold-Paid tx i (v.key m.id d.model_version rows) s s' resp b0
            (full_price-IsWhole m.cost_per_run) k e ne

  -- A paid request that is served costs the consumer, and brings the model's owner, the full price
  -- less what is given back: half for a cached result, all for a call that failed or answered 400
  -- or above, and nothing for any other; no other wallet moves. The price is even in ten-thousandths,
  -- the wallets hold whole ones, and the answer is neither the 402 nor an exception.
  pub reserve-Paid :
      (rows : List (Instance V)) (s s' : State D) (resp : Response D)
      → IsWhole (discount m)
      → is_free v.billing_enabled user m ≡ false
      → let b0 = get_or_create v.starting m.owner (get_or_create v.starting user s.books) in
        Whole b0
        → reserve v user m d rows s ≡ (resp, s')
        → resp ≢ raised
        → resp ≢ insufficient_credits
        → Paid
            (given_back m
              (cache_get v.cache_readable (v.key m.id d.model_version rows) s.cache)
              v.call)
            b0
            s'.books
  unfolding reserve
  reserve-Paid rows s s' resp wh paid hb e ne poor =
      go (debit_credits v.cols v.starting user m.owner m.id (full_price m) s.books) refl
        (rw (reserve, paid) at e)
    where
      b0 : Books
      b0 = get_or_create v.starting m.owner (get_or_create v.starting user s.books)

      go :
          (o : Option ((Option ℕ × ℤ) × Books))
          → debit_credits v.cols v.starting user m.owner m.id (full_price m) s.books ≡ o
          → ◌≡◌ {A = Response D × State D}
              (elim o [
                | none ↦ (raised, s)
                | some ((none, _), b) ↦ (insufficient_credits, record s { books = b })
                | some ((some tx, _), b) ↦ serve v (some tx) user m d rows (record s { books = b })
              ])
              (resp, s')
          → Paid
              (given_back m
                (cache_get v.cache_readable (v.key m.id d.model_version rows) s.cache)
                v.call)
              b0
              s'.books
      go none q e = raised_first resp s s' e ne
      go (some ((none, _), b)) q e = absurd (poor (sym (ap (λ r. r.0) e)))
      go (some ((some tx, balance), b)) q e =
          let (p, same) =
            debit-Posts v.cols exact user m.owner m.id (full_price m)
              (full_price-IsWhole m.cost_per_run) v.starting s.books b tx balance hb q in
          serve-Paid tx b0.next_id rows (record s { books = b }) s' resp b0 wh
            (p, Posts-Whole v.starting b0 b _ (full_price-IsWhole m.cost_per_run) p hb) e ne

  -- `get_runner` is called after the debit and outside the `try`: a paid request for a model with an
  -- unsupported framework, which misses the cache, ends in an exception and keeps the full price.
  pub reserve_unsupported :
      (rows : List (Instance V)) (s : State D) (tx : ℕ) (balance : ℤ) (b : Books)
      → is_free v.billing_enabled user m ≡ false
      → has_runner m.framework ≡ false
      → cache_get v.cache_readable (v.key m.id d.model_version rows) s.cache ≡ none
      → let b0 = get_or_create v.starting m.owner (get_or_create v.starting user s.books) in
        Whole b0
        → debit_credits v.cols v.starting user m.owner m.id (full_price m) s.books
          ≡ some ((some tx, balance), b)
        → (reserve v user m d rows s ≡ (raised, record s { books = b })) × Paid (pos 0) b0 b
  unfolding reserve serve serve_cold
  reserve_unsupported rows s tx balance b paid unsupported miss hb q =
      let b0 = get_or_create v.starting m.owner (get_or_create v.starting user s.books) in
      let (p, same) =
        debit-Posts v.cols exact user m.owner m.id (full_price m)
          (full_price-IsWhole m.cost_per_run) v.starting s.books b tx balance hb q in
      (
        rw (paid, q, serve, miss, serve_cold, unsupported) refl,
        Charged-Paid b0 b b0.next_id
            (p, Posts-Whole v.starting b0 b _ (full_price-IsWhole m.cost_per_run) p hb),
      )

module _ {D V : Type 0} (v : Service D V) where
  -- A request of the model's owner, of a model without a price, or with billing switched off
  -- leaves the books as they are, whatever the call does.
  pub reserve_free :
      (user : ℕ) (m : Model) (d : Served) (rows : List (Instance V)) (s : State D)
      → is_free v.billing_enabled user m ≡ true
      → (reserve v user m d rows s).1.books ≡ s.books
  unfolding reserve serve serve_hit serve_cold serve_failure refund_if
  reserve_free user m d rows s free = rw free (ground arith)

  -- A refused debit answers 402, and nothing is served: the logs and the cache stay, and the
  -- debit's books are kept.
  pub reserve_poor :
      (user : ℕ) (m : Model) (d : Served) (rows : List (Instance V)) (s : State D) (balance : ℤ)
      (b : Books)
      → is_free v.billing_enabled user m ≡ false
      → debit_credits v.cols v.starting user m.owner m.id (full_price m) s.books
        ≡ some ((none, balance), b)
      → reserve v user m d rows s ≡ (insufficient_credits, record s { books = b })
  unfolding reserve
  reserve_poor user m d rows s balance b paid q = rw (paid, q) refl
