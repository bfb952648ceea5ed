-- ===== src/Billing/Rounding.antt =====
-- Refunds against charges: a refund undoes a charge, a refund may overdraw the creator, and a
-- refund of half of an odd price makes credits where the database rounds halves up.
use model_deployer.Base.{
  ℕ, ◌+◌, ◌≤◌, ◌≡◌, ◌≢◌, refl, sym, ap, ◌∙◌, Bool, true, false, Option, none, some, arith, ◌==◌,
  ==_refl, ==_ne, ◌-◌, ◌%◌, bind-eq-some,
}
use mathlib.Core.Option.{some-injective}
use model_deployer.Base.Int.{ℤ, pos, ◌+ℤ◌, ◌-ℤ◌, ltb_ℤ, int_laws}
use model_deployer.Base.Dict.{lookup, lookup-insert_ne}
use model_deployer.Billing.{
  Wallet, LedgerTransaction, Books, Columns, IsWhole, IsExact, get_or_create, charge_entry,
  refund_entry, aliased, settle, save_spent, save_earned, create_entry, debit_credits,
  refund_credits,
}
use model_deployer.Billing.Posting.{Whole, posted, posted_row, when}
use model_deployer.Billing.Entries.{debit-Posts, refund-Posts}
use model_deployer.Billing.Audit.{Posts-Whole}
use model_deployer.Billing.Total.{total, total-insert}

wallet_eq :
    {a b c a' b' c' : ℤ}
    → a ≡ a'
    → b ≡ b'
    → c ≡ c'
    → ◌≡◌ {A = Option Wallet}
        (some (record { credit_balance = a; lifetime_earned = b; lifetime_spent = c }))
        (some (record { credit_balance = a'; lifetime_earned = b'; lifetime_spent = c' }))
wallet_eq p q r = cc

undone_row :
    (user consumer creator model reference i j : ℕ) (amount : ℤ) (row : Option Wallet)
    → posted_row user
        (refund_entry consumer creator model amount reference j)
        (posted_row user (charge_entry consumer creator model amount i) row)
      ≡ row
undone_row user consumer creator model reference i j amount none = refl
undone_row user consumer creator model reference i j amount (some w) =
    go (user == consumer) (user == creator)
  where
    back : Bool → Bool → Wallet
    back s e = record {
      credit_balance =
          w.credit_balance
          +ℤ when s (pos 0)
          -ℤ when s amount
          +ℤ when e amount
          +ℤ when s (pos 0)
          -ℤ when s (pos 0 -ℤ amount)
          +ℤ when e (pos 0 -ℤ amount);
      lifetime_earned = w.lifetime_earned +ℤ when e amount +ℤ when e (pos 0 -ℤ amount);
      lifetime_spent = w.lifetime_spent +ℤ when s amount +ℤ when s (pos 0 -ℤ amount);
    }

    go : (s e : Bool) → some (back s e) ≡ some w
    go true true = wallet_eq (omega int_laws) (omega int_laws) (omega int_laws)
    go true false = wallet_eq (omega int_laws) (omega int_laws) (omega int_laws)
    go false true = wallet_eq (omega int_laws) (omega int_laws) (omega int_laws)
    go false false = wallet_eq (omega int_laws) (omega int_laws) (omega int_laws)

below : (x a : ℤ) → ltb_ℤ x a ≡ true → ltb_ℤ (x +ℤ pos 0 -ℤ pos 0 +ℤ (pos 0 -ℤ a)) (pos 0) ≡ true
below x a h = grind int_laws

module _ (cols : Columns) (exact : IsExact cols) (consumer creator model : ℕ) (amount : ℤ)
    (whole : IsWhole amount) where
  -- A charge that is refunded in full at once leaves every wallet as it was before the charge (with
  -- the two wallets created); amounts and wallets are whole ten-thousandths.
  pub lookup-refund-debit :
      (starting balance : ℤ) (b b' b'' : Books) (id refund_id : ℕ)
      → let b0 = get_or_create starting creator (get_or_create starting consumer b) in
        Whole b0
        → debit_credits cols starting consumer creator model amount b
          ≡ some ((some id, balance), b')
        → refund_credits cols consumer creator model amount id b' ≡ some (refund_id, b'')
        → (user : ℕ) → lookup user b''.wallets ≡ lookup user b0.wallets
  lookup-refund-debit starting balance b b' b'' id refund_id hb e f user =
      let (p, q) =
        debit-Posts cols exact consumer creator model amount whole starting b b' id balance hb e in
      let (r, s) =
        refund-Posts cols exact consumer creator model amount whole id b' b'' refund_id
          (Posts-Whole starting _ b' _ whole p hb) f in
      r.moved user
      ∙ rw (p.moved user) (
          undone_row user consumer creator model id
            (get_or_create starting creator (get_or_create starting consumer b)).next_id b'.next_id
            amount _)

  -- A refund between two users does not look at the creator's balance: one below the refunded amount
  -- becomes negative. Amount and wallets are whole ten-thousandths.
  pub refund_overdraws :
      (reference id : ℕ) (mw : Wallet) (b b' : Books)
      → Whole b
      → consumer ≢ creator
      → lookup creator b.wallets ≡ some mw
      → ltb_ℤ mw.credit_balance amount ≡ true
      → refund_credits cols consumer creator model amount reference b ≡ some (id, b')
      → (w : Wallet) × (lookup creator b'.wallets ≡ some w)
        × (ltb_ℤ w.credit_balance (pos 0) ≡ true)
  refund_overdraws reference id mw b b' hb ne lm short e =
      let (p, q) =
        refund-Posts cols exact consumer creator model amount whole reference b b' id hb e in
      (
        posted creator (refund_entry consumer creator model amount reference b.next_id) mw,
        p.moved creator ∙ rw lm refl,
        overdrawn,
      )
    where
      overdrawn :
          ltb_ℤ
            (posted creator
              (refund_entry consumer creator model amount reference b.next_id)
              mw).credit_balance
            (pos 0)
          ≡ true
      overdrawn =
          let h : (creator == consumer) ≡ false = ground arith in
          rw (h, ==_refl creator) (below mw.credit_balance amount short)

-- What PostgreSQL documents of a numeric column: a value with more digits is rounded, and a half
-- goes away from zero.
pub record RoundsHalfUp (cols : Columns) : Type 0 where
  pub wallet : (n : ℕ) → cols.wallet (pos n) ≡ some (pos (n + n % 2))

module _ (cols : Columns) where
  total-save_spent :
      (user : ℕ) (w row : Wallet) (stored : ℤ) (b b' : Books)
      → cols.wallet w.credit_balance ≡ some stored
      → lookup user b.wallets ≡ some row
      → save_spent cols user w b ≡ some b'
      → (total b'.wallets +ℤ row.credit_balance ≡ total b.wallets +ℤ stored)
        × ((other : ℕ) → other ≢ user → lookup other b'.wallets ≡ lookup other b.wallets)
  unfolding save_spent
  total-save_spent user w row stored b b' es l e =
      let (x, ex, r1) = bind-eq-some (cols.wallet w.credit_balance) _ e in
      let (y, ey, r2) = bind-eq-some (cols.wallet w.lifetime_spent) _ r1 in
      let (z, ez, r3) = bind-eq-some (lookup user b.wallets) _ r2 in
      let px : x ≡ stored = cc in
      let new : Wallet = record z { credit_balance = x; lifetime_spent = y } in
      rw (← some-injective _ _ r3) (
        rw (← px) (total-insert user new row b.wallets l),
        λ other ne. lookup-insert_ne other user new b.wallets ne,
      )

  total-save_earned :
      (user : ℕ) (w row : Wallet) (stored : ℤ) (b b' : Books)
      → cols.wallet w.credit_balance ≡ some stored
      → lookup user b.wallets ≡ some row
      → save_earned cols user w b ≡ some b'
      → total b'.wallets +ℤ row.credit_balance ≡ total b.wallets +ℤ stored
  unfolding save_earned
  total-save_earned user w row stored b b' es l e =
      let (x, ex, r1) = bind-eq-some (cols.wallet w.credit_balance) _ e in
      let (y, ey, r2) = bind-eq-some (cols.wallet w.lifetime_earned) _ r1 in
      let (z, ez, r3) = bind-eq-some (lookup user b.wallets) _ r2 in
      let px : x ≡ stored = cc in
      let new : Wallet = record z { credit_balance = x; lifetime_earned = y } in
      rw (← some-injective _ _ r3) (rw (← px) (total-insert user new row b.wallets l))

  rounded_up :
      (x a : ℕ) (v : ℤ)
      → RoundsHalfUp cols
      → v ≡ pos x
      → x % 2 ≡ 0
      → a % 2 ≡ 1
      → cols.wallet (v +ℤ pos a) ≡ some (pos (x + a + 1))
  unfolding ◌+ℤ◌
  rounded_up x a v r e hx ha = rw e (ground (arith, r.wallet (x + a)))

  rounded_down :
      (x a : ℕ) (v : ℤ)
      → RoundsHalfUp cols
      → v ≡ pos x
      → x % 2 ≡ 0
      → a % 2 ≡ 1
      → a ≤ x
      → cols.wallet (v -ℤ pos a) ≡ some (pos (x - a + 1))
  unfolding ◌-ℤ◌
  rounded_down x a v r e hx ha le = rw e (ground (arith, r.wallet (x - a)))

two_saves :
    (t0 t1 t2 x y p q : ℤ) → t1 +ℤ x ≡ t0 +ℤ p → t2 +ℤ y ≡ t1 +ℤ q → t2 +ℤ x +ℤ y ≡ t0 +ℤ p +ℤ q
two_saves t0 t1 t2 x y p q h k = grind int_laws

total-settle_stored :
    (cols : Columns) (consumer creator : ℕ) (cw' mw' cw mw : Wallet) (p q : ℤ)
    (t : LedgerTransaction) (b b' : Books)
    → consumer ≢ creator
    → cols.wallet cw'.credit_balance ≡ some p
    → cols.wallet mw'.credit_balance ≡ some q
    → lookup consumer b.wallets ≡ some cw
    → lookup creator b.wallets ≡ some mw
    → settle cols consumer creator cw' mw' t b ≡ some b'
    → total b'.wallets +ℤ cw.credit_balance +ℤ mw.credit_balance ≡ total b.wallets +ℤ p +ℤ q
unfolding settle create_entry
total-settle_stored cols consumer creator cw' mw' cw mw p q t b b' ne hp hq lc lm e =
    let (b1, e1, s1) = bind-eq-some (save_spent cols consumer cw' b) _ e in
    let (b2, e2, s2) = bind-eq-some (save_earned cols creator mw' b1) _ s1 in
    let (amount, ea, s3) = bind-eq-some (cols.entry t.amount) _ s2 in
    let (t1, other) = total-save_spent cols consumer cw' cw p b b1 hp lc e1 in
    let t2 =
      total-save_earned cols creator mw' mw q b1 b2 hq (other creator (λ h. ne (sym h)) ∙ lm) e2 in
    let same : b2.wallets ≡ b'.wallets = ap (λ (t : Books). t.wallets) (some-injective _ _ s3) in
    rw (← same) (two_saves (total b.wallets) (total b1.wallets) (total b2.wallets) _ _ p q t1 t2)

minted :
    (x y a : ℕ) (t0 t2 bx by : ℤ)
    → a ≤ y
    → bx ≡ pos x
    → by ≡ pos y
    → t2 +ℤ bx +ℤ by ≡ t0 +ℤ pos (x + a + 1) +ℤ pos (y - a + 1)
    → t2 ≡ t0 +ℤ pos 2
minted x y a t0 t2 bx by le p q r = grind int_laws

module _ (cols : Columns) (r : RoundsHalfUp cols) (consumer creator model a x y reference : ℕ)
    (cw mw : Wallet) (b b' : Books) where
  mints_with :
      (t : LedgerTransaction)
      → consumer ≢ creator
      → lookup consumer b.wallets ≡ some cw
      → lookup creator b.wallets ≡ some mw
      → cw.credit_balance ≡ pos x
      → x % 2 ≡ 0
      → mw.credit_balance ≡ pos y
      → y % 2 ≡ 0
      → a % 2 ≡ 1
      → a ≤ y
      → let cw' : Wallet = record cw {
        credit_balance = cw.credit_balance +ℤ pos a;
        lifetime_spent = cw.lifetime_spent -ℤ pos a;
      } in
        let mw1 = aliased consumer creator cw' mw in
        let mw' : Wallet = record mw1 {
          credit_balance = mw1.credit_balance -ℤ pos a;
          lifetime_earned = mw1.lifetime_earned -ℤ pos a;
        } in
        settle cols consumer creator cw' mw' t b ≡ some b'
        → total b'.wallets ≡ total b.wallets +ℤ pos 2
  mints_with t ne lc lm ec hx em hy ha le e =
      minted x y a (total b.wallets) (total b'.wallets) cw.credit_balance mw.credit_balance le ec em
        (total-settle_stored cols consumer creator
          (record cw {
            credit_balance = cw.credit_balance +ℤ pos a;
            lifetime_spent = cw.lifetime_spent -ℤ pos a;
          })
          (record mw {
            credit_balance = mw.credit_balance -ℤ pos a;
            lifetime_earned = mw.lifetime_earned -ℤ pos a;
          })
          cw mw _ _ t b b' ne (rounded_up cols x a cw.credit_balance r ec hx ha)
          (rounded_down cols y a mw.credit_balance r em hy ha le) lc lm
          (rw (==_ne consumer creator ne) at e))

  -- A refund of an odd number of half ten-thousandths between two users, whose balances are whole
  -- and are rounded half up, adds one ten-thousandth (two units) to the sum of the balances.
  pub refund_mints :
      (id : ℕ)
      → consumer ≢ creator
      → lookup consumer b.wallets ≡ some cw
      → lookup creator b.wallets ≡ some mw
      → cw.credit_balance ≡ pos x
      → x % 2 ≡ 0
      → mw.credit_balance ≡ pos y
      → y % 2 ≡ 0
      → a % 2 ≡ 1
      → a ≤ y
      → refund_credits cols consumer creator model (pos a) reference b ≡ some (id, b')
      → total b'.wallets ≡ total b.wallets +ℤ pos 2
  unfolding refund_credits
  refund_mints id ne lc lm ec hx em hy ha le e =
      let (b1, e1, r1) =
        bind-eq-some (settle cols consumer creator _ _ _ b) _ (rw lm at (rw lc at e)) in
      let same : b1 ≡ b' = ap (λ (t : ℕ × Books). t.1) (some-injective _ _ r1) in
      mints_with (refund_entry consumer creator model (pos a) reference b.next_id) ne lc lm ec hx em
        hy ha le (rw same at e1)
