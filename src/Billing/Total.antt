-- ===== src/Billing/Total.antt =====
-- The credits in circulation: the sum of the balances under each operation.
use model_deployer.Base.{
  ℕ, ◌≡◌, Bool, true, false, Option, none, some, [], ◌∷◌, arith, ◌==◌, bind-eq-some, if◌then◌else◌,
}
use model_deployer.Base.Int.{ℤ, pos, ◌+ℤ◌, ◌-ℤ◌, ltb_ℤ, int_laws}
use model_deployer.Base.Dict.{Dict, lookup, insert, lookup-insert}
use model_deployer.Billing.{
  Wallet, LedgerTransaction, Books, Columns, IsWhole, IsExact, get_or_create, refund_entry, aliased,
  settle, charge, debit_credits, refund_credits,
}
use model_deployer.Billing.Posting.{
  Whole, WholeWallet, if-WholeWallet, +ℤ-IsWhole, -ℤ-IsWhole, neg-IsWhole, sub_neg, add_neg,
}
use model_deployer.Billing.Saves.{settle_lem}

abbrev pub total : Dict Wallet → ℤ
total [] = pos 0
total ((_, w) ∷ ws) = w.credit_balance +ℤ total ws

pub total-insert :
    (user : ℕ) (w row : Wallet) (ws : Dict Wallet)
    → lookup user ws ≡ some row
    → total (insert user w ws) +ℤ row.credit_balance ≡ total ws +ℤ w.credit_balance
unfolding lookup insert
total-insert user w row [] e = cc
total-insert user w row ((k, v) ∷ ws) e = grind (int_laws, total-insert user w row ws)

balanced :
    (t0 t1 t2 old mid d : ℤ) → t1 +ℤ old ≡ t0 +ℤ (old -ℤ d) → t2 +ℤ mid ≡ t1 +ℤ (mid +ℤ d) → t2 ≡ t0
balanced t0 t1 t2 old mid d p q = grind int_laws

module _ (cols : Columns) (exact : IsExact cols) (consumer creator : ℕ) where
  -- A transfer of `d` moves credits and makes none.
  total-settle :
      (cw mw : Wallet) (d : ℤ) (t : LedgerTransaction) (b b' : Books)
      → lookup consumer b.wallets ≡ some cw
      → lookup creator b.wallets ≡ some mw
      → WholeWallet cw
      → WholeWallet mw
      → IsWhole t.amount
      → IsWhole d
      → let cw' : Wallet = record cw {
        credit_balance = cw.credit_balance -ℤ d;
        lifetime_spent = cw.lifetime_spent +ℤ d;
      } in
        let mw1 = aliased consumer creator cw' mw in
        let mw' : Wallet = record mw1 {
          credit_balance = mw1.credit_balance +ℤ d;
          lifetime_earned = mw1.lifetime_earned +ℤ d;
        } in
        settle cols consumer creator cw' mw' t b ≡ some b' → total b'.wallets ≡ total b.wallets
  total-settle cw mw d t b b' lc lm hc hm ht hd e =
      let cw' : Wallet = record cw {
        credit_balance = cw.credit_balance -ℤ d;
        lifetime_spent = cw.lifetime_spent +ℤ d;
      } in
      let mw1 = aliased consumer creator cw' mw in
      let mw' : Wallet = record mw1 {
        credit_balance = mw1.credit_balance +ℤ d;
        lifetime_earned = mw1.lifetime_earned +ℤ d;
      } in
      let wc : WholeWallet cw' = record {
        balance = -ℤ-IsWhole _ _ hc.balance hd;
        earned = hc.earned;
        spent = +ℤ-IsWhole _ _ hc.spent hd;
      } in
      let w1 : WholeWallet mw1 = if-WholeWallet (consumer == creator) wc hm in
      let wm : WholeWallet mw' = record {
        balance = +ℤ-IsWhole _ _ w1.balance hd;
        earned = +ℤ-IsWhole _ _ w1.earned hd;
        spent = w1.spent;
      } in
      let p = settle_lem cols exact consumer creator cw' mw' cw mw t b b' wc wm ht lc lm e in
      let l1 : lookup creator (insert consumer cw' b.wallets) ≡ some mw1 =
        ground (arith, lookup-insert creator consumer cw' b.wallets) in
      rw p (
        balanced (total b.wallets) (total (insert consumer cw' b.wallets)) _ cw.credit_balance
          mw1.credit_balance d (total-insert consumer cw' cw b.wallets lc)
          (total-insert creator mw' mw1 (insert consumer cw' b.wallets) l1))

module _ (cols : Columns) (exact : IsExact cols) (consumer creator model : ℕ) (amount : ℤ)
    (whole : IsWhole amount) where
  -- A refund of a whole amount, to wallets of whole amounts, keeps the sum of the balances.
  pub total-refund :
      (reference : ℕ) (b b' : Books) (id : ℕ)
      → Whole b
      → refund_credits cols consumer creator model amount reference b ≡ some (id, b')
      → total b'.wallets ≡ total b.wallets
  unfolding refund_credits
  total-refund reference b b' id hb e =
      let (cw, lc, r1) = bind-eq-some (lookup consumer b.wallets) _ e in
      let (mw, lm, r2) = bind-eq-some (lookup creator b.wallets) _ r1 in
      let (b1, e1, r3) = bind-eq-some (settle cols consumer creator _ _ _ b) _ r2 in
      let same : b1 ≡ b' = cc in
      total-settle cols exact consumer creator cw mw (pos 0 -ℤ amount)
        (refund_entry consumer creator model amount reference b.next_id) b b' lc lm
        (hb consumer cw lc) (hb creator mw lm) whole (neg-IsWhole amount whole)
        (simp (sub_neg, add_neg) (rw same at e1))

  -- A debit of a whole amount, charged or refused, keeps the sum of the balances that the two
  -- wallets' creation has left.
  pub total-debit :
      (starting : ℤ) (b b' : Books) (reply : Option ℕ × ℤ)
      → let b0 = get_or_create starting creator (get_or_create starting consumer b) in
        Whole b0
        → debit_credits cols starting consumer creator model amount b ≡ some (reply, b')
        → total b'.wallets ≡ total b0.wallets
  unfolding debit_credits charge
  total-debit starting b b' reply hb e =
      let b0 = get_or_create starting creator (get_or_create starting consumer b) in
      let (cw, lc, r1) = bind-eq-some (lookup consumer b0.wallets) _ e in
      let (mw, lm, r2) = bind-eq-some (lookup creator b0.wallets) _ r1 in
      go (ltb_ℤ cw.credit_balance amount) cw mw lc lm r2
    where
      go :
          (short : Bool) (cw mw : Wallet)
          → lookup consumer
              (get_or_create starting creator (get_or_create starting consumer b)).wallets
            ≡ some cw
          → lookup creator
              (get_or_create starting creator (get_or_create starting consumer b)).wallets
            ≡ some mw
          → (if short
              then some (
                (none, cw.credit_balance),
                get_or_create starting creator (get_or_create starting consumer b),
              )
              else charge cols consumer creator model amount cw mw
                  (get_or_create starting creator (get_or_create starting consumer b)))
            ≡ some (reply, b')
          → total b'.wallets
            ≡ total (get_or_create starting creator (get_or_create starting consumer b)).wallets
      go true cw mw lc lm p = cc
      go false cw mw lc lm p =
          let b0 = get_or_create starting creator (get_or_create starting consumer b) in
          let (b1, e1, r1) = bind-eq-some (settle cols consumer creator _ _ _ b0) _ p in
          let same : b1 ≡ b' = cc in
          total-settle cols exact consumer creator cw mw amount _ b0 b' lc lm (hb consumer cw lc)
            (hb creator mw lm) whole whole (rw same at e1)
