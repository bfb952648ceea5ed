-- ===== src/Billing/Entries.antt =====
-- Every operation on wallets enters one transaction, and moves the wallets as that entry says.
use model_deployer.Base.{
  ℕ, ◌≡◌, refl, bind-eq-some, Bool, true, false, Option, none, some, arith, ◌==◌, if◌then◌else◌,
}
use mathlib.Core.Option.{some-injective}
use model_deployer.Base.Int.{ℤ, pos, ◌+ℤ◌, ◌-ℤ◌, ltb_ℤ}
use model_deployer.Base.Dict.{Dict, lookup, insert, lookup-insert}
use model_deployer.Billing.{
  Wallet, Books, Columns, IsWhole, IsExact, get_or_create, create_entry, charge_entry, refund_entry,
  deposit_entry, charge, settle, debit_credits, refund_credits, deposit_credits,
}
use model_deployer.Billing.Posting.{
  posted_row, Posts, WholeWallet, Whole, +ℤ-IsWhole, neg-IsWhole, sub_neg, add_neg,
}
use model_deployer.Billing.Saves.{create_entry_lem, settle-Posts, not_names, add_zero, sub_zero}

charged_branch :
    (short : Bool) (b : Books) (balance : ℤ) (r : Option ((Option ℕ × ℤ) × Books)) {id : ℕ}
    {balance' : ℤ} {b' : Books}
    → (if short then some ((none, balance), b) else r) ≡ some ((some id, balance'), b')
    → r ≡ some ((some id, balance'), b')
charged_branch true b balance r e = cc
charged_branch false b balance r e = e

same_lookup :
    (j k : ℕ) (v w : Wallet) (ws : Dict Wallet)
    → lookup j ws ≡ some v
    → lookup k ws ≡ some w
    → j ≡ k
    → v ≡ w
same_lookup j k v w ws f g e = cc

deposited_row :
    (user owner : ℕ) (w : Wallet) (amount : ℤ) (ws : Dict Wallet) (id : ℕ)
    → lookup owner ws ≡ some w
    → lookup user (insert owner (record w { credit_balance = w.credit_balance +ℤ amount }) ws)
      ≡ posted_row user (deposit_entry owner amount id) (lookup user ws)
deposited_row user owner w amount ws id found = rw lookup-insert (go (lookup user ws) refl)
  where
    go :
        (row : Option Wallet)
        → lookup user ws ≡ row
        → (if user == owner
            then some (record w { credit_balance = w.credit_balance +ℤ amount })
            else row)
          ≡ posted_row user (deposit_entry owner amount id) row
    go none e = ground (arith, not_names owner user ws found e)
    go (some v) e = ground (
      arith,
      same_lookup user owner v w ws e found,
      sub_zero (w.credit_balance +ℤ amount),
      add_zero (w.credit_balance +ℤ amount),
      sub_zero v.credit_balance,
      add_zero v.credit_balance,
      add_zero v.lifetime_spent,
      add_zero v.lifetime_earned,
    )

module _ (cols : Columns) (exact : IsExact cols) (consumer creator model : ℕ) (amount : ℤ)
    (whole : IsWhole amount) where
  charge-Posts :
      (cw mw : Wallet) (b b' : Books) (id : Option ℕ) (balance : ℤ)
      → lookup consumer b.wallets ≡ some cw
      → lookup creator b.wallets ≡ some mw
      → WholeWallet cw
      → WholeWallet mw
      → charge cols consumer creator model amount cw mw b ≡ some ((id, balance), b')
      → Posts b (charge_entry consumer creator model amount b.next_id) b' × (id ≡ some b.next_id)
  unfolding charge
  charge-Posts cw mw b b' id balance lc lm hc hm e =
      let (b1, e1, r1) = bind-eq-some (settle cols consumer creator _ _ _ b) _ e in
      let same : b1 ≡ b' = cc in
      (
        settle-Posts cols exact consumer creator cw mw amount _ b b' refl refl refl refl lc lm hc hm
            whole whole (rw same at e1),
        cc,
      )

  -- A refund enters one transaction with the reference, and moves every wallet as that entry says,
  -- also where consumer and creator are one user. Amount and wallets are whole ten-thousandths.
  pub refund-Posts :
      (reference : ℕ) (b b' : Books) (id : ℕ)
      → Whole b
      → refund_credits cols consumer creator model amount reference b ≡ some (id, b')
      → Posts b (refund_entry consumer creator model amount reference b.next_id) b'
        × (id ≡ b.next_id)
  unfolding refund_credits
  refund-Posts reference b b' id hb e =
      let (cw, lc, r1) = bind-eq-some (lookup consumer b.wallets) _ e in
      let (mw, lm, r2) = bind-eq-some (lookup creator b.wallets) _ r1 in
      let (b1, e1, r3) = bind-eq-some (settle cols consumer creator _ _ _ b) _ r2 in
      let same : b1 ≡ b' = cc in
      (
        settle-Posts cols exact consumer creator cw mw (pos 0 -ℤ amount) _ b b' refl refl refl refl
            lc lm (hb consumer cw lc) (hb creator mw lm) whole (neg-IsWhole amount whole)
            (simp (sub_neg, add_neg) (rw same at e1)),
        cc,
      )

  -- A debit that goes through enters one charge in the books with the two wallets created, answers
  -- with its id, and moves every wallet as that entry says, also where consumer and creator are one
  -- user. Amount and wallets are whole ten-thousandths.
  pub debit-Posts :
      (starting : ℤ) (b b' : Books) (id : ℕ) (balance : ℤ)
      → let b0 = get_or_create starting creator (get_or_create starting consumer b) in
        Whole b0
        → debit_credits cols starting consumer creator model amount b
          ≡ some ((some id, balance), b')
        → Posts b0 (charge_entry consumer creator model amount b0.next_id) b' × (id ≡ b0.next_id)
  unfolding debit_credits
  debit-Posts starting b b' id balance hb e =
      let b0 = get_or_create starting creator (get_or_create starting consumer b) in
      let (cw, lc, r1) = bind-eq-some (lookup consumer b0.wallets) _ e in
      let (mw, lm, r2) = bind-eq-some (lookup creator b0.wallets) _ r1 in
      let (p, q) =
        charge-Posts cw mw b0 b' (some id) balance lc lm (hb consumer cw lc) (hb creator mw lm)
          (charged_branch (ltb_ℤ cw.credit_balance amount) _ _ _ r2) in
      (p, some-injective _ _ q)

  -- A deposit enters one transaction, and moves the wallet of its user, and no other, by the amount.
  -- Amount and wallets are whole ten-thousandths.
  pub deposit-Posts :
      (starting : ℤ) (b b' : Books) (balance : ℤ)
      → let b0 = get_or_create starting consumer b in
        Whole b0
        → deposit_credits cols starting consumer amount b ≡ some (balance, b')
        → Posts b0 (deposit_entry consumer amount b0.next_id) b'
  unfolding deposit_credits
  deposit-Posts starting b b' balance hb e =
      let b0 = get_or_create starting consumer b in
      let (w, lw, r1) = bind-eq-some (lookup consumer b0.wallets) _ e in
      let (stored, es, r2) = bind-eq-some (cols.wallet _) _ r1 in
      let (b1, e1, r3) = bind-eq-some (create_entry cols _ _) _ r2 in
      let same : b1 ≡ b' = cc in
      let h = hb consumer w lw in
      let exactly = exact.wallet _ stored (+ℤ-IsWhole _ _ h.balance whole) es in
      let p = create_entry_lem cols exact _ _ b' whole (rw same at e1) in
      rw (p, exactly)
        (record {
          entered = refl;
          moved = λ user. deposited_row user consumer w amount b0.wallets b0.next_id lw;
          known = λ user missing. (not_names consumer user b0.wallets lw missing, refl);
        })
