-- ===== src/Billing/Saves.antt =====
-- The two saves with which a debit and a refund end, and that together they are a transfer.
use model_deployer.Base.{
  ℕ, ◌+◌, ◌≡◌, refl, ◌≢◌, bind-eq-some, ap, sym, ◌∙◌, Bool, true, false, none, some, ◌∷◌, arith,
  ◌==◌, Option-cases, inl, inr, Bool-cases, if◌then◌else◌,
}
use model_deployer.Base.Int.{ℤ, pos, ◌+ℤ◌, ◌-ℤ◌, int_laws}
use model_deployer.Base.Dict.{Dict, lookup, insert, lookup-insert}
use model_deployer.Billing.{
  Wallet, LedgerTransaction, Books, Columns, IsWhole, IsExact, save_spent, save_earned,
  create_entry, settle, aliased,
}
use model_deployer.Billing.Posting.{
  spent_by, deposited_by, posted, posted_row, Posts, WholeWallet, shifted, +ℤ-IsWhole, -ℤ-IsWhole,
  if-WholeWallet,
}

module _ (cols : Columns) (exact : IsExact cols) where
  save_spent_lem :
      (user : ℕ) (w row : Wallet) (b b' : Books)
      → WholeWallet w
      → lookup user b.wallets ≡ some row
      → save_spent cols user w b ≡ some b'
      → b' ≡ record b {
        wallets =
            insert user
              (record row { credit_balance = w.credit_balance; lifetime_spent = w.lifetime_spent })
              b.wallets;
      }
  unfolding save_spent
  save_spent_lem user w row b b' h l e =
      grind
        (arith, exact.wallet w.credit_balance, exact.wallet w.lifetime_spent, h.balance, h.spent)

  save_earned_lem :
      (user : ℕ) (w row : Wallet) (b b' : Books)
      → WholeWallet w
      → lookup user b.wallets ≡ some row
      → save_earned cols user w b ≡ some b'
      → b' ≡ record b {
        wallets =
            insert user
              (record row {
                credit_balance = w.credit_balance;
                lifetime_earned = w.lifetime_earned;
              })
              b.wallets;
      }
  unfolding save_earned
  save_earned_lem user w row b b' h l e =
      grind
        (arith, exact.wallet w.credit_balance, exact.wallet w.lifetime_earned, h.balance, h.earned)

  pub create_entry_lem :
      (t : LedgerTransaction) (b b' : Books)
      → IsWhole t.amount
      → create_entry cols t b ≡ some b'
      → b' ≡ record b { ledger = t ∷ b.ledger; next_id = b.next_id + 1 }
  unfolding create_entry
  create_entry_lem t b b' h e = grind (arith, exact.entry t.amount)

add_zero_sub : (a x : ℤ) → a +ℤ pos 0 -ℤ x +ℤ pos 0 ≡ a -ℤ x
add_zero_sub a x = omega int_laws

sub_zero_add : (a x : ℤ) → a +ℤ pos 0 -ℤ pos 0 +ℤ x ≡ a +ℤ x
sub_zero_add a x = omega int_laws

sub_add : (a x : ℤ) → a +ℤ pos 0 -ℤ x +ℤ x ≡ a
sub_add a x = omega int_laws

pub add_zero : (a : ℤ) → a +ℤ pos 0 ≡ a
add_zero a = omega int_laws

pub sub_zero : (a : ℤ) → a -ℤ pos 0 ≡ a
sub_zero a = omega int_laws

sub_add_self : (a d : ℤ) → a -ℤ d +ℤ d ≡ a
sub_add_self a d = omega int_laws

posted-eq-shifted :
    (user consumer creator : ℕ) (d : ℤ) (t : LedgerTransaction) (w : Wallet)
    → (t.consumer ≡ some consumer)
    → (t.creator ≡ some creator)
    → spent_by t.transaction_type t.amount ≡ d
    → deposited_by t.transaction_type t.amount ≡ pos 0
    → posted user t w ≡ shifted (consumer == user) (creator == user) d w
posted-eq-shifted user consumer creator d t w tc tm ts td =
    ground (arith, add_zero w.credit_balance)

settled_row :
    (user consumer creator : ℕ) (cw mw w : Wallet) (d : ℤ)
    → (user ≡ consumer → w ≡ cw)
    → (user ≡ creator → w ≡ mw)
    → let row : Wallet = record cw {
      credit_balance = cw.credit_balance -ℤ d;
      lifetime_spent = cw.lifetime_spent +ℤ d;
    } in
      let mw1 = aliased consumer creator row mw in
      (if user == creator
        then record mw1 {
          credit_balance = mw1.credit_balance +ℤ d;
          lifetime_earned = mw1.lifetime_earned +ℤ d;
        }
        else if user == consumer
        then row
        else w)
      ≡ shifted (consumer == user) (creator == user) d w
settled_row user consumer creator cw mw w d hc hm = ground (
  arith,
  add_zero w.credit_balance,
  sub_zero w.credit_balance,
  sub_add_self w.credit_balance d,
  add_zero (w.credit_balance -ℤ d),
  add_zero w.lifetime_spent,
  add_zero w.lifetime_earned,
)

if_some :
    (a b : Bool) (x y z : Wallet) {v : Wallet}
    → (if a then x else if b then y else z) ≡ v
    → (if a then some x else if b then some y else some z) ≡ some v
if_some true b x y z e = ap some e
if_some false true x y z e = ap some e
if_some false false x y z e = ap some e

pub not_names :
    (other user : ℕ) {v : Wallet} (ws : Dict Wallet)
    → lookup other ws ≡ some v
    → lookup user ws ≡ none
    → (user == other) ≡ false
not_names other user ws f g = elim (Bool-cases (user == other)) [
  | inl e ↦ (let p : other ≡ user = ground arith in cc)
  | inr e ↦ e
]

-- The two rows that are written are the posted ones.
settled_rows :
    (user consumer creator : ℕ) (cw mw : Wallet) (d : ℤ) (t : LedgerTransaction) (ws : Dict Wallet)
    → (t.consumer ≡ some consumer)
    → (t.creator ≡ some creator)
    → spent_by t.transaction_type t.amount ≡ d
    → deposited_by t.transaction_type t.amount ≡ pos 0
    → lookup consumer ws ≡ some cw
    → lookup creator ws ≡ some mw
    → let row : Wallet = record cw {
      credit_balance = cw.credit_balance -ℤ d;
      lifetime_spent = cw.lifetime_spent +ℤ d;
    } in
      let mw1 = aliased consumer creator row mw in
      lookup user (
        insert creator
          (record mw1 {
            credit_balance = mw1.credit_balance +ℤ d;
            lifetime_earned = mw1.lifetime_earned +ℤ d;
          })
          (insert consumer row ws))
      ≡ posted_row user t (lookup user ws)
settled_rows user consumer creator cw mw d t ws tc tm ts td lc lm =
    rw (lookup-insert, lookup-insert)
      (elim (Option-cases (lookup user ws)) [
        | inl missing ↦
            rw missing
              (ground (arith, not_row consumer cw missing lc, not_row creator mw missing lm))
        | inr (w, found) ↦ rw found (
            if_some (user == creator) (user == consumer) _ _ w (
              settled_row user consumer creator cw mw w d (λ e. same_row consumer w cw e found lc)
                (λ e. same_row creator w mw e found lm)
              ∙ sym (posted-eq-shifted user consumer creator d t w tc tm ts td)))
      ])
  where
    not_row :
        (other : ℕ) (v : Wallet) → lookup user ws ≡ none → lookup other ws ≡ some v → user ≢ other
    not_row other v f g = λ e. cc

    same_row :
        (other : ℕ) (w v : Wallet)
        → user ≡ other
        → lookup user ws ≡ some w
        → lookup other ws ≡ some v
        → w ≡ v
    same_row other w v e f g = cc

module _ (cols : Columns) (exact : IsExact cols) (consumer creator : ℕ) where
  -- The rows after the two saves: the second save reads the row that the first has written.
  pub settle_lem :
      (cw' mw' cw mw : Wallet) (t : LedgerTransaction) (b b' : Books)
      → WholeWallet cw'
      → WholeWallet mw'
      → IsWhole t.amount
      → lookup consumer b.wallets ≡ some cw
      → lookup creator b.wallets ≡ some mw
      → settle cols consumer creator cw' mw' t b ≡ some b'
      → let row : Wallet = record cw {
        credit_balance = cw'.credit_balance;
        lifetime_spent = cw'.lifetime_spent;
      } in
        b' ≡ record {
          wallets =
              insert creator
                (record (aliased consumer creator row mw) {
                  credit_balance = mw'.credit_balance;
                  lifetime_earned = mw'.lifetime_earned;
                })
                (insert consumer row b.wallets);
          ledger = t ∷ b.ledger;
          next_id = b.next_id + 1;
        }
  unfolding settle
  settle_lem cw' mw' cw mw t b b' hc hm ht lc lm e =
      let row : Wallet = record cw {
        credit_balance = cw'.credit_balance;
        lifetime_spent = cw'.lifetime_spent;
      } in
      let (b1, e1, r1) = bind-eq-some (save_spent cols consumer cw' b) _ e in
      let (b2, e2, r2) = bind-eq-some (save_earned cols creator mw' b1) _ r1 in
      let p1 = save_spent_lem cols exact consumer cw' cw b b1 hc lc e1 in
      let l2 : lookup creator b1.wallets ≡ some (aliased consumer creator row mw) =
        rw p1 (ground (arith, lookup-insert creator consumer row b.wallets)) in
      let p2 =
        save_earned_lem cols exact creator mw' (aliased consumer creator row mw) b1 b2 hm l2 e2 in
      cc (p1, p2, create_entry_lem cols exact t b2 b' ht r2)

  -- A transfer of `d` credits from consumer to creator, entered as `t`.
  pub settle-Posts :
      (cw mw : Wallet) (d : ℤ) (t : LedgerTransaction) (b b' : Books)
      → (t.consumer ≡ some consumer)
      → (t.creator ≡ some creator)
      → spent_by t.transaction_type t.amount ≡ d
      → deposited_by t.transaction_type t.amount ≡ pos 0
      → lookup consumer b.wallets ≡ some cw
      → lookup creator b.wallets ≡ some mw
      → WholeWallet cw
      → WholeWallet mw
      → IsWhole t.amount
      → IsWhole d
      → let cw' : Wallet = record cw {
        credit_balance = cw.credit_balance -ℤ d;
        lifetime_spent = cw.lifetime_spent +ℤ d;
      } in
        let mw1 = aliased consumer creator cw' mw in
        let mw' : Wallet = record mw1 {
          credit_balance = mw1.credit_balance +ℤ d;
          lifetime_earned = mw1.lifetime_earned +ℤ d;
        } in
        settle cols consumer creator cw' mw' t b ≡ some b' → Posts b t b'
  settle-Posts cw mw d t b b' tc tm ts td lc lm hc hm ht hd e =
      let cw' : Wallet = record cw {
        credit_balance = cw.credit_balance -ℤ d;
        lifetime_spent = cw.lifetime_spent +ℤ d;
      } in
      let mw1 = aliased consumer creator cw' mw in
      let mw' : Wallet = record mw1 {
        credit_balance = mw1.credit_balance +ℤ d;
        lifetime_earned = mw1.lifetime_earned +ℤ d;
      } in
      let wc : WholeWallet cw' = record {
        balance = -ℤ-IsWhole _ _ hc.balance hd;
        earned = hc.earned;
        spent = +ℤ-IsWhole _ _ hc.spent hd;
      } in
      let w1 : WholeWallet mw1 = if-WholeWallet (consumer == creator) wc hm in
      let wm : WholeWallet mw' = record {
        balance = +ℤ-IsWhole _ _ w1.balance hd;
        earned = +ℤ-IsWhole _ _ w1.earned hd;
        spent = w1.spent;
      } in
      let row : Wallet = record cw {
        credit_balance = cw'.credit_balance;
        lifetime_spent = cw'.lifetime_spent;
      } in
      let p = settle_lem cw' mw' cw mw t b b' wc wm ht lc lm e in
      rw p (record {
        entered = refl;
        moved = λ user. settled_rows user consumer creator cw mw d t b.wallets tc tm ts td lc lm;
        known = λ user missing. (
          rw tc (not_names consumer user b.wallets lc missing),
          rw tm (not_names creator user b.wallets lm missing),
        );
      })
