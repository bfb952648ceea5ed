-- ===== src/Billing.antt =====
-- billing/models.py, billing/views.py, billing/signals.py, and `_debit_credits` and
-- `_refund_credits` of prediction_gateway/views.py.
--
-- An amount of credits is an integer of half ten-thousandths (0.00005 credits): the columns hold
-- four decimal places, and the cache discount halves a price. `starting` is
-- BILLING_STARTING_CREDITS. A column is the database's: it stores a number, rounded to four
-- places, or raises. A raised exception is `none`, and the caller's state is then kept, since
-- every operation runs in one transaction.
pub mod Posting
pub mod Saves
pub mod Entries
pub mod Audit
pub mod Total
pub mod Rounding
use model_deployer.Base.{
  ℕ, ◌+◌, ◌%◌, ◌≡◌, Bool, not, ◌||◌, Option, none, some, List, ◌∷◌, ◌==◌, ◌>>=◌, if◌then◌else◌,
}
use model_deployer.Base.Int.{ℤ, pos, pos_part, neg_part, ◌+ℤ◌, ◌-ℤ◌, ltb_ℤ}
use model_deployer.Base.Dict.{Dict, lookup, insert}

pub record Wallet : Type 0 where
  pub credit_balance : ℤ
  pub lifetime_earned : ℤ
  pub lifetime_spent : ℤ

pub data TransactionType : Type 0 where
  inference refund deposit : TransactionType

-- Without its description and its time.
pub record LedgerTransaction : Type 0 where
  pub id : ℕ
  pub reference_id : Option ℕ
  pub consumer : Option ℕ
  pub creator : Option ℕ
  pub model : Option ℕ
  pub transaction_type : TransactionType
  pub amount : ℤ

-- Wallets by their user (the relation is one-to-one), and the ledger with the newest entry first.
-- `next_id` stands for the `uuid4` that the next entry takes.
pub record Books : Type 0 where
  pub wallets : Dict Wallet
  pub ledger : List LedgerTransaction
  pub next_id : ℕ

-- The decimal columns of a wallet (12 digits) and of a ledger entry (10 digits).
pub record Columns : Type 0 where
  pub wallet : ℤ → Option ℤ
  pub entry : ℤ → Option ℤ

-- A number of whole ten-thousandths.
abbrev pub IsWhole : ℤ → Type 0
IsWhole x = (pos_part x + neg_part x) % 2 ≡ 0

-- What four decimal places can express is stored as it is, if it is stored at all.
pub record IsExact (cols : Columns) : Type 0 where
  pub wallet : (x y : ℤ) → IsWhole x → cols.wallet x ≡ some y → y ≡ x
  pub entry : (x y : ℤ) → IsWhole x → cols.entry x ≡ some y → y ≡ x

module _ (starting : ℤ) where
  abbrev pub new_wallet : Wallet
  new_wallet = record { credit_balance = starting; lifetime_earned = pos 0; lifetime_spent = pos 0 }

  -- `Wallet.objects.get_or_create(user=…, defaults={"credit_balance": …})`
  unfoldable pub get_or_create : ℕ → Books → Books
  get_or_create user b = elim (lookup user b.wallets) [
    | none ↦ record b { wallets = insert user new_wallet b.wallets }
    | some _ ↦ b
  ]

abbrev pub charge_entry : ℕ → ℕ → ℕ → ℤ → ℕ → LedgerTransaction
charge_entry consumer creator model amount id = record {
  id = id;
  reference_id = none;
  consumer = some consumer;
  creator = some creator;
  model = some model;
  transaction_type = inference;
  amount = amount;
}

abbrev pub refund_entry : ℕ → ℕ → ℕ → ℤ → ℕ → ℕ → LedgerTransaction
refund_entry consumer creator model amount reference id = record {
  id = id;
  reference_id = some reference;
  consumer = some consumer;
  creator = some creator;
  model = some model;
  transaction_type = refund;
  amount = amount;
}

abbrev pub deposit_entry : ℕ → ℤ → ℕ → LedgerTransaction
deposit_entry user amount id = record {
  id = id;
  reference_id = none;
  consumer = some user;
  creator = none;
  model = none;
  transaction_type = deposit;
  amount = amount;
}

-- Where consumer and creator are one user, `locked` hands out one object twice: what was changed
-- through one name shows through the other.
abbrev pub aliased : ℕ → ℕ → Wallet → Wallet → Wallet
aliased consumer creator changed other = if consumer == creator then changed else other

module _ (cols : Columns) where
  -- `wallet.save(update_fields=["credit_balance", "lifetime_spent", …])`
  unfoldable pub save_spent : ℕ → Wallet → Books → Option Books
  save_spent user w b = do
    balance ← cols.wallet w.credit_balance
    spent ← cols.wallet w.lifetime_spent
    row ← lookup user b.wallets
    some (record b {
      wallets =
          insert user (record row { credit_balance = balance; lifetime_spent = spent }) b.wallets;
    })

  -- `wallet.save(update_fields=["credit_balance", "lifetime_earned", …])`
  unfoldable pub save_earned : ℕ → Wallet → Books → Option Books
  save_earned user w b = do
    balance ← cols.wallet w.credit_balance
    earned ← cols.wallet w.lifetime_earned
    row ← lookup user b.wallets
    some (record b {
      wallets =
          insert user (record row { credit_balance = balance; lifetime_earned = earned }) b.wallets;
    })

  -- `LedgerTransaction.objects.create(…)`
  unfoldable pub create_entry : LedgerTransaction → Books → Option Books
  create_entry t b = do
    amount ← cols.entry t.amount
    some (record b { ledger = record t { amount = amount } ∷ b.ledger; next_id = b.next_id + 1 })

  -- The two saves and the new entry with which both functions end.
  unfoldable pub settle : ℕ → ℕ → Wallet → Wallet → LedgerTransaction → Books → Option Books
  settle consumer creator consumer_wallet creator_wallet tx b = do
    b ← save_spent consumer consumer_wallet b
    b ← save_earned creator creator_wallet b
    create_entry tx b

  -- The body of `_debit_credits` once both rows are locked.
  unfoldable pub charge : ℕ → ℕ → ℕ → ℤ → Wallet → Wallet → Books → Option ((Option ℕ × ℤ) × Books)
  charge consumer creator model amount cw mw b = do
    let cw' = record cw {
      credit_balance = cw.credit_balance -ℤ amount;
      lifetime_spent = cw.lifetime_spent +ℤ amount;
    }
    let mw1 = aliased consumer creator cw' mw
    let mw' = record mw1 {
      credit_balance = mw1.credit_balance +ℤ amount;
      lifetime_earned = mw1.lifetime_earned +ℤ amount;
    }
    let tx = charge_entry consumer creator model amount b.next_id
    b' ← settle consumer creator cw' mw' tx b
    some ((some tx.id, (aliased consumer creator mw' cw').credit_balance), b')

  -- `_debit_credits`: the transaction's id, or `none` for insufficient credits, and the balance.
  unfoldable pub debit_credits : ℤ → ℕ → ℕ → ℕ → ℤ → Books → Option ((Option ℕ × ℤ) × Books)
  debit_credits starting consumer creator model amount b = do
    let b = get_or_create starting creator (get_or_create starting consumer b)
    cw ← lookup consumer b.wallets
    mw ← lookup creator b.wallets
    if ltb_ℤ cw.credit_balance amount
        then some ((none, cw.credit_balance), b)
        else charge consumer creator model amount cw mw b

  -- `_refund_credits`: the id of the refund's entry.
  unfoldable pub refund_credits : ℕ → ℕ → ℕ → ℤ → ℕ → Books → Option (ℕ × Books)
  refund_credits consumer creator model amount reference b = do
    cw ← lookup consumer b.wallets
    mw ← lookup creator b.wallets
    let cw' = record cw {
      credit_balance = cw.credit_balance +ℤ amount;
      lifetime_spent = cw.lifetime_spent -ℤ amount;
    }
    let mw1 = aliased consumer creator cw' mw
    let mw' = record mw1 {
      credit_balance = mw1.credit_balance -ℤ amount;
      lifetime_earned = mw1.lifetime_earned -ℤ amount;
    }
    let tx = refund_entry consumer creator model amount reference b.next_id
    b' ← settle consumer creator cw' mw' tx b
    some (tx.id, b')

pub data DepositReply : Type 0 where
  demo_deposits_disabled : DepositReply
  deposit_not_authorized : DepositReply
  deposit_too_large : DepositReply
  deposited : ℤ → DepositReply

-- What `DepositCreditsAPIView.post` reads of the settings and of the request's user.
pub record DepositGate : Type 0 where
  pub demo_deposits : Bool
  pub is_staff : Bool
  pub debug : Bool
  pub max_amount : ℤ

module _ (cols : Columns) where
  -- The transaction of `DepositCreditsAPIView.post`.
  unfoldable pub deposit_credits : ℤ → ℕ → ℤ → Books → Option (ℤ × Books)
  deposit_credits starting user amount b = do
    let b = get_or_create starting user b
    w ← lookup user b.wallets
    let balance = w.credit_balance +ℤ amount
    stored ← cols.wallet balance
    let b = record b { wallets = insert user (record w { credit_balance = stored }) b.wallets }
    b ← create_entry cols (deposit_entry user amount b.next_id) b
    some (balance, b)

  -- `DepositCreditsAPIView.post` on an amount that the serializer has accepted.
  unfoldable pub post_deposit : ℤ → DepositGate → ℕ → ℤ → Books → Option (DepositReply × Books)
  post_deposit starting gate user amount b =
      if not gate.demo_deposits
      then some (demo_deposits_disabled, b)
      else if not (gate.is_staff || gate.debug)
      then some (deposit_not_authorized, b)
      else if ltb_ℤ gate.max_amount amount
      then some (deposit_too_large, b)
      else do (balance, b') ← deposit_credits starting user amount b; some (deposited balance, b')
