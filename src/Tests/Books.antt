-- ===== src/Tests/Books.antt =====
-- Runs of billing: user 1 pays user 2 for one run of model 7.
use mathlib.Core.Option.{none-ne-some, some-injective}
use model_deployer.Base.{
  ℕ, ◌+◌, ◌%◌, ◌≡◌, refl, sym, ap, ◌∙◌, true, false, none, some, [], ◌∷◌, arith, ◌==◌, ◌*◌,
  if◌then◌else◌, Bool,
}
use model_deployer.Base.Int.{ℤ, pos, negsuc, ◌+ℤ◌, ◌-ℤ◌}
use model_deployer.Base.Dict.{lookup, insert}
use model_deployer.Billing.{
  Wallet, Books, Columns, IsWhole, IsExact, get_or_create, charge_entry, refund_entry,
  deposit_entry, debit_credits, refund_credits, deposit_credits, settle, charge, save_spent,
  save_earned, create_entry,
}
use model_deployer.Billing.Posting.{Posts, WholeWallet, Whole}
use model_deployer.Billing.Entries.{debit-Posts}
use model_deployer.Billing.Audit.{
  Audited, debited, refunded, here, next, empty_books, Reach-Audited,
}
use model_deployer.Billing.Total.{total, total-debit}
use model_deployer.Billing.Rounding.{lookup-refund-debit, RoundsHalfUp}

-- Four decimal places, a half rounded away from zero.
abbrev rounded : ℤ → ℤ
rounded (pos n) = pos (n + n % 2)
rounded (negsuc n) = negsuc (n + (n + 1) % 2)

abbrev pub columns : Columns
columns = record { wallet = λ x. some (rounded x); entry = λ x. some (rounded x) }

rounded_whole : (x : ℤ) → IsWhole x → rounded x ≡ x
rounded_whole (pos n) h = ap pos (omega arith)
rounded_whole (negsuc n) h = ap negsuc (omega arith)

pub columns-IsExact : IsExact columns
columns-IsExact = record {
  wallet = λ x y h e. sym (some-injective _ _ e) ∙ rounded_whole x h;
  entry = λ x y h e. sym (some-injective _ _ e) ∙ rounded_whole x h;
}

columns-RoundsHalfUp : RoundsHalfUp columns
columns-RoundsHalfUp = record { wallet = λ n. refl }

abbrev pub purse : ℕ → ℕ → ℕ → Wallet
purse balance earned spent = record {
  credit_balance = pos balance;
  lifetime_earned = pos earned;
  lifetime_spent = pos spent;
}

-- Both users have their first 1000 units; then 1 pays 200 to 2.
abbrev pub opened : Books
opened = record {
  wallets = (1, purse 1000 0 0) ∷ (2, purse 1000 0 0) ∷ [];
  ledger = [];
  next_id = 0;
}

abbrev pub paid : Books
paid = record {
  wallets = (1, purse 800 0 200) ∷ (2, purse 1200 200 0) ∷ [];
  ledger = charge_entry 1 2 7 (pos 200) 0 ∷ [];
  next_id = 1;
}

abbrev repaid : Books
repaid = record {
  wallets = (1, purse 1000 0 0) ∷ (2, purse 1000 0 0) ∷ [];
  ledger = refund_entry 1 2 7 (pos 200) 0 1 ∷ charge_entry 1 2 7 (pos 200) 0 ∷ [];
  next_id = 2;
}

-- The creator has paid out what user 1's charge gave, and holds 100.
abbrev emptied : Books
emptied = record {
  wallets = (1, purse 800 0 200) ∷ (2, purse 100 200 1100) ∷ [];
  ledger = [];
  next_id = 5;
}

abbrev overdrawn : Books
overdrawn = record {
  wallets =
      (1, purse 1000 0 0)
      ∷ (
        2,
        record { credit_balance = negsuc 99; lifetime_earned = pos 0; lifetime_spent = pos 1100 },
      )
      ∷ [];
  ledger = refund_entry 1 2 7 (pos 200) 0 5 ∷ [];
  next_id = 6;
}

-- The cached result of a price of one ten-thousandth: half a ten-thousandth goes back.
abbrev halved : Books
halved = record {
  wallets = (1, purse 802 0 200) ∷ (2, purse 1200 200 0) ∷ [];
  ledger =
      record (refund_entry 1 2 7 (pos 1) 0 1) { amount = pos 2 }
      ∷ charge_entry 1 2 7 (pos 200) 0
      ∷ [];
  next_id = 2;
}

abbrev pub topped_up : Books
topped_up = record {
  wallets = (1, purse 1500 0 0) ∷ (2, purse 1000 0 0) ∷ [];
  ledger = deposit_entry 1 (pos 500) 0 ∷ [];
  next_id = 1;
}

paying : debit_credits columns (pos 1000) 1 2 7 (pos 200) opened ≡ some ((some 0, pos 800), paid)
unfolding debit_credits get_or_create lookup insert charge settle save_spent save_earned
    create_entry ◌+ℤ◌ ◌-ℤ◌
paying = refl

starting :
    debit_credits columns (pos 1000) 1 2 7 (pos 200) empty_books ≡ some ((some 0, pos 800), paid)
unfolding debit_credits get_or_create lookup insert charge settle save_spent save_earned
    create_entry ◌+ℤ◌ ◌-ℤ◌
starting = refl

repaying : refund_credits columns 1 2 7 (pos 200) 0 paid ≡ some (1, repaid)
unfolding refund_credits lookup insert settle save_spent save_earned create_entry ◌+ℤ◌ ◌-ℤ◌
repaying = refl

overdrawing : refund_credits columns 1 2 7 (pos 200) 0 emptied ≡ some (5, overdrawn)
unfolding refund_credits lookup insert settle save_spent save_earned create_entry ◌+ℤ◌ ◌-ℤ◌
overdrawing = refl

halving : refund_credits columns 1 2 7 (pos 1) 0 paid ≡ some (1, halved)
unfolding refund_credits lookup insert settle save_spent save_earned create_entry ◌+ℤ◌ ◌-ℤ◌
halving = refl

depositing : deposit_credits columns (pos 1000) 1 (pos 500) opened ≡ some (pos 1500, topped_up)
unfolding deposit_credits get_or_create lookup insert create_entry ◌+ℤ◌
depositing = refl

pub two-Whole :
    (w v : Wallet) (b : Books)
    → WholeWallet w
    → WholeWallet v
    → (b.wallets ≡ (1, w) ∷ (2, v) ∷ [])
    → Whole b
unfolding lookup
two-Whole w v b hw hv e user x l = go (user == 1) (user == 2) (rw e at l)
  where
    go : (p q : Bool) → (if p then some w else if q then some v else none) ≡ some x → WholeWallet x
    go true q h = rw (← some-injective _ _ h) hw
    go false true h = rw (← some-injective _ _ h) hv
    go false false h = absurd (none-ne-some _ h)

pub even_purse : (i j k : ℕ) → WholeWallet (purse (2 * i) (2 * j) (2 * k))
even_purse i j k = record { balance = omega arith; earned = omega arith; spent = omega arith }

opened-Whole : Whole (get_or_create (pos 1000) 2 (get_or_create (pos 1000) 1 opened))
unfolding get_or_create lookup
opened-Whole = two-Whole _ _ opened (even_purse 500 0 0) (even_purse 500 0 0) refl

user-Whole : Whole (get_or_create (pos 1000) 1 opened)
unfolding get_or_create lookup
user-Whole = two-Whole _ _ opened (even_purse 500 0 0) (even_purse 500 0 0) refl

paid-Whole : Whole paid
paid-Whole = two-Whole _ _ paid (even_purse 400 0 100) (even_purse 600 100 0) refl

emptied-Whole : Whole emptied
emptied-Whole = two-Whole _ _ emptied (even_purse 400 0 100) (even_purse 50 100 550) refl

Reach-Audited_example : Audited (pos 1000) repaid
Reach-Audited_example = Reach-Audited columns columns-IsExact (pos 1000) refl (
    next (next here (debited 1 2 7 (pos 200) 0 (pos 800) refl starting))
      (refunded 1 2 7 (pos 200) 0 1 refl repaying))

total-debit_example :
    total paid.wallets
    ≡ total (get_or_create (pos 1000) 2 (get_or_create (pos 1000) 1 opened)).wallets
total-debit_example =
    total-debit columns columns-IsExact 1 2 7 (pos 200) refl (pos 1000) opened paid
      (some 0, pos 800) opened-Whole paying

lookup-refund-debit_example :
    lookup 2 repaid.wallets
    ≡ lookup 2 (get_or_create (pos 1000) 2 (get_or_create (pos 1000) 1 opened)).wallets
lookup-refund-debit_example =
    lookup-refund-debit columns columns-IsExact 1 2 7 (pos 200) refl (pos 1000) (pos 800) opened
      paid repaid 0 1 opened-Whole paying repaying 2

debit-Posts_example :
    Posts
      (get_or_create (pos 1000) 2 (get_or_create (pos 1000) 1 opened))
      (charge_entry 1 2 7
        (pos 200)
        (get_or_create (pos 1000) 2 (get_or_create (pos 1000) 1 opened)).next_id)
      paid
    × (0 ≡ (get_or_create (pos 1000) 2 (get_or_create (pos 1000) 1 opened)).next_id)
debit-Posts_example =
    debit-Posts columns columns-IsExact 1 2 7 (pos 200) refl (pos 1000) opened paid 0 (pos 800)
      opened-Whole paying
