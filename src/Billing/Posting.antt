-- ===== src/Billing/Posting.antt =====
-- The books as a ledger: what one entry does to the wallet of one user.
use model_deployer.Base.{ℕ, ◌≡◌, Bool, true, false, Option, none, some, ◌∷◌, ◌==◌, if◌then◌else◌}
use model_deployer.Base.Int.{ℤ, pos, ◌+ℤ◌, ◌-ℤ◌, int_laws}
use model_deployer.Base.Dict.{lookup}
use model_deployer.Billing.{
  Wallet, TransactionType, inference, refund, deposit, LedgerTransaction, Books, IsWhole,
}

abbrev pub names : Option ℕ → ℕ → Bool
names none user = false
names (some u) user = user == u

-- What an entry charges, when the user is its consumer; a refund charges the negative amount.
abbrev pub spent_by : TransactionType → ℤ → ℤ
spent_by inference amount = amount
spent_by refund amount = pos 0 -ℤ amount
spent_by deposit amount = pos 0

abbrev pub deposited_by : TransactionType → ℤ → ℤ
deposited_by deposit amount = amount
deposited_by _ amount = pos 0

abbrev pub when : Bool → ℤ → ℤ
when b x = if b then x else pos 0

abbrev pub spent_in : ℕ → LedgerTransaction → ℤ
spent_in user t = when (names t.consumer user) (spent_by t.transaction_type t.amount)

abbrev pub earned_in : ℕ → LedgerTransaction → ℤ
earned_in user t = when (names t.creator user) (spent_by t.transaction_type t.amount)

abbrev pub deposited_in : ℕ → LedgerTransaction → ℤ
deposited_in user t = when (names t.consumer user) (deposited_by t.transaction_type t.amount)

-- A user's wallet after an entry.
abbrev pub posted : ℕ → LedgerTransaction → Wallet → Wallet
posted user t w = record {
  credit_balance = w.credit_balance +ℤ deposited_in user t -ℤ spent_in user t +ℤ earned_in user t;
  lifetime_earned = w.lifetime_earned +ℤ earned_in user t;
  lifetime_spent = w.lifetime_spent +ℤ spent_in user t;
}

abbrev pub posted_row : ℕ → LedgerTransaction → Option Wallet → Option Wallet
posted_row user t none = none
posted_row user t (some w) = some (posted user t w)

-- The ledger has grown by one entry, and each wallet has changed as that entry says.
pub record Posts (b : Books) (t : LedgerTransaction) (b' : Books) : Type 0 where
  pub entered : b'.ledger ≡ t ∷ b.ledger
  pub moved : (user : ℕ) → lookup user b'.wallets ≡ posted_row user t (lookup user b.wallets)
  pub known :
      (user : ℕ)
      → lookup user b.wallets ≡ none
      → (names t.consumer user ≡ false) × (names t.creator user ≡ false)

pub record WholeWallet (w : Wallet) : Type 0 where
  pub balance : IsWhole w.credit_balance
  pub earned : IsWhole w.lifetime_earned
  pub spent : IsWhole w.lifetime_spent

-- Every wallet holds whole ten-thousandths, as its columns do.
abbrev pub Whole : Books → Type 0
Whole b = (user : ℕ) (w : Wallet) → lookup user b.wallets ≡ some w → WholeWallet w

pub +ℤ-IsWhole : (a b : ℤ) → IsWhole a → IsWhole b → IsWhole (a +ℤ b)
+ℤ-IsWhole a b p q = omega int_laws

pub -ℤ-IsWhole : (a b : ℤ) → IsWhole a → IsWhole b → IsWhole (a -ℤ b)
-ℤ-IsWhole a b p q = omega int_laws

pub if-WholeWallet :
    (c : Bool) {w v : Wallet} → WholeWallet w → WholeWallet v → WholeWallet (if c then w else v)
if-WholeWallet true h k = h
if-WholeWallet false h k = k

-- The effect of a transfer of `d` on a user who is its consumer, or its creator, or both.
abbrev pub shifted : Bool → Bool → ℤ → Wallet → Wallet
shifted spends earns d w = record {
  credit_balance = w.credit_balance -ℤ when spends d +ℤ when earns d;
  lifetime_earned = w.lifetime_earned +ℤ when earns d;
  lifetime_spent = w.lifetime_spent +ℤ when spends d;
}

pub neg-IsWhole : (x : ℤ) → IsWhole x → IsWhole (pos 0 -ℤ x)
neg-IsWhole x h = omega int_laws

pub sub_neg : (a x : ℤ) → a -ℤ (pos 0 -ℤ x) ≡ a +ℤ x
sub_neg a x = omega int_laws

pub add_neg : (a x : ℤ) → a +ℤ (pos 0 -ℤ x) ≡ a -ℤ x
add_neg a x = omega int_laws
