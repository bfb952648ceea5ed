-- ===== src/Billing/Audit.antt =====
-- The audit trail: the ledger accounts for every wallet, whatever the operations and their order.
use model_deployer.Base.{
  ℕ, ◌≡◌, refl, Bool, true, false, Option, none, some, List, [], ◌∷◌, arith, Bool-cases, sym, ◌∙◌,
  bind-eq-some, inl, inr, if◌then◌else◌, ◌==◌,
}
use mathlib.Core.Option.{get_or, some-injective, none-ne-some}
use model_deployer.Base.Int.{ℤ, pos, ◌+ℤ◌, ◌-ℤ◌, ltb_ℤ, int_laws}
use model_deployer.Base.Dict.{lookup, lookup-insert}
use model_deployer.Billing.{
  Wallet, LedgerTransaction, inference, refund, deposit, TransactionType, Books, Columns, IsWhole,
  IsExact, new_wallet, get_or_create, debit_credits, refund_credits, deposit_credits, charge,
  settle,
}
use model_deployer.Billing.Posting.{
  names, when, spent_by, deposited_by, spent_in, earned_in, deposited_in, posted_row, Posts,
  WholeWallet, Whole, +ℤ-IsWhole, -ℤ-IsWhole, neg-IsWhole,
}
use model_deployer.Billing.Entries.{debit-Posts, refund-Posts, deposit-Posts}

abbrev pub sum_over : (LedgerTransaction → ℤ) → List LedgerTransaction → ℤ
sum_over f [] = pos 0
sum_over f (t ∷ l) = f t +ℤ sum_over f l

-- A wallet holds what the ledger says of its user, and who has no wallet is not in the ledger.
abbrev pub Agrees : ℤ → ℕ → List LedgerTransaction → Option Wallet → Type 0
Agrees starting user l none =
    (sum_over (deposited_in user) l ≡ pos 0)
    × (sum_over (spent_in user) l ≡ pos 0)
    × (sum_over (earned_in user) l ≡ pos 0)
Agrees starting user l (some w) =
    (w.lifetime_spent ≡ sum_over (spent_in user) l)
    × (w.lifetime_earned ≡ sum_over (earned_in user) l)
    × (w.credit_balance
        ≡ starting
          +ℤ sum_over (deposited_in user) l
          -ℤ sum_over (spent_in user) l
          +ℤ sum_over (earned_in user) l)

abbrev pub Audited : ℤ → Books → Type 0
Audited starting b = (user : ℕ) → Agrees starting user b.ledger (lookup user b.wallets)

fresh_balance : (start d s e : ℤ) → d ≡ pos 0 → s ≡ pos 0 → e ≡ pos 0 → start ≡ start +ℤ d -ℤ s +ℤ e
fresh_balance start d s e p q r = rw (p, q, r) (omega int_laws)

zero_add : (a : ℤ) → a ≡ pos 0 → pos 0 +ℤ a ≡ pos 0
zero_add a p = rw p (omega int_laws)

grown : (a b x : ℤ) → a ≡ b → a +ℤ x ≡ x +ℤ b
grown a b x p = rw p (omega int_laws)

grown_balance :
    (balance start d s e d' s' e' : ℤ)
    → balance ≡ start +ℤ d -ℤ s +ℤ e
    → balance +ℤ d' -ℤ s' +ℤ e' ≡ start +ℤ (d' +ℤ d) -ℤ (s' +ℤ s) +ℤ (e' +ℤ e)
grown_balance balance start d s e d' s' e' p = rw p (omega int_laws)

module _ (starting : ℤ) where
  new_wallet-Agrees :
      (user : ℕ) (l : List LedgerTransaction)
      → Agrees starting user l none
      → Agrees starting user l (some (new_wallet starting))
  new_wallet-Agrees user l (d, s, e) = (sym s, sym e, fresh_balance starting _ _ _ d s e)

  posted_row-Agrees :
      (user : ℕ) (t : LedgerTransaction) (l : List LedgerTransaction) (row : Option Wallet)
      → (row ≡ none → (names t.consumer user ≡ false) × (names t.creator user ≡ false))
      → Agrees starting user l row
      → Agrees starting user (t ∷ l) (posted_row user t row)
  posted_row-Agrees user t l none known (d, s, e) =
      let (kc, km) = known refl in rw (kc, km) (zero_add _ d, zero_add _ s, zero_add _ e)
  posted_row-Agrees user t l (some w) known (s, e, b) = (
    grown _ _ (spent_in user t) s,
    grown _ _ (earned_in user t) e,
    grown_balance w.credit_balance starting _ _ _ (deposited_in user t) (spent_in user t)
        (earned_in user t) b,
  )

  pub Posts-Audited :
      (b b' : Books) (t : LedgerTransaction)
      → Posts b t b'
      → Audited starting b
      → Audited starting b'
  Posts-Audited b b' t p h user =
      rw (p.entered, p.moved user)
        (posted_row-Agrees user t b.ledger (lookup user b.wallets) (p.known user) (h user))

  -- `get_or_create` adds a wallet for a user who has none, and changes nothing else.
  pub lookup-get_or_create :
      (other user : ℕ) (b : Books)
      → lookup other (get_or_create starting user b).wallets ≡ (
          if other == user
          then some (get_or (lookup user b.wallets) (new_wallet starting))
          else lookup other b.wallets)
  unfolding get_or_create
  lookup-get_or_create other user b =
      ground (arith, lookup-insert other user (new_wallet starting) b.wallets)

  pub ledger-get_or_create :
      (user : ℕ) (b : Books) → (get_or_create starting user b).ledger ≡ b.ledger
  unfolding get_or_create
  ledger-get_or_create user b = ground arith

  pub get_or_create-Audited :
      (user : ℕ) (b : Books) → Audited starting b → Audited starting (get_or_create starting user b)
  get_or_create-Audited user b h other =
      rw (lookup-get_or_create, ledger-get_or_create)
        (elim (Bool-cases (other == user)) [
          | inl same ↦
              rw same (
                let p : other ≡ user = ground arith in rw p (made (lookup user b.wallets) (h user)))
          | inr ne ↦ rw ne (h other)
        ])
    where
      made :
          (row : Option Wallet)
          → Agrees starting user b.ledger row
          → Agrees starting user b.ledger (some (get_or row (new_wallet starting)))
      made none a = new_wallet-Agrees user b.ledger a
      made (some w) a = a

  pub get_or_create-Whole :
      (user : ℕ) (b : Books) → IsWhole starting → Whole b → Whole (get_or_create starting user b)
  get_or_create-Whole user b hs h other w e =
      go (other == user) (lookup user b.wallets) (lookup other b.wallets) refl refl
        (sym (lookup-get_or_create other user b) ∙ e)
    where
      go :
          (same : Bool) (row row' : Option Wallet)
          → lookup user b.wallets ≡ row
          → lookup other b.wallets ≡ row'
          → (if same then some (get_or row (new_wallet starting)) else row') ≡ some w
          → WholeWallet w
      go true none row' l l' p =
          rw (← some-injective _ _ p) (record { balance = hs; earned = refl; spent = refl })
      go true (some v) row' l l' p = h user w (l ∙ p)
      go false row row' l l' p = h other w (l' ∙ p)

  pub Posts-Whole :
      (b b' : Books) (t : LedgerTransaction) → IsWhole t.amount → Posts b t b' → Whole b → Whole b'
  Posts-Whole b b' t ht p h user w e = go (lookup user b.wallets) refl (sym (p.moved user) ∙ e)
    where
      whole_when : (c : Bool) (x : ℤ) → IsWhole x → IsWhole (when c x)
      whole_when true x q = q
      whole_when false x q = refl

      whole_spent : (k : TransactionType) → IsWhole (spent_by k t.amount)
      whole_spent inference = ht
      whole_spent refund = neg-IsWhole t.amount ht
      whole_spent deposit = refl

      whole_deposited : (k : TransactionType) → IsWhole (deposited_by k t.amount)
      whole_deposited inference = refl
      whole_deposited refund = refl
      whole_deposited deposit = ht

      ws : IsWhole (spent_in user t)
      ws =
          whole_when (names t.consumer user) (spent_by t.transaction_type t.amount)
            (whole_spent t.transaction_type)

      we : IsWhole (earned_in user t)
      we =
          whole_when (names t.creator user) (spent_by t.transaction_type t.amount)
            (whole_spent t.transaction_type)

      wd : IsWhole (deposited_in user t)
      wd =
          whole_when (names t.consumer user) (deposited_by t.transaction_type t.amount)
            (whole_deposited t.transaction_type)

      go :
          (row : Option Wallet)
          → lookup user b.wallets ≡ row
          → posted_row user t row ≡ some w
          → WholeWallet w
      go none l q = cc
      go (some v) l q =
          let hv = h user v l in
          rw (← some-injective _ _ q) (record {
            balance = +ℤ-IsWhole _ _ (-ℤ-IsWhole _ _ (+ℤ-IsWhole _ _ hv.balance wd) ws) we;
            earned = +ℤ-IsWhole _ _ hv.earned we;
            spent = +ℤ-IsWhole _ _ hv.spent ws;
          })

-- The operations on the books, each as the code runs it, in any order and for any users. Amounts
-- are whole ten-thousandths.
pub data Step (cols : Columns) (starting : ℤ) (b b' : Books) : Type 0 where
  -- the `post_save` signal of a new user, and the wallet view
  created : (user : ℕ) → b' ≡ get_or_create starting user b → Step cols starting b b'
  refused :
      (consumer creator model : ℕ) (amount balance : ℤ)
      → debit_credits cols starting consumer creator model amount b ≡ some ((none, balance), b')
      → Step cols starting b b'
  debited :
      (consumer creator model : ℕ) (amount : ℤ) (id : ℕ) (balance : ℤ)
      → IsWhole amount
      → debit_credits cols starting consumer creator model amount b ≡ some ((some id, balance), b')
      → Step cols starting b b'
  refunded :
      (consumer creator model : ℕ) (amount : ℤ) (reference id : ℕ)
      → IsWhole amount
      → refund_credits cols consumer creator model amount reference b ≡ some (id, b')
      → Step cols starting b b'
  deposited :
      (user : ℕ) (amount balance : ℤ)
      → IsWhole amount
      → deposit_credits cols starting user amount b ≡ some (balance, b')
      → Step cols starting b b'

pub data Reach (cols : Columns) (starting : ℤ) (b : Books) : Books → Type 0 where
  here : Reach cols starting b b
  next :
      {b' b'' : Books}
      → Reach cols starting b b'
      → Step cols starting b' b''
      → Reach cols starting b b''

abbrev pub empty_books : Books
empty_books = record { wallets = []; ledger = []; next_id = 0 }

-- A refused debit has at most made the two wallets.
pub refused_books :
    (cols : Columns) (starting : ℤ) (consumer creator model : ℕ) (amount balance : ℤ) (b b' : Books)
    → debit_credits cols starting consumer creator model amount b ≡ some ((none, balance), b')
    → b' ≡ get_or_create starting creator (get_or_create starting consumer b)
unfolding debit_credits charge
refused_books cols starting consumer creator model amount balance b b' e =
    let b0 = get_or_create starting creator (get_or_create starting consumer b) in
    let (cw, lc, r1) = bind-eq-some (lookup consumer b0.wallets) _ e in
    let (mw, lm, r2) = bind-eq-some (lookup creator b0.wallets) _ r1 in
    go (ltb_ℤ cw.credit_balance amount) cw mw b0 r2
  where
    go :
        (short : Bool) (cw mw : Wallet) (b0 : Books)
        → (if short
            then some ((none, cw.credit_balance), b0)
            else charge cols consumer creator model amount cw mw b0)
          ≡ some ((none, balance), b')
        → b' ≡ b0
    go true cw mw b0 p = cc
    go false cw mw b0 p =
        let (b1, e1, r1) = bind-eq-some (settle cols consumer creator _ _ _ b0) _ p in cc

module _ (cols : Columns) (exact : IsExact cols) (starting : ℤ) (whole : IsWhole starting) where
  abbrev Sound : Books → Type 0
  Sound b = Audited starting b × Whole b

  ensure-Sound : (user : ℕ) (b : Books) → Sound b → Sound (get_or_create starting user b)
  ensure-Sound user b (a, w) =
      (get_or_create-Audited starting user b a, get_or_create-Whole starting user b whole w)

  Posts-Sound :
      (b b' : Books) (t : LedgerTransaction) → IsWhole t.amount → Posts b t b' → Sound b → Sound b'
  Posts-Sound b b' t ht p (a, w) =
      (Posts-Audited starting b b' t p a, Posts-Whole starting b b' t ht p w)

  Step-Sound : (b b' : Books) → Step cols starting b b' → Sound b → Sound b'
  Step-Sound b b' (created user e) h = rw e (ensure-Sound user b h)
  Step-Sound b b' (refused consumer creator model amount balance e) h =
      rw (refused_books cols starting consumer creator model amount balance b b' e)
        (ensure-Sound creator _ (ensure-Sound consumer b h))
  Step-Sound b b' (debited consumer creator model amount id balance wa e) h =
      let h0 = ensure-Sound creator _ (ensure-Sound consumer b h) in
      Posts-Sound _ b' _ wa
        (debit-Posts cols exact consumer creator model amount wa starting b b' id balance h0.1 e).0
        h0
  Step-Sound b b' (refunded consumer creator model amount reference id wa e) h =
      Posts-Sound b b' _ wa
        (refund-Posts cols exact consumer creator model amount wa reference b b' id h.1 e).0 h
  Step-Sound b b' (deposited user amount balance wa e) h =
      let h0 = ensure-Sound user b h in
      Posts-Sound _ b' _ wa
        (deposit-Posts cols exact user user user amount wa starting b b' balance h0.1 e) h0

  -- the fold over a run
  Reach-Sound : {b b' : Books} → Sound b → Reach cols starting b b' → Sound b'
  Reach-Sound h here = h
  Reach-Sound h (next r s) = Step-Sound _ _ s (Reach-Sound h r)

  -- After any sequence of wallet creations, debits (charged or refused), refunds and deposits of
  -- whole amounts from empty books, each wallet is what the ledger's entries say: spent and earned
  -- are the sums of its charges less refunds, and the balance is the starting credits plus
  -- deposits, less spent, plus earned. A user without a wallet has no such entries.
  pub Reach-Audited : {b : Books} → Reach cols starting empty_books b → Audited starting b
  unfolding lookup
  Reach-Audited r =
      (Reach-Sound ((λ user. (refl, refl, refl)), (λ user w e. absurd (none-ne-some _ e))) r).0
