-- ===== src/Sound/Wallets.antt =====
-- Topping up, crediting and settling from a wallet keep both invariants.
use mathlib.Core.Option.{some-injective}
use d5net_billing.Prelude.{ℕ, ◌≡◌, refl, ap, Option, List, none, some, arith, find?, Bool}
use d5net_billing.Prelude.Int.{ℤ, pos, ◌≤ℤ◌}
use d5net_billing.Prelude.Text.{Text}
use d5net_billing.Db.{
  Wallet, Db, World, Outcome, Outcome_db, bump, pure-Outcome, >>=-Outcome, >>-Outcome, gets->>=,
  select->>=, guard->>, set_tenant_context->>, transaction-Outcome, write-Outcome, update_rows,
}
use d5net_billing.Payments.Books.{Books, Books-frame}
use d5net_billing.Wallet.{
  is_wallet, add_balance, with_wallets, upsert_rows, upsert_wallet, insert_txn, topup_wallet,
  credit_wallet, lookup_account, pay_invoice_from_wallet,
}
use d5net_billing.Wallet.Books.{
  Kept, Any, insert_wallet_txn-Books, post_wallet_journal-Books, pay_invoice_from_wallet-Books,
}
use d5net_billing.Wallet.Pay.{
  topup_wallet-Ledger, credit_wallet-Ledger, pay_invoice_from_wallet-Ledger,
}
use d5net_billing.AutoPay.{auto_settle_customer}
use d5net_billing.AutoPay.Keeps.{auto_settle_customer-Keeps}
use d5net_billing.Sound.{IsSoundDb}

with_wallets-Books :
    (k : ℕ) (d : Db) (o : Option (List Wallet)) (u : ℕ) (d' : Db)
    → with_wallets k d o ≡ some (u, d')
    → Books d
    → Books d'
with_wallets-Books k d none u d' e h = cc
with_wallets-Books k d (some rows) u d' e h =
    rw (← ap (λ r. r.1) (some-injective _ _ e)) (Books-frame d _ refl refl (omega arith) h)

upsert_rows-Books :
    (t c : ℕ) (a : ℤ) (d : Db) (o : Option Wallet) (u : ℕ) (d' : Db)
    → upsert_rows t c a d o ≡ some (u, d')
    → Books d
    → Books d'
upsert_rows-Books t c a d none u d' e h =
    rw (← ap (λ r. r.1) (some-injective _ _ e)) (Books-frame d _ refl refl (omega arith) h)
upsert_rows-Books t c a d (some wl) u d' e h =
    with_wallets-Books wl.id d (update_rows (is_wallet t c) (add_balance a) d.wallets) u d' e h

upsert_wallet-Books :
    (t c : ℕ) (a : ℤ) (w : World) → Books w.db → Outcome Kept Any (upsert_wallet t c a w)
unfolding upsert_wallet
upsert_wallet-Books t c a w h =
    write-Outcome Kept Any _ w tt
      (λ u d q. upsert_rows-Books t c a w.db (find? (is_wallet t c) w.db.wallets) u d q h)

insert_txn-Books :
    (t k : ℕ) (a : ℤ) (type : Text) (ref desc : Option Text) (w : World)
    → Books w.db
    → Outcome Kept Any (insert_txn t k a type ref desc w)
unfolding insert_txn
insert_txn-Books t k a type ref desc w h = write-Outcome Kept Any _ w tt (λ u d q.
    rw (← ap (λ r. r.1) (some-injective _ _ q)) (Books-frame w.db _ refl refl (omega arith) h))

topup_wallet-Books :
    (t c : ℕ) (a : ℤ) (type ref desc : Text) (w : World)
    → Books w.db
    → Books (topup_wallet t c a type ref desc w).1.db
unfolding topup_wallet lookup_account
topup_wallet-Books t c a type ref desc w h = Outcome_db Books _ (
    guard->> Kept Books _ _ _ w h (λ positive. transaction-Outcome Kept Books _ w h (
      set_tenant_context->> Kept Any _ (bump w) tt (
        >>=-Outcome Kept Any Kept _ _ (bump (bump w)) (upsert_wallet-Books t c a (bump (bump w)) h)
          (λ k v kept. gets->>= Kept Any _ _ v (
            >>-Outcome Kept Any Kept _ _ v (insert_wallet_txn-Books t k a _ ref desc v kept)
              (λ _ u kept. select->>= Kept Any _ _ u tt (
                select->>= Kept Any _ _ (bump u) tt (
                  >>-Outcome Kept Any Kept _ _ (bump (bump u))
                    (post_wallet_journal-Books t _ _ _ (some c) _ _ a (bump (bump u)) kept)
                    (λ _ v' k'. pure-Outcome Kept Any _ v' k'))))))))))

credit_wallet-Books :
    (t c : ℕ) (a : ℤ) (type ref desc : Text) (w : World)
    → Books w.db
    → Books (credit_wallet t c a type ref desc w).1.db
unfolding credit_wallet
credit_wallet-Books t c a type ref desc w h = Outcome_db Books _ (
    transaction-Outcome Kept Books _ w h (
      >>=-Outcome Kept Any Kept _ _ (bump w) (upsert_wallet-Books t c a (bump w) h)
        (λ k v kept. insert_txn-Books t k a type _ _ v kept)))

pub topup_wallet-Sound :
    (t c : ℕ) (a : ℤ) (type ref desc : Text) (w : World)
    → IsSoundDb w.db
    → IsSoundDb (topup_wallet t c a type ref desc w).1.db
topup_wallet-Sound t c a type ref desc w (ledger, books) = (
  topup_wallet-Ledger t c a type ref desc w ledger,
  topup_wallet-Books t c a type ref desc w books,
)

pub credit_wallet-Sound :
    (t c : ℕ) (a : ℤ) (type ref desc : Text) (w : World)
    → pos 0 ≤ℤ a
    → IsSoundDb w.db
    → IsSoundDb (credit_wallet t c a type ref desc w).1.db
credit_wallet-Sound t c a type ref desc w nonneg (ledger, books) = (
  credit_wallet-Ledger t c a type ref desc w nonneg ledger,
  credit_wallet-Books t c a type ref desc w books,
)

pub pay_invoice_from_wallet-Sound :
    (t c k : ℕ) (w : World) → IsSoundDb w.db → IsSoundDb (pay_invoice_from_wallet t c k w).1.db
pay_invoice_from_wallet-Sound t c k w (ledger, books) =
    (pay_invoice_from_wallet-Ledger t c k w ledger, pay_invoice_from_wallet-Books t c k w books)

pub auto_settle_customer-Sound :
    (enabled : Bool) (t c : ℕ) (w : World)
    → IsSoundDb w.db
    → IsSoundDb (auto_settle_customer enabled t c w).1.db
auto_settle_customer-Sound = auto_settle_customer-Keeps IsSoundDb pay_invoice_from_wallet-Sound
