-- ===== src/Wallet/Frames.antt =====
-- Statements on other tables leave the wallets, invoices and payments as they are.
use mathlib.Core.Option.{some-injective}
use d5net_billing.Prelude.{ℕ, ap, ◌||◌, Option, List, inl, inr, ◌==◌, if_some, Bool-cases}
use d5net_billing.Prelude.Int.{ℤ, pos, leb_ℤ}
use d5net_billing.Prelude.Text.{Text}
use d5net_billing.Db.{
  Invoice, Payment, Wallet, Db, World, Outcome, write-Outcome, >>=-Outcome, pure-Outcome,
}
use d5net_billing.Payments.{references, insert_payment}
use d5net_billing.Wallet.{
  insert_txn, insert_wallet_txn, insert_journal_entry, insert_journal_lines, post_wallet_journal,
}

abbrev pub Any : Db → Type 0
Any d = Unit

module _ (P : List Wallet → List Invoice → List Payment → Type 0) where
  abbrev pub Holds : {A : Type 0} → A → Db → Type 0
  Holds a d = P d.wallets d.invoices d.payments

  pub insert_txn-Holds :
      (t k : ℕ) (a : ℤ) (type : Text) (ref desc : Option Text) (w : World)
      → P w.db.wallets w.db.invoices w.db.payments
      → Outcome Holds Any (insert_txn t k a type ref desc w)
  unfolding insert_txn
  insert_txn-Holds t k a type ref desc w h =
      write-Outcome Holds Any _ w tt (λ u d q. rw (← ap (λ r. r.1) (some-injective _ _ q)) h)

  pub insert_wallet_txn-Holds :
      (t k : ℕ) (a : ℤ) (type ref desc : Text) (w : World)
      → P w.db.wallets w.db.invoices w.db.payments
      → Outcome Holds Any (insert_wallet_txn t k a type ref desc w)
  unfolding insert_wallet_txn
  insert_wallet_txn-Holds t k a type ref desc w h = insert_txn-Holds t k a type _ _ w h

  entry-Holds :
      (t : ℕ) (description ref source_type : Text) (source_id : Option ℕ) (w : World)
      → P w.db.wallets w.db.invoices w.db.payments
      → Outcome Holds Any (insert_journal_entry t description ref source_type source_id w)
  unfolding insert_journal_entry
  entry-Holds t description ref source_type source_id w h =
      write-Outcome Holds Any _ w tt (λ u d q. rw (← ap (λ r. r.1) (some-injective _ _ q)) h)

  lines-Holds :
      (t e debit credit : ℕ) (a : ℤ) (w : World)
      → P w.db.wallets w.db.invoices w.db.payments
      → Outcome Holds Any (insert_journal_lines t e debit credit a w)
  unfolding insert_journal_lines
  lines-Holds t e debit credit a w h =
      write-Outcome Holds Any _ w tt (λ u d q. rw (← ap (λ r. r.1) (some-injective _ _ q)) h)

  pub post-Holds :
      (t : ℕ) (description ref source_type : Text) (source_id : Option ℕ) (debit credit : ℕ) (a : ℤ)
      (w : World)
      → P w.db.wallets w.db.invoices w.db.payments
      → Outcome Holds Any
          (post_wallet_journal t description ref source_type source_id debit credit a w)
  unfolding post_wallet_journal
  post-Holds t description ref source_type source_id debit credit a w h =
      elim (Bool-cases (leb_ℤ a (pos 0) || debit == 0 || credit == 0)) [
        | inl skip ↦ rw skip (pure-Outcome Holds Any tt w h)
        | inr post ↦ rw post (
            >>=-Outcome Holds Any Holds _ _ w
              (entry-Holds t description ref source_type source_id w h)
              (λ e v k. lines-Holds t e debit credit a v k))
      ]

module _ (P : List Wallet → Type 0) where
  pub insert_payment-Holds :
      (p : Payment) (w : World)
      → P w.db.wallets
      → Outcome (λ _ d. P d.wallets) Any (insert_payment p w)
  unfolding insert_payment
  insert_payment-Holds p w h =
      write-Outcome (λ _ d. P d.wallets) Any _ w tt
        (λ n d q.
          let q' = if_some (references p.invoice_id w.db.invoices) _ q in rw (← ap (λ r. r.1) q') h)
