-- ===== src/Wallet/Books.antt =====
-- Paying from the wallet keeps the books of the payments: the payment and the paid amount of its
-- invoice are written in one transaction.
use mathlib.Core.Option.{some-injective}
use d5net_billing.Prelude.{
  ℕ, ◌≡◌, refl, ap, ◌||◌, Bool, none, some, Option, List, inl, inr, arith, find?, ◌==◌, Bool-cases,
}
use d5net_billing.Prelude.Int.{ℤ, pos, ◌<ℤ◌, leb_ℤ, ltb_ℤ}
use d5net_billing.Prelude.Int64.{IsInt64, ◌-64◌, -64-IsInt64}
use d5net_billing.Prelude.Text.{Text, trim_space}
use d5net_billing.Db.{
  Invoice, Wallet, Db, World, ⊤, Outcome, Outcome_db, bump, write-Outcome, >>=-Outcome, >>-Outcome,
  pure-Outcome, gets->>=, select->>=, set_tenant_context->>, transaction-Outcome, update_rows,
}
use d5net_billing.Invoices.Updates.{update_invoices-Outcome}
use d5net_billing.Payments.{normalize_status, is_paid_status}
use d5net_billing.Payments.Sums.{IsSound}
use d5net_billing.Payments.Books.{Books, Books-frame, pay-IsSettled}
use d5net_billing.Payments.Shifts.{insert-Shift}
use d5net_billing.Payments.Record.{new_row, with_payment, insert_payment-Outcome, done, table}
use d5net_billing.Wallet.{
  is_wallet, set_wallets, update_wallets, insert_txn, insert_wallet_txn, lookup_account,
  insert_journal_entry, insert_journal_lines, post_wallet_journal, settle_from_wallet, pay_from,
  pay_found, is_closed_status, pay_invoice_from_wallet, wallet_payment,
}

abbrev pub Kept : {A : Type 0} → A → Db → Type 0
Kept a d = Books d

abbrev pub Any : Db → Type 0
Any d = Unit

pub set_wallets-Books :
    (d : Db) (o : Option (List Wallet)) (u : ⊤) (d' : Db)
    → set_wallets d o ≡ some (u, d')
    → Books d
    → Books d'
set_wallets-Books d none u d' e h = cc
set_wallets-Books d (some rows) u d' e h =
    rw (← ap (λ r. r.1) (some-injective _ _ e)) (Books-frame d _ refl refl (omega arith) h)

update_wallets-Books :
    (p : Wallet → Bool) (f : Wallet → Option Wallet) (w : World)
    → Books w.db
    → Outcome Kept Any (update_wallets p f w)
unfolding update_wallets
update_wallets-Books p f w h =
    write-Outcome Kept Any _ w tt
      (λ u d q. set_wallets-Books w.db (update_rows p f w.db.wallets) u d q h)

pub insert_wallet_txn-Books :
    (t k : ℕ) (a : ℤ) (type ref desc : Text) (w : World)
    → Books w.db
    → Outcome Kept Any (insert_wallet_txn t k a type ref desc w)
unfolding insert_wallet_txn insert_txn
insert_wallet_txn-Books t k a type ref desc w h = write-Outcome Kept Any _ w tt (λ u d q.
    rw (← ap (λ r. r.1) (some-injective _ _ q)) (Books-frame w.db _ refl refl (omega arith) h))

insert_journal_entry-Books :
    (t : ℕ) (description ref source_type : Text) (source_id : Option ℕ) (w : World)
    → Books w.db
    → Outcome Kept Any (insert_journal_entry t description ref source_type source_id w)
unfolding insert_journal_entry
insert_journal_entry-Books t description ref source_type source_id w h =
    write-Outcome Kept Any _ w tt (λ u d q.
      rw (← ap (λ r. r.1) (some-injective _ _ q)) (Books-frame w.db _ refl refl (omega arith) h))

insert_journal_lines-Books :
    (t e debit credit : ℕ) (a : ℤ) (w : World)
    → Books w.db
    → Outcome Kept Any (insert_journal_lines t e debit credit a w)
unfolding insert_journal_lines
insert_journal_lines-Books t e debit credit a w h = write-Outcome Kept Any _ w tt (λ u d q.
    rw (← ap (λ r. r.1) (some-injective _ _ q)) (Books-frame w.db _ refl refl (omega arith) h))

pub post_wallet_journal-Books :
    (t : ℕ) (description ref source_type : Text) (source_id : Option ℕ) (debit credit : ℕ) (a : ℤ)
    (w : World)
    → Books w.db
    → Outcome Kept Any
        (post_wallet_journal t description ref source_type source_id debit credit a w)
unfolding post_wallet_journal
post_wallet_journal-Books t description ref source_type source_id debit credit a w h =
    elim (Bool-cases (leb_ℤ a (pos 0) || debit == 0 || credit == 0)) [
      | inl skip ↦ rw skip (pure-Outcome Kept Any tt w h)
      | inr post ↦ rw post (
          >>=-Outcome Kept Any Kept _ _ w
            (insert_journal_entry-Books t description ref source_type source_id w h)
            (λ e v k. insert_journal_lines-Books t e debit credit a v k))
    ]

wallet_payment-IsSound :
    (t c : ℕ) (i : Invoice) (a : ℤ) (now : ℕ)
    → pos 0 <ℤ a
    → IsInt64 a
    → IsSound (wallet_payment t c i a now)
unfolding normalize_status trim_space
wallet_payment-IsSound t c i a now positive fits = record {
  normal = refl;
  positive = positive;
  fits = fits;
}

settle-Books :
    (t c : ℕ) (i : Invoice) (a : ℤ) (wl : Wallet) (w : World)
    → pos 0 <ℤ a
    → IsInt64 a
    → Books w.db
    → Outcome Kept Any (settle_from_wallet t c i a wl w)
unfolding settle_from_wallet lookup_account is_paid_status
settle-Books t c i a wl w positive fits h =
    >>-Outcome Kept Any Kept _ _ w (update_wallets-Books _ _ w h) (λ _ v kept.
      >>-Outcome Kept Any Kept _ _ v (insert_wallet_txn-Books t wl.id _ _ _ _ v kept) (λ _ v kept.
        gets->>= Kept Any _ _ v (
          let p = wallet_payment t c i a v.now in
          let s = wallet_payment-IsSound t c i a v.now positive fits in
          >>=-Outcome Kept Any (λ _ d. d ≡ with_payment v.db (new_row v.db p v.now)) _ _ v
            (insert_payment-Outcome _ Any p v tt refl)
            (λ n u e.
              >>-Outcome Kept Any Kept _ _ u
                (update_invoices-Outcome Kept Any _ _ u tt (λ rows q.
                  done p v kept s (record (u.db) { invoices = rows }) (ap (λ d. d.payments) e)
                    (ap (λ d. d.next_id) e)
                    (pay-IsSettled t i.id a v.db.payments (table p v kept s)
                      (insert-Shift (new_row v.db p v.now) i.id v.db.payments refl refl refl) v.now
                      v.db.invoices (rw e at q) kept.settled)))
                (λ _ u kept. select->>= Kept Any _ _ u tt (
                  select->>= Kept Any _ _ (bump u) tt (
                    >>-Outcome Kept Any Kept _ _ (bump (bump u))
                      (post_wallet_journal-Books t _ _ _ (some i.id) _ _ a (bump (bump u)) kept)
                      (λ _ v' k'. pure-Outcome Kept Any _ v' k'))))))))

pay_from-Books :
    (t c : ℕ) (i : Invoice) (a : ℤ) (o : Option Wallet) (w : World)
    → pos 0 <ℤ a
    → IsInt64 a
    → Books w.db
    → Outcome Kept Any (pay_from t c i a o w)
pay_from-Books t c i a none w positive fits h = pure-Outcome Kept Any none w h
pay_from-Books t c i a (some wl) w positive fits h = elim (Bool-cases (ltb_ℤ wl.balance a)) [
  | inl short ↦ rw short (pure-Outcome Kept Any none w h)
  | inr enough ↦ rw enough (settle-Books t c i a wl w positive fits h)
]

pay_found-Books :
    (t c : ℕ) (o : Option Invoice) (w : World) → Books w.db → Outcome Kept Any (pay_found t c o w)
pay_found-Books t c none w h = pure-Outcome Kept Any none w h
pay_found-Books t c (some i) w h =
    let remaining = i.total_amount -64 i.paid_amount in
    elim (Bool-cases (is_closed_status (normalize_status i.status) || leb_ℤ remaining (pos 0))) [
      | inl closed ↦ rw closed (pure-Outcome Kept Any none w h)
      | inr due ↦ rw due (
          select->>= Kept Any _ _ w tt (
            pay_from-Books t c i remaining (find? (is_wallet t c) w.db.wallets) (bump w)
              (ground arith) (-64-IsInt64 i.total_amount i.paid_amount) h))
    ]

-- PayInvoiceFromWallet keeps the books of the payments, whatever the invoice and the wallet and
-- whichever statement fails: the paid amount of every live invoice is the sum of its live counted
-- payments.
pub pay_invoice_from_wallet-Books :
    (t c k : ℕ) (w : World) → Books w.db → Books (pay_invoice_from_wallet t c k w).1.db
unfolding pay_invoice_from_wallet
pay_invoice_from_wallet-Books t c k w h = Outcome_db Books _ (
    set_tenant_context->> Kept Books _ w h (
      transaction-Outcome Kept Books _ (bump w) h (
        set_tenant_context->> Kept Any _ (bump (bump w)) tt
          (select->>= Kept Any _ _ _ tt (pay_found-Books t c _ _ h)))))
