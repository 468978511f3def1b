-- ===== src/Wallet/Pay.antt =====
-- Topping up, crediting and paying from a wallet.
use d5net_billing.Prelude.{
  ℕ, ◌<◌, ◌≡◌, refl, ap, ◌||◌, none, some, Option, List, inl, inr, arith, find?, Bool-cases,
  if_some,
}
use d5net_billing.Prelude.Int.{ℤ, pos, ◌-ℤ◌, ◌≤ℤ◌, int_laws, leb_ℤ, ltb_ℤ}
use d5net_billing.Prelude.Int64.{◌-64◌}
use d5net_billing.Prelude.Text.{Text}
use d5net_billing.Db.{
  Invoice, Payment, Wallet, Db, World, Outcome, Outcome_db, bump, write-Outcome, >>=-Outcome,
  >>-Outcome, pure-Outcome, gets->>=, select->>=, guard->>, set_tenant_context->>,
  transaction-Outcome, find?-All,
}
use d5net_billing.Invoices.Updates.{update_invoices-Outcome}
use d5net_billing.Payments.{references, insert_payment, normalize_status}
use d5net_billing.Wallet.{
  is_wallet, is_wallet_id, topup_wallet, credit_wallet, lookup_account, settle_from_wallet,
  pay_from, pay_found, is_closed_status, pay_invoice_from_wallet, wallet_payment,
}
use d5net_billing.Wallet.Ledger.{Ahead, Ledger, is_wallet-Picks, is_wallet_id-Picks}
use d5net_billing.Wallet.Keeps.{same-Ledger}
use d5net_billing.Wallet.Statements.{
  Nothing, Keeps, upsert_wallet-Ahead, update_wallets-Ahead, insert_txn-Ledger,
  insert_wallet_txn-Ledger, post_wallet_journal-Ledger,
}

-- TopupWallet keeps the ledger, for any amount and whichever statement fails: every balance is the
-- sum of the wallet's transactions and not negative, and every journal entry balances.
pub topup_wallet-Ledger :
    (t c : ℕ) (a : ℤ) (type ref desc : Text) (w : World)
    → Ledger w.db
    → Ledger (topup_wallet t c a type ref desc w).1.db
unfolding topup_wallet lookup_account
topup_wallet-Ledger t c a type ref desc w h = Outcome_db Ledger _ (
    guard->> Keeps Ledger _ _ _ w h (λ positive. transaction-Outcome Keeps Ledger _ w h (
      set_tenant_context->> Keeps Nothing _ (bump w) tt (
        >>=-Outcome Keeps Nothing (λ k. Ahead k a) _ _ (bump (bump w))
          (upsert_wallet-Ahead t c a (bump (bump w)) (ground arith) h)
          (λ k v ahead. gets->>= Keeps Nothing _ _ v (
            >>-Outcome Keeps Nothing Keeps _ _ v (insert_wallet_txn-Ledger t k a _ ref desc v ahead)
              (λ _ u kept. select->>= Keeps Nothing _ _ u tt (
                select->>= Keeps Nothing _ _ (bump u) tt (
                  >>-Outcome Keeps Nothing Keeps _ _ (bump (bump u))
                    (post_wallet_journal-Ledger t _ _ _ (some c) _ _ a (bump (bump u)) kept)
                    (λ _ v' k'. pure-Outcome Keeps Nothing _ v' k'))))))))))

-- CreditWallet of an amount that is not negative keeps the ledger, whichever statement fails.
pub credit_wallet-Ledger :
    (t c : ℕ) (a : ℤ) (type ref desc : Text) (w : World)
    → pos 0 ≤ℤ a
    → Ledger w.db
    → Ledger (credit_wallet t c a type ref desc w).1.db
unfolding credit_wallet
credit_wallet-Ledger t c a type ref desc w nonneg h = Outcome_db Ledger _ (
    transaction-Outcome Keeps Ledger _ w h (
      >>=-Outcome Keeps Nothing (λ k. Ahead k a) _ _ (bump w)
        (upsert_wallet-Ahead t c a (bump w) nonneg h)
        (λ k v ahead. insert_txn-Ledger t k a type _ _ v ahead)))

pub insert_payment-Ledger :
    (p : Payment) (w : World) → Ledger w.db → Outcome Keeps Nothing (insert_payment p w)
unfolding insert_payment
insert_payment-Ledger p w h = write-Outcome Keeps Nothing _ w tt (λ n d q.
    let q' = if_some (references p.invoice_id w.db.invoices) _ q in
    rw (← ap (λ r. r.1) q') (same-Ledger w.db _ refl refl refl h.balanced h))

-- The invoices are no part of the ledger.
pub invoices-Ledger :
    (d : Db) (rows : List Invoice) → Ledger d → Ledger (record d { invoices = rows })
invoices-Ledger d rows h = record {
  balances = h.balances;
  funded = h.funded;
  unique = h.unique;
  fresh = h.fresh;
  old = h.old;
  balanced = h.balanced;
}

settle-Ledger :
    (t c : ℕ) (i : Invoice) (a : ℤ) (wl : Wallet) (w : World)
    → Ledger w.db
    → find? (is_wallet t c) w.db.wallets ≡ some wl
    → a ≤ℤ wl.balance
    → Outcome Keeps Nothing (settle_from_wallet t c i a wl w)
unfolding settle_from_wallet lookup_account
settle-Ledger t c i a wl w h found enough =
    let ws = w.db.wallets in
    let picks = is_wallet_id-Picks t c wl ws (is_wallet-Picks t c ws h.unique found) in
    let known = find?-All (λ x. x.id < w.db.next_id) (is_wallet t c) ws found h.fresh in
    >>-Outcome Keeps Nothing (λ _. Ahead wl.id (pos 0 -ℤ a)) _ _ w
      (update_wallets-Ahead (is_wallet_id t wl.id) wl (pos 0 -ℤ a) w h picks known (omega int_laws))
      (λ _ v ahead.
        >>-Outcome Keeps Nothing Keeps _ _ v
          (insert_wallet_txn-Ledger t wl.id (pos 0 -ℤ a) _ _ _ v ahead)
          (λ _ v kept. gets->>= Keeps Nothing _ _ v (
            >>=-Outcome Keeps Nothing Keeps _ _ v
              (insert_payment-Ledger (wallet_payment t c i a v.now) v kept)
              (λ p v kept.
                >>-Outcome Keeps Nothing Keeps _ _ v
                  (update_invoices-Outcome Keeps Nothing _ _ v tt
                    (λ rows q. invoices-Ledger v.db rows kept))
                  (λ _ v kept. select->>= Keeps Nothing _ _ v tt (
                    select->>= Keeps Nothing _ _ (bump v) tt (
                      >>-Outcome Keeps Nothing Keeps _ _ (bump (bump v))
                        (post_wallet_journal-Ledger t _ _ _ (some i.id) _ _ a (bump (bump v)) kept)
                        (λ _ v' k'. pure-Outcome Keeps Nothing _ v' k'))))))))

pay_from-Ledger :
    (t c : ℕ) (i : Invoice) (a : ℤ) (o : Option Wallet) (w : World)
    → Ledger w.db
    → find? (is_wallet t c) w.db.wallets ≡ o
    → Outcome Keeps Nothing (pay_from t c i a o w)
pay_from-Ledger t c i a none w h found = pure-Outcome Keeps Nothing none w h
pay_from-Ledger t c i a (some wl) w h found = elim (Bool-cases (ltb_ℤ wl.balance a)) [
  | inl short ↦ rw short (pure-Outcome Keeps Nothing none w h)
  | inr enough ↦ rw enough (settle-Ledger t c i a wl w h found (ground arith))
]

pay_found-Ledger :
    (t c : ℕ) (o : Option Invoice) (w : World)
    → Ledger w.db
    → Outcome Keeps Nothing (pay_found t c o w)
pay_found-Ledger t c none w h = pure-Outcome Keeps Nothing none w h
pay_found-Ledger t c (some i) w h =
    let remaining = i.total_amount -64 i.paid_amount in
    elim (Bool-cases (is_closed_status (normalize_status i.status) || leb_ℤ remaining (pos 0))) [
      | inl closed ↦ rw closed (pure-Outcome Keeps Nothing none w h)
      | inr due ↦ rw due (
          select->>= Keeps Nothing _ _ w tt
            (pay_from-Ledger t c i remaining (find? (is_wallet t c) w.db.wallets) (bump w) h refl))
    ]

-- PayInvoiceFromWallet keeps the ledger, whatever the invoice and the wallet and whichever
-- statement fails: in particular no balance becomes negative.
pub pay_invoice_from_wallet-Ledger :
    (t c k : ℕ) (w : World) → Ledger w.db → Ledger (pay_invoice_from_wallet t c k w).1.db
unfolding pay_invoice_from_wallet
pay_invoice_from_wallet-Ledger t c k w h = Outcome_db Ledger _ (
    set_tenant_context->> Keeps Ledger _ w h (
      transaction-Outcome Keeps Ledger _ (bump w) h (
        set_tenant_context->> Keeps Nothing _ (bump (bump w)) tt
          (select->>= Keeps Nothing _ _ _ tt (pay_found-Ledger t c _ _ h)))))
