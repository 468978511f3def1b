-- ===== src/Sound/Payments.antt =====
-- Recording and deleting a payment keep both invariants.
use d5net_billing.Prelude.{ℕ, List, Option, none, some, inl, inr, Bool-cases, if◌then◌else◌}
use d5net_billing.Prelude.Int.{ℤ, pos, ◌<ℤ◌, eqb_ℤ}
use d5net_billing.Prelude.Int64.{IsInt64, ◌-64◌}
use d5net_billing.Prelude.Text.{trim_space}
use d5net_billing.Db.{
  Payment, Db, World, affected-Outcome, Outcome, Outcome_db, bump, pure-Outcome, >>=-Outcome,
  >>-Outcome, gets->>=, guard->>, set_tenant_context->>, transaction-Outcome,
}
use d5net_billing.Invoices.Updates.{update_invoices-Outcome, update_payments-Outcome}
use d5net_billing.Payments.{
  normalize_status, is_paid_status, or_paid, pay_invoice_of, record_payment,
  apply_invoice_payment_delta, apply_delta_of, moves_invoice, delete_payment_tx, delete_payment,
}
use d5net_billing.Payments.Record.{record_payment-Books}
use d5net_billing.Payments.Operations.{get_payment-Outcome, delete_payment-Books}
use d5net_billing.Wallet.Ledger.{Ledger}
use d5net_billing.Wallet.Statements.{Keeps, Nothing}
use d5net_billing.Wallet.Pay.{insert_payment-Ledger, invoices-Ledger}
use d5net_billing.Sound.{IsSoundDb}

pay_invoice_of-Ledger :
    (now t : ℕ) (o : Option ℕ) (a : ℤ) (w : World)
    → Ledger w.db
    → Outcome Keeps Nothing (pay_invoice_of now t o a w)
pay_invoice_of-Ledger now t none a w h = pure-Outcome Keeps Nothing tt w h
pay_invoice_of-Ledger now t (some k) a w h =
    >>-Outcome Keeps Nothing Keeps _ _ w
      (update_invoices-Outcome Keeps Nothing _ _ w tt (λ rows q. invoices-Ledger w.db rows h))
      (λ _ v kept. pure-Outcome Keeps Nothing tt v kept)

record_payment-Ledger : (p : Payment) (w : World) → Ledger w.db → Ledger (record_payment p w).1.db
unfolding record_payment
record_payment-Ledger p w h =
    let status = or_paid (normalize_status p.status) in
    let stored : Payment = record p {
      method = trim_space p.method;
      status = status;
      paid_at = if is_paid_status status then some w.now else none;
    } in
    Outcome_db Ledger _ (
      set_tenant_context->> Keeps Ledger _ w h (
        guard->> Keeps Ledger _ _ _ (bump w) h (λ named.
          transaction-Outcome Keeps Ledger _ (bump w) h (
            gets->>= Keeps Nothing _ _ (bump (bump w)) (
              >>=-Outcome Keeps Nothing Keeps _ _ (bump (bump w))
                (insert_payment-Ledger stored (bump (bump w)) h)
                (λ n v kept.
                  >>-Outcome Keeps Nothing Keeps _ _ v
                    (elim (Bool-cases (is_paid_status status)) [
                      | inl paid ↦
                          rw paid
                            (pay_invoice_of-Ledger w.now p.tenant_id p.invoice_id p.amount v kept)
                      | inr unpaid ↦ rw unpaid (pure-Outcome Keeps Nothing tt v kept)
                    ])
                    (λ _ v kept. pure-Outcome Keeps Nothing n v kept)))))))

pub record_payment-Sound :
    (p : Payment) (w : World)
    → pos 0 <ℤ p.amount
    → IsInt64 p.amount
    → IsSoundDb w.db
    → IsSoundDb (record_payment p w).1.db
record_payment-Sound p w positive fits (ledger, books) =
    (record_payment-Ledger p w ledger, record_payment-Books p w positive fits books)

payments-Ledger : (d : Db) (rows : List Payment) → Ledger d → Ledger (record d { payments = rows })
payments-Ledger d rows h = record {
  balances = h.balances;
  funded = h.funded;
  unique = h.unique;
  fresh = h.fresh;
  old = h.old;
  balanced = h.balanced;
}

apply_delta-Ledger :
    (t k : ℕ) (delta : ℤ) (w : World)
    → Ledger w.db
    → Outcome Keeps Nothing (apply_invoice_payment_delta t k delta w)
unfolding apply_invoice_payment_delta
apply_delta-Ledger t k delta w h = elim (Bool-cases (eqb_ℤ delta (pos 0))) [
  | inl still ↦ rw still (pure-Outcome Keeps Nothing tt w h)
  | inr moves ↦ rw moves (
      gets->>= Keeps Nothing _ _ w (
        gets->>= Keeps Nothing _ _ w (
          >>-Outcome Keeps Nothing Keeps _ _ w
            (update_invoices-Outcome Keeps Nothing _ _ w tt (λ rows q. invoices-Ledger w.db rows h))
            (λ _ v kept. pure-Outcome Keeps Nothing tt v kept))))
]

apply_delta_of-Ledger :
    (t : ℕ) (p : Payment) (o : Option ℕ) (delta : ℤ) (w : World)
    → Ledger w.db
    → Outcome Keeps Nothing (apply_delta_of t p o delta w)
apply_delta_of-Ledger t p none delta w h = pure-Outcome Keeps Nothing tt w h
apply_delta_of-Ledger t p (some k) delta w h = elim (Bool-cases (moves_invoice p)) [
  | inl moves ↦ rw moves (apply_delta-Ledger t k delta w h)
  | inr still ↦ rw still (pure-Outcome Keeps Nothing tt w h)
]

delete_payment_tx-Ledger :
    (t k : ℕ) (p : Payment) (w : World)
    → Ledger w.db
    → Outcome Keeps Ledger (delete_payment_tx t k p w)
unfolding delete_payment_tx
delete_payment_tx-Ledger t k p w h = transaction-Outcome Keeps Ledger _ w h (
    gets->>= Keeps Nothing _ _ (bump w) (
      >>-Outcome Keeps Nothing Keeps _ _ (bump w)
        (apply_delta_of-Ledger t p p.invoice_id (pos 0 -64 p.amount) (bump w) h)
        (λ _ v kept.
          >>=-Outcome Keeps Nothing Keeps _ _ v
            (update_payments-Outcome Keeps Nothing _ _ v tt (payments-Ledger v.db _ kept))
            (λ n u kept. affected-Outcome Keeps Nothing n u tt (λ some_row. kept)))))

delete_payment-Ledger : (t k : ℕ) (w : World) → Ledger w.db → Ledger (delete_payment t k w).1.db
unfolding delete_payment
delete_payment-Ledger t k w h = Outcome_db Ledger _ (
    get_payment-Outcome Keeps Ledger t k _ w h (λ p v found same.
      guard->> Keeps Ledger _ _ _ v (rw same h)
        (λ live. delete_payment_tx-Ledger t k p v (rw same h))))

pub delete_payment-Sound :
    (t k : ℕ) (w : World) → IsSoundDb w.db → IsSoundDb (delete_payment t k w).1.db
delete_payment-Sound t k w (ledger, books) =
    (delete_payment-Ledger t k w ledger, delete_payment-Books t k w books)
