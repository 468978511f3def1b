-- ===== src/Invoices/Trash.antt =====
-- Trashing an invoice and restoring it.
use d5net_billing.Prelude.{ℕ, ◌-◌, ◌≡◌, ◌≢◌, ◌∙◌, refl, ap, Bool, Option, none, some}
use d5net_billing.Db.{
  Invoice, Payment, Db, World, ok, bump, with_db, Calm, count_rows, set_rows, update_rows-total,
  then-run, gets-run, write-last, bind-run, transaction-run, tenant-run, affected-run,
}
use d5net_billing.Invoices.{
  is_live_invoice, is_trashed_invoice, is_payment_of, is_bundled_payment, is_intent_of,
  cancel_intent, cancel_intents, trash_payment, untrash_payment, with_rows, update_invoices,
  update_payments, delete_invoice, restore_invoice_tx, two_seconds,
}

abbrev pub trashed : ℕ → Invoice → Invoice
trashed now i = record i { deleted_at = some now }

abbrev pub untrashed : Invoice → Invoice
untrashed i = record i { deleted_at = none }

-- The tables after DeleteInvoice and after RestoreInvoice.
abbrev pub trashed_db : ℕ → ℕ → ℕ → Db → Db
trashed_db t k now d = record d {
  payment_intents = set_rows (is_intent_of t k) cancel_intent d.payment_intents;
  payments = set_rows (is_payment_of t k) (trash_payment now) d.payments;
  invoices = set_rows (is_live_invoice t k) (trashed now) d.invoices;
}

abbrev pub restored_db : ℕ → ℕ → ℕ → Db → Db
restored_db t k at d = record d {
  payments = set_rows (is_bundled_payment t k (at - two_seconds)) untrash_payment d.payments;
  invoices = set_rows (is_trashed_invoice t k) untrashed d.invoices;
}

update_invoices-run :
    (p : Invoice → Bool) (f : Invoice → Option Invoice) (g : Invoice → Invoice) (w : World)
    → Calm w
    → ((i : Invoice) → f i ≡ some (g i))
    → update_invoices p f w ≡ (
      ok (count_rows p w.db.invoices),
      with_db (record (w.db) { invoices = set_rows p g w.db.invoices }) (bump w),
    )
unfolding update_invoices
update_invoices-run p f g w calm total =
    write-last _ w _ _ calm (ap (with_rows p w.db) (update_rows-total p f g w.db.invoices total))

update_payments-run :
    (p : Payment → Bool) (f : Payment → Payment) (w : World)
    → Calm w
    → update_payments p f w ≡ (
      ok (count_rows p w.db.payments),
      with_db (record (w.db) { payments = set_rows p f w.db.payments }) (bump w),
    )
unfolding update_payments
update_payments-run p f w calm = write-last _ w _ _ calm refl

pub delete_invoice-run :
    (t k : ℕ) (w : World)
    → Calm w
    → 0 ≢ count_rows (is_live_invoice t k) w.db.invoices
    → delete_invoice t k w
      ≡ (ok tt, with_db (trashed_db t k w.now w.db) (bump (bump (bump (bump (bump (bump w)))))))
unfolding delete_invoice cancel_intents
delete_invoice-run t k w calm live =
    tenant-run _ w calm
    ∙ transaction-run _ (bump w) tt _ calm
        (then-run _ _ _ tt _ (write-last _ _ tt _ calm refl)
          ∙ gets-run _ _ _
          ∙ then-run _ _ _ _ _ (update_payments-run _ _ _ calm)
          ∙ bind-run _ _ _ _ _ (update_invoices-run _ _ (trashed w.now) _ calm (λ i. refl))
          ∙ affected-run _ _ live)
        calm

pub restore_invoice_tx-run :
    (t k at : ℕ) (w : World)
    → Calm w
    → 0 ≢ count_rows (is_trashed_invoice t k) w.db.invoices
    → restore_invoice_tx t k at w
      ≡ (ok tt, with_db (restored_db t k at w.db) (bump (bump (bump (bump w)))))
unfolding restore_invoice_tx
restore_invoice_tx-run t k at w calm some_row =
    transaction-run _ w tt _ calm
      (then-run _ _ _ _ _ (update_payments-run _ _ _ calm)
        ∙ bind-run _ _ _ _ _ (update_invoices-run _ _ untrashed _ calm (λ i. refl))
        ∙ affected-run _ _ some_row)
      calm
