-- ===== src/Invoices/Tests.antt =====
-- Runs on the sample tables, and the theorems about invoices at them.
use d5net_billing.Prelude.{◌≡◌, refl, List, [], ◌∷◌, arith}
use d5net_billing.Prelude.Int.{ℤ, pos, ◌+ℤ◌}
use d5net_billing.Prelude.Text.{text}
use d5net_billing.Db.{Invoice, Outcome, monad, update_rows, count_rows, ok, ◌>>◌, with_db}
use d5net_billing.Db.Samples.{sample_db, sample_world}
use d5net_billing.Invoices.{delete_invoice, restore_invoice, purge_invoice, apply_invoice_late_fee}
use d5net_billing.Invoices.RoundTrip.{cancelled, delete-restore}
use d5net_billing.Invoices.LateFee.{IsSettledFee, apply_invoice_late_fee_once}
use d5net_billing.Invoices.Purge.{WasPurgeable, IsCleared, purge_invoice-IsCleared}

abbrev totals : List Invoice → List ℤ
totals [] = []
totals (i ∷ is) = i.total_amount ∷ totals is

late_fee_raises :
    totals (apply_invoice_late_fee 7 1 (pos 2_000) [] sample_world).1.db.invoices ≡ pos 102_000 ∷ []
unfolding apply_invoice_late_fee monad update_rows ◌+ℤ◌
late_fee_raises = refl

purge_refuses : (purge_invoice 7 1 sample_world).1.db.invoices ≡ sample_db.invoices
unfolding purge_invoice monad
purge_refuses = refl

delete-restore_example :
    let r = (delete_invoice 7 1 >> restore_invoice 7 1) sample_world in
    (r.0 ≡ ok tt) × (r.1.db ≡ cancelled 7 1 sample_db)
unfolding count_rows
delete-restore_example =
    delete-restore 7 1 sample_world (λ n. refl) (omega arith) (refl, tt) (refl, (refl, tt))

apply_invoice_late_fee_once_example :
    Outcome
      (λ _. IsSettledFee 7 1)
      (λ d. d ≡ sample_db)
      (apply_invoice_late_fee 7 1 (pos 2_000) (text "Denda") sample_world)
apply_invoice_late_fee_once_example =
    apply_invoice_late_fee_once 7 1 (pos 2_000) (text "Denda") sample_world (omega arith)

purge_invoice-IsCleared_example :
    let w = with_db ((delete_invoice 7 1 sample_world).1.db) sample_world in
    Outcome
      (λ _ d. WasPurgeable 7 1 w.db × IsCleared 7 1 w.db d)
      (λ d. d.invoices ≡ w.db.invoices)
      (purge_invoice 7 1 w)
purge_invoice-IsCleared_example =
    purge_invoice-IsCleared 7 1 (with_db ((delete_invoice 7 1 sample_world).1.db) sample_world)
