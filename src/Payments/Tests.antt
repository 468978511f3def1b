-- ===== src/Payments/Tests.antt =====
-- Runs on the sample tables, and the theorems about payments at them.
use d5net_billing.Prelude.{◌≡◌, refl, List, [], ◌∷◌, arith}
use mathlib.Core.Option.{some-injective}
use d5net_billing.Prelude.Int.{ℤ, pos, ◌+ℤ◌, ◌-ℤ◌}
use d5net_billing.Prelude.Int64.{wrap64, ◌-64◌}
use d5net_billing.Prelude.Text.{trim_space}
use d5net_billing.Db.{Invoice, Outcome, monad, update_rows, set_rows, count_rows}
use d5net_billing.Db.Samples.{sample_db, sample_world, faulty_world, sample_payment}
use d5net_billing.Payments.{
  record_payment, delete_payment, delete_payment_tx, is_live_payment, restore_payment,
  normalize_status, is_paid_status, add_delta, add_payment, payment_counts_toward_invoice,
}
use d5net_billing.Payments.Sums.{paid_sum, share}
use d5net_billing.Payments.Books.{Books}
use d5net_billing.Payments.Operations.{delete_payment-Books, delete_payment_tx_stale}
use d5net_billing.Payments.Record.{record_payment-Books}
use d5net_billing.Payments.Restore.{restore_payment-Books}

pub sample-Books : Books sample_db
unfolding paid_sum share normalize_status trim_space is_paid_status ◌+ℤ◌
sample-Books = record {
  settled = ((λ live. refl), tt);
  sound = (
    record { normal = refl; positive = omega arith; fits = omega arith },
    (record { normal = refl; positive = omega arith; fits = omega arith }, tt),
  );
  unique = omega arith;
  fresh = omega arith;
}

-- The paid amounts after a run.
abbrev paid : List Invoice → List ℤ
paid [] = []
paid (i ∷ is) = i.paid_amount ∷ paid is

record_pays :
    paid (record_payment (record sample_payment { amount = pos 60_000 }) sample_world).1.db.invoices
    ≡ pos 100_000 ∷ []
unfolding record_payment monad update_rows add_payment normalize_status trim_space is_paid_status
    ◌+ℤ◌
record_pays = refl

delete_unpays : paid (delete_payment 7 2 sample_world).1.db.invoices ≡ pos 0 ∷ []
unfolding delete_payment monad update_rows set_rows count_rows add_delta
    payment_counts_toward_invoice normalize_status trim_space is_paid_status ◌+ℤ◌ ◌-64◌ wrap64 ◌-ℤ◌
delete_unpays = refl

delete_payment-Books_example : Books (delete_payment 7 2 sample_world).1.db
delete_payment-Books_example = delete_payment-Books 7 2 sample_world sample-Books

record_payment-Books_example :
    Books (record_payment (record sample_payment { amount = pos 60_000 }) sample_world).1.db
record_payment-Books_example =
    record_payment-Books (record sample_payment { amount = pos 60_000 }) sample_world (omega arith)
      (omega arith) sample-Books

restore_payment-Books_example : Books (restore_payment 7 3 sample_world).1.db
restore_payment-Books_example =
    restore_payment-Books 7 3 sample_world
      (λ p found. rw (← some-injective _ _ found) (λ i q. rw (← some-injective _ _ q) refl))
      sample-Books

-- The third statement of the stale deletion fails too.
delete_payment_tx_stale_example :
    Outcome (λ _ _. ⊥) (λ d. d ≡ sample_db) (delete_payment_tx 7 3 sample_payment (faulty_world 2))
unfolding count_rows
delete_payment_tx_stale_example =
    delete_payment_tx_stale 7 3 sample_payment (faulty_world 2) nothing_live
  where
    nothing_live : count_rows (is_live_payment 7 3) sample_db.payments ≡ 0
    nothing_live = refl
