-- ===== src/LateFees/Tests.antt =====
-- Rounds of late fees of 5% on the sample invoice without its subscription, and the theorem at them.
use d5net_billing.Prelude.{◌≡◌, refl, none, List, [], ◌∷◌}
use d5net_billing.Prelude.Int.{ℤ, pos, ◌+ℤ◌, ◌-ℤ◌}
use d5net_billing.Prelude.Int64.{wrap64, ◌-64◌}
use d5net_billing.Prelude.Text.{text}
use d5net_billing.Db.{Invoice, Db, World, monad, update_rows, with_db}
use d5net_billing.Db.Samples.{sample_db, sample_invoice, sample_world, faulty_world}
use d5net_billing.Invoices.{is_open_status, apply_invoice_late_fee}
use d5net_billing.Billing.{apply_late_fee}
use d5net_billing.Billing.Tests.{whole}
use d5net_billing.LateFees.{
  process_manual_late_fees, list_manual_overdue_invoices_for_late_fee, charge_all, try_late_fee,
}
use d5net_billing.LateFees.Charging.{Charging, process_manual_late_fees-Charging}

abbrev manual_db : Db
manual_db = record sample_db { invoices = record sample_invoice { subscription_id = none } ∷ [] }

abbrev totals : List Invoice → List ℤ
totals [] = []
totals (i ∷ is) = i.total_amount ∷ totals is

round : World → World
round w = (process_manual_late_fees whole 7 5 (text "Denda keterlambatan 5%") w).1

one_round : totals (round (with_db manual_db sample_world)).db.invoices ≡ pos 103_000 ∷ []
unfolding round process_manual_late_fees list_manual_overdue_invoices_for_late_fee charge_all
    try_late_fee apply_invoice_late_fee apply_late_fee is_open_status monad update_rows ◌+ℤ◌ ◌-ℤ◌
    ◌-64◌ wrap64
one_round = refl

two_rounds : totals (round (round (with_db manual_db sample_world))).db.invoices ≡ pos 103_000 ∷ []
unfolding round process_manual_late_fees list_manual_overdue_invoices_for_late_fee charge_all
    try_late_fee apply_invoice_late_fee apply_late_fee is_open_status monad update_rows ◌+ℤ◌ ◌-ℤ◌
    ◌-64◌ wrap64
two_rounds = refl

process_manual_late_fees-Charging_example :
    Charging whole 7 5 (text "Denda keterlambatan 5%") (with_db manual_db (faulty_world 6)) (
      process_manual_late_fees whole 7 5
        (text "Denda keterlambatan 5%")
        (with_db manual_db (faulty_world 6)))
process_manual_late_fees-Charging_example =
    process_manual_late_fees-Charging whole 7 5 (text "Denda keterlambatan 5%")
      (with_db manual_db (faulty_world 6)) (tt, tt)
