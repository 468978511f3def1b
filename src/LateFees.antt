-- ===== src/LateFees.antt =====
-- internal/billing/engine.go: ProcessManualLateFees, the round of the worker that adds the late fee to
-- the overdue invoices without a subscription, and its query in internal/store/invoices.go. The
-- percentage and its text, which the settings give, are arguments.
pub mod Keeps
pub mod Agenda
pub mod Rows
pub mod Charge
pub mod Round
pub mod Charging
mod Tests
use d5net_billing.Prelude.{
  ℕ, suc, ◌+◌, Bool, true, false, ◌&&◌, ◌||◌, List, [], ◌∷◌, ltb, leb, ◌==◌, is_null, keep, sort_by,
  if◌then◌else◌,
}
use d5net_billing.Prelude.Int.{ℤ, pos, ltb_ℤ, leb_ℤ}
use d5net_billing.Prelude.Int64.{◌-64◌}
use d5net_billing.Prelude.Text.{Text}
use d5net_billing.Prelude.Float64.{Float64}
use d5net_billing.Db.{Invoice, M, or_else, pure, select, set_tenant_context, ◌>>=◌, ◌>>◌}
use d5net_billing.Invoices.{is_open_status, apply_invoice_late_fee}
use d5net_billing.Billing.{apply_late_fee}

-- WHERE i.tenant_id = $1 AND i.subscription_id IS NULL AND …
abbrev pub is_manual_overdue : ℕ → ℕ → Invoice → Bool
is_manual_overdue t today i =
    i.tenant_id == t
    && is_null i.subscription_id
    && is_null i.deleted_at
    && is_open_status i.status
    && ltb_ℤ i.paid_amount i.total_amount
    && ltb i.due_date today
    && is_null i.late_fee_applied_at

-- ORDER BY i.due_date, i.id
abbrev pub is_due_before : Invoice → Invoice → Bool
is_due_before a b = ltb a.due_date b.due_date || (a.due_date == b.due_date && leb a.id b.id)

-- ListManualOverdueInvoicesForLateFee
unfoldable pub list_manual_overdue_invoices_for_late_fee : ℕ → M (List Invoice)
list_manual_overdue_invoices_for_late_fee t = do
  set_tenant_context
  select λ w. sort_by is_due_before (keep (is_manual_overdue t w.today) w.db.invoices)

-- The fee of an invoice: the percentage of what is still to pay.
abbrev pub fee_of : (fl : Float64) → fl.F → Invoice → ℤ
fee_of fl percent i = apply_late_fee fl (i.total_amount -64 i.paid_amount) percent

abbrev pub counted : Bool → ℕ → ℕ
counted done n = if done then suc n else n

-- Whether the fee was added; an error leaves the invoice for the next round.
unfoldable pub try_late_fee : ℕ → ℕ → ℤ → Text → M Bool
try_late_fee t k fee description =
    or_else false (apply_invoice_late_fee t k fee description >> pure true)

-- The loop of ProcessManualLateFees.
unfoldable pub charge_all : (fl : Float64) → ℕ → fl.F → Text → List Invoice → M ℕ
charge_all fl t percent description [] = pure 0
charge_all fl t percent description (i ∷ is) =
    let rest = charge_all fl t percent description is in
    let next : M ℕ =
      (try_late_fee t i.id (fee_of fl percent i) description >>= λ done.
      rest >>= λ n. pure (counted done n)) in
    if leb_ℤ (fee_of fl percent i) (pos 0) then rest else next

-- ProcessManualLateFees
unfoldable pub process_manual_late_fees : (fl : Float64) → ℕ → fl.F → Text → M ℕ
process_manual_late_fees fl t percent description =
    let run : M ℕ =
      (list_manual_overdue_invoices_for_late_fee t >>= λ is.
      charge_all fl t percent description is) in
    if fl.at_most percent (fl.of_int (pos 0)) then pure 0 else run
