-- ===== src/LateFees/Charging.antt =====
-- A whole round of late fees: what it lists, and what it does to that.
use d5net_billing.Prelude.{
  ℕ, ◌≡◌, refl, true, false, none, some, List, All, inl, inr, find?, keep, Bool-cases,
}
use d5net_billing.Prelude.Int.{pos}
use d5net_billing.Prelude.Text.{Text}
use d5net_billing.Prelude.Float64.{Float64}
use d5net_billing.Prelude.Sorting.{
  Distinct, All-map, keep-All, sort_by-All, keep-Distinct, sort_by-Distinct,
}
use d5net_billing.Db.{
  Invoice, Db, World, Result, ok, err, Error, Outcome, bump, pure, select, ◌>>=◌, if-Outcome,
  set_tenant_context->>,
}
use d5net_billing.Invoices.{is_live_invoice}
use d5net_billing.LateFees.{
  is_manual_overdue, is_due_before, charge_all, list_manual_overdue_invoices_for_late_fee,
  process_manual_late_fees,
}
use d5net_billing.LateFees.Agenda.{IsAgenda, agenda, agenda-IsAgenda, overdue-IsLate}
use d5net_billing.LateFees.Rows.{invoice_id, found_by_id}
use d5net_billing.LateFees.Round.{Round, Ran, Listed, charge_all-Ran}

-- The percentage is not positive, the query fails, or the late invoices are charged in their order.
pub data Charging (fl : Float64) (t : ℕ) (percent : fl.F) (description : Text) (w : World)
    : Result ℕ × World → Type 0 where
  off :
      fl.at_most percent (fl.of_int (pos 0)) ≡ true → Charging fl t percent description w (ok 0, w)
  unread : {e : Error} {v : World} → v.db ≡ w.db → Charging fl t percent description w (err e, v)
  ran :
      {n : ℕ} {u : World} (is : List Invoice) (v : World)
      → IsAgenda t w.today w.db.invoices is
      → v.db ≡ w.db
      → Round fl t percent description is v n u
      → Charging fl t percent description w (ok n, u)

agenda-rows :
    (t today : ℕ) (table : List Invoice)
    → Distinct invoice_id table
    → All
        (λ i. (i.late_fee_applied_at ≡ none) × (find? (is_live_invoice t i.id) table ≡ some i))
        (agenda t today table)
agenda-rows t today table unique =
    let p = is_manual_overdue t today in
    sort_by-All is_due_before
      (λ i. (i.late_fee_applied_at ≡ none) × (find? (is_live_invoice t i.id) table ≡ some i))
      (keep p table)
      (All-map (keep p table)
        (λ i (found, own).
          let late = overdue-IsLate t today i own in (late.fresh, found late.of_tenant late.kept))
        (keep-All
          (λ i.
            i.tenant_id ≡ t → i.deleted_at ≡ none → find? (is_live_invoice t i.id) table ≡ some i)
          p table (found_by_id t table unique)))

agenda-Distinct :
    (t today : ℕ) (table : List Invoice)
    → Distinct invoice_id table
    → Distinct invoice_id (agenda t today table)
agenda-Distinct t today table unique =
    let p = is_manual_overdue t today in
    sort_by-Distinct invoice_id is_due_before (keep p table)
      (keep-Distinct invoice_id p table unique)

-- What the query returns.
abbrev Queried : ℕ → World → List Invoice → Db → Type 0
Queried t w is d = (is ≡ agenda t w.today w.db.invoices) × (d ≡ w.db)

query-Queried :
    (t : ℕ) (w : World)
    → Outcome (Queried t w) (λ d. d ≡ w.db) (list_manual_overdue_invoices_for_late_fee t w)
unfolding list_manual_overdue_invoices_for_late_fee select
query-Queried t w =
    set_tenant_context->> (Queried t w) (λ d. d ≡ w.db) _ w refl
      (if-Outcome (Queried t w) (λ d. d ≡ w.db) (w.fault (bump w).tick) _ _ refl (refl, refl))

module _ (fl : Float64) (t : ℕ) (percent : fl.F) (description : Text) (w : World) where
  Ran-Charging :
      (is : List Invoice) (v : World) (r : Result ℕ × World)
      → IsAgenda t w.today w.db.invoices is
      → v.db ≡ w.db
      → Ran fl t percent description is v r
      → Charging fl t percent description w r
  Ran-Charging is v (ok n, u) listed kept h = ran is v listed kept h
  Ran-Charging is v (err e, u) listed kept h = absurd h

  on-Charging :
      fl.at_most percent (fl.of_int (pos 0)) ≡ false
      → Distinct invoice_id w.db.invoices
      → Charging fl t percent description w (
          (list_manual_overdue_invoices_for_late_fee t >>= λ is.
          charge_all fl t percent description is)
            w)
  unfolding ◌>>=◌
  on-Charging on unique = go (list_manual_overdue_invoices_for_late_fee t w) (query-Queried t w)
    where
      go :
          (r : Result (List Invoice) × World)
          → Outcome (Queried t w) (λ d. d ≡ w.db) r
          → Charging fl t percent description w (
              let (x, v) = r in
              elim x [ ok is ↦ charge_all fl t percent description is v | err e ↦ (err e, v) ])
      go (ok is, v) (same, kept) =
          let found = agenda t w.today w.db.invoices in
          let listed : Listed fl t percent description on found v.db = rw kept (
            unique,
            agenda-Distinct t w.today w.db.invoices unique,
            agenda-rows t w.today w.db.invoices unique,
          ) in
          rw same (
            Ran-Charging found v _ (agenda-IsAgenda t w.today w.db.invoices) kept
              (charge_all-Ran fl t percent description on found v listed))
      go (err e, v) kept = unread kept

-- Where the ids of the invoices are unique, whichever statement fails: ProcessManualLateFees does nothing
-- if the percentage is not positive, or its query fails and nothing is changed, or it takes the
-- invoices of the tenant without a subscription that are out of the trash, open, not paid in full,
-- overdue and without a late fee, all of these and no others, those that were due first in front. It
-- passes over those whose percentage of what is left to pay is not positive, leaves the invoices as
-- they are where charging one fails, and raises each other one by that fee, in subtotal and total,
-- with the time of the charge and no other row; it returns the number of those that it has raised.
pub process_manual_late_fees-Charging :
    (fl : Float64) (t : ℕ) (percent : fl.F) (description : Text) (w : World)
    → Distinct invoice_id w.db.invoices
    → Charging fl t percent description w (process_manual_late_fees fl t percent description w)
unfolding process_manual_late_fees pure
process_manual_late_fees-Charging fl t percent description w unique =
    elim (Bool-cases (fl.at_most percent (fl.of_int (pos 0)))) [
      | inl stop ↦ rw stop (off stop)
      | inr on ↦ rw on (on-Charging fl t percent description w on unique)
    ]
