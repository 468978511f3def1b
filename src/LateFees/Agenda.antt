-- ===== src/LateFees/Agenda.antt =====
-- The invoices that a round of late fees finds.
use d5net_billing.Prelude.{ℕ, ◌≤◌, ◌<◌, ◌≡◌, true, false, none, List, All, arith, keep, sort_by}
use d5net_billing.Prelude.Int.{◌<ℤ◌}
use d5net_billing.Prelude.Sorting.{
  Has, All-map, Ordered, keep-All, keep-Has, All-Has, sort_by-All, sort_by-Has, sort_by-Ordered,
}
use d5net_billing.Db.{Invoice}
use d5net_billing.Invoices.{is_open_status}
use d5net_billing.LateFees.{is_manual_overdue, is_due_before}

-- An invoice without a subscription, out of the trash, open, not paid in full, past its due date and
-- without a late fee.
pub record IsLate (t today : ℕ) (i : Invoice) : Type 0 where
  pub of_tenant : i.tenant_id ≡ t
  pub manual : i.subscription_id ≡ none
  pub kept : i.deleted_at ≡ none
  pub is_open : is_open_status i.status ≡ true
  pub owed : i.paid_amount <ℤ i.total_amount
  pub overdue : i.due_date < today
  pub fresh : i.late_fee_applied_at ≡ none

-- These invoices, all of them and no others, those that were due first in front.
pub record IsAgenda (t today : ℕ) (table is : List Invoice) : Type 0 where
  pub late : All (λ i. Has i table × IsLate t today i) is
  pub complete : All (λ i. IsLate t today i → Has i is) table
  pub ordered : Ordered (λ i. i.due_date) is

pub overdue-IsLate :
    (t today : ℕ) (i : Invoice) → is_manual_overdue t today i ≡ true → IsLate t today i
overdue-IsLate t today i h = record {
  of_tenant = ground arith;
  manual = ground arith;
  kept = ground arith;
  is_open = ground arith;
  owed = ground arith;
  overdue = ground arith;
  fresh = ground arith;
}

late-overdue : (t today : ℕ) (i : Invoice) → IsLate t today i → is_manual_overdue t today i ≡ true
late-overdue t today i h =
    let tenant = h.of_tenant in
    let owed = h.owed in
    let overdue = h.overdue in rw (h.manual, h.kept, h.is_open, h.fresh) (ground arith)

first_due : (a b : Invoice) → is_due_before a b ≡ true → a.due_date ≤ b.due_date
first_due a b h = ground arith

second_due : (a b : Invoice) → is_due_before a b ≡ false → b.due_date ≤ a.due_date
second_due a b h = ground arith

abbrev pub agenda : ℕ → ℕ → List Invoice → List Invoice
agenda t today table = sort_by is_due_before (keep (is_manual_overdue t today) table)

pub agenda-IsAgenda :
    (t today : ℕ) (table : List Invoice) → IsAgenda t today table (agenda t today table)
agenda-IsAgenda t today table =
    let p = is_manual_overdue t today in
    record {
      late =
          sort_by-All is_due_before (λ i. Has i table × IsLate t today i) (keep p table)
            (All-map (keep p table) (λ i (m, own). (m, overdue-IsLate t today i own))
              (keep-All (λ i. Has i table) p table (All-Has table)));
      complete =
          All-map table
            (λ i held late.
              sort_by-Has is_due_before i (keep p table)
                (keep-Has p i table (late-overdue t today i late) held))
            (All-Has table);
      ordered = sort_by-Ordered is_due_before (λ i. i.due_date) first_due second_due (keep p table);
    }
