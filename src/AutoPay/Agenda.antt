-- ===== src/AutoPay/Agenda.antt =====
-- The invoices that the query of AutoSettleCustomer finds, oldest first.
use d5net_billing.Prelude.{ℕ, ◌≤◌, ◌≡◌, true, false, none, List, All, arith, is_null, keep, sort_by}
use d5net_billing.Prelude.Int.{◌<ℤ◌}
use d5net_billing.Prelude.Sorting.{
  Has, All-map, Ordered, keep-All, keep-Has, All-Has, sort_by-All, sort_by-Has, sort_by-Ordered,
}
use d5net_billing.Db.{Invoice}
use d5net_billing.Invoices.{is_open_status}
use d5net_billing.AutoPay.{is_outstanding, comes_before}

-- An invoice of this customer for a subscription that is out of the trash, open and not paid in full.
pub record IsDue (t c : ℕ) (i : Invoice) : Type 0 where
  pub of_tenant : i.tenant_id ≡ t
  pub of_customer : i.customer_id ≡ c
  pub kept : i.deleted_at ≡ none
  pub is_open : is_open_status i.status ≡ true
  pub owed : i.paid_amount <ℤ i.total_amount
  pub subscribed : is_null i.subscription_id ≡ false

-- These invoices, all of them and no others, those that are due first in front.
pub record IsAgenda (t c : ℕ) (table is : List Invoice) : Type 0 where
  pub due : All (λ i. Has i table × IsDue t c i) is
  pub complete : All (λ i. IsDue t c i → Has i is) table
  pub ordered : Ordered (λ i. i.due_date) is

outstanding-IsDue : (t c : ℕ) (i : Invoice) → is_outstanding t c true i ≡ true → IsDue t c i
outstanding-IsDue t c i h = record {
  of_tenant = ground arith;
  of_customer = ground arith;
  kept = ground arith;
  is_open = ground arith;
  owed = ground arith;
  subscribed = ground arith;
}

due-outstanding : (t c : ℕ) (i : Invoice) → IsDue t c i → is_outstanding t c true i ≡ true
due-outstanding t c i h =
    let tenant = h.of_tenant in
    let customer = h.of_customer in
    let owed = h.owed in rw (h.kept, h.is_open, h.subscribed) (ground arith)

first_due : (a b : Invoice) → comes_before a b ≡ true → a.due_date ≤ b.due_date
first_due a b h = ground arith

second_due : (a b : Invoice) → comes_before a b ≡ false → b.due_date ≤ a.due_date
second_due a b h = ground arith

abbrev pub agenda : ℕ → ℕ → List Invoice → List Invoice
agenda t c table = sort_by comes_before (keep (is_outstanding t c true) table)

pub agenda-IsAgenda : (t c : ℕ) (table : List Invoice) → IsAgenda t c table (agenda t c table)
agenda-IsAgenda t c table =
    let p = is_outstanding t c true in
    record {
      due =
          sort_by-All comes_before (λ i. Has i table × IsDue t c i) (keep p table)
            (All-map (keep p table) (λ i (m, own). (m, outstanding-IsDue t c i own))
              (keep-All (λ i. Has i table) p table (All-Has table)));
      complete =
          All-map table
            (λ i held due.
              sort_by-Has comes_before i (keep p table)
                (keep-Has p i table (due-outstanding t c i due) held))
            (All-Has table);
      ordered = sort_by-Ordered comes_before (λ i. i.due_date) first_due second_due (keep p table);
    }
