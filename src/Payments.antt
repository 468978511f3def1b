-- ===== src/Payments.antt =====
-- internal/store/invoices.go: recording, reading, deleting and restoring payments, which move the
-- paid amount of their invoice.
pub mod Sums
pub mod Books
pub mod Shifts
pub mod Deltas
pub mod Operations
pub mod Restore
pub mod Record
pub mod Tests
use mathlib.Core.Bool.{not}
use d5net_billing.Prelude.{
  ℕ, suc, ◌-◌, Bool, true, false, ◌&&◌, ◌||◌, Option, none, some, List, [], ◌∷◌, ltb, leb, ◌==◌,
  is_id, is_null, any, find?, if◌then◌else◌,
}
use d5net_billing.Prelude.Int.{ℤ, pos, ◌+ℤ◌, ◌-ℤ◌, leb_ℤ, ltb_ℤ, eqb_ℤ}
use d5net_billing.Prelude.Int64.{bigint, ◌-64◌}
use d5net_billing.Prelude.Text.{Text, text, text_eq, trim_space, to_lower}
use d5net_billing.Db.{
  Invoice, InvoiceItem, Payment, Db, World, Result, M, ⊤, Error, not_found, method_required, ok,
  err, pure, throw, gets, select, write, transaction, guard, set_tenant_context, row, affected,
  ◌>>=◌, ◌>>◌,
}
use d5net_billing.Invoices.{
  is_live_invoice, is_invoice, update_invoices, update_payments, get_invoice, restore_invoice,
  two_seconds, deleted_since,
}

-- strings.ToLower(strings.TrimSpace(status))
unfoldable pub normalize_status : Text → Text
normalize_status s = to_lower (trim_space s)

-- st == "paid" || st == "success"
unfoldable pub is_paid_status : Text → Bool
is_paid_status s = text_eq s (text "paid") || text_eq s (text "success")

-- paymentCountsTowardInvoice
unfoldable pub payment_counts_toward_invoice : Text → Bool
payment_counts_toward_invoice s = is_paid_status (normalize_status s)

abbrev pub or_paid : Text → Text
or_paid [] = text "paid"
or_paid (c ∷ s) = c ∷ s

abbrev pub is_empty : Text → Bool
is_empty [] = true
is_empty (c ∷ s) = false

-- The UPDATE of RecordPayment.
abbrev pub set_paid : ℕ → ℤ → Invoice → Invoice
set_paid now n i =
    let full = leb_ℤ i.total_amount n in
    record i {
      paid_amount = n;
      status = if full then text "paid" else text "partial";
      paid_at = if full then some now else i.paid_at;
    }

unfoldable pub add_payment : ℕ → ℤ → Invoice → Option Invoice
add_payment now a i = elim (bigint (i.paid_amount +ℤ a)) [
  | none ↦ none
  | some n ↦ some (set_paid now n i)
]

-- `invoice_id` references an invoice, of any tenant.
abbrev pub references : Option ℕ → List Invoice → Bool
references none is = true
references (some k) is = any (λ i. i.id == k) is

-- The INSERT of RecordPayment; a dangling invoice id breaks the foreign key.
unfoldable pub insert_payment : Payment → M Payment
insert_payment p = write λ w.
    let new : Payment = record p { id = w.db.next_id; created_at = w.now; deleted_at = none } in
    if references p.invoice_id w.db.invoices
    then some (new, record (w.db) { next_id = suc w.db.next_id; payments = new ∷ w.db.payments })
    else none

abbrev pub pay_invoice_of : ℕ → ℕ → Option ℕ → ℤ → M ⊤
pay_invoice_of now t none a = pure tt
pay_invoice_of now t (some k) a =
    update_invoices (is_live_invoice t k) (add_payment now a) >> pure tt

-- RecordPayment
unfoldable pub record_payment : Payment → M Payment
unfolding insert_payment update_invoices
record_payment p = do
  set_tenant_context
  let method = trim_space p.method
  guard (not (is_empty method)) method_required
  let status = or_paid (normalize_status p.status)
  transaction do
    now ← gets λ w. w.now
    let paid_at : Option ℕ = if is_paid_status status then some now else none
    new ← insert_payment (record p { method = method; status = status; paid_at = paid_at })
    let settle = pay_invoice_of now p.tenant_id p.invoice_id p.amount
    if is_paid_status status then settle else pure tt
    pure new

abbrev pub is_payment : ℕ → ℕ → Payment → Bool
is_payment t k p = p.tenant_id == t && p.id == k

-- GetPayment
unfoldable pub get_payment : ℕ → ℕ → M Payment
get_payment t k = do set_tenant_context; row (← select λ w. find? (is_payment t k) w.db.payments)

-- GREATEST(0, n)
abbrev pub greatest_0 : ℤ → ℤ
greatest_0 n = if leb_ℤ (pos 0) n then n else pos 0

abbrev pub or_now : ℕ → Option ℕ → Option ℕ
or_now now none = some now
or_now now (some at) = some at

abbrev pub set_delta : ℕ → ℕ → ℤ → Invoice → Invoice
set_delta now today n i =
    let full = leb_ℤ i.total_amount n in
    record i {
      paid_amount = n;
      status =
          if leb_ℤ n (pos 0)
          then (if ltb i.due_date today then text "overdue" else text "issued")
          else (if full then text "paid" else text "partial");
      paid_at = if full then or_now now i.paid_at else none;
    }

-- The UPDATE of applyInvoicePaymentDelta.
unfoldable pub add_delta : ℕ → ℕ → ℤ → Invoice → Option Invoice
add_delta now today delta i = elim (bigint (i.paid_amount +ℤ delta)) [
  | none ↦ none
  | some n ↦ some (set_delta now today (greatest_0 n) i)
]

-- applyInvoicePaymentDelta
unfoldable pub apply_invoice_payment_delta : ℕ → ℕ → ℤ → M ⊤
unfolding update_invoices
apply_invoice_payment_delta t k delta =
    let update : M ⊤ = (do
      now ← gets λ w. w.now
      today ← gets λ w. w.today
      update_invoices (is_live_invoice t k) (add_delta now today delta)
      pure tt) in
    if eqb_ℤ delta (pos 0) then pure tt else update

-- p.InvoiceID != nil && paymentCountsTowardInvoice(p.Status) && p.Amount > 0
abbrev pub moves_invoice : Payment → Bool
moves_invoice p = payment_counts_toward_invoice p.status && ltb_ℤ (pos 0) p.amount

abbrev pub apply_delta_of : ℕ → Payment → Option ℕ → ℤ → M ⊤
apply_delta_of t p none delta = pure tt
apply_delta_of t p (some k) delta =
    if moves_invoice p then apply_invoice_payment_delta t k delta else pure tt

abbrev pub is_live_payment : ℕ → ℕ → Payment → Bool
is_live_payment t k p = is_payment t k p && is_null p.deleted_at

abbrev pub is_trashed_payment : ℕ → ℕ → Payment → Bool
is_trashed_payment t k p = is_payment t k p && not (is_null p.deleted_at)

abbrev pub set_deleted_at : Option ℕ → Payment → Payment
set_deleted_at at p = record p { deleted_at = at }

-- The transaction of DeletePayment, for the payment that was read before it began.
unfoldable pub delete_payment_tx : ℕ → ℕ → Payment → M ⊤
unfolding apply_invoice_payment_delta update_payments
delete_payment_tx t k p = transaction do
  now ← gets λ w. w.now
  apply_delta_of t p p.invoice_id (pos 0 -64 p.amount)
  affected (← update_payments (is_live_payment t k) (set_deleted_at (some now)))

-- DeletePayment
unfoldable pub delete_payment : ℕ → ℕ → M ⊤
unfolding get_payment delete_payment_tx
delete_payment t k = do
  p ← get_payment t k
  guard (is_null p.deleted_at) not_found
  delete_payment_tx t k p

-- The transaction of RestorePayment.
unfoldable pub restore_payment_tx : ℕ → ℕ → Payment → M ⊤
unfolding apply_invoice_payment_delta update_payments
restore_payment_tx t k p = transaction do
  affected (← update_payments (is_trashed_payment t k) (set_deleted_at none))
  apply_delta_of t p p.invoice_id p.amount

abbrev pub deleted_at_of : Result (Invoice × List InvoiceItem) × World → Result (Option ℕ) × World
deleted_at_of (ok (inv, items), w) = (ok inv.deleted_at, w)
deleted_at_of (err not_found, w) = (ok none, w)
deleted_at_of (err e, w) = (err e, w)

-- What GetInvoiceIncludingDeleted leaves in `inv`: nil if there is none.
abbrev pub find_invoice_deleted_at : ℕ → ℕ → M (Option ℕ)
find_invoice_deleted_at t k w = deleted_at_of (get_invoice true t k w)

-- Restores a trashed invoice; true if the payment came back with it.
abbrev pub restore_bundle : ℕ → ℕ → Option ℕ → Option ℕ → M Bool
restore_bundle t k deleted_at none = pure false
restore_bundle t k deleted_at (some at) = do
  restore_invoice t k
  pure (deleted_since deleted_at (at - two_seconds))

abbrev pub restore_invoice_of : ℕ → Payment → Option ℕ → M Bool
restore_invoice_of t p none = pure false
restore_invoice_of t p (some k) = do
  at ← find_invoice_deleted_at t k
  restore_bundle t k p.deleted_at at

-- RestorePayment
unfoldable pub restore_payment : ℕ → ℕ → M ⊤
unfolding get_payment restore_payment_tx restore_invoice
restore_payment t k = do
  p ← get_payment t k
  let restore : M ⊤ = (do
    bundled ← restore_invoice_of t p p.invoice_id
    if bundled then pure tt else restore_payment_tx t k p)
  if is_null p.deleted_at then pure tt else restore
