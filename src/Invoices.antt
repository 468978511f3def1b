-- ===== src/Invoices.antt =====
-- internal/store/invoices.go: creating, reading, trashing, restoring and purging invoices, and the
-- late fee of a manual invoice. The columns `updated_at` are left out, and so is the join with the
-- customer's name, which the foreign key guarantees.
pub mod Updates
pub mod Trash
pub mod LateFee
pub mod Purge
pub mod RoundTrip
mod Tests
use d5net_billing.Prelude.{
  ℕ, suc, ◌+◌, ◌-◌, Bool, true, false, not, ◌&&◌, ◌||◌, Option, none, some, List, [], ◌∷◌, ◌++◌,
  ltb, leb, ◌==◌, is_id, is_null, any, find?, keep, if◌then◌else◌,
}
use d5net_billing.Prelude.Int.{ℤ, pos, ◌+ℤ◌, ◌-ℤ◌, leb_ℤ, ltb_ℤ}
use d5net_billing.Prelude.Int64.{bigint}
use d5net_billing.Prelude.Text.{Text, text, text_eq, to_lower}
use d5net_billing.Db.{
  Invoice, InvoiceItem, Payment, PaymentIntent, Db, World, M, ⊤, Error, db_error, rejected,
  not_found, not_trashed, has_paid, Result, ok, err, pure, throw, gets, select, write, transaction,
  guard, set_tenant_context, row, affected, ◌>>=◌, ◌>>◌, update_rows, count_rows, set_rows,
}

-- WHERE tenant_id = t AND id = k
abbrev pub is_invoice : ℕ → ℕ → Invoice → Bool
is_invoice t k i = i.tenant_id == t && i.id == k

-- … AND deleted_at IS NULL
abbrev pub is_live_invoice : ℕ → ℕ → Invoice → Bool
is_live_invoice t k i = is_invoice t k i && is_null i.deleted_at

abbrev pub is_trashed_invoice : ℕ → ℕ → Invoice → Bool
is_trashed_invoice t k i = is_invoice t k i && not (is_null i.deleted_at)

abbrev pub with_rows : (Invoice → Bool) → Db → Option (List Invoice) → Option (ℕ × Db)
with_rows p d none = none
with_rows p d (some rows) = some (count_rows p d.invoices, record d { invoices = rows })

-- An UPDATE of invoices, with the number of rows affected.
unfoldable pub update_invoices : (Invoice → Bool) → (Invoice → Option Invoice) → M ℕ
update_invoices p f = write λ w. with_rows p w.db (update_rows p f w.db.invoices)

unfoldable pub update_payments : (Payment → Bool) → (Payment → Payment) → M ℕ
update_payments p f =
    write λ w.
      some (count_rows p w.db.payments, record (w.db) { payments = set_rows p f w.db.payments })

-- The items of one invoice, in any order.
unfoldable pub list_invoice_items : ℕ → M (List InvoiceItem)
list_invoice_items k = select λ w. keep (λ it. it.invoice_id == k) w.db.invoice_items

-- getInvoice
unfoldable pub get_invoice : Bool → ℕ → ℕ → M (Invoice × List InvoiceItem)
unfolding list_invoice_items
get_invoice include_deleted t k = do
  set_tenant_context
  let wanted = λ (i : Invoice). if include_deleted then is_invoice t k i else is_live_invoice t k i
  i ← row (← select λ w. find? wanted w.db.invoices)
  items ← list_invoice_items k
  pure (i, items)

abbrev pub item_rows : ℕ → ℕ → ℕ → List InvoiceItem → List InvoiceItem
item_rows t inv id [] = []
item_rows t inv id (it ∷ items) =
    record it { id = id; tenant_id = t; invoice_id = inv } ∷ item_rows t inv (suc id) items

-- One INSERT for each item; the table is shown with the new rows in front.
unfoldable pub insert_items : ℕ → ℕ → List InvoiceItem → M ⊤
insert_items t inv [] = pure tt
insert_items t inv (it ∷ items) =
    write (λ w.
      let new : InvoiceItem = record it { id = w.db.next_id; tenant_id = t; invoice_id = inv } in
      some (
        tt,
        record (w.db) { next_id = suc w.db.next_id; invoice_items = new ∷ w.db.invoice_items },
      ))
    >> insert_items t inv items

-- UNIQUE (tenant_id, invoice_number)
abbrev pub number_taken : ℕ → Text → List Invoice → Bool
number_taken t num = any λ i. i.tenant_id == t && text_eq i.invoice_number num

-- CreateInvoice. Columns that the INSERT leaves out have their defaults.
unfoldable pub create_invoice : Invoice → List InvoiceItem → M Invoice
unfolding insert_items
create_invoice inv items = do
  set_tenant_context
  transaction do
    now ← gets λ w. w.now
    new ← write λ w.
        let new : Invoice = record inv {
          id = w.db.next_id;
          issued_at = some now;
          paid_amount = pos 0;
          paid_at = none;
          deleted_at = none;
          late_fee_applied_at = none;
        } in
        if number_taken inv.tenant_id inv.invoice_number w.db.invoices
        then none
        else some
            (new, record (w.db) { next_id = suc w.db.next_id; invoices = new ∷ w.db.invoices })
    insert_items inv.tenant_id new.id items
    pure (record inv { id = new.id; issued_at = some now })

-- LOWER(status) IN ('pending','created','unpaid')
abbrev pub is_open_intent : Text → Bool
is_open_intent s =
    let l = to_lower s in
    text_eq l (text "pending") || text_eq l (text "created") || text_eq l (text "unpaid")

abbrev pub is_intent_of : ℕ → ℕ → PaymentIntent → Bool
is_intent_of t k p = p.tenant_id == t && is_id p.invoice_id k && is_open_intent p.status

abbrev pub cancel_intent : PaymentIntent → PaymentIntent
cancel_intent p = record p { invoice_id = none; status = text "cancelled" }

unfoldable pub cancel_intents : ℕ → ℕ → M ⊤
cancel_intents t k = write λ w. some (
  tt,
  record (w.db) {
    payment_intents = set_rows (is_intent_of t k) cancel_intent w.db.payment_intents;
  },
)

-- WHERE tenant_id = t AND invoice_id = k AND deleted_at IS NULL
abbrev pub is_payment_of : ℕ → ℕ → Payment → Bool
is_payment_of t k p = p.tenant_id == t && is_id p.invoice_id k && is_null p.deleted_at

abbrev pub trash_payment : ℕ → Payment → Payment
trash_payment now p = record p { deleted_at = some now }

abbrev pub trash_invoice : ℕ → Invoice → Option Invoice
trash_invoice now i = some (record i { deleted_at = some now })

-- DeleteInvoice
unfoldable pub delete_invoice : ℕ → ℕ → M ⊤
unfolding cancel_intents update_payments update_invoices
delete_invoice t k = do
  set_tenant_context
  transaction do
    cancel_intents t k
    now ← gets λ w. w.now
    update_payments (is_payment_of t k) (trash_payment now)
    affected (← update_invoices (is_live_invoice t k) (trash_invoice now))

-- inv.DeletedAt.Add(-2 * time.Second)
abbrev pub two_seconds : ℕ
two_seconds = 2_000_000_000

abbrev pub deleted_since : Option ℕ → ℕ → Bool
deleted_since none cutoff = false
deleted_since (some at) cutoff = leb cutoff at

-- … AND deleted_at IS NOT NULL AND deleted_at >= cutoff
abbrev pub is_bundled_payment : ℕ → ℕ → ℕ → Payment → Bool
is_bundled_payment t k cutoff p =
    p.tenant_id == t && is_id p.invoice_id k && deleted_since p.deleted_at cutoff

abbrev pub untrash_payment : Payment → Payment
untrash_payment p = record p { deleted_at = none }

abbrev pub untrash_invoice : Invoice → Option Invoice
untrash_invoice i = some (record i { deleted_at = none })

-- The transaction of RestoreInvoice, for an invoice deleted at `at`.
unfoldable pub restore_invoice_tx : ℕ → ℕ → ℕ → M ⊤
unfolding update_payments update_invoices
restore_invoice_tx t k at = transaction do
  update_payments (is_bundled_payment t k (at - two_seconds)) untrash_payment
  affected (← update_invoices (is_trashed_invoice t k) untrash_invoice)

abbrev pub restore_invoice_at : ℕ → ℕ → Option ℕ → M ⊤
restore_invoice_at t k none = pure tt
restore_invoice_at t k (some at) = restore_invoice_tx t k at

-- RestoreInvoice
unfoldable pub restore_invoice : ℕ → ℕ → M ⊤
unfolding get_invoice restore_invoice_tx
restore_invoice t k = do (inv, _) ← get_invoice true t k; restore_invoice_at t k inv.deleted_at

abbrev pub detach_payment : Payment → Payment
detach_payment p = record p { invoice_id = none }

abbrev pub detach_intent : PaymentIntent → PaymentIntent
detach_intent p = record p { invoice_id = none }

-- DELETE FROM invoices: items go (CASCADE), payments and intents are detached (SET NULL).
abbrev pub purge_rows : ℕ → ℕ → Db → Db
purge_rows t k d = record d {
  invoices = keep (λ i. not (is_trashed_invoice t k i)) d.invoices;
  invoice_items = keep (λ it. not (it.invoice_id == k)) d.invoice_items;
  payments = set_rows (λ p. is_id p.invoice_id k) detach_payment d.payments;
  payment_intents = set_rows (λ p. is_id p.invoice_id k) detach_intent d.payment_intents;
}

-- PurgeInvoice
unfoldable pub purge_invoice : ℕ → ℕ → M ⊤
purge_invoice t k = do
  set_tenant_context
  inv ← row (← select λ w. find? (is_invoice t k) w.db.invoices)
  guard (not (is_null inv.deleted_at)) not_trashed
  guard (leb_ℤ inv.paid_amount (pos 0)) has_paid
  n ← write λ w.
      let n = count_rows (is_trashed_invoice t k) w.db.invoices in
      some (n, if n == 0 then w.db else purge_rows t k w.db)
  affected n

abbrev pub set_amounts : ℤ → ℤ → ℤ → Invoice → Option Invoice
set_amounts discount tax total i =
    some (record i { tax_amount = tax; discount_amount = discount; total_amount = total })

-- SetInvoiceDiscountAmounts
unfoldable pub set_invoice_discount_amounts : ℕ → ℕ → ℤ → ℤ → ℤ → M ⊤
unfolding update_invoices
set_invoice_discount_amounts t k discount tax total = do
  set_tenant_context
  affected (← update_invoices (is_live_invoice t k) (set_amounts discount tax total))

abbrev pub add_late_fee : ℕ → ℤ → Invoice → Option Invoice
add_late_fee now fee i = elim (bigint (i.subtotal +ℤ fee)) [
  | none ↦ none
  | some s ↦ elim (bigint (i.total_amount +ℤ fee)) [
    | none ↦ none
    | some total ↦
        some (record i { subtotal = s; total_amount = total; late_fee_applied_at = some now })
  ]
]

abbrev pub late_fee_item : ℤ → Text → InvoiceItem
late_fee_item fee description = record {
  id = 0;
  tenant_id = 0;
  invoice_id = 0;
  description = description;
  quantity = pos 1;
  unit_price = fee;
  amount = fee;
}

-- The item and the raised amounts, for an invoice that has no late fee yet.
unfoldable pub charge_late_fee : ℕ → ℕ → ℤ → Text → Option ℕ → M ⊤
unfolding insert_items update_invoices
charge_late_fee t k amount description (some applied) = pure tt
charge_late_fee t k amount description none = do
  now ← gets λ w. w.now
  insert_items t k (late_fee_item amount description ∷ [])
  update_invoices (is_invoice t k) (add_late_fee now amount)
  pure tt

-- ApplyInvoiceLateFee
unfoldable pub apply_invoice_late_fee : ℕ → ℕ → ℤ → Text → M ⊤
unfolding charge_late_fee
apply_invoice_late_fee t k amount description =
    let charge : M ⊤ = (do
      set_tenant_context
      transaction do
        inv ← row (← select λ w. find? (is_live_invoice t k) w.db.invoices)
        charge_late_fee t k amount description inv.late_fee_applied_at) in
    if leb_ℤ amount (pos 0) then pure tt else charge

-- status IN ('issued','partial','overdue')
unfoldable pub is_open_status : Text → Bool
is_open_status s =
    text_eq s (text "issued") || text_eq s (text "partial") || text_eq s (text "overdue")
