-- ===== src/Invoices/Purge.antt =====
-- What purging an invoice requires, and what it leaves.
use mathlib.Core.Option.{some-injective}
use d5net_billing.Prelude.{
  ℕ, zero, suc, ◌≡◌, ◌≢◌, ◌∙◌, refl, sym, ap, arith, Bool, true, false, not, Option, none, some,
  List, [], ◌∷◌, inl, inr, All, find?, keep, is_id, is_null, ◌==◌, Bool-cases, if◌then◌else◌,
}
use d5net_billing.Prelude.Int.{pos, ◌≤ℤ◌}
use d5net_billing.Db.{
  Invoice, InvoiceItem, Payment, Db, World, ⊤, Outcome, bump, write->>=, affected-Outcome, affected,
  affected-run, guard->>, select->>=, row->>=, set_tenant_context->>, count_rows, set_rows,
}
use d5net_billing.Invoices.{
  is_invoice, is_trashed_invoice, detach_payment, purge_rows, purge_invoice,
}

-- Nothing of the invoice is left: no row of it in the trash, no item, no payment that names it. The
-- payments themselves stay.
pub record IsCleared (t k : ℕ) (before after : Db) : Type 0 where
  pub gone : find? (is_trashed_invoice t k) after.invoices ≡ none
  pub items : All (λ it. it.invoice_id ≢ k) after.invoice_items
  pub detached : All (λ p. is_id p.invoice_id k ≡ false) after.payments
  pub payments : count_rows (λ p. true) after.payments ≡ count_rows (λ p. true) before.payments

-- A row of this id was in the trash with nothing paid on it.
pub record WasPurgeable (t k : ℕ) (d : Db) : Type 0 where
  pub invoice : Invoice
  pub found : find? (is_invoice t k) d.invoices ≡ some invoice
  pub in_trash : is_null invoice.deleted_at ≡ false
  pub unpaid : invoice.paid_amount ≤ℤ pos 0

keep-gone : {A : Type 0} (p : A → Bool) (xs : List A) → find? p (keep (λ x. not (p x)) xs) ≡ none
keep-gone p [] = refl
keep-gone p (x ∷ xs) = elim (Bool-cases (p x)) [
  | inl hit ↦ rw hit (keep-gone p xs)
  | inr miss ↦ rw (miss, miss) (keep-gone p xs)
]

keep-items :
    (k : ℕ) (xs : List InvoiceItem)
    → All (λ it. it.invoice_id ≢ k) (keep (λ it. not (it.invoice_id == k)) xs)
keep-items k [] = tt
keep-items k (x ∷ xs) = elim (Bool-cases (x.invoice_id == k)) [
  | inl hit ↦ rw hit (keep-items k xs)
  | inr miss ↦ rw miss ((λ e. ground arith), keep-items k xs)
]

detach-payments :
    (k : ℕ) (ps : List Payment)
    → All
        (λ p. is_id p.invoice_id k ≡ false)
        (set_rows (λ p. is_id p.invoice_id k) detach_payment ps)
unfolding set_rows
detach-payments k [] = tt
detach-payments k (p ∷ ps) = elim (Bool-cases (is_id p.invoice_id k)) [
  | inl hit ↦ rw hit (refl, detach-payments k ps)
  | inr miss ↦ rw miss (miss, detach-payments k ps)
]

detach-count :
    (k : ℕ) (ps : List Payment)
    → count_rows (λ p. true) (set_rows (λ p. is_id p.invoice_id k) detach_payment ps)
      ≡ count_rows (λ p. true) ps
unfolding set_rows count_rows
detach-count k [] = refl
detach-count k (p ∷ ps) = rw (detach-count k ps) refl

purge_rows-IsCleared : (t k : ℕ) (d : Db) → IsCleared t k d (purge_rows t k d)
purge_rows-IsCleared t k d = record {
  gone = keep-gone (is_trashed_invoice t k) d.invoices;
  items = keep-items k d.invoice_items;
  detached = detach-payments k d.payments;
  payments = detach-count k d.payments;
}

-- The DELETE and its check of the rows affected, for `m` rows.
delete-IsCleared :
    (t k : ℕ) (before : Db)
    → WasPurgeable t k before
    → (m n : ℕ) (d : Db) (v : World)
    → ◌≡◌ {A = Option (ℕ × Db)}
        (some (m, (if m == 0 then before else purge_rows t k before)))
        (some (n, d))
    → v.db ≡ d
    → Outcome
        (λ _ d. WasPurgeable t k before × IsCleared t k before d)
        (λ d. d.invoices ≡ before.invoices)
        (affected n v)
delete-IsCleared t k before was zero n d v e same =
    let q = some-injective _ _ e in
    let none_there : 0 ≡ n = ap (λ r. r.0) q in
    let db : v.db ≡ before = same ∙ sym (ap (λ r. r.1) q) in
    affected-Outcome _ _ n v (ap (λ x. x.invoices) db) (λ some_row. absurd (some_row none_there))
delete-IsCleared t k before was (suc m) n d v e same =
    let q = some-injective _ _ e in
    let some_row : 0 ≢ n = rw (← ap (λ r. r.0) q) (omega arith) in
    let positive : (suc m == 0) ≡ false = ground arith in
    let db : purge_rows t k before ≡ v.db = rw positive at (ap (λ r. r.1) q) ∙ sym same in
    rw (affected-run n v some_row) (rw (← db) (was, purge_rows-IsCleared t k before))

-- PurgeInvoice succeeds only on a trashed invoice with nothing paid, and then nothing of it is left
-- and every payment still is; if it fails, whatever the reason, the invoices are as they were.
pub purge_invoice-IsCleared :
    (t k : ℕ) (w : World)
    → Outcome
        (λ _ d. WasPurgeable t k w.db × IsCleared t k w.db d)
        (λ d. d.invoices ≡ w.db.invoices)
        (purge_invoice t k w)
unfolding purge_invoice
purge_invoice-IsCleared t k w =
    let Q : ⊤ → Db → Type 0 = λ _ d. WasPurgeable t k w.db × IsCleared t k w.db d in
    let E : Db → Type 0 = λ d. d.invoices ≡ w.db.invoices in
    set_tenant_context->> Q E _ w refl (
      select->>= Q E _ _ (bump w) refl (
        row->>= Q E _ _ (bump (bump w)) refl (λ i found. guard->> Q E _ _ _ _ refl (λ trashed.
          guard->> Q E _ _ _ _ refl (λ unpaid.
            let was : WasPurgeable t k w.db = record {
              invoice = i;
              found = found;
              in_trash = ground arith;
              unpaid = ground arith;
            } in
            write->>= Q E _ _ (bump (bump w)) refl
              (λ n d v e same. delete-IsCleared t k w.db was _ n d v e same))))))
