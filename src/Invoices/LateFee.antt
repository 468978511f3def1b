-- ===== src/Invoices/LateFee.antt =====
-- A late fee is charged once.
use mathlib.Core.Option.{some-injective}
use d5net_billing.Prelude.{
  ℕ, ◌≡◌, ◌∙◌, refl, sym, ap, arith, true, false, Option, none, some, List, [], ◌∷◌, inl, inr,
  find?, is_null, Bool-cases, if◌then◌else◌,
}
use d5net_billing.Prelude.Int.{ℤ, pos, ◌<ℤ◌, leb_ℤ}
use d5net_billing.Prelude.Text.{Text}
use d5net_billing.Db.{
  Invoice, InvoiceItem, Db, World, ⊤, Outcome, Outcome_db, Outcome-mono, bump, pure-Outcome,
  >>-Outcome, write-Outcome, gets->>=, select->>=, row->>=, set_tenant_context->>,
  transaction-Outcome, update_rows, find?-update, find?_holds,
}
use d5net_billing.Invoices.{
  is_invoice, is_live_invoice, add_late_fee, late_fee_item, charge_late_fee, apply_invoice_late_fee,
  insert_items,
}
use d5net_billing.Invoices.Updates.{update_invoices-Outcome}

-- The live invoice of this id has a late fee.
pub record IsCharged (t k : ℕ) (d : Db) : Type 0 where
  pub invoice : Invoice
  pub found : find? (is_live_invoice t k) d.invoices ≡ some invoice
  pub charged : is_null invoice.late_fee_applied_at ≡ false

-- A second charge does nothing.
charge-idle :
    (t k : ℕ) (a : ℤ) (description : Text) (o : Option ℕ) (w : World)
    → is_null o ≡ false
    → Outcome (λ _ d. d ≡ w.db) (λ _. Unit) (charge_late_fee t k a description o w)
unfolding charge_late_fee
charge-idle t k a description none w applied = cc
charge-idle t k a description (some at) w applied =
    pure-Outcome (λ _ d. d ≡ w.db) (λ _. Unit) tt w refl

apply_invoice_late_fee-idle :
    (t k : ℕ) (a : ℤ) (description : Text) (w : World)
    → IsCharged t k w.db
    → (apply_invoice_late_fee t k a description w).1.db ≡ w.db
unfolding apply_invoice_late_fee
apply_invoice_late_fee-idle t k a description w h =
    let Same : Db → Type 0 = λ d. d ≡ w.db in
    let Q : ⊤ → Db → Type 0 = λ _. Same in
    elim (Bool-cases (leb_ℤ a (pos 0))) [
      | inl none_due ↦ rw none_due (Outcome_db Same _ (pure-Outcome Q Same tt w refl))
      | inr due ↦ rw due (
          Outcome_db Same _ (
            set_tenant_context->> Q Same _ w refl (
              transaction-Outcome Q Same _ (bump w) refl (
                select->>= Q (λ _. Unit) _ _ (bump (bump w)) tt
                  (row->>= Q (λ _. Unit) _ _ (bump (bump (bump w))) tt
                    (λ i q.
                      let same : h.invoice ≡ i = some-injective _ _ (sym (h.found) ∙ q) in
                      charge-idle t k a description i.late_fee_applied_at (bump (bump (bump w)))
                        (rw (← same) (h.charged))))))))
    ]

add_late_fee-live :
    (t k now : ℕ) (a : ℤ) (x y : Invoice)
    → (if is_invoice t k x then add_late_fee now a x else some x) ≡ some y
    → is_live_invoice t k y ≡ is_live_invoice t k x
add_late_fee-live t k now a x y e = ground arith

add_late_fee-charged :
    (now : ℕ) (a : ℤ) (x y : Invoice)
    → add_late_fee now a x ≡ some y
    → is_null y.late_fee_applied_at ≡ false
add_late_fee-charged now a x y e = ground arith

abbrev pub SameInvoices : Db → ⊤ → Db → Type 0
SameInvoices before u d = d.invoices ≡ before.invoices

pub insert_items-SameInvoices :
    (t k : ℕ) (items : List InvoiceItem) (before : Db) (w : World)
    → w.db.invoices ≡ before.invoices
    → Outcome (SameInvoices before) (λ _. Unit) (insert_items t k items w)
unfolding insert_items
insert_items-SameInvoices t k [] before w h = pure-Outcome (SameInvoices before) (λ _. Unit) tt w h
insert_items-SameInvoices t k (it ∷ items) before w h =
    let Q = SameInvoices before in
    >>-Outcome Q (λ _. Unit) Q _ _ w
      (write-Outcome Q (λ _. Unit) _ w tt
        (λ u d q. ap (λ r. r.1.invoices) (sym (some-injective _ _ q)) ∙ h))
      (λ u v same. insert_items-SameInvoices t k items before v same)

charge-IsCharged :
    (t k : ℕ) (a : ℤ) (description : Text) (i : Invoice) (w : World)
    → find? (is_live_invoice t k) w.db.invoices ≡ some i
    → Outcome
        (λ _. IsCharged t k)
        (λ _. Unit)
        (charge_late_fee t k a description i.late_fee_applied_at w)
unfolding charge_late_fee
charge-IsCharged t k a description i w found = go i.late_fee_applied_at refl
  where
    Q : ⊤ → Db → Type 0
    Q u d = IsCharged t k d

    updated :
        (v : World) (rows : List Invoice)
        → v.db.invoices ≡ w.db.invoices
        → update_rows (is_invoice t k) (add_late_fee w.now a) v.db.invoices ≡ some rows
        → IsCharged t k (record (v.db) { invoices = rows })
    updated v rows same e =
        let first : find? (is_live_invoice t k) v.db.invoices ≡ some i = rw same found in
        let (j, there, wrote) =
          find?-update (is_live_invoice t k) (is_invoice t k) (add_late_fee w.now a) v.db.invoices
            (add_late_fee-live t k w.now a) first e in
        let own : is_invoice t k i ≡ true =
          (let l = find?_holds (is_live_invoice t k) v.db.invoices first in ground arith) in
        record {
          invoice = j;
          found = there;
          charged = add_late_fee-charged w.now a i j (rw own at wrote);
        }

    go :
        (o : Option ℕ)
        → i.late_fee_applied_at ≡ o
        → Outcome Q (λ _. Unit) (charge_late_fee t k a description o w)
    go (some at) e =
        pure-Outcome Q (λ _. Unit) tt w (record { invoice = i; found = found; charged = rw e refl })
    go none e =
        gets->>= Q (λ _. Unit) _ _ w
          (>>-Outcome Q (λ _. Unit) (SameInvoices w.db) _ _ w
            (insert_items-SameInvoices t k (late_fee_item a description ∷ []) w.db w refl)
            (λ u v same.
              >>-Outcome Q (λ _. Unit) (λ _. IsCharged t k) _ _ v
                (update_invoices-Outcome (λ _. IsCharged t k) (λ _. Unit) _ _ v tt
                  (λ rows q. updated v rows same q))
                (λ n x c. pure-Outcome Q (λ _. Unit) tt x c)))

-- Tables in which a late fee of this invoice changes nothing more.
abbrev pub IsSettledFee : ℕ → ℕ → Db → Type 0
IsSettledFee t k d =
    (b : ℤ) (again : Text) (v : World) → v.db ≡ d → (apply_invoice_late_fee t k b again v).1.db ≡ d

-- ApplyInvoiceLateFee of a positive fee either fails and leaves the tables as they were, or leaves
-- an invoice on which any later ApplyInvoiceLateFee, of whatever fee, changes nothing.
pub apply_invoice_late_fee_once :
    (t k : ℕ) (a : ℤ) (description : Text) (w : World)
    → pos 0 <ℤ a
    → Outcome (λ _. IsSettledFee t k) (λ d. d ≡ w.db) (apply_invoice_late_fee t k a description w)
unfolding apply_invoice_late_fee
apply_invoice_late_fee_once t k a description w positive =
    let Q : ⊤ → Db → Type 0 = λ _. IsCharged t k in
    let E : Db → Type 0 = λ d. d ≡ w.db in
    let due : leb_ℤ a (pos 0) ≡ false = ground arith in
    Outcome-mono (λ _. IsSettledFee t k) Q E (apply_invoice_late_fee t k a description w)
      (rw due (
        set_tenant_context->> Q E _ w refl (
          transaction-Outcome Q E _ (bump w) refl (
            select->>= Q (λ _. Unit) _ _ (bump (bump w)) tt
              (row->>= Q (λ _. Unit) _ _ (bump (bump (bump w))) tt
                (λ i q. charge-IsCharged t k a description i (bump (bump (bump w))) q))))))
      (λ _ d h b again v same. apply_invoice_late_fee-idle t k b again v (rw same h) ∙ same)
