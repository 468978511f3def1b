-- ===== src/LateFees/Charge.antt =====
-- One late fee: the row of its invoice is raised, or nothing is changed.
use d5net_billing.Prelude.{
  ℕ, ◌≡◌, refl, sym, ◌∙◌, Bool, true, false, Option, none, some, [], ◌∷◌, arith, find?,
}
use d5net_billing.Prelude.Int.{ℤ, pos, ◌+ℤ◌, ◌<ℤ◌, leb_ℤ}
use d5net_billing.Prelude.Int64.{◌-64◌}
use d5net_billing.Prelude.Text.{Text}
use d5net_billing.Prelude.Float64.{Float64}
use d5net_billing.Prelude.Sorting.{Distinct}
use d5net_billing.Db.{
  Invoice, Db, World, ⊤, Result, ok, err, Error, recovered, Outcome, bump, pure, or_else, ◌>>◌,
  ◌>>=◌, pure-Outcome, >>-Outcome, gets->>=, select->>=, row->>=, set_tenant_context->>,
  transaction-Outcome,
}
use mathlib.Core.Option.{some-injective}
use d5net_billing.Invoices.{
  is_live_invoice, add_late_fee, late_fee_item, charge_late_fee, apply_invoice_late_fee,
}
use d5net_billing.Invoices.Updates.{update_invoices-Outcome}
use d5net_billing.Invoices.LateFee.{SameInvoices, insert_items-SameInvoices}
use d5net_billing.Billing.{percentage}
use d5net_billing.LateFees.{try_late_fee}
use d5net_billing.LateFees.Rows.{invoice_id, Replaced, update_rows-Replaced}

-- The late fee of an invoice: the percentage of what is left to pay.
abbrev pub late_fee : (fl : Float64) → fl.F → Invoice → ℤ
late_fee fl percent i = percentage fl (i.total_amount -64 i.paid_amount) percent

abbrev pub raised : ℕ → ℤ → Invoice → Invoice
raised now fee i = record i {
  subtotal = i.subtotal +ℤ fee;
  total_amount = i.total_amount +ℤ fee;
  late_fee_applied_at = some now;
}

add_late_fee_lem :
    (now : ℕ) (a : ℤ) (x y : Invoice) → add_late_fee now a x ≡ some y → y ≡ raised now a x
add_late_fee_lem now a x y e = ground arith

abbrev Lost : Db → Type 0
Lost d = Unit

-- The row of the invoice is raised, and no other is touched.
abbrev Raised : ℕ → ℤ → Invoice → Db → {A : Type 0} → A → Db → Type 0
Raised now a i before x d = Replaced i (raised now a i) before.invoices d.invoices

module _ (t : ℕ) (a : ℤ) (description : Text) (i : Invoice) where
  charge-Raised :
      (o : Option ℕ) (w : World)
      → Distinct invoice_id w.db.invoices
      → find? (is_live_invoice t i.id) w.db.invoices ≡ some i
      → o ≡ none
      → Outcome (Raised w.now a i w.db) Lost (charge_late_fee t i.id a description o w)
  unfolding charge_late_fee
  charge-Raised (some at) w unique found fresh = cc
  charge-Raised none w unique found fresh = gets->>= (Raised w.now a i w.db) Lost _ _ w (
      >>-Outcome (Raised w.now a i w.db) Lost (SameInvoices w.db) _ _ w
        (insert_items-SameInvoices t i.id (late_fee_item a description ∷ []) w.db w refl)
        (λ _ v same.
          >>-Outcome (Raised w.now a i w.db) Lost (Raised w.now a i w.db) _ _ v
            (update_invoices-Outcome (Raised w.now a i w.db) Lost _ _ v tt (λ rows q.
              let (j, wrote, r) =
                update_rows-Replaced t i (add_late_fee w.now a) w.db.invoices unique found
                  (rw same at q) in
              rw (← add_late_fee_lem w.now a i j wrote) r))
            (λ _ v r. pure-Outcome (Raised w.now a i w.db) Lost tt v r)))

  apply-Raised :
      (w : World)
      → pos 0 <ℤ a
      → Distinct invoice_id w.db.invoices
      → find? (is_live_invoice t i.id) w.db.invoices ≡ some i
      → i.late_fee_applied_at ≡ none
      → Outcome
          (Raised w.now a i w.db)
          (λ d. d ≡ w.db)
          (apply_invoice_late_fee t i.id a description w)
  unfolding apply_invoice_late_fee
  apply-Raised w positive unique found fresh =
      let Q : ⊤ → Db → Type 0 = Raised w.now a i w.db in
      let E : Db → Type 0 = λ d. d ≡ w.db in
      let due : leb_ℤ a (pos 0) ≡ false = ground arith in
      rw due (
        set_tenant_context->> Q E _ w refl (
          transaction-Outcome Q E _ (bump w) refl (
            select->>= Q Lost _ _ (bump (bump w)) tt (
              row->>= Q Lost _ _ (bump (bump (bump w))) tt (λ j q.
                let same : i ≡ j = some-injective _ _ (sym found ∙ q) in
                rw (← same) (
                  charge-Raised i.late_fee_applied_at (bump (bump (bump w))) unique found
                    fresh))))))

  -- Whether the fee was added: the row is raised, or the call failed and changed nothing.
  abbrev pub Tried : World → Result Bool × World → Type 0
  Tried w (ok true, v) = Replaced i (raised w.now a i) w.db.invoices v.db.invoices
  Tried w (ok false, v) =
      (e : Error) × (apply_invoice_late_fee t i.id a description w ≡ (err e, v)) × (v.db ≡ w.db)
  Tried w (err e, v) = ⊥

  pub try-Tried :
      (w : World)
      → pos 0 <ℤ a
      → Distinct invoice_id w.db.invoices
      → find? (is_live_invoice t i.id) w.db.invoices ≡ some i
      → i.late_fee_applied_at ≡ none
      → Tried w (try_late_fee t i.id a description w)
  unfolding try_late_fee or_else ◌>>◌ ◌>>=◌ pure
  try-Tried w positive unique found fresh =
      go (apply_invoice_late_fee t i.id a description w) refl
        (apply-Raised w positive unique found fresh)
    where
      go :
          (r : Result ⊤ × World)
          → apply_invoice_late_fee t i.id a description w ≡ r
          → Outcome (Raised w.now a i w.db) (λ d. d ≡ w.db) r
          → Tried w (
              recovered false
                (let (x, v) = r in elim x [ ok u ↦ (ok true, v) | err e ↦ (err e, v) ]))
      go (ok u, v) run h = h
      go (err e, v) run h = (e, run, h)
