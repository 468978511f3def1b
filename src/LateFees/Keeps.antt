-- ===== src/LateFees/Keeps.antt =====
-- The round of late fees keeps the ledger and the books.
use mathlib.Core.Option.{some-injective}
use d5net_billing.Prelude.{
  ℕ, ◌≡◌, refl, ap, Bool, true, false, Option, none, some, List, [], ◌∷◌, inl, inr, arith,
  Bool-cases, if◌then◌else◌,
}
use d5net_billing.Prelude.Int.{ℤ, pos, leb_ℤ}
use d5net_billing.Prelude.Text.{Text}
use d5net_billing.Prelude.Float64.{Float64}
use d5net_billing.Db.{
  Invoice, InvoiceItem, Payment, Db, World, ⊤, Outcome, Outcome_db, bump, pure, ◌>>◌, pure-Outcome,
  >>=-Outcome, >>-Outcome, write-Outcome, gets->>=, select->>=, select-Outcome, row->>=,
  set_tenant_context->>, transaction-Outcome, or_else-Outcome, update_rows, update_rows-All,
}
use d5net_billing.Invoices.{
  is_invoice, add_late_fee, late_fee_item, charge_late_fee, apply_invoice_late_fee, insert_items,
}
use d5net_billing.Invoices.Updates.{update_invoices-Outcome}
use d5net_billing.Payments.Books.{IsSettled, Books-frame}
use d5net_billing.Wallet.Keeps.{same-Ledger}
use d5net_billing.Wallet.Pay.{invoices-Ledger}
use d5net_billing.Sound.{IsSoundDb, Keeps, Nothing}
use d5net_billing.LateFees.{
  fee_of, counted, try_late_fee, charge_all, list_manual_overdue_invoices_for_late_fee,
  process_manual_late_fees,
}

-- What a late fee leaves of an invoice.
add_late_fee-rest :
    (now : ℕ) (fee : ℤ) (x y : Invoice)
    → add_late_fee now fee x ≡ some y
    → (y.deleted_at ≡ x.deleted_at)
      × (y.paid_amount ≡ x.paid_amount)
      × (y.tenant_id ≡ x.tenant_id)
      × (y.id ≡ x.id)
add_late_fee-rest now fee x y e = ground arith

late_fee_step :
    (ps : List Payment) (p : Invoice → Bool) (now : ℕ) (fee : ℤ) (x y : Invoice)
    → IsSettled ps x
    → (if p x then add_late_fee now fee x else some x) ≡ some y
    → IsSettled ps y
late_fee_step ps p now fee x y h e = elim (Bool-cases (p x)) [
  | inl hit ↦
      let (deleted, paid, tenant, id) = add_late_fee-rest now fee x y (rw hit at e) in
      rw (deleted, paid, tenant, id) h
  | inr miss ↦ rw (← some-injective _ _ (rw miss at e)) h
]

late_fees-Sound :
    (p : Invoice → Bool) (now : ℕ) (fee : ℤ) (d : Db) (rows : List Invoice)
    → update_rows p (add_late_fee now fee) d.invoices ≡ some rows
    → IsSoundDb d
    → IsSoundDb (record d { invoices = rows })
late_fees-Sound p now fee d rows e (ledger, books) = (
  invoices-Ledger d rows ledger,
  record {
    settled =
        update_rows-All p (add_late_fee now fee) d.invoices e (late_fee_step d.payments p now fee)
          books.settled;
    sound = books.sound;
    unique = books.unique;
    fresh = books.fresh;
  },
)

insert_items-Sound :
    (t k : ℕ) (items : List InvoiceItem) (w : World)
    → IsSoundDb w.db
    → Outcome Keeps Nothing (insert_items t k items w)
unfolding insert_items
insert_items-Sound t k [] w h = pure-Outcome Keeps Nothing tt w h
insert_items-Sound t k (it ∷ items) w (ledger, books) =
    >>-Outcome {A = ⊤} Keeps Nothing Keeps _ _ w
      (write-Outcome Keeps Nothing _ w tt (λ u d q.
        let q' = some-injective _ _ q in
        rw (← ap (λ r. r.1) q') (
          same-Ledger w.db _ refl refl refl ledger.balanced ledger,
          Books-frame w.db _ refl refl (omega arith) books,
        )))
      (λ _ v kept. insert_items-Sound t k items v kept)

charge_late_fee-Sound :
    (t k : ℕ) (a : ℤ) (description : Text) (o : Option ℕ) (w : World)
    → IsSoundDb w.db
    → Outcome Keeps Nothing (charge_late_fee t k a description o w)
unfolding charge_late_fee
charge_late_fee-Sound t k a description (some at) w h = pure-Outcome Keeps Nothing tt w h
charge_late_fee-Sound t k a description none w h = gets->>= Keeps Nothing _ _ w (
    >>-Outcome Keeps Nothing Keeps _ _ w
      (insert_items-Sound t k (late_fee_item a description ∷ []) w h)
      (λ _ v kept.
        >>-Outcome Keeps Nothing Keeps _ _ v
          (update_invoices-Outcome Keeps Nothing _ _ v tt
            (λ rows q. late_fees-Sound (is_invoice t k) w.now a v.db rows q kept))
          (λ _ v kept. pure-Outcome Keeps Nothing tt v kept)))

apply_invoice_late_fee-Sound :
    (t k : ℕ) (a : ℤ) (description : Text) (w : World)
    → IsSoundDb w.db
    → Outcome Keeps IsSoundDb (apply_invoice_late_fee t k a description w)
unfolding apply_invoice_late_fee
apply_invoice_late_fee-Sound t k a description w h = elim (Bool-cases (leb_ℤ a (pos 0))) [
  | inl none_due ↦ rw none_due (pure-Outcome Keeps IsSoundDb tt w h)
  | inr due ↦ rw due (
      set_tenant_context->> Keeps IsSoundDb _ w h (
        transaction-Outcome Keeps IsSoundDb _ (bump w) h (
          select->>= Keeps Nothing _ _ (bump (bump w)) tt (
            row->>= Keeps Nothing _ _ (bump (bump (bump w))) tt (λ i q.
              charge_late_fee-Sound t k a description i.late_fee_applied_at (bump (bump (bump w)))
                h)))))
]

try_late_fee-Sound :
    (t k : ℕ) (fee : ℤ) (description : Text) (w : World)
    → IsSoundDb w.db
    → Outcome Keeps IsSoundDb (try_late_fee t k fee description w)
unfolding try_late_fee
try_late_fee-Sound t k fee description w h =
    let charge = apply_invoice_late_fee t k fee description >> pure true in
    or_else-Outcome IsSoundDb false charge w (
      Outcome_db IsSoundDb (charge w) (
        >>-Outcome Keeps IsSoundDb Keeps _ _ w
          (apply_invoice_late_fee-Sound t k fee description w h)
          (λ _ v kept. pure-Outcome Keeps IsSoundDb true v kept)))

charge_all-Sound :
    (fl : Float64) (t : ℕ) (percent : fl.F) (description : Text) (is : List Invoice) (w : World)
    → IsSoundDb w.db
    → Outcome Keeps IsSoundDb (charge_all fl t percent description is w)
unfolding charge_all
charge_all-Sound fl t percent description [] w h = pure-Outcome Keeps IsSoundDb 0 w h
charge_all-Sound fl t percent description (i ∷ is) w h =
    let fee = fee_of fl percent i in
    elim (Bool-cases (leb_ℤ fee (pos 0))) [
      | inl none_due ↦ rw none_due (charge_all-Sound fl t percent description is w h)
      | inr due ↦ rw due (
          >>=-Outcome Keeps IsSoundDb Keeps _ _ w (try_late_fee-Sound t i.id fee description w h)
            (λ done v kept.
              >>=-Outcome Keeps IsSoundDb Keeps _ _ v
                (charge_all-Sound fl t percent description is v kept)
                (λ n u kept. pure-Outcome Keeps IsSoundDb (counted done n) u kept)))
    ]

list_manual-Sound :
    (t : ℕ) (w : World)
    → IsSoundDb w.db
    → Outcome Keeps IsSoundDb (list_manual_overdue_invoices_for_late_fee t w)
unfolding list_manual_overdue_invoices_for_late_fee
list_manual-Sound t w h =
    set_tenant_context->> Keeps IsSoundDb _ w h (select-Outcome IsSoundDb _ (bump w) h)

pub process_manual_late_fees-IsSoundDb :
    (fl : Float64) (t : ℕ) (percent : fl.F) (description : Text) (w : World)
    → IsSoundDb w.db
    → IsSoundDb (process_manual_late_fees fl t percent description w).1.db
unfolding process_manual_late_fees
process_manual_late_fees-IsSoundDb fl t percent description w h =
    elim (Bool-cases (fl.at_most percent (fl.of_int (pos 0)))) [
      | inl off ↦ rw off (Outcome_db IsSoundDb _ (pure-Outcome Keeps IsSoundDb 0 w h))
      | inr on ↦ rw on (
          Outcome_db IsSoundDb _ (
            >>=-Outcome Keeps IsSoundDb Keeps _ _ w (list_manual-Sound t w h)
              (λ is v kept. charge_all-Sound fl t percent description is v kept)))
    ]
