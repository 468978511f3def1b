-- ===== src/Payments/Deltas.antt =====
-- applyInvoicePaymentDelta in the transactions of DeletePayment and RestorePayment: if it moves the
-- invoice as far as the payment moves the sum, the invoices are settled for the new payments.
use d5net_billing.Prelude.{
  ℕ, ◌≡◌, refl, true, false, Option, none, some, List, ◌⊎◌, inl, inr, All, Bool-cases,
}
use d5net_billing.Prelude.Int.{ℤ, pos, eqb_ℤ}
use d5net_billing.Db.{Payment, Db, World, Outcome, gets->>=, >>-Outcome, pure-Outcome}
use d5net_billing.Invoices.Updates.{update_invoices-Outcome}
use d5net_billing.Payments.{
  is_paid_status, moves_invoice, apply_invoice_payment_delta, apply_delta_of,
}
use d5net_billing.Payments.Sums.{paid_sum, IsSound}
use d5net_billing.Payments.Books.{IsSettled, Shift, add_delta-IsSettled, unmoved-IsSettled}

-- The invoices changed, and stand right for the payments `ps'`.
pub record Adjusted (d : Db) (ps' : List Payment) (d' : Db) : Type 0 where
  pub payments : d'.payments ≡ d.payments
  pub next_id : d'.next_id ≡ d.next_id
  pub settled : All (IsSettled ps') d'.invoices

-- The payments `ps'` differ from `ps` by what `p` brings to its invoice, if it counts.
pub record Moves (t : ℕ) (p : Payment) (delta : ℤ) (ps ps' : List Payment) : Type 0 where
  pub counted :
      (inv : ℕ)
      → p.invoice_id ≡ some inv
      → is_paid_status p.status ≡ true
      → Shift t inv delta ps ps'
  pub idle :
      ((p.invoice_id ≡ none) ⊎ (is_paid_status p.status ≡ false))
      → (t' k' : ℕ) → paid_sum t' k' ps' ≡ paid_sum t' k' ps

module _ (E : Db → Type 0) (t : ℕ) (delta : ℤ) (ps ps' : List Payment) (w : World) (e : E w.db)
    (sound : All IsSound ps') (settled : All (IsSettled ps) w.db.invoices) where
  apply_delta-Outcome :
      (inv : ℕ)
      → eqb_ℤ delta (pos 0) ≡ false
      → Shift t inv delta ps ps'
      → Outcome (λ _. Adjusted w.db ps') E (apply_invoice_payment_delta t inv delta w)
  unfolding apply_invoice_payment_delta
  apply_delta-Outcome inv nonzero shift = rw nonzero (
      gets->>= _ E _ _ w (
        gets->>= _ E _ _ w (
          >>-Outcome _ E (λ _. Adjusted w.db ps') _ _ w
            (update_invoices-Outcome (λ _. Adjusted w.db ps') E _ _ w e
              (λ rows q. record {
                payments = refl;
                next_id = refl;
                settled =
                    add_delta-IsSettled t inv delta ps ps' shift w.now w.today w.db.invoices sound q
                      settled;
              }))
            (λ _ v h. pure-Outcome _ E tt v h))))

  pub apply_delta_of-Outcome :
      (p : Payment)
      → moves_invoice p ≡ is_paid_status p.status
      → eqb_ℤ delta (pos 0) ≡ false
      → Moves t p delta ps ps'
      → Outcome (λ _. Adjusted w.db ps') E (apply_delta_of t p p.invoice_id delta w)
  apply_delta_of-Outcome p m nonzero moves = go p.invoice_id refl
    where
      idle : ((p.invoice_id ≡ none) ⊎ (is_paid_status p.status ≡ false)) → Adjusted w.db ps' w.db
      idle i = record {
        payments = refl;
        next_id = refl;
        settled = unmoved-IsSettled ps ps' (moves.idle i) w.db.invoices settled;
      }

      go :
          (o : Option ℕ)
          → p.invoice_id ≡ o
          → Outcome (λ _. Adjusted w.db ps') E (apply_delta_of t p o delta w)
      go none q = pure-Outcome _ E tt w (idle (inl q))
      go (some inv) q = elim (Bool-cases (is_paid_status p.status)) [
        | inl paid ↦ rw (m, paid) (apply_delta-Outcome inv nonzero (moves.counted inv q paid))
        | inr unpaid ↦ rw (m, unpaid) (pure-Outcome _ E tt w (idle (inr unpaid)))
      ]

-- It leaves the payments alone.
pub apply_delta_of_payments :
    (t : ℕ) (p : Payment) (o : Option ℕ) (delta : ℤ) (w : World)
    → Outcome (λ _ d. d.payments ≡ w.db.payments) (λ _. Unit) (apply_delta_of t p o delta w)
unfolding apply_invoice_payment_delta
apply_delta_of_payments t p none delta w = pure-Outcome _ _ tt w refl
apply_delta_of_payments t p (some inv) delta w = elim (Bool-cases (moves_invoice p)) [
  | inr still ↦ rw still (pure-Outcome _ _ tt w refl)
  | inl moves ↦ rw moves (elim (Bool-cases (eqb_ℤ delta (pos 0))) [
    | inl nothing ↦ rw nothing (pure-Outcome _ _ tt w refl)
    | inr nonzero ↦ rw nonzero (
        gets->>= _ _ _ _ w (
          gets->>= _ _ _ _ w (
            >>-Outcome _ _ (λ _ d. d.payments ≡ w.db.payments) _ _ w
              (update_invoices-Outcome _ _ _ _ w tt (λ rows q. refl))
              (λ _ v h. pure-Outcome _ _ tt v h))))
  ])
]
