-- ===== src/Payments/Restore.antt =====
-- RestorePayment keeps the books when the payment's invoice is not in the trash.
use d5net_billing.Prelude.{
  ℕ, ◌≡◌, refl, ap, ◌∙◌, true, false, not, Option, none, some, List, inl, inr, All, find?, is_null,
  Option-cases,
}
use d5net_billing.Db.{
  Payment, Invoice, Db, World, ⊤, Result, ok, err, not_found, Outcome, Outcome_db, Outcome-mono,
  Outcome-weaken, bump, set_rows, find?-All, transaction-Outcome, >>=-Outcome, >>-Outcome,
  affected-Outcome, pure-Outcome, select->>=, row->>=, set_tenant_context->>, InvoiceItem,
}
use d5net_billing.Invoices.{is_invoice, get_invoice, list_invoice_items}
use d5net_billing.Invoices.Updates.{update_payments-Outcome}
use d5net_billing.Payments.{
  is_payment, is_trashed_payment, set_deleted_at, apply_delta_of, restore_payment_tx,
  restore_payment, restore_invoice_of, find_invoice_deleted_at, deleted_at_of,
}
use d5net_billing.Payments.Sums.{IsSound}
use d5net_billing.Payments.Books.{Books, IsSettled}
use d5net_billing.Payments.Shifts.{
  positive_nonzero, moves_of_sound, IsSound-set, HasUniqueIds-set, fresh-set, restore-Shift,
  idle_unmoved,
}
use d5net_billing.Payments.Operations.{get_payment-Outcome}
use d5net_billing.Payments.Deltas.{Adjusted, Moves, apply_delta_of-Outcome}

abbrev restored : ℕ → ℕ → List Payment → List Payment
restored t k = set_rows (is_trashed_payment t k) (set_deleted_at none)

module _ (t k : ℕ) (p : Payment) (w : World) (h : Books w.db)
    (found : find? (is_payment t k) w.db.payments ≡ some p) {at : ℕ}
    (gone : p.deleted_at ≡ some at) where
  restore-Moves : Moves t p p.amount w.db.payments (restored t k w.db.payments)
  restore-Moves = record {
    counted = λ inv own paid. restore-Shift t k w.db.payments h.unique found inv gone own paid;
    idle =
        idle_unmoved t k w.db.payments h.unique found (λ q. not (is_null q.deleted_at)) none
          (rw gone);
  }

  -- After the UPDATE of the payment, before that of the invoice.
  abbrev Untrashed : Db → Type 0
  Untrashed d = d ≡ record (w.db) { payments = restored t k w.db.payments }

  Adjusted-Books : (d d' : Db) → Untrashed d → Adjusted d (restored t k w.db.payments) d' → Books d'
  Adjusted-Books d d' e adj =
      let ps : d'.payments ≡ restored t k w.db.payments = adj.payments ∙ ap (λ c. c.payments) e in
      let n : d'.next_id ≡ w.db.next_id = adj.next_id ∙ ap (λ c. c.next_id) e in
      record {
        settled = rw ps (adj.settled);
        sound = rw ps (IsSound-set _ _ w.db.payments h.sound);
        unique = rw ps (HasUniqueIds-set _ _ w.db.payments h.unique);
        fresh = rw (ps, n) (fresh-set w.db.next_id _ _ w.db.payments h.fresh);
      }

  pub restore_payment_tx-Books : Outcome (λ _. Books) Books (restore_payment_tx t k p w)
  unfolding restore_payment_tx
  restore_payment_tx-Books =
      let s : IsSound p = find?-All IsSound _ w.db.payments found h.sound in
      let ps = w.db.payments in
      let ps' = restored t k ps in
      transaction-Outcome _ _ _ w h (
        >>=-Outcome _ _ (λ _. Untrashed) _ _ (bump w)
          (update_payments-Outcome _ _ _ _ (bump w) tt refl)
          (λ n v e.
            >>-Outcome _ _ (λ _. Untrashed) _ _ v (affected-Outcome _ _ n v tt (λ _. e))
              (λ _ v' e'.
                let a : All (IsSettled ps) v'.db.invoices = rw e' (h.settled) in
                let sound = IsSound-set _ _ ps h.sound in
                Outcome-mono {A = ⊤} (λ _. Books) (λ _. Adjusted v'.db ps') (λ _. Unit)
                  (apply_delta_of t p p.invoice_id p.amount v')
                  (apply_delta_of-Outcome (λ _. Unit) t p.amount ps ps' v' tt sound a p
                    (moves_of_sound p s) (positive_nonzero p.amount s.positive) restore-Moves)
                  (λ _ d adj. Adjusted-Books v'.db d e' adj))))

-- The payment's invoice, if it has one, is not in the trash.
abbrev pub HasLiveInvoice : ℕ → Option ℕ → Db → Type 0
HasLiveInvoice t none d = Unit
HasLiveInvoice t (some inv) d =
    (i : Invoice) → find? (is_invoice t inv) d.invoices ≡ some i → i.deleted_at ≡ none

get_invoice-Outcome :
    (t inv : ℕ) (w : World)
    → Outcome
        (λ r d. (find? (is_invoice t inv) w.db.invoices ≡ some (r.0)) × (d ≡ w.db))
        (λ d. d ≡ w.db)
        (get_invoice true t inv w)
unfolding get_invoice list_invoice_items
get_invoice-Outcome t inv w = set_tenant_context->> _ _ _ w refl (
    select->>= _ _ _ _ (bump w) refl (
      row->>= _ _ _ _ (bump (bump w)) refl (λ i q.
        select->>= _ _ _ _ (bump (bump w)) refl
          (pure-Outcome _ _ _ (bump (bump (bump w))) (q, refl)))))

find_invoice-Outcome :
    (t inv : ℕ) (w : World)
    → HasLiveInvoice t (some inv) w.db
    → Outcome (λ o d. (o ≡ none) × (d ≡ w.db)) (λ d. d ≡ w.db) (find_invoice_deleted_at t inv w)
find_invoice-Outcome t inv w live = go (get_invoice true t inv w) (get_invoice-Outcome t inv w)
  where
    go :
        (r : Result (Invoice × List InvoiceItem) × World)
        → Outcome
            (λ r d. (find? (is_invoice t inv) w.db.invoices ≡ some (r.0)) × (d ≡ w.db))
            (λ d. d ≡ w.db)
            r
        → Outcome (λ o d. (o ≡ none) × (d ≡ w.db)) (λ d. d ≡ w.db) (deleted_at_of r)
    go (ok (i, items), v) (q, e) = (live i q, e)
    go (err not_found, v) e = (refl, e)
    go (err x, v) e = e

not_bundled :
    (t : ℕ) (p : Payment) (o : Option ℕ) (w : World)
    → HasLiveInvoice t o w.db
    → Outcome (λ b d. (b ≡ false) × (d ≡ w.db)) (λ d. d ≡ w.db) (restore_invoice_of t p o w)
not_bundled t p none w live = pure-Outcome _ _ false w (refl, refl)
not_bundled t p (some inv) w live =
    >>=-Outcome _ _ (λ o d. (o ≡ none) × (d ≡ w.db)) _ _ w (find_invoice-Outcome t inv w live)
      (λ o v r. rw (r.0) (pure-Outcome _ _ false v (refl, r.1)))

-- RestorePayment of a payment whose invoice, if any, is not in the trash keeps the books, whichever
-- statement fails: every live invoice's paid amount is still the sum of its live counted payments.
pub restore_payment-Books :
    (t k : ℕ) (w : World)
    → ((p : Payment)
        → find? (is_payment t k) w.db.payments ≡ some p
        → HasLiveInvoice t p.invoice_id w.db)
    → Books w.db
    → Books (restore_payment t k w).1.db
unfolding restore_payment
restore_payment-Books t k w live h = Outcome_db Books _ (
    get_payment-Outcome _ _ t k _ w h (λ p v found same. elim (Option-cases p.deleted_at) [
      | inl here ↦ rw here (pure-Outcome _ _ tt v (rw same h))
      | inr (at, gone) ↦
          let trashed : is_null p.deleted_at ≡ false = rw gone in
          let untouched =
            Outcome-weaken (λ b d. (b ≡ false) × (d ≡ v.db)) Books (λ d. d ≡ v.db)
              (restore_invoice_of t p p.invoice_id v)
              (not_bundled t p p.invoice_id v (rw same (live p found))) (λ d e. rw (e, same) h) in
          rw trashed (
            >>=-Outcome _ _ (λ b d. (b ≡ false) × (d ≡ v.db)) _ _ v untouched
              (λ b v' r.
                rw (r.0) (
                  restore_payment_tx-Books t k p v' (rw (r.1, same) h) (rw (r.1, same) found)
                    gone)))
    ]))
