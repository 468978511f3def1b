-- ===== src/Payments/Operations.antt =====
-- RecordPayment, DeletePayment and RestorePayment keep the books, whichever statement fails.
use d5net_billing.Prelude.{ℕ, ◌≡◌, refl, sym, true, Option, none, some, List, find?, is_null}
use d5net_billing.Prelude.Int.{pos, ◌-ℤ◌}
use d5net_billing.Prelude.Int64.{◌-64◌}
use d5net_billing.Db.{
  Payment, Db, World, M, Outcome, bump, set_rows, count_rows, find?-All, transaction-Outcome,
  >>=-Outcome, >>-Outcome, gets->>=, select->>=, guard->>, set_tenant_context->>, affected-Outcome,
  row-Outcome, Outcome_db, ◌>>=◌,
}
use d5net_billing.Invoices.Updates.{update_payments-Outcome}
use d5net_billing.Payments.{
  is_payment, is_live_payment, set_deleted_at, get_payment, delete_payment_tx, delete_payment,
}
use d5net_billing.Payments.Sums.{IsSound}
use d5net_billing.Payments.Books.{Books}
use d5net_billing.Payments.Shifts.{
  negated, negated_nonzero, moves_of_sound, IsSound-set, HasUniqueIds-set, fresh-set, delete-Shift,
  idle_unmoved,
}
use d5net_billing.Payments.Deltas.{Adjusted, Moves, apply_delta_of-Outcome, apply_delta_of_payments}

-- The payments with `deleted_at` of one row set.
abbrev deleted : ℕ → ℕ → ℕ → List Payment → List Payment
deleted t k at = set_rows (is_live_payment t k) (set_deleted_at (some at))

module _ (t k : ℕ) (p : Payment) (w : World) (h : Books w.db)
    (found : find? (is_payment t k) w.db.payments ≡ some p) (live : p.deleted_at ≡ none) where
  delete-Moves :
      (at : ℕ) → Moves t p (pos 0 -ℤ p.amount) w.db.payments (deleted t k at w.db.payments)
  delete-Moves at = record {
    counted = λ inv own paid. delete-Shift t k w.db.payments h.unique found inv at live own paid;
    idle =
        idle_unmoved t k w.db.payments h.unique found (λ q. is_null q.deleted_at) (some at)
          (rw live);
  }

  deleted-Books :
      (d : Db)
      → Adjusted w.db (deleted t k w.now w.db.payments) d
      → Books (record d { payments = deleted t k w.now d.payments })
  deleted-Books d adj = record {
    settled = rw (adj.payments) (adj.settled);
    sound = rw (adj.payments) (IsSound-set _ _ w.db.payments h.sound);
    unique = rw (adj.payments) (HasUniqueIds-set _ _ w.db.payments h.unique);
    fresh = rw (adj.payments, adj.next_id) (fresh-set w.db.next_id _ _ w.db.payments h.fresh);
  }

  pub delete_payment_tx-Books : Outcome (λ _. Books) Books (delete_payment_tx t k p w)
  unfolding delete_payment_tx
  delete_payment_tx-Books =
      let s : IsSound p = find?-All IsSound _ w.db.payments found h.sound in
      let ps' = deleted t k w.now w.db.payments in
      let body =
        apply_delta_of-Outcome (λ _. Unit) t (pos 0 -ℤ p.amount) w.db.payments ps' (bump w) tt
          (IsSound-set _ _ w.db.payments h.sound) h.settled p (moves_of_sound p s)
          (negated_nonzero p.amount s.positive) (delete-Moves w.now) in
      transaction-Outcome _ _ _ w h (
        gets->>= _ _ _ _ (bump w) (
          >>-Outcome _ _ (λ _. Adjusted w.db ps') _ _ (bump w)
            (rw (negated p.amount s.positive s.fits) body)
            (λ _ v adj.
              >>=-Outcome _ _ (λ _. Books) _ _ v
                (update_payments-Outcome _ _ _ _ v tt (deleted-Books v.db adj))
                (λ n v' b. affected-Outcome _ _ n v' tt (λ _. b)))))

null_none : (o : Option ℕ) → is_null o ≡ true → o ≡ none
null_none none h = refl
null_none (some at) h = cc

-- GetPayment changes nothing, and what it returns is the row.
pub get_payment-Outcome :
    {B : Type 0} (Q : B → Db → Type 0) (E : Db → Type 0) (t k : ℕ) (next : Payment → M B)
    (w : World)
    → E w.db
    → ((p : Payment) (v : World)
        → find? (is_payment t k) w.db.payments ≡ some p
        → v.db ≡ w.db
        → Outcome Q E (next p v))
    → Outcome Q E ((get_payment t k >>= next) w)
unfolding get_payment
get_payment-Outcome Q E t k next w e h =
    let R =
      λ (p : Payment) (d : Db). (find? (is_payment t k) w.db.payments ≡ some p) × (d ≡ w.db) in
    >>=-Outcome Q E R (get_payment t k) next w
      (set_tenant_context->> R E _ w e (
        select->>= R E _ _ (bump w) e
          (row-Outcome R E (find? (is_payment t k) w.db.payments) _ e (λ p q. (q, refl)))))
      (λ p v r. h p v r.0 r.1)

-- DeletePayment keeps the books: whatever payment it is asked for, and whichever statement fails,
-- every live invoice's paid amount is still the sum of its live counted payments.
pub delete_payment-Books : (t k : ℕ) (w : World) → Books w.db → Books (delete_payment t k w).1.db
unfolding delete_payment
delete_payment-Books t k w h = Outcome_db Books _ (
    get_payment-Outcome _ _ t k _ w h (λ p v found same. guard->> _ _ _ _ _ v (rw same h) (λ live.
      delete_payment_tx-Books t k p v (rw same h) (rw same found) (null_none p.deleted_at live))))

-- A second deletion that read the payment while it was still live, and runs its transaction after
-- another deletion has committed, fails and changes nothing, whichever statement fails: the invoice
-- is not lowered twice.
pub delete_payment_tx_stale :
    (t k : ℕ) (p : Payment) (w : World)
    → count_rows (is_live_payment t k) w.db.payments ≡ 0
    → Outcome (λ _ _. ⊥) (λ d. d ≡ w.db) (delete_payment_tx t k p w)
unfolding delete_payment_tx
delete_payment_tx_stale t k p w gone = transaction-Outcome _ _ _ w refl (
    gets->>= _ _ _ _ (bump w) (
      >>-Outcome _ _ (λ _ d. d.payments ≡ w.db.payments) _ _ (bump w)
        (apply_delta_of_payments t p p.invoice_id (pos 0 -64 p.amount) (bump w))
        (λ _ v same.
          >>=-Outcome _ _ (λ n _. n ≡ 0) _ _ v (update_payments-Outcome _ _ _ _ v tt (rw same gone))
            (λ n v' none_left.
              affected-Outcome _ _ n v' tt (λ some_left. some_left (sym none_left))))))
