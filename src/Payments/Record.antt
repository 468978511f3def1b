-- ===== src/Payments/Record.antt =====
-- RecordPayment keeps the books.
use d5net_billing.Prelude.{
  ℕ, suc, ◌<◌, ◌≡◌, refl, sym, ap, true, false, Option, none, some, List, [], ◌∷◌, ◌⊎◌, inl, inr,
  arith, All, Bool-cases, if_some, if◌then◌else◌,
}
use mathlib.Core.Path.{subst}
use d5net_billing.Prelude.Int.{pos, ◌<ℤ◌}
use d5net_billing.Prelude.Int64.{IsInt64}
use d5net_billing.Prelude.Text.{Text, trim_space}
use d5net_billing.Prelude.Text.Trim.{to_lower-trim_space_self}
use d5net_billing.Db.{
  Payment, Db, World, Outcome, Outcome_db, bump, transaction-Outcome, >>=-Outcome, >>-Outcome,
  gets->>=, guard->>, set_tenant_context->>, write-Outcome, pure-Outcome,
}
use d5net_billing.Invoices.Updates.{update_invoices-Outcome}
use d5net_billing.Payments.{
  normalize_status, is_paid_status, or_paid, references, insert_payment, pay_invoice_of,
  record_payment,
}
use d5net_billing.Payments.Sums.{IsSound, HasNoId}
use d5net_billing.Payments.Books.{Books, IsSettled, add_payment-IsSettled, unmoved-IsSettled}
use d5net_billing.Payments.Shifts.{insert-Shift, insert_unmoved}

normalize_twice : (s : Text) → normalize_status (normalize_status s) ≡ normalize_status s
unfolding normalize_status
normalize_twice s = to_lower-trim_space_self s

normalize-or_paid : (s : Text) → normalize_status s ≡ s → normalize_status (or_paid s) ≡ or_paid s
unfolding normalize_status trim_space
normalize-or_paid [] h = refl
normalize-or_paid (c ∷ s) h = h

HasNoId-fresh : (n : ℕ) (ps : List Payment) → All (λ p. p.id < n) ps → HasNoId n ps
HasNoId-fresh n [] h = tt
HasNoId-fresh n (p ∷ ps) (b, h) = ((λ e. omega arith), HasNoId-fresh n ps h)

fresh-suc : (n : ℕ) (ps : List Payment) → All (λ p. p.id < n) ps → All (λ p. p.id < suc n) ps
fresh-suc n [] h = tt
fresh-suc n (p ∷ ps) (b, h) = (omega arith, fresh-suc n ps h)

abbrev pub new_row : Db → Payment → ℕ → Payment
new_row d p now = record p { id = d.next_id; created_at = now; deleted_at = none }

abbrev pub with_payment : Db → Payment → Db
with_payment d new = record d { next_id = suc d.next_id; payments = new ∷ d.payments }

pub insert_payment-Outcome :
    (Q : Payment → Db → Type 0) (E : Db → Type 0) (p : Payment) (w : World)
    → E w.db
    → (let new = new_row w.db p w.now in Q new (with_payment w.db new))
    → Outcome Q E (insert_payment p w)
unfolding insert_payment
insert_payment-Outcome Q E p w e h = write-Outcome Q E _ w e (λ n d q.
    let q' = if_some (references p.invoice_id w.db.invoices) _ q in
    rw (← ap (λ r. r.0) q', ← ap (λ r. r.1) q') h)

pub IsSound-new_row : (d : Db) (p : Payment) (now : ℕ) → IsSound p → IsSound (new_row d p now)
IsSound-new_row d p now s = record { normal = s.normal; positive = s.positive; fits = s.fits }

module _ (p : Payment) (w : World) (h : Books w.db) (s : IsSound p) where
  -- The tables after the INSERT, and the promises that stand already.
  abbrev pub new : Payment
  new = new_row w.db p w.now

  abbrev pub table : List Payment
  table = new ∷ w.db.payments

  pub done :
      (d : Db)
      → d.payments ≡ table
      → d.next_id ≡ suc w.db.next_id
      → All (IsSettled table) d.invoices
      → Books d
  done d ps n settled = record {
    settled = rw ps settled;
    sound = rw ps (IsSound-new_row w.db p w.now s, h.sound);
    unique = rw ps (HasNoId-fresh w.db.next_id w.db.payments h.fresh, h.unique);
    fresh = rw ps (
        subst (λ m. All (λ q. q.id < m) table) (sym n)
          (omega arith, fresh-suc w.db.next_id w.db.payments h.fresh));
  }

  idle :
      (v : World)
      → v.db ≡ with_payment w.db new
      → ((p.invoice_id ≡ none) ⊎ (is_paid_status p.status ≡ false))
      → Books v.db
  idle v e i = done v.db (ap (λ d. d.payments) e) (ap (λ d. d.next_id) e) (
      rw e (
        unmoved-IsSettled w.db.payments table (insert_unmoved new w.db.payments i) w.db.invoices
          h.settled))

  settle-Outcome :
      (o : Option ℕ) (v : World)
      → p.invoice_id ≡ o
      → is_paid_status p.status ≡ true
      → v.db ≡ with_payment w.db new
      → Outcome (λ _. Books) (λ _. Unit) (pay_invoice_of w.now p.tenant_id o p.amount v)
  settle-Outcome none v own paid e = pure-Outcome _ _ tt v (idle v e (inl own))
  settle-Outcome (some inv) v own paid e =
      let shift = insert-Shift new inv w.db.payments refl own paid in
      >>-Outcome _ _ (λ _. Books) _ _ v
        (update_invoices-Outcome (λ _. Books) _ _ _ v tt
          (λ rows q.
            done (record (v.db) { invoices = rows }) (ap (λ d. d.payments) e)
              (ap (λ d. d.next_id) e)
              (add_payment-IsSettled p.tenant_id inv p.amount w.db.payments table shift w.now
                w.db.invoices (rw e at q) h.settled)))
        (λ _ v' b. pure-Outcome _ _ tt v' b)

-- RecordPayment of a positive amount keeps the books: for whatever invoice, live, trashed, missing
-- or none, and whichever statement fails, every live invoice's paid amount is still the sum of its
-- live counted payments.
pub record_payment-Books :
    (p : Payment) (w : World)
    → pos 0 <ℤ p.amount
    → IsInt64 p.amount
    → Books w.db
    → Books (record_payment p w).1.db
unfolding record_payment
record_payment-Books p w positive fits h =
    let status = or_paid (normalize_status p.status) in
    let stored : Payment = record p {
      method = trim_space p.method;
      status = status;
      paid_at = if is_paid_status status then some w.now else none;
    } in
    let s : IsSound stored = record {
      normal = normalize-or_paid (normalize_status p.status) (normalize_twice p.status);
      positive = positive;
      fits = fits;
    } in
    Outcome_db Books _ (
      set_tenant_context->> _ _ _ w h (
        guard->> _ _ _ _ _ (bump w) h (λ named. transaction-Outcome _ _ _ (bump w) h (
          gets->>= _ _ _ _ (bump (bump w)) (
            >>=-Outcome _ _ (λ _ d. d ≡ with_payment w.db (new stored w h s)) _ _ (bump (bump w))
              (insert_payment-Outcome _ _ stored (bump (bump w)) tt refl)
              (λ n v e.
                >>-Outcome _ _ (λ _. Books) _ _ v
                  (elim (Bool-cases (is_paid_status status)) [
                    | inl paid ↦ rw paid (settle-Outcome stored w h s p.invoice_id v refl paid e)
                    | inr unpaid ↦
                        rw unpaid (pure-Outcome _ _ tt v (idle stored w h s v e (inr unpaid)))
                  ])
                  (λ _ v' b. pure-Outcome _ _ n v' b)))))))
