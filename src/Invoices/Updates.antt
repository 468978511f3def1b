-- ===== src/Invoices/Updates.antt =====
-- What the UPDATE statements on invoices and payments leave, whether or not they fail.
use d5net_billing.Prelude.{ℕ, ◌≡◌, refl, ap, Bool, Option, none, some, List}
use mathlib.Core.Option.{some-injective}
use d5net_billing.Db.{
  Invoice, Payment, Db, World, write-Outcome, Outcome, update_rows, count_rows, set_rows,
}
use d5net_billing.Invoices.{with_rows, update_invoices, update_payments}

module _ (Q : ℕ → Db → Type 0) (E : Db → Type 0) where
  with_rows-Outcome :
      (p : Invoice → Bool) (d : Db) (o : Option (List Invoice)) (n : ℕ) (d' : Db)
      → with_rows p d o ≡ some (n, d')
      → ((rows : List Invoice)
          → o ≡ some rows
          → Q (count_rows p d.invoices) (record d { invoices = rows }))
      → Q n d'
  with_rows-Outcome p d none n d' e h = cc
  with_rows-Outcome p d (some rows) n d' e h =
      let q = some-injective _ _ e in rw (← ap (λ r. r.0) q, ← ap (λ r. r.1) q) (h rows refl)

  pub update_invoices-Outcome :
      (p : Invoice → Bool) (f : Invoice → Option Invoice) (w : World)
      → E w.db
      → ((rows : List Invoice)
          → update_rows p f w.db.invoices ≡ some rows
          → Q (count_rows p w.db.invoices) (record (w.db) { invoices = rows }))
      → Outcome Q E (update_invoices p f w)
  unfolding update_invoices
  update_invoices-Outcome p f w e h =
      write-Outcome Q E _ w e
        (λ n d q. with_rows-Outcome p w.db (update_rows p f w.db.invoices) n d q h)

  pub update_payments-Outcome :
      (p : Payment → Bool) (f : Payment → Payment) (w : World)
      → E w.db
      → Q (count_rows p w.db.payments) (record (w.db) { payments = set_rows p f w.db.payments })
      → Outcome Q E (update_payments p f w)
  unfolding update_payments
  update_payments-Outcome p f w e h =
      write-Outcome Q E _ w e
        (λ n d q. let q' = some-injective _ _ q in rw (← ap (λ r. r.0) q', ← ap (λ r. r.1) q') h)
