-- ===== src/LateFees/Round.antt =====
-- What a round of late fees does to each invoice that it finds.
use d5net_billing.Prelude.{
  ℕ, suc, ◌≡◌, ◌⊎◌, refl, Bool, true, false, none, some, List, [], ◌∷◌, All, inl, inr, arith, find?,
  Bool-cases,
}
use d5net_billing.Prelude.Int.{ℤ, pos, ◌≤ℤ◌, ◌<ℤ◌, leb_ℤ}
use d5net_billing.Prelude.Int64.{◌-64◌}
use d5net_billing.Prelude.Text.{Text}
use d5net_billing.Prelude.Float64.{Float64}
use d5net_billing.Prelude.Sorting.{Distinct, All-both}
use d5net_billing.Db.{Invoice, Db, World, Result, ok, err, Error, pure, ◌>>=◌}
use d5net_billing.Invoices.{is_live_invoice, apply_invoice_late_fee}
use d5net_billing.Billing.{apply_late_fee}
use d5net_billing.LateFees.{fee_of, counted, try_late_fee, charge_all}
use d5net_billing.LateFees.Rows.{invoice_id, Replaced, Replaced-Distinct, Replaced-found}
use d5net_billing.LateFees.Charge.{late_fee, raised, Tried, try-Tried}

-- A run over some invoices, and how many of them it has charged: one whose fee is not positive is passed
-- over, one whose statements fail is left, and the others are raised by their fee.
pub data Round (fl : Float64) (t : ℕ) (percent : fl.F) (description : Text)
    : List Invoice → World → ℕ → World → Type 0 where
  finished : {w : World} → Round fl t percent description [] w 0 w
  free :
      {i : Invoice} {is : List Invoice} {w u : World} {n : ℕ}
      → (i.total_amount -64 i.paid_amount ≤ℤ pos 0) ⊎ (late_fee fl percent i ≤ℤ pos 0)
      → Round fl t percent description is w n u
      → Round fl t percent description (i ∷ is) w n u
  failed :
      {i : Invoice} {is : List Invoice} {w v u : World} {n : ℕ} (e : Error)
      → apply_invoice_late_fee t i.id (late_fee fl percent i) description w ≡ (err e, v)
      → v.db ≡ w.db
      → Round fl t percent description is v n u
      → Round fl t percent description (i ∷ is) w n u
  charged :
      {i : Invoice} {is : List Invoice} {w v u : World} {n : ℕ}
      → pos 0 <ℤ late_fee fl percent i
      → Replaced i (raised w.now (late_fee fl percent i) i) w.db.invoices v.db.invoices
      → Round fl t percent description is v n u
      → Round fl t percent description (i ∷ is) w (suc n) u

-- What a run returns: how many it has charged, never an error.
abbrev pub Ran : (fl : Float64) → ℕ → fl.F → Text → List Invoice → World → Result ℕ × World → Type 0
Ran fl t percent description is w (ok n, u) = Round fl t percent description is w n u
Ran fl t percent description is w (err e, u) = ⊥

module _ (fl : Float64) (t : ℕ) (percent : fl.F) (description : Text)
    (on : fl.at_most percent (fl.of_int (pos 0)) ≡ false) where
  not_positive : pos 0 <ℤ pos 0 → ⊥
  not_positive h = omega arith

  fee-late_fee :
      (i : Invoice) → pos 0 <ℤ fee_of fl percent i → fee_of fl percent i ≡ late_fee fl percent i
  unfolding apply_late_fee
  fee-late_fee i h = elim (Bool-cases (leb_ℤ (i.total_amount -64 i.paid_amount) (pos 0))) [
    | inl over ↦ absurd (not_positive (rw over at h))
    | inr owed ↦ rw (owed, on)
  ]

  fee-free :
      (i : Invoice)
      → fee_of fl percent i ≤ℤ pos 0
      → (i.total_amount -64 i.paid_amount ≤ℤ pos 0) ⊎ (late_fee fl percent i ≤ℤ pos 0)
  unfolding apply_late_fee
  fee-free i h = elim (Bool-cases (leb_ℤ (i.total_amount -64 i.paid_amount) (pos 0))) [
    | inl over ↦ inl (ground arith)
    | inr owed ↦ inr (rw (owed, on) at h)
  ]

  -- The invoices still to try stand in the table as they were listed.
  abbrev pub Listed : List Invoice → Db → Type 0
  Listed is d =
      Distinct invoice_id d.invoices
      × Distinct invoice_id is
      × All
          (λ i.
            (i.late_fee_applied_at ≡ none) × (find? (is_live_invoice t i.id) d.invoices ≡ some i))
          is

  Listed-rest :
      (i j : Invoice) (is : List Invoice) (d d' : Db)
      → j.id ≡ i.id
      → Replaced i j d.invoices d'.invoices
      → Listed (i ∷ is) d
      → Listed is d'
  Listed-rest i j is d d' same r (unique, (apart, distinct), (own, rows)) = (
    Replaced-Distinct i j same d.invoices d'.invoices r unique,
    distinct,
    All-both is
        (λ k off (fresh, found).
          (fresh, Replaced-found i j same t k d.invoices d'.invoices r off found))
        apart rows,
  )

  free-Ran :
      (i : Invoice) (is : List Invoice) (w : World) (r : Result ℕ × World)
      → fee_of fl percent i ≤ℤ pos 0
      → Ran fl t percent description is w r
      → Ran fl t percent description (i ∷ is) w r
  free-Ran i is w (ok n, u) none_due h = free (fee-free i none_due) h
  free-Ran i is w (err e, u) none_due h = h

  Tried-Ran :
      (i : Invoice) (is : List Invoice) (w v : World) (done : Bool) (r : Result ℕ × World)
      → pos 0 <ℤ fee_of fl percent i
      → Tried t (fee_of fl percent i) description i w (ok done, v)
      → Ran fl t percent description is v r
      → Ran fl t percent description
          (i ∷ is)
          w
          (let (x, u) = r in elim x [ ok n ↦ (ok (counted done n), u) | err e ↦ (err e, u) ])
  Tried-Ran i is w v true (ok n, u) due step h =
      let same = fee-late_fee i due in charged (rw same at due) (rw same at step) h
  Tried-Ran i is w v false (ok n, u) due (e, run, kept) h =
      failed e (rw (fee-late_fee i due) at run) kept h
  Tried-Ran i is w v done (err e, u) due step h = h

  Tried-Listed :
      (i : Invoice) (is : List Invoice) (w v : World) (done : Bool) (fee : ℤ)
      → Tried t fee description i w (ok done, v)
      → Listed (i ∷ is) w.db
      → Listed is v.db
  Tried-Listed i is w v true fee step h =
      Listed-rest i (raised w.now fee i) is w.db v.db refl step h
  Tried-Listed i is w v false fee (e, run, kept) (unique, (apart, distinct), (own, rows)) =
      rw kept (unique, distinct, rows)

  pub charge_all-Ran :
      (is : List Invoice) (w : World)
      → Listed is w.db
      → Ran fl t percent description is w (charge_all fl t percent description is w)
  unfolding charge_all ◌>>=◌ pure
  charge_all-Ran [] w h = finished
  charge_all-Ran (i ∷ is) w h =
      let (unique, (apart, distinct), ((fresh, found), rows)) = h in
      let fee = fee_of fl percent i in
      elim (Bool-cases (leb_ℤ fee (pos 0))) [
        | inl none_due ↦
            rw none_due
              (free-Ran i is w _ (ground arith) (charge_all-Ran is w (unique, distinct, rows)))
        | inr due ↦
            let positive : pos 0 <ℤ fee = ground arith in
            rw due (
              go positive h (try_late_fee t i.id fee description w)
                (try-Tried t fee description i w positive unique found fresh) (charge_all-Ran is))
      ]
    where
      go :
          pos 0 <ℤ fee_of fl percent i
          → Listed (i ∷ is) w.db
          → (r : Result Bool × World) → Tried t (fee_of fl percent i) description i w r
          → ((v : World)
              → Listed is v.db
              → Ran fl t percent description is v (charge_all fl t percent description is v))
          → Ran fl t percent description (i ∷ is) w (
              let (x, v) = r in
              elim x [
                | ok done ↦
                    (let (y, u) = charge_all fl t percent description is v in
                      elim y [ ok n ↦ (ok (counted done n), u) | err e ↦ (err e, u) ])
                | err e ↦ (err e, v)
              ])
      go due h (ok done, v) step rest =
          Tried-Ran i is w v done _ due step
            (rest v (Tried-Listed i is w v done (fee_of fl percent i) step h))
      go due h (err e, v) step rest = step
