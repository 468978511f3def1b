-- ===== src/Commission/Credit.antt =====
-- CreditCommission keeps what every reseller is owed.
use mathlib.Core.Option.{some-injective}
use d5net_billing.Prelude.{
  ℕ, suc, ◌<◌, ◌≡◌, refl, sym, ap, arith, true, false, ◌&&◌, Option, none, some, List, [], ◌∷◌, inl,
  inr, All, ◌==◌, Bool-cases,
}
use d5net_billing.Prelude.Int.{pos, int_laws, leb_ℤ}
use d5net_billing.Prelude.Text.{Text}
use d5net_billing.Db.{
  CommissionEntry, Reseller, Db, World, Outcome, Outcome_db, bump, pure-Outcome, write-Outcome,
  >>=-Outcome, >>-Outcome, select->>=, affected-Outcome, transaction-Outcome,
}
use d5net_billing.Commission.{
  is_due_status, is_reseller, credit_reseller, insert_commission, credit_payee,
  credit_commission_tx, credit_commission, get_commission_settings, amount_for_basis,
  normalize_attribution, normalize_commission_basis, pending_commission, is_unset, settings_of,
}
use d5net_billing.Commission.Owed.{is_owed, owed_share, owed_sum, IsOwed, IsPositive, HasNoId, Owed}
use d5net_billing.Commission.Keeps.{
  Lost, Keeps, Shift, credit_reseller_lem, update-IsOwed, unmoved-IsOwed, update_resellers-Outcome,
}

HasNoId-fresh : (n : ℕ) (es : List CommissionEntry) → All (λ e. e.id < n) es → HasNoId n es
HasNoId-fresh n [] h = tt
HasNoId-fresh n (e ∷ es) (b, h) = ((λ q. omega arith), HasNoId-fresh n es h)

fresh-suc :
    (n : ℕ) (es : List CommissionEntry) → All (λ e. e.id < n) es → All (λ e. e.id < suc n) es
fresh-suc n [] h = tt
fresh-suc n (e ∷ es) (b, h) = (omega arith, fresh-suc n es h)

-- A pending entry of the reseller adds its amount.
insert-Shift :
    (e : CommissionEntry) (k : ℕ) (es : List CommissionEntry)
    → e.reseller_id ≡ some k
    → is_due_status e.status ≡ true
    → Shift e.tenant_id k e.amount es (e ∷ es)
unfolding owed_sum owed_share
insert-Shift e k es own due t' k' =
    let owed : is_owed t' k' e ≡ (e.tenant_id == t' && k == k') = rw (own, due) (ground arith) in
    rw owed (elim (Bool-cases (e.tenant_id == t' && k == k')) [
      | inl hit ↦ rw hit (omega int_laws)
      | inr miss ↦ rw miss (omega int_laws)
    ])

insert_unmoved :
    (e : CommissionEntry) (es : List CommissionEntry)
    → e.reseller_id ≡ none
    → (t' k' : ℕ) → owed_sum t' k' (e ∷ es) ≡ owed_sum t' k' es
unfolding owed_sum owed_share
insert_unmoved e es own t' k' =
    let miss : is_owed t' k' e ≡ false = rw own (ground arith) in rw miss (omega int_laws)

module _ (e : CommissionEntry) (w : World) (h : Owed w.db) (positive : IsPositive e)
    (due : is_due_status e.status ≡ true) where
  -- The tables after the INSERT.
  abbrev new : CommissionEntry
  new = record e { id = w.db.next_id; created_at = w.now }

  abbrev table : List CommissionEntry
  table = new ∷ w.db.commission_entries

  abbrev inserted : Db
  inserted = record (w.db) { next_id = suc w.db.next_id; commission_entries = table }

  done :
      (rows : List Reseller) → All (IsOwed table) rows → Owed (record inserted { resellers = rows })
  done rows balances = record {
    balances = balances;
    positive = (positive, h.positive);
    unique = (HasNoId-fresh w.db.next_id w.db.commission_entries h.fresh, h.unique);
    fresh = (omega arith, fresh-suc w.db.next_id w.db.commission_entries h.fresh);
  }

  pay-Outcome :
      (o : Option ℕ) (v : World)
      → e.reseller_id ≡ o
      → v.db ≡ inserted
      → Outcome Keeps Lost (credit_payee e.tenant_id o e.amount v)
  pay-Outcome none v own same =
      let idle =
        unmoved-IsOwed w.db.commission_entries table
          (insert_unmoved new w.db.commission_entries own) w.db.resellers h.balances in
      pure-Outcome Keeps Lost tt v (rw same (done w.db.resellers idle))
  pay-Outcome (some k) v own same =
      >>=-Outcome Keeps Lost Keeps _ _ v
        (update_resellers-Outcome Keeps Lost (is_reseller e.tenant_id k) (credit_reseller e.amount)
          v tt
          (λ rows q.
            let shift = insert-Shift new k w.db.commission_entries own due in
            rw same (
              done rows (
                update-IsOwed e.tenant_id k e.amount w.db.commission_entries table shift
                  (credit_reseller e.amount) w.db.resellers
                  (λ x y sum r. credit_reseller_lem e.amount x y r) (rw same at q) h.balances))))
        (λ n u o. affected-Outcome Keeps Lost n u tt (λ _. o))

  insert-Outcome : Outcome (λ n d. d ≡ inserted) Lost (insert_commission e w)
  unfolding insert_commission
  insert-Outcome =
      write-Outcome (λ n d. d ≡ inserted) Lost _ w tt
        (λ n d q. sym (ap (λ r. r.1) (some-injective _ _ q)))

credit_commission_tx-Owed :
    (e : CommissionEntry) (w : World)
    → Owed w.db
    → IsPositive e
    → is_due_status e.status ≡ true
    → Outcome Keeps Owed (credit_commission_tx e w)
unfolding credit_commission_tx
credit_commission_tx-Owed e w h positive due = transaction-Outcome Keeps Owed _ w h (
    >>=-Outcome Keeps Lost (λ n d. d ≡ inserted e (bump w) h positive due) _ _ (bump w)
      (insert-Outcome e (bump w) h positive due)
      (λ n v same.
        >>-Outcome Keeps Lost Keeps _ _ v
          (pay-Outcome e (bump w) h positive due e.reseller_id v refl same)
          (λ u x o. pure-Outcome Keeps Lost (some n) x o)))

-- CreditCommission keeps every reseller's balance equal to the sum of the entries of that reseller
-- that are not void, for any payee and setting and whichever statement fails.
pub credit_commission-Owed :
    (t c : ℕ) (lead reseller sales : Option ℕ) (basis : Text) (w : World)
    → Owed w.db
    → Owed (credit_commission t c lead reseller sales basis w).1.db
unfolding credit_commission get_commission_settings is_due_status
credit_commission-Owed t c lead reseller sales basis w h =
    let payee = normalize_attribution reseller sales in
    let basis' = normalize_commission_basis basis in
    let a = amount_for_basis (settings_of t w.db.commission_settings) basis' in
    elim (Bool-cases (is_unset (payee.0) && is_unset (payee.1))) [
      | inl nobody ↦ rw nobody (Outcome_db Owed _ (pure-Outcome Keeps Owed none w h))
      | inr payee_set ↦ rw payee_set (
          Outcome_db Owed _ (
            select->>= Keeps Owed _ _ w h (elim (Bool-cases (leb_ℤ a (pos 0))) [
              | inl nothing ↦ rw nothing (pure-Outcome Keeps Owed none (bump w) h)
              | inr due ↦ rw due (
                  credit_commission_tx-Owed (pending_commission t c lead payee basis' a) (bump w) h
                    (ground arith) refl)
            ])))
    ]
