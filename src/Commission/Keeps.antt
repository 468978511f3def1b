-- ===== src/Commission/Keeps.antt =====
-- Crediting, paying and voiding commissions keep what every reseller is owed.
use mathlib.Core.Option.{some-injective}
use d5net_billing.Prelude.{
  ℕ, ◌<◌, ◌≡◌, ◌∙◌, refl, sym, ap, arith, Bool, true, false, ◌&&◌, Option, none, some, List, [],
  ◌∷◌, inl, inr, All, ◌==◌, Bool-cases, if◌then◌else◌,
}
use d5net_billing.Prelude.Int.{ℤ, pos, ◌+ℤ◌, ◌-ℤ◌, ◌≤ℤ◌, int_laws}
use d5net_billing.Db.{
  CommissionEntry, Reseller, Db, World, Outcome, Outcome_db, write-Outcome, >>=-Outcome, gets->>=,
  affected-Outcome, update_rows, update_rows-All, count_rows, set_rows, set_rows-All,
}
use d5net_billing.Commission.{
  pay_entry, is_pending_entry, is_reseller, credit_reseller, debit_reseller, set_reseller_balance,
  with_resellers, update_resellers, update_entries, mark_commission_paid,
}
use d5net_billing.Commission.Owed.{
  owed_sum, IsOwed, IsPositive, Owed, owed_sum-pay, set-HasUniqueIds,
}

abbrev pub Lost : Db → Type 0
Lost d = Unit

abbrev pub Keeps : {A : Type 0} → A → Db → Type 0
Keeps a d = Owed d

-- The sums of one reseller have moved by `delta`, those of the others stay.
abbrev pub Shift : ℕ → ℕ → ℤ → List CommissionEntry → List CommissionEntry → Type 0
Shift t k delta es es' =
    (t' k' : ℕ)
    → owed_sum t' k' es' ≡ owed_sum t' k' es +ℤ (if t == t' && k == k' then delta else pos 0)

pub credit_reseller_lem :
    (a : ℤ) (x y : Reseller)
    → credit_reseller a x ≡ some y
    → y ≡ set_reseller_balance x (x.balance +ℤ a)
unfolding credit_reseller
credit_reseller_lem a x y e = ground arith

pub debit_reseller_lem :
    (a : ℤ) (x y : Reseller)
    → pos 0 ≤ℤ x.balance -ℤ a
    → debit_reseller a x ≡ some y
    → y ≡ set_reseller_balance x (x.balance -ℤ a)
unfolding debit_reseller
debit_reseller_lem a x y h e = ground arith

module _ (t k : ℕ) (delta : ℤ) (es es' : List CommissionEntry)
    (moved : Shift t k delta es es') where
  -- The reseller whose row is written.
  own_sum :
      (x : Reseller)
      → is_reseller t k x ≡ true
      → IsOwed es x
      → owed_sum x.tenant_id x.id es' ≡ x.balance +ℤ delta
  own_sum x hit h =
      let own : (t == x.tenant_id && k == x.id) ≡ true = ground arith in
      rw h (rw own at (moved x.tenant_id x.id))

  other-IsOwed : (x : Reseller) → is_reseller t k x ≡ false → IsOwed es x → IsOwed es' x
  other-IsOwed x miss h =
      let apart : (t == x.tenant_id && k == x.id) ≡ false = ground arith in
      let same : owed_sum x.tenant_id x.id es' ≡ owed_sum x.tenant_id x.id es +ℤ pos 0 =
        rw apart at (moved x.tenant_id x.id) in
      rw (same, h) (omega int_laws)

  -- An UPDATE that adds `delta` to the reseller's balance.
  pub update-IsOwed :
      (f : Reseller → Option Reseller) (rs : List Reseller) {ys : List Reseller}
      → ((x y : Reseller)
          → owed_sum x.tenant_id x.id es' ≡ x.balance +ℤ delta
          → f x ≡ some y
          → y ≡ set_reseller_balance x (x.balance +ℤ delta))
      → update_rows (is_reseller t k) f rs ≡ some ys
      → All (IsOwed es) rs
      → All (IsOwed es') ys
  update-IsOwed f rs adds e = update_rows-All _ _ rs e (λ x y h q.
      elim (Bool-cases (is_reseller t k x)) [
        | inl hit ↦ let sum = own_sum x hit h in rw (adds x y sum (rw hit at q)) (sym sum)
        | inr miss ↦ rw (← some-injective _ _ (rw miss at q)) (other-IsOwed x miss h)
      ])

pub unmoved-IsOwed :
    (es es' : List CommissionEntry)
    → ((t k : ℕ) → owed_sum t k es' ≡ owed_sum t k es)
    → (rs : List Reseller) → All (IsOwed es) rs
    → All (IsOwed es') rs
unmoved-IsOwed es es' same [] h = tt
unmoved-IsOwed es es' same (r ∷ rs) (o, h) =
    (o ∙ sym (same r.tenant_id r.id), unmoved-IsOwed es es' same rs h)

module _ (Q : ℕ → Db → Type 0) (E : Db → Type 0) where
  pub update_resellers-Outcome :
      (p : Reseller → Bool) (f : Reseller → Option Reseller) (w : World)
      → E w.db
      → ((rows : List Reseller)
          → update_rows p f w.db.resellers ≡ some rows
          → Q (count_rows p w.db.resellers) (record (w.db) { resellers = rows }))
      → Outcome Q E (update_resellers p f w)
  unfolding update_resellers
  update_resellers-Outcome p f w e h =
      write-Outcome Q E _ w e (λ n d q. go (update_rows p f w.db.resellers) refl n d q)
    where
      go :
          (o : Option (List Reseller))
          → update_rows p f w.db.resellers ≡ o
          → (n : ℕ) (d : Db) → with_resellers p w.db o ≡ some (n, d)
          → Q n d
      go none u n d q = cc
      go (some rows) u n d q =
          let q' = some-injective _ _ q in rw (← ap (λ r. r.0) q', ← ap (λ r. r.1) q') (h rows u)

  pub update_entries-Outcome :
      (p : CommissionEntry → Bool) (f : CommissionEntry → CommissionEntry) (w : World)
      → E w.db
      → Q
          (count_rows p w.db.commission_entries)
          (record (w.db) { commission_entries = set_rows p f w.db.commission_entries })
      → Outcome Q E (update_entries p f w)
  unfolding update_entries
  update_entries-Outcome p f w e h =
      write-Outcome Q E _ w e
        (λ n d q. let q' = some-injective _ _ q in rw (← ap (λ r. r.0) q', ← ap (λ r. r.1) q') h)

-- MarkCommissionPaid keeps every reseller's balance equal to the sum of the entries of that
-- reseller that are not void, whichever statement fails.
pub mark_commission_paid-Owed :
    (t k : ℕ) (w : World) → Owed w.db → Owed (mark_commission_paid t k w).1.db
unfolding mark_commission_paid
mark_commission_paid-Owed t k w h =
    let es = w.db.commission_entries in
    let p = is_pending_entry t k in
    let f = pay_entry w.now in
    let paid : Owed (record (w.db) { commission_entries = set_rows p f es }) = record {
      balances =
          unmoved-IsOwed es (set_rows p f es) (λ t' k'. owed_sum-pay t k t' k' w.now es)
            w.db.resellers h.balances;
      positive = set_rows-All {P = IsPositive} p f es (λ x b. b) h.positive;
      unique = set-HasUniqueIds p f es (λ x. refl) h.unique;
      fresh = set_rows-All {P = λ e. e.id < w.db.next_id} p f es (λ x b. b) h.fresh;
    } in
    Outcome_db Owed _ (
      gets->>= Keeps Owed _ _ w (
        >>=-Outcome Keeps Owed Keeps _ _ w (update_entries-Outcome Keeps Owed p f w h paid)
          (λ n v o. affected-Outcome Keeps Owed n v o (λ _. o))))
