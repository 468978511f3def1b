-- ===== src/Commission/Void.antt =====
-- VoidCommissionEntry keeps what every reseller is owed.
use d5net_billing.Prelude.{
  ℕ, ◌<◌, ◌≡◌, ◌≢◌, ◌∙◌, refl, sym, ap, arith, true, false, ◌&&◌, Option, none, some, List, inl,
  inr, All, find?, ◌==◌, Bool-cases,
}
use d5net_billing.Prelude.Int.{ℤ, pos, ◌+ℤ◌, ◌-ℤ◌, ◌≤ℤ◌, int_laws, pos_part, neg_part}
use d5net_billing.Prelude.Text.{text, text_eq}
use d5net_billing.Db.{
  CommissionEntry, Reseller, Db, World, ⊤, Outcome, Outcome_db, bump, pure-Outcome, row-Outcome,
  >>=-Outcome, >>-Outcome, select->>=, affected-Outcome, transaction-Outcome, count_rows, set_rows,
  set_rows-All, find?_holds,
}
use d5net_billing.Commission.{
  is_entry, is_due_status, is_due_entry, void_entry, is_reseller, debit_reseller,
  set_reseller_balance, debit_payee, void_commission_tx, void_commission_entry,
  get_commission_entry,
}
use d5net_billing.Commission.Owed.{
  is_owed, owed_share, owed_sum, IsOwed, IsPositive, HasUniqueIds, Owed, owed_sum_nonneg, count-due,
  owed_sum-void, set-HasUniqueIds,
}
use d5net_billing.Commission.Keeps.{
  Lost, Keeps, Shift, debit_reseller_lem, update-IsOwed, unmoved-IsOwed, update_resellers-Outcome,
  update_entries-Outcome,
}

debit_step :
    (a : ℤ) (x y : Reseller)
    → pos 0 ≤ℤ x.balance +ℤ (pos 0 -ℤ a)
    → debit_reseller a x ≡ some y
    → y ≡ set_reseller_balance x (x.balance +ℤ (pos 0 -ℤ a))
debit_step a x y h e =
    let same : x.balance -ℤ a ≡ x.balance +ℤ (pos 0 -ℤ a) = omega int_laws in
    debit_reseller_lem a x y (omega (int_laws, h)) e ∙ ap (set_reseller_balance x) same

taken : (s s' a b : ℤ) → b ≡ pos 0 → s' +ℤ a ≡ s +ℤ b → s' ≡ s +ℤ (pos 0 -ℤ a)
taken s s' a b none_left h =
    omega (int_laws, ap pos_part none_left, ap neg_part none_left, ap pos_part h, ap neg_part h)

kept : (s s' a b : ℤ) → a ≡ pos 0 → b ≡ pos 0 → s' +ℤ a ≡ s +ℤ b → s' ≡ s +ℤ pos 0
kept s s' a b p q h = omega (
  int_laws,
  ap pos_part p,
  ap neg_part p,
  ap pos_part q,
  ap neg_part q,
  ap pos_part h,
  ap neg_part h,
)

-- Voiding a due entry of reseller `k` takes its amount back.
void-Shift :
    (t c k : ℕ) (es : List CommissionEntry) (e : CommissionEntry)
    → HasUniqueIds es
    → find? (is_entry t c) es ≡ some e
    → is_due_status e.status ≡ true
    → e.reseller_id ≡ some k
    → Shift t k (pos 0 -ℤ e.amount) es (set_rows (is_due_entry t c) void_entry es)
unfolding owed_share is_due_status
void-Shift t c k es e u found due own t' k' =
    let moved = owed_sum-void t c t' k' es u found due in
    let mine : e.tenant_id ≡ t = (let q = find?_holds (is_entry t c) es found in ground arith) in
    let owed : is_owed t' k' e ≡ (t == t' && k == k') = rw (own, due, mine) (ground arith) in
    let gone : is_owed t' k' (void_entry e) ≡ false = ground arith in
    elim (Bool-cases (t == t' && k == k')) [
      | inl hit ↦ rw hit (taken _ _ _ _ (rw gone refl) (rw (owed, hit) at moved))
      | inr miss ↦ rw miss (kept _ _ _ _ refl (rw gone refl) (rw (owed, miss) at moved))
    ]

-- Voiding an entry of no reseller moves nothing.
void_unmoved :
    (t c : ℕ) (es : List CommissionEntry) (e : CommissionEntry)
    → HasUniqueIds es
    → find? (is_entry t c) es ≡ some e
    → is_due_status e.status ≡ true
    → e.reseller_id ≡ none
    → (t' k' : ℕ) → owed_sum t' k' (set_rows (is_due_entry t c) void_entry es) ≡ owed_sum t' k' es
unfolding owed_share is_due_status
void_unmoved t c es e u found due own t' k' =
    let moved = owed_sum-void t c t' k' es u found due in
    let mine : is_owed t' k' e ≡ false = rw own (ground arith) in
    let gone : is_owed t' k' (void_entry e) ≡ false = ground arith in
    kept _ _ _ _ refl (rw gone refl) (rw mine at moved) ∙ omega int_laws

module _ (t c : ℕ) (e : CommissionEntry) (w : World) (h : Owed w.db)
    (found : find? (is_entry t c) w.db.commission_entries ≡ some e)
    (due : is_due_status e.status ≡ true) where
  abbrev es : List CommissionEntry
  es = w.db.commission_entries

  -- The entries after the UPDATE.
  abbrev voided : List CommissionEntry
  voided = set_rows (is_due_entry t c) void_entry es

  abbrev left : Db
  left = record (w.db) { commission_entries = voided }

  positive : All IsPositive voided
  positive = set_rows-All {P = IsPositive} (is_due_entry t c) void_entry es (λ x b. b) h.positive

  done : (rows : List Reseller) → All (IsOwed voided) rows → Owed (record left { resellers = rows })
  done rows balances = record {
    balances = balances;
    positive = positive;
    unique = set-HasUniqueIds (is_due_entry t c) void_entry es (λ x. refl) h.unique;
    fresh =
        set_rows-All {P = λ x. x.id < w.db.next_id} (is_due_entry t c) void_entry es (λ x b. b)
          h.fresh;
  }

  -- What the reseller is owed is never less than the entry's amount, so that GREATEST has no effect.
  debit-Outcome :
      (o : Option ℕ) (v : World)
      → e.reseller_id ≡ o
      → v.db ≡ left
      → Outcome Keeps Lost (debit_payee t o e.amount v)
  debit-Outcome none v own same =
      let idle =
        unmoved-IsOwed es voided (void_unmoved t c es e h.unique found due own) w.db.resellers
          h.balances in
      pure-Outcome Keeps Lost tt v (rw same (done w.db.resellers idle))
  debit-Outcome (some k) v own same =
      let shift = void-Shift t c k es e h.unique found due own in
      let debits : (x y : Reseller)
          → owed_sum x.tenant_id x.id voided ≡ x.balance +ℤ (pos 0 -ℤ e.amount)
          → debit_reseller e.amount x ≡ some y
          → y ≡ set_reseller_balance x (x.balance +ℤ (pos 0 -ℤ e.amount)) =
        λ x y sum r.
          debit_step e.amount x y (rw (← sum) (owed_sum_nonneg x.tenant_id x.id voided positive))
            r in
      >>-Outcome Keeps Lost Keeps _ _ v
        (update_resellers-Outcome Keeps Lost (is_reseller t k) (debit_reseller e.amount) v tt
          (λ rows q. rw same (
            done rows (
              update-IsOwed t k (pos 0 -ℤ e.amount) es voided shift (debit_reseller e.amount)
                w.db.resellers debits (rw same at q) h.balances))))
        (λ n u o. pure-Outcome Keeps Lost tt u o)

void_commission_tx-Owed :
    (t c : ℕ) (e : CommissionEntry) (w : World)
    → Owed w.db
    → find? (is_entry t c) w.db.commission_entries ≡ some e
    → Outcome Keeps Owed (void_commission_tx t c e w)
unfolding void_commission_tx
void_commission_tx-Owed t c e w h found =
    let es = w.db.commission_entries in
    let n = count_rows (is_due_entry t c) es in
    let after : Db = record (w.db) {
      commission_entries = set_rows (is_due_entry t c) void_entry es;
    } in
    let R : ℕ → Db → Type 0 = λ m d. (m ≡ n) × (d ≡ after) in
    let S : ⊤ → Db → Type 0 = λ _ d. (0 ≢ n) × (d ≡ after) in
    transaction-Outcome Keeps Owed _ w h (
      >>=-Outcome Keeps Lost R _ _ (bump w)
        (update_entries-Outcome R Lost _ _ (bump w) tt (refl, refl))
        (λ m v (same, db).
          >>-Outcome Keeps Lost S _ _ v
            (affected-Outcome S Lost m v tt (λ some_row. (rw same at some_row, db)))
            (λ u x (some_row, db). elim (Bool-cases (is_due_status e.status)) [
              | inl due ↦ debit-Outcome t c e (bump w) h found due e.reseller_id x refl db
              | inr idle ↦ absurd (some_row (sym (count-due t c es h.unique found idle)))
            ])))

-- VoidCommissionEntry keeps every reseller's balance equal to the sum of the entries of that
-- reseller that are not void, whichever statement fails: what is taken back was there, and is taken
-- back once.
pub void_commission_entry-Owed :
    (t c : ℕ) (w : World) → Owed w.db → Owed (void_commission_entry t c w).1.db
unfolding void_commission_entry get_commission_entry
void_commission_entry-Owed t c w h = Outcome_db Owed _ (
    >>=-Outcome Keeps Owed
      (λ e d. (d ≡ w.db) × (find? (is_entry t c) d.commission_entries ≡ some e)) _ _ w
      (select->>= _ Owed _ _ w h (row-Outcome _ Owed _ (bump w) h (λ e q. (refl, q))))
      (λ e v (same, found). elim (Bool-cases (text_eq e.status (text "void"))) [
        | inl gone ↦ rw gone (pure-Outcome Keeps Owed tt v (rw same h))
        | inr there ↦ rw there (void_commission_tx-Owed t c e v (rw same h) found)
      ]))
