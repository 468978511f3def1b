-- ===== src/Commission.antt =====
-- internal/store/commission.go: the commissions of resellers and sales staff. A setting that is
-- missing reads as zero amounts.
pub mod Owed
pub mod Keeps
pub mod Credit
pub mod Void
mod Tests
use mathlib.Core.Bool.{not}
use d5net_billing.Prelude.{
  ℕ, suc, Bool, true, false, ◌&&◌, ◌||◌, Option, none, some, List, [], ◌∷◌, ◌==◌, find?, keep,
  if◌then◌else◌,
}
use d5net_billing.Prelude.Int.{ℤ, pos, ◌+ℤ◌, ◌-ℤ◌, leb_ℤ, ltb_ℤ}
use d5net_billing.Prelude.Int64.{bigint}
use d5net_billing.Prelude.Text.{Text, text, text_eq, trim_space, to_lower}
use d5net_billing.Db.{
  CommissionEntry, CommissionSettings, Reseller, Db, World, M, ⊤, bad_amount, not_found, pure,
  throw, gets, select, write, transaction, guard, row, affected, ◌>>=◌, ◌>>◌, update_rows,
  count_rows, set_rows,
}

abbrev pub non_nil : Option ℕ → Bool
non_nil none = false
non_nil (some k) = not (k == 0)

-- NormalizeAttribution: the reseller, and the sales user where there is no reseller.
unfoldable pub normalize_attribution : Option ℕ → Option ℕ → Option ℕ × Option ℕ
normalize_attribution reseller sales =
    if non_nil reseller
    then (reseller, none)
    else (if non_nil sales then (none, sales) else (none, none))

-- NormalizeCommissionBasis
unfoldable pub normalize_commission_basis : Text → Text
normalize_commission_basis basis =
    let b = trim_space (to_lower basis) in
    if text_eq b (text "acquisition_flat")
      || text_eq b (text "acquisition")
      || text_eq b (text "akuisisi")
    then text "acquisition_flat"
    else text "new_customer_flat"

-- CommissionSettings.AmountForBasis
unfoldable pub amount_for_basis : CommissionSettings → Text → ℤ
unfolding normalize_commission_basis
amount_for_basis cfg basis =
    if text_eq (normalize_commission_basis basis) (text "acquisition_flat")
    then cfg.acquisition_amount
    else cfg.new_customer_amount

abbrev pub settings_of : ℕ → List CommissionSettings → CommissionSettings
settings_of t [] = record { tenant_id = t; new_customer_amount = pos 0; acquisition_amount = pos 0 }
settings_of t (c ∷ cs) = if c.tenant_id == t then c else settings_of t cs

-- GetCommissionSettings
unfoldable pub get_commission_settings : ℕ → M CommissionSettings
get_commission_settings t = select λ w. settings_of t w.db.commission_settings

-- SetCommissionSettings, an upsert of the tenant's setting.
unfoldable pub set_commission_settings : CommissionSettings → M ⊤
set_commission_settings cfg =
    guard (not (ltb_ℤ cfg.new_customer_amount (pos 0) || ltb_ℤ cfg.acquisition_amount (pos 0)))
      bad_amount
    >> write λ w. some (
      tt,
      record (w.db) {
        commission_settings =
            cfg ∷ keep (λ c. not (c.tenant_id == cfg.tenant_id)) w.db.commission_settings;
      },
    )

abbrev pub is_reseller : ℕ → ℕ → Reseller → Bool
is_reseller t k r = r.tenant_id == t && r.id == k

abbrev pub set_reseller_balance : Reseller → ℤ → Reseller
set_reseller_balance r b = record r { balance = b }

unfoldable pub credit_reseller : ℤ → Reseller → Option Reseller
credit_reseller a r = elim (bigint (r.balance +ℤ a)) [
  | none ↦ none
  | some b ↦ some (set_reseller_balance r b)
]

-- balance = GREATEST(0, balance - a)
unfoldable pub debit_reseller : ℤ → Reseller → Option Reseller
debit_reseller a r = elim (bigint (r.balance -ℤ a)) [
  | none ↦ none
  | some b ↦ some (set_reseller_balance r (if leb_ℤ (pos 0) b then b else pos 0))
]

abbrev pub with_resellers : (Reseller → Bool) → Db → Option (List Reseller) → Option (ℕ × Db)
with_resellers p d none = none
with_resellers p d (some rows) = some (count_rows p d.resellers, record d { resellers = rows })

unfoldable pub update_resellers : (Reseller → Bool) → (Reseller → Option Reseller) → M ℕ
update_resellers p f = write λ w. with_resellers p w.db (update_rows p f w.db.resellers)

unfoldable pub update_entries : (CommissionEntry → Bool) → (CommissionEntry → CommissionEntry) → M ℕ
update_entries p f = write λ w. some (
  count_rows p w.db.commission_entries,
  record (w.db) { commission_entries = set_rows p f w.db.commission_entries },
)

-- The INSERT of CreditCommission.
unfoldable pub insert_commission : CommissionEntry → M CommissionEntry
insert_commission e = write λ w.
    let new : CommissionEntry = record e { id = w.db.next_id; created_at = w.now } in
    some (
      new,
      record (w.db) {
        next_id = suc w.db.next_id;
        commission_entries = new ∷ w.db.commission_entries;
      },
    )

abbrev pub credit_payee : ℕ → Option ℕ → ℤ → M ⊤
credit_payee t none a = pure tt
credit_payee t (some k) a = update_resellers (is_reseller t k) (credit_reseller a) >>= affected

abbrev pub pending_commission : ℕ → ℕ → Option ℕ → Option ℕ × Option ℕ → Text → ℤ → CommissionEntry
pending_commission t c lead payee basis a = record {
  id = 0;
  tenant_id = t;
  customer_id = c;
  lead_id = lead;
  reseller_id = payee.0;
  sales_user_id = payee.1;
  amount = a;
  basis = basis;
  status = text "pending";
  created_at = 0;
  paid_at = none;
}

abbrev pub is_unset : Option ℕ → Bool
is_unset none = true
is_unset (some k) = false

-- The transaction of CreditCommission.
unfoldable pub credit_commission_tx : CommissionEntry → M (Option CommissionEntry)
unfolding insert_commission update_resellers
credit_commission_tx e =
    transaction
      do new ← insert_commission e; credit_payee e.tenant_id e.reseller_id e.amount; pure (some new)

-- CreditCommission
unfoldable pub credit_commission :
    ℕ → ℕ → Option ℕ → Option ℕ → Option ℕ → Text → M (Option CommissionEntry)
unfolding normalize_attribution normalize_commission_basis get_commission_settings amount_for_basis
    credit_commission_tx
credit_commission t c lead reseller sales basis =
    let payee = normalize_attribution reseller sales in
    let basis' = normalize_commission_basis basis in
    let credit : M (Option CommissionEntry) = (do
      cfg ← get_commission_settings t
      let a = amount_for_basis cfg basis'
      let pay = credit_commission_tx (pending_commission t c lead payee basis' a)
      if leb_ℤ a (pos 0) then pure none else pay) in
    if is_unset (payee.0) && is_unset (payee.1) then pure none else credit

-- CreditCommissionForNewCustomer
unfoldable pub credit_commission_for_new_customer :
    ℕ → ℕ → Option ℕ → Option ℕ → Option ℕ → M (Option CommissionEntry)
unfolding credit_commission
credit_commission_for_new_customer t c lead reseller sales =
    credit_commission t c lead reseller sales (text "new_customer_flat")

abbrev pub is_entry : ℕ → ℕ → CommissionEntry → Bool
is_entry t k e = e.tenant_id == t && e.id == k

-- GetCommissionEntry
unfoldable pub get_commission_entry : ℕ → ℕ → M CommissionEntry
get_commission_entry t k = select (λ w. find? (is_entry t k) w.db.commission_entries) >>= row

abbrev pub is_pending_entry : ℕ → ℕ → CommissionEntry → Bool
is_pending_entry t k e = is_entry t k e && text_eq e.status (text "pending")

abbrev pub pay_entry : ℕ → CommissionEntry → CommissionEntry
pay_entry now e = record e { status = text "paid"; paid_at = some now }

-- MarkCommissionPaid
unfoldable pub mark_commission_paid : ℕ → ℕ → M ⊤
unfolding update_entries
mark_commission_paid t k = do
  now ← gets λ w. w.now
  affected (← update_entries (is_pending_entry t k) (pay_entry now))

-- status IN ('pending','paid')
unfoldable pub is_due_status : Text → Bool
is_due_status s = text_eq s (text "pending") || text_eq s (text "paid")

abbrev pub is_due_entry : ℕ → ℕ → CommissionEntry → Bool
is_due_entry t k e = is_entry t k e && is_due_status e.status

abbrev pub void_entry : CommissionEntry → CommissionEntry
void_entry e = record e { status = text "void" }

abbrev pub debit_payee : ℕ → Option ℕ → ℤ → M ⊤
debit_payee t none a = pure tt
debit_payee t (some k) a = update_resellers (is_reseller t k) (debit_reseller a) >> pure tt

-- The transaction of VoidCommissionEntry, for the entry that was read before it began.
unfoldable pub void_commission_tx : ℕ → ℕ → CommissionEntry → M ⊤
unfolding update_entries update_resellers
void_commission_tx t k e = transaction do
  affected (← update_entries (is_due_entry t k) void_entry)
  debit_payee t e.reseller_id e.amount

-- VoidCommissionEntry
unfoldable pub void_commission_entry : ℕ → ℕ → M ⊤
unfolding get_commission_entry void_commission_tx
void_commission_entry t k = do
  e ← get_commission_entry t k
  if text_eq e.status (text "void") then pure tt else void_commission_tx t k e
