-- ===== src/Commission/Owed.antt =====
-- What a reseller is owed: the sum of the commissions that are not void, and how it moves when an
-- entry is added, paid or voided.
use mathlib.Core.Option.{some-injective}
use d5net_billing.Prelude.{
  ℕ, ◌<◌, ◌≡◌, ◌≢◌, refl, arith, Bool, true, false, ◌&&◌, some, List, [], ◌∷◌, inl, inr, All, find?,
  is_id, ◌==◌, Bool-cases, if◌then◌else◌,
}
use d5net_billing.Prelude.Int.{ℤ, pos, ◌+ℤ◌, ◌≤ℤ◌, ◌<ℤ◌, int_laws, +ℤ_under}
use d5net_billing.Prelude.Text.{text, text_eq}
use d5net_billing.Db.{CommissionEntry, Reseller, Db, count_rows, set_rows, set_rows-All}
use d5net_billing.Commission.{
  is_entry, is_due_status, is_due_entry, void_entry, pay_entry, is_pending_entry,
}

abbrev pub is_owed : ℕ → ℕ → CommissionEntry → Bool
is_owed t k e = e.tenant_id == t && is_id e.reseller_id k && is_due_status e.status

unfoldable pub owed_share : ℕ → ℕ → CommissionEntry → ℤ
owed_share t k e = if is_owed t k e then e.amount else pos 0

unfoldable pub owed_sum : ℕ → ℕ → List CommissionEntry → ℤ
owed_sum t k [] = pos 0
owed_sum t k (e ∷ es) = owed_share t k e +ℤ owed_sum t k es

abbrev pub IsOwed : List CommissionEntry → Reseller → Type 0
IsOwed es r = r.balance ≡ owed_sum r.tenant_id r.id es

abbrev pub IsPositive : CommissionEntry → Type 0
IsPositive e = pos 0 <ℤ e.amount

abbrev pub HasNoId : ℕ → List CommissionEntry → Type 0
HasNoId k = All λ e. e.id ≢ k

abbrev pub HasUniqueIds : List CommissionEntry → Type 0
HasUniqueIds [] = Unit
HasUniqueIds (e ∷ es) = HasNoId e.id es × HasUniqueIds es

-- Every reseller's balance is what is owed.
pub record Owed (d : Db) : Type 0 where
  pub balances : All (IsOwed d.commission_entries) d.resellers
  pub positive : All IsPositive d.commission_entries
  pub unique : HasUniqueIds d.commission_entries
  pub fresh : All (λ e. e.id < d.next_id) d.commission_entries

pub owed_sum_nonneg :
    (t k : ℕ) (es : List CommissionEntry) → All IsPositive es → pos 0 ≤ℤ owed_sum t k es
unfolding owed_sum owed_share
owed_sum_nonneg t k [] h = omega arith
owed_sum_nonneg t k (e ∷ es) (s, h) = elim (Bool-cases (is_owed t k e)) [
  | inl hit ↦ rw hit (omega (int_laws, owed_sum_nonneg t k es h, s))
  | inr miss ↦ rw miss (omega (int_laws, owed_sum_nonneg t k es h))
]

-- Paying an entry leaves what is owed.
pub owed_sum-pay :
    (t k t' k' now : ℕ) (es : List CommissionEntry)
    → owed_sum t' k' (set_rows (is_pending_entry t k) (pay_entry now) es) ≡ owed_sum t' k' es
unfolding owed_sum owed_share set_rows is_due_status
owed_sum-pay t k t' k' now [] = refl
owed_sum-pay t k t' k' now (e ∷ es) = elim (Bool-cases (is_pending_entry t k e)) [
  | inl hit ↦
      let pending : text_eq e.status (text "pending") ≡ true = ground arith in
      rw (hit, pending, owed_sum-pay t k t' k' now es) refl
  | inr miss ↦ rw (miss, owed_sum-pay t k t' k' now es) refl
]

set_rows-HasNoId :
    (t k : ℕ) (c : CommissionEntry → Bool) (f : CommissionEntry → CommissionEntry)
    (es : List CommissionEntry)
    → HasNoId k es
    → set_rows (λ e. is_entry t k e && c e) f es ≡ es
unfolding set_rows
set_rows-HasNoId t k c f [] h = refl
set_rows-HasNoId t k c f (e ∷ es) (n, h) = rw (set_rows-HasNoId t k c f es h) (ground (arith))

count-HasNoId :
    (t k : ℕ) (c : CommissionEntry → Bool) (es : List CommissionEntry)
    → HasNoId k es
    → count_rows (λ e. is_entry t k e && c e) es ≡ 0
unfolding count_rows
count-HasNoId t k c [] h = refl
count-HasNoId t k c (e ∷ es) (n, h) = rw (count-HasNoId t k c es h) (ground (arith))

is_entry_id : (t k : ℕ) (e : CommissionEntry) → is_entry t k e ≡ true → e.id ≡ k
is_entry_id t k e h = ground arith

-- An entry that is not due is not voided.
pub count-due :
    (t k : ℕ) (es : List CommissionEntry) {e : CommissionEntry}
    → HasUniqueIds es
    → find? (is_entry t k) es ≡ some e
    → is_due_status e.status ≡ false
    → count_rows (is_due_entry t k) es ≡ 0
unfolding count_rows
count-due t k [] u q h = cc
count-due t k (x ∷ es) u q h = elim (Bool-cases (is_entry t k x)) [
  | inl hit ↦
      let same = some-injective _ _ (rw hit at q) in
      let idle : is_due_status x.status ≡ false = rw same h in
      let rest =
        count-HasNoId t k (λ e. is_due_status e.status) es (rw (is_entry_id t k x hit) at (u.0)) in
      rw (hit, idle, rest) refl
  | inr miss ↦ rw (miss, count-due t k es u.1 (rw miss at q) h) refl
]

-- Voiding the entry takes its share out of the sum.
pub owed_sum-void :
    (t k t' k' : ℕ) (es : List CommissionEntry) {e : CommissionEntry}
    → HasUniqueIds es
    → find? (is_entry t k) es ≡ some e
    → is_due_status e.status ≡ true
    → owed_sum t' k' (set_rows (is_due_entry t k) void_entry es) +ℤ owed_share t' k' e
      ≡ owed_sum t' k' es +ℤ owed_share t' k' (void_entry e)
unfolding owed_sum set_rows
owed_sum-void t k t' k' [] u q h = cc
owed_sum-void t k t' k' (x ∷ es) {e} u q h = elim (Bool-cases (is_entry t k x)) [
  | inl hit ↦
      let this : x ≡ e = some-injective _ _ (rw hit at q) in
      let due : is_due_status x.status ≡ true = rw this h in
      let rest =
        set_rows-HasNoId t k (λ y. is_due_status y.status) void_entry es
          (rw (is_entry_id t k x hit) at (u.0)) in
      rw (← this) (rw (hit, due, rest) (omega int_laws))
  | inr miss ↦
      rw miss
        (+ℤ_under (owed_share t' k' x) _ _ _ _ (owed_sum-void t k t' k' es u.1 (rw miss at q) h))
]

pub set-HasUniqueIds :
    (p : CommissionEntry → Bool) (f : CommissionEntry → CommissionEntry) (es : List CommissionEntry)
    → ((e : CommissionEntry) → (f e).id ≡ e.id)
    → HasUniqueIds es
    → HasUniqueIds (set_rows p f es)
unfolding set_rows
set-HasUniqueIds p f [] same u = tt
set-HasUniqueIds p f (e ∷ es) same (n, u) =
    let rest = set_rows-All {P = λ x. x.id ≢ e.id} p f es (λ x h. rw (same x) h) n in
    elim (Bool-cases (p e)) [
      | inl hit ↦ rw (hit, same e) (rest, set-HasUniqueIds p f es same u)
      | inr miss ↦ rw miss (rest, set-HasUniqueIds p f es same u)
    ]
