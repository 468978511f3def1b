-- ===== src/Payments/Sums.antt =====
-- The sum of an invoice's counted payments, and how it moves when one row changes.
use mathlib.Core.Option.{some-injective}
use d5net_billing.Prelude.{
  ℕ, ◌≡◌, ◌≢◌, refl, Bool, true, false, ◌&&◌, Option, some, List, [], ◌∷◌, inl, inr, arith, All,
  find?, is_id, is_null, ◌==◌, Bool-cases, if◌then◌else◌,
}
use d5net_billing.Prelude.Int.{ℤ, pos, ◌+ℤ◌, ◌≤ℤ◌, ◌<ℤ◌, +ℤ_under, int_laws}
use d5net_billing.Prelude.Int64.{IsInt64}
use d5net_billing.Db.{Payment, set_rows}
use d5net_billing.Payments.{normalize_status, is_paid_status, is_payment, set_deleted_at}

-- A live payment of the invoice whose stored status counts.
abbrev pub is_counted : ℕ → ℕ → Payment → Bool
is_counted t k p =
    p.tenant_id == t && is_id p.invoice_id k && is_null p.deleted_at && is_paid_status p.status

-- What one row adds to the invoice's sum.
unfoldable pub share : ℕ → ℕ → Payment → ℤ
share t k p = if is_counted t k p then p.amount else pos 0

unfoldable pub paid_sum : ℕ → ℕ → List Payment → ℤ
paid_sum t k [] = pos 0
paid_sum t k (p ∷ ps) = share t k p +ℤ paid_sum t k ps

-- What the table promises of each payment: its status is stored normalised, its amount is positive.
pub record IsSound (p : Payment) : Type 0 where
  pub normal : normalize_status p.status ≡ p.status
  pub positive : pos 0 <ℤ p.amount
  pub fits : IsInt64 p.amount

abbrev pub HasNoId : ℕ → List Payment → Type 0
HasNoId k = All λ p. p.id ≢ k

abbrev pub HasUniqueIds : List Payment → Type 0
HasUniqueIds [] = Unit
HasUniqueIds (p ∷ ps) = HasNoId p.id ps × HasUniqueIds ps

pub paid_sum_nonneg : (t k : ℕ) (ps : List Payment) → All IsSound ps → pos 0 ≤ℤ paid_sum t k ps
unfolding paid_sum share
paid_sum_nonneg t k [] h = omega arith
paid_sum_nonneg t k (p ∷ ps) (s, h) = elim (Bool-cases (is_counted t k p)) [
  | inl e ↦ rw e (omega (int_laws, paid_sum_nonneg t k ps h, s.positive))
  | inr e ↦ rw e (omega (int_laws, paid_sum_nonneg t k ps h))
]

-- Rows that the id does not select are left alone.
set_rows-HasNoId :
    (t k : ℕ) (c : Payment → Bool) (f : Payment → Payment) (ps : List Payment)
    → HasNoId k ps
    → set_rows (λ p. is_payment t k p && c p) f ps ≡ ps
unfolding set_rows
set_rows-HasNoId t k c f [] h = refl
set_rows-HasNoId t k c f (p ∷ ps) (n, h) = rw (set_rows-HasNoId t k c f ps h) (ground (arith))

pub is_payment_id : (t k : ℕ) (p : Payment) → is_payment t k p ≡ true → p.id ≡ k
is_payment_id t k p h = ground arith

-- Setting one row's `deleted_at` moves the sum by what that row adds before and after.
pub paid_sum-set :
    (t k t' k' : ℕ) (c : Payment → Bool) (at : Option ℕ) (ps : List Payment) {p : Payment}
    → HasUniqueIds ps
    → find? (is_payment t k) ps ≡ some p
    → c p ≡ true
    → paid_sum t' k' (set_rows (λ q. is_payment t k q && c q) (set_deleted_at at) ps)
        +ℤ share t' k' p
      ≡ paid_sum t' k' ps +ℤ share t' k' (set_deleted_at at p)
unfolding paid_sum set_rows
paid_sum-set t k t' k' c at [] u e h = cc
paid_sum-set t k t' k' c at (x ∷ ps) {p} u e h = elim (Bool-cases (is_payment t k x)) [
  | inl hit ↦
      let q : x ≡ p = some-injective _ _ (rw hit at e) in
      let same : c x ≡ true = rw q h in
      let rest =
        set_rows-HasNoId t k c (set_deleted_at at) ps (rw (is_payment_id t k x hit) at (u.0)) in
      rw (← q) (rw (hit, same, rest) (omega int_laws))
  | inr miss ↦
      rw miss
        (+ℤ_under (share t' k' x) _ _ _ _ (paid_sum-set t k t' k' c at ps u.1 (rw miss at e) h))
]

pub share_miss : (t k : ℕ) (p : Payment) → is_counted t k p ≡ false → share t k p ≡ pos 0
unfolding share
share_miss t k p h = rw h

pub share_hit : (t k : ℕ) (p : Payment) → is_counted t k p ≡ true → share t k p ≡ p.amount
unfolding share
share_hit t k p h = rw h
