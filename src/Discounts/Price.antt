-- ===== src/Discounts/Price.antt =====
-- A discounted price lies between zero and the full price.
use d5net_billing.Prelude.{arith, ◌||◌, none, some, Option, inl, inr, Bool-cases}
use d5net_billing.Prelude.Int.{ℤ, pos, ◌≤ℤ◌, int_laws, leb_ℤ}
use d5net_billing.Prelude.Float64.{Float64}
use d5net_billing.Discounts.{PlanDiscount, apply_plan_discount, clamp_off, off_of}

clamp_off_bounds :
    (base off : ℤ) → pos 0 ≤ℤ base → (pos 0 ≤ℤ clamp_off base off) × (clamp_off base off ≤ℤ base)
clamp_off_bounds base off h = ground arith

-- ApplyPlanDiscount never raises a price and never makes one negative, whatever the discount and
-- however the percentage is rounded.
pub apply_plan_discount_bounds :
    (fl : Float64) (base : ℤ) (d : Option PlanDiscount)
    → pos 0 ≤ℤ base
    → (pos 0 ≤ℤ apply_plan_discount fl base d) × (apply_plan_discount fl base d ≤ℤ base)
unfolding apply_plan_discount
apply_plan_discount_bounds fl base none h = (h, omega arith)
apply_plan_discount_bounds fl base (some d) h =
    let b = clamp_off_bounds base (off_of fl base d) h in
    elim (Bool-cases (leb_ℤ base (pos 0) || leb_ℤ d.value (pos 0))) [
      | inl idle ↦ rw idle (h, omega arith)
      | inr cut ↦ rw cut (omega (int_laws, b.0, b.1), omega (int_laws, b.0, b.1))
    ]
