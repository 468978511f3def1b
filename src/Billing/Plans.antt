-- ===== src/Billing/Plans.antt =====
-- Switching from one package to another: the direction and the amounts.
use d5net_billing.Prelude.{◌≡◌, arith, true, false}
use d5net_billing.Prelude.Int.{ℤ, pos, ◌≤ℤ◌, ◌<ℤ◌}
use d5net_billing.Prelude.Int64.{◌+64◌, ◌-64◌}
use d5net_billing.Prelude.Float64.{Float64}
use d5net_billing.Billing.{
  Direction, upgrade, downgrade, same, plan_change_direction, QuoteAmounts, prorate_amount,
  percentage,
}

abbrev pub opposite : Direction → Direction
opposite upgrade = downgrade
opposite downgrade = upgrade
opposite same = same

-- PlanChangeDirection back from the new plan to the old one is the opposite direction.
plan_change_direction_flip :
    (old_download old_upload new_download new_upload : ℤ)
    → plan_change_direction new_download new_upload old_download old_upload
      ≡ opposite (plan_change_direction old_download old_upload new_download new_upload)
unfolding plan_change_direction
plan_change_direction_flip a b c d = ground arith

-- A quote for the remaining days: the credit and the charge are the shares of the two prices, the
-- difference is the charge less the credit, and it is charged with its tax exactly if it is positive.
pub record IsQuote (fl : Float64) (old_price new_price remaining cycle : ℤ) (percent : fl.F)
    (q : QuoteAmounts) : Type 0 where
  pub difference : q.delta_subtotal ≡ q.new_charge -64 q.old_credit
  pub shares :
      pos 0 <ℤ remaining
      → (q.old_credit ≡ prorate_amount fl old_price remaining cycle)
        × (q.new_charge ≡ prorate_amount fl new_price remaining cycle)
  pub charged :
      pos 0 <ℤ q.delta_subtotal
      → (q.requires_charge ≡ true)
        × (q.tax_amount ≡ percentage fl q.delta_subtotal percent)
        × (q.total_amount ≡ q.delta_subtotal +64 q.tax_amount)
  pub free :
      q.delta_subtotal ≤ℤ pos 0
      → (q.requires_charge ≡ false) × (q.tax_amount ≡ pos 0) × (q.total_amount ≡ pos 0)
  pub over : remaining ≤ℤ pos 0 → (q.old_credit ≡ pos 0) × (q.new_charge ≡ pos 0)
