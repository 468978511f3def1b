-- ===== src/Prelude/Float64.antt =====
-- Go's float64 as the code uses it: conversions, sums, products, quotients, order and rounding, with
-- any results. What is proved with it holds however these round.
use mathlib.Core.Bool.{Bool}
use d5net_billing.Prelude.Int.{ℤ}

pub record Float64 : Type 1 where
  pub F : Type 0
  pub of_int : ℤ → F
  pub add : F → F → F
  pub mul : F → F → F
  pub div : F → F → F
  pub at_most : F → F → Bool
  pub round : F → F
  pub ceil : F → F
  pub to_int : F → ℤ
