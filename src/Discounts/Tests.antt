-- ===== src/Discounts/Tests.antt =====
-- Runs and the theorems about discounts at small rows, with float64 arithmetic on whole numbers.
use d5net_billing.Prelude.{
  ℕ, ◌+◌, ◌*◌, ◌/◌, ◌≡◌, refl, List, [], ◌∷◌, arith, none, some, keep, true, leb,
}
use d5net_billing.Prelude.Int.{pos, ◌-ℤ◌, ◌≤ℤ◌, pos_part}
use d5net_billing.Prelude.Text.{text}
use d5net_billing.Prelude.Float64.{Float64}
use d5net_billing.Discounts.{
  PlanDiscount, DatedDiscount, apply_plan_discount, find_best_plan_discount, is_eligible, best_of,
  is_better, discount_specificity, normalize_plan_discount,
}
use d5net_billing.Discounts.Best.{IsBest, find_best_plan_discount-IsBest}
use d5net_billing.Discounts.Price.{apply_plan_discount_bounds}
use d5net_billing.Discounts.Normal.{IsNormal, normalize_plan_discount-IsNormal}

abbrev whole : Float64
whole = record {
  F = ℕ;
  of_int = pos_part;
  add = λ a b. a + b;
  mul = λ a b. a * b;
  div = λ a b. a / b;
  at_most = leb;
  round = λ a. a;
  ceil = λ a. a;
  to_int = pos;
}

abbrev ten_percent : PlanDiscount
ten_percent = record {
  id = 1;
  tenant_id = 7;
  name = text "Promo";
  plan_id = none;
  kind = text "percent";
  value = pos 10;
  starts_on = [];
  ends_on = [];
  audience = text "all";
  is_active = true;
  customer_ids = [];
}

abbrev thirty_off : PlanDiscount
thirty_off = record ten_percent { id = 2; kind = text "amount"; value = pos 30 }

abbrev rows : List DatedDiscount
rows =
    record { discount = ten_percent; first_day = 5; last_day = 9 }
    ∷ record { discount = thirty_off; first_day = 5; last_day = 6 }
    ∷ []

cheapest : find_best_plan_discount whole 7 3 20 6 (pos 100) rows ≡ some thirty_off
unfolding find_best_plan_discount best_of is_better is_eligible apply_plan_discount
    discount_specificity ◌-ℤ◌
cheapest = refl

find_best_plan_discount-IsBest_example :
    IsBest whole
      (pos 100)
      (keep (is_eligible 7 3 20 6) rows)
      (find_best_plan_discount whole 7 3 20 6 (pos 100) rows)
find_best_plan_discount-IsBest_example =
    find_best_plan_discount-IsBest whole 7 3 20 6 (pos 100) rows (omega arith) (omega arith)

apply_plan_discount_bounds_example :
    (pos 0 ≤ℤ apply_plan_discount whole (pos 100) (some ten_percent))
    × (apply_plan_discount whole (pos 100) (some ten_percent) ≤ℤ pos 100)
apply_plan_discount_bounds_example =
    apply_plan_discount_bounds whole (pos 100) (some ten_percent) (omega arith)

normalize_plan_discount-IsNormal_example :
    IsNormal (normalize_plan_discount (record ten_percent { value = pos 300 }))
normalize_plan_discount-IsNormal_example =
    normalize_plan_discount-IsNormal (record ten_percent { value = pos 300 })
