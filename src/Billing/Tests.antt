-- ===== src/Billing/Tests.antt =====
-- Runs and the theorems about the billing engine, with float64 arithmetic on whole numbers.
use d5net_billing.Prelude.{ℕ, suc, ◌+◌, ◌*◌, ◌/◌, ◌≤◌, ◌<◌, ◌≡◌, refl, arith, leb}
use d5net_billing.Prelude.Int.{pos, ◌≤ℤ◌, pos_part}
use d5net_billing.Prelude.Float64.{Float64}
use d5net_billing.Billing.{
  CivilDate, next_cycle_anchor, next_due_date, clamp_day, remaining_days_until,
}
use d5net_billing.Billing.Dates.{
  IsDate, IsFirst, date_number, next_due_date-IsFirst, next_cycle_anchor-IsFirst,
  remaining_days_until_bounds,
}

abbrev pub whole : Float64
whole = record {
  F = ℕ;
  of_int = pos_part;
  add = λ a b. a + b;
  mul = λ a b. a * b;
  div = λ a b. a / b;
  at_most = leb;
  round = λ a. a;
  ceil = λ a. a;
  to_int = pos;
}

abbrev late_december : CivilDate
late_december = record { year = 2_025; month = 12; day = 20 }

late_december-IsDate : IsDate late_december
late_december-IsDate = record {
  month_from = omega arith;
  month_to = omega arith;
  day_from = omega arith;
  day_to = omega arith;
}

due_in_january : next_due_date late_december (pos 10) ≡ record { year = 2_026; month = 1; day = 10 }
unfolding next_due_date
due_in_january = refl

anchor_on_the_day :
    next_cycle_anchor late_december (pos 20) ≡ record { year = 2_026; month = 1; day = 20 }
unfolding next_cycle_anchor
anchor_on_the_day = refl

next_due_date-IsFirst_example :
    IsFirst (date_number late_december) (clamp_day (pos 10)) (next_due_date late_december (pos 10))
next_due_date-IsFirst_example = next_due_date-IsFirst late_december (pos 10) late_december-IsDate

next_cycle_anchor-IsFirst_example :
    IsFirst
      (suc (date_number late_december))
      (clamp_day (pos 20))
      (next_cycle_anchor late_december (pos 20))
next_cycle_anchor-IsFirst_example =
    next_cycle_anchor-IsFirst late_december (pos 20) late_december-IsDate

remaining_days_until_bounds_example :
    (50 ≤ 40 → remaining_days_until whole 40 50 (pos 30) ≡ pos 0)
    × (40 < 50
        → (pos 1 ≤ℤ remaining_days_until whole 40 50 (pos 30))
          × (remaining_days_until whole 40 50 (pos 30) ≤ℤ pos 30))
remaining_days_until_bounds_example = remaining_days_until_bounds whole 40 50 (pos 30) (omega arith)
