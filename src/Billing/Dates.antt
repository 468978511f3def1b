-- ===== src/Billing/Dates.antt =====
-- Due dates and billing anchors are the first days that qualify.
use d5net_billing.Prelude.{
  ℕ, suc, ◌+◌, ◌-◌, ◌*◌, ◌≤◌, ◌<◌, ◌≡◌, refl, arith, true, false, inl, inr, ltb, leb, ◌==◌,
  Bool-cases,
}
use d5net_billing.Prelude.Int.{ℤ, pos, negsuc, ◌≤ℤ◌, ◌<ℤ◌}
use d5net_billing.Prelude.Float64.{Float64}
use d5net_billing.Billing.{
  CivilDate, clamp_day, next_month, next_cycle_anchor, next_due_date, remaining_days_until,
  capped_days, days_of,
}

-- The month and the day are in the calendar's range.
pub record IsDate (d : CivilDate) : Type 0 where
  pub month_from : 1 ≤ d.month
  pub month_to : d.month ≤ 12
  pub day_from : 1 ≤ d.day
  pub day_to : d.day ≤ 31

-- Dates in calendar order have ascending numbers.
abbrev pub date_number : CivilDate → ℕ
date_number d = (d.year * 12 + d.month) * 32 + d.day

clamp_day_bounds : (day : ℤ) → (1 ≤ clamp_day day) × (clamp_day day ≤ 28)
clamp_day_bounds (pos d) = ground arith
clamp_day_bounds (negsuc d) = (omega arith, omega arith)

-- The first date on the day `day` of a month whose number is at least `start`.
pub record IsFirst (start day : ℕ) (d : CivilDate) : Type 0 where
  pub date : IsDate d
  pub on_day : d.day ≡ day
  pub not_before : start ≤ date_number d
  pub least :
      (e : CivilDate)
      → IsDate e
      → e.day ≡ day
      → start ≤ date_number e
      → date_number d ≤ date_number e

this_month-IsFirst :
    (from : CivilDate) (start day : ℕ)
    → IsDate from
    → 1 ≤ day
    → day ≤ 28
    → (from.year * 12 + from.month) * 32 < start
    → start ≤ (from.year * 12 + from.month) * 32 + day
    → IsFirst start day (record from { day = day })
this_month-IsFirst from start day h low high after before = record {
  date = record {
    month_from = h.month_from;
    month_to = h.month_to;
    day_from = low;
    day_to = omega (arith, high);
  };
  on_day = refl;
  not_before = before;
  least = λ e date on later. (let to = date.day_to in omega arith);
}

next_month-IsFirst :
    (from : CivilDate) (start day : ℕ)
    → IsDate from
    → 1 ≤ day
    → day ≤ 28
    → (from.year * 12 + from.month) * 32 + day < start
    → start ≤ (from.year * 12 + from.month) * 32 + 32
    → IsFirst start day (next_month from day)
next_month-IsFirst from start day h low high after before =
    let up = h.month_to in
    elim (Bool-cases (from.month == 12)) [
      | inl december ↦
          let last : from.month ≡ 12 = ground arith in
          rw december (record {
            date = record {
              month_from = omega arith;
              month_to = omega arith;
              day_from = low;
              day_to = omega (arith, high);
            };
            on_day = refl;
            not_before = omega arith;
            least = λ e date on later.
                (let m = date.month_to in let n = date.month_from in omega arith);
          })
      | inr other ↦
          let earlier : from.month < 12 = ground arith in
          rw other (record {
            date = record {
              month_from = omega arith;
              month_to = omega (arith, earlier);
              day_from = low;
              day_to = omega (arith, high);
            };
            on_day = refl;
            not_before = omega arith;
            least = λ e date on later.
                (let m = date.month_to in let n = date.month_from in omega arith);
          })
    ]

-- NextDueDate is the first date from `from` on with the asked day of the month, brought into 1 to 28.
pub next_due_date-IsFirst :
    (from : CivilDate) (day : ℤ)
    → IsDate from
    → IsFirst (date_number from) (clamp_day day) (next_due_date from day)
unfolding next_due_date
next_due_date-IsFirst from day h =
    let b = clamp_day_bounds day in
    let d = clamp_day day in
    let low = h.day_from in
    let high = h.day_to in
    elim (Bool-cases (leb from.day d)) [
      | inl soon ↦
          let order : from.day ≤ d = ground arith in
          rw soon
            (this_month-IsFirst from (date_number from) d h (b.0) (b.1) (omega arith) (omega arith))
      | inr past ↦
          let order : d < from.day = ground arith in
          rw past
            (next_month-IsFirst from (date_number from) d h (b.0) (b.1) (omega arith) (omega arith))
    ]

-- NextCycleAnchor is the first date after `from` with the asked day of the month, brought into 1 to
-- 28.
pub next_cycle_anchor-IsFirst :
    (from : CivilDate) (day : ℤ)
    → IsDate from
    → IsFirst (suc (date_number from)) (clamp_day day) (next_cycle_anchor from day)
unfolding next_cycle_anchor
next_cycle_anchor-IsFirst from day h =
    let b = clamp_day_bounds day in
    let d = clamp_day day in
    let low = h.day_from in
    let high = h.day_to in
    let start = suc (date_number from) in
    elim (Bool-cases (ltb from.day d)) [
      | inl soon ↦
          let order : from.day < d = ground arith in
          rw soon (this_month-IsFirst from start d h (b.0) (b.1) (omega arith) (omega arith))
      | inr past ↦
          let order : d ≤ from.day = ground arith in
          rw past (next_month-IsFirst from start d h (b.0) (b.1) (omega arith) (omega arith))
    ]

capped_days_bounds :
    (cycle days : ℤ)
    → pos 0 <ℤ cycle
    → (pos 1 ≤ℤ capped_days cycle days) × (capped_days cycle days ≤ℤ cycle)
capped_days_bounds cycle days h = ground arith

-- For a positive cycle, RemainingDaysUntil is 0 from the end of the period on, and before it from 1
-- to the days of the cycle, however the hours are rounded.
pub remaining_days_until_bounds :
    (fl : Float64) (now until : ℕ) (cycle : ℤ)
    → pos 0 <ℤ cycle
    → (until ≤ now → remaining_days_until fl now until cycle ≡ pos 0)
      × (now < until
          → (pos 1 ≤ℤ remaining_days_until fl now until cycle)
            × (remaining_days_until fl now until cycle ≤ℤ cycle))
unfolding remaining_days_until
remaining_days_until_bounds fl now until cycle h = (
  λ over. (let e : leb until now ≡ true = ground arith in rw e refl),
  λ open?.
      (let e : leb until now ≡ false = ground arith in
        rw e (capped_days_bounds cycle (days_of fl (until - now)) h)),
)
