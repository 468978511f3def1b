-- ===== src/Billing.antt =====
-- internal/billing/engine.go: the amounts, days and dates of the billing engine. A date is a
-- calendar day at noon, a time a number of nanoseconds.
pub mod Dates
pub mod Plans
pub mod Tests
use d5net_billing.Prelude.{
  ℕ, suc, ◌+◌, ◌-◌, ◌*◌, ◌/◌, ◌%◌, Bool, true, false, ◌&&◌, ◌||◌, ltb, leb, ◌==◌, if◌then◌else◌,
}
use d5net_billing.Prelude.Int.{ℤ, pos, negsuc, ◌+ℤ◌, ◌-ℤ◌, leb_ℤ, ltb_ℤ}
use d5net_billing.Prelude.Int64.{◌+64◌, ◌-64◌}
use d5net_billing.Prelude.Text.{Text, text, text_eq}
use d5net_billing.Prelude.Float64.{Float64}

-- daysInBillingCycle
unfoldable pub days_in_billing_cycle : Text → ℕ
days_in_billing_cycle cycle =
    if text_eq cycle (text "daily")
    then 1
    else (if text_eq cycle (text "weekly")
        then 7
        else (if text_eq cycle (text "yearly") then 365 else 30))

pub data Direction : Type 0 where
  upgrade downgrade same : Direction

-- PlanChangeDirection
unfoldable pub plan_change_direction : ℤ → ℤ → ℤ → ℤ → Direction
plan_change_direction old_download old_upload new_download new_upload =
    if ltb_ℤ old_download new_download
    then upgrade
    else (if ltb_ℤ new_download old_download
        then downgrade
        else (if ltb_ℤ old_upload new_upload
            then upgrade
            else (if ltb_ℤ new_upload old_upload then downgrade else same)))

-- PlanChangeLabel
abbrev pub plan_change_label : Direction → Text
plan_change_label upgrade = text "Upgrade"
plan_change_label downgrade = text "Downgrade"
plan_change_label same = text "Ganti paket"

-- int64(math.Round(float64(a) * float64(b) / float64(c)))
abbrev pub scaled : Float64 → ℤ → ℤ → ℤ → ℤ
scaled fl a b c = fl.to_int (fl.round (fl.div (fl.mul (fl.of_int a) (fl.of_int b)) (fl.of_int c)))

-- ProrateAmount
unfoldable pub prorate_amount : Float64 → ℤ → ℤ → ℤ → ℤ
prorate_amount fl full_price used period =
    if leb_ℤ period (pos 0) then full_price else scaled fl full_price used period

-- int64(math.Round(float64(amount) * percent / 100))
abbrev pub percentage : (fl : Float64) → ℤ → fl.F → ℤ
percentage fl amount percent =
    fl.to_int (fl.round (fl.div (fl.mul (fl.of_int amount) percent) (fl.of_int (pos 100))))

-- ApplyLateFee
unfoldable pub apply_late_fee : (fl : Float64) → ℤ → fl.F → ℤ
apply_late_fee fl amount percent =
    if leb_ℤ amount (pos 0) || fl.at_most percent (fl.of_int (pos 0))
    then pos 0
    else percentage fl amount percent

abbrev pub subtotal_of : Float64 → ℤ → ℤ → ℤ → ℤ
subtotal_of fl price prorate total =
    if ltb_ℤ (pos 0) prorate && ltb_ℤ (pos 0) total && ltb_ℤ prorate total
    then scaled fl price prorate total
    else price

-- CalculateInvoiceAmount
unfoldable pub calculate_invoice_amount : (fl : Float64) → ℤ → fl.F → ℤ → ℤ → ℤ × ℤ
calculate_invoice_amount fl price tax_percent prorate total =
    let subtotal = subtotal_of fl price prorate total in
    (subtotal, percentage fl subtotal tax_percent)

abbrev pub hour : ℕ
hour = 3_600_000_000_000

-- int(math.Ceil(d.Hours() / 24))
abbrev pub days_of : Float64 → ℕ → ℤ
days_of fl d =
    let hours =
      fl.add (fl.of_int (pos (d / hour)))
        (fl.div (fl.of_int (pos (d % hour))) (fl.of_int (pos hour))) in
    fl.to_int (fl.ceil (fl.div hours (fl.of_int (pos 24))))

abbrev pub capped_days : ℤ → ℤ → ℤ
capped_days cycle days =
    let least = if ltb_ℤ days (pos 1) then pos 1 else days in
    if ltb_ℤ (pos 0) cycle && ltb_ℤ cycle least then cycle else least

-- RemainingDaysUntil
unfoldable pub remaining_days_until : Float64 → ℕ → ℕ → ℤ → ℤ
remaining_days_until fl now until cycle =
    if leb until now then pos 0 else capped_days cycle (days_of fl (until - now))

pub record CivilDate : Type 0 where
  pub year : ℕ
  pub month : ℕ
  pub day : ℕ

abbrev pub clamp_day : ℤ → ℕ
clamp_day (pos d) = if d == 0 then 1 else (if ltb 28 d then 28 else d)
clamp_day (negsuc d) = 1

-- time.Date with month + 1, which carries into the next year.
abbrev pub next_month : CivilDate → ℕ → CivilDate
next_month from day =
    if from.month == 12
    then record { year = suc from.year; month = 1; day = day }
    else record { year = from.year; month = suc from.month; day = day }

-- NextCycleAnchor
unfoldable pub next_cycle_anchor : CivilDate → ℤ → CivilDate
next_cycle_anchor from day =
    let d = clamp_day day in if ltb from.day d then record from { day = d } else next_month from d

-- NextDueDate
unfoldable pub next_due_date : CivilDate → ℤ → CivilDate
next_due_date from day =
    let d = clamp_day day in if leb from.day d then record from { day = d } else next_month from d

pub record QuoteAmounts : Type 0 where
  pub old_credit : ℤ
  pub new_charge : ℤ
  pub delta_subtotal : ℤ
  pub tax_amount : ℤ
  pub total_amount : ℤ
  pub requires_charge : Bool

abbrev pub taxed_quote : (fl : Float64) → fl.F → ℤ → ℤ → ℤ → QuoteAmounts
taxed_quote fl tax_percent old_credit new_charge delta =
    let tax = if ltb_ℤ (pos 0) delta then percentage fl delta tax_percent else pos 0 in
    record {
      old_credit = old_credit;
      new_charge = new_charge;
      delta_subtotal = delta;
      tax_amount = tax;
      total_amount = if ltb_ℤ (pos 0) delta then delta +64 tax else pos 0;
      requires_charge = ltb_ℤ (pos 0) delta;
    }

-- The amounts of QuotePlanChange, for the prices and the tax that the store resolves.
unfoldable pub quote_amounts : (fl : Float64) → ℤ → ℤ → ℤ → ℤ → fl.F → QuoteAmounts
unfolding prorate_amount
quote_amounts fl old_price new_price remaining cycle tax_percent =
    let old_credit = prorate_amount fl old_price remaining cycle in
    let new_charge = prorate_amount fl new_price remaining cycle in
    if leb_ℤ remaining (pos 0)
    then taxed_quote fl tax_percent (pos 0) (pos 0) (pos 0)
    else taxed_quote fl tax_percent old_credit new_charge (new_charge -64 old_credit)
