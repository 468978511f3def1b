-- ===== src/Discounts.antt =====
-- internal/store/plan_discounts.go: the discounts on plans, and which of them a customer gets. A
-- day is a number; `customer_ids` holds the rows of plan_discount_customers.
pub mod Normal
pub mod Price
pub mod Best
mod Tests
use mathlib.Core.Bool.{not}
use d5net_billing.Prelude.{
  ℕ, ◌+◌, Bool, true, false, ◌&&◌, ◌||◌, Option, none, some, List, [], ◌∷◌, ltb, leb, ◌==◌, any,
  keep, is_null, if◌then◌else◌,
}
use d5net_billing.Prelude.Int.{ℤ, pos, ◌-ℤ◌, leb_ℤ, ltb_ℤ, eqb_ℤ}
use d5net_billing.Prelude.Text.{Text, text, text_eq, trim_space, to_lower}
use d5net_billing.Prelude.Float64.{Float64}

pub record PlanDiscount : Type 0 where
  pub id : ℕ
  pub tenant_id : ℕ
  pub name : Text
  pub plan_id : Option ℕ
  pub kind : Text
  pub value : ℤ
  pub starts_on : Text
  pub ends_on : Text
  pub audience : Text
  pub is_active : Bool
  pub customer_ids : List ℕ

abbrev pub normal_kind : Text → Text
normal_kind k = if text_eq k (text "amount") then k else text "percent"

abbrev pub normal_audience : Text → Text
normal_audience a = if text_eq a (text "selected") then a else text "all"

abbrev pub normal_value : Text → ℤ → ℤ
normal_value kind v =
    let capped = if text_eq kind (text "percent") && ltb_ℤ (pos 100) v then pos 100 else v in
    if ltb_ℤ capped (pos 0) then pos 0 else capped

-- NormalizePlanDiscount
unfoldable pub normalize_plan_discount : PlanDiscount → PlanDiscount
normalize_plan_discount d =
    let kind = normal_kind (to_lower (trim_space d.kind)) in
    let audience = normal_audience (to_lower (trim_space d.audience)) in
    record d {
      name = trim_space d.name;
      kind = kind;
      value = normal_value kind d.value;
      starts_on = trim_space d.starts_on;
      ends_on = trim_space d.ends_on;
      audience = audience;
      customer_ids = if text_eq audience (text "all") then [] else d.customer_ids;
    }

-- int64(math.Round(float64(base) * float64(value) / 100))
abbrev pub percent_of : Float64 → ℤ → ℤ → ℤ
percent_of fl base value =
    fl.to_int (fl.round (fl.div (fl.mul (fl.of_int base) (fl.of_int value)) (fl.of_int (pos 100))))

abbrev pub off_of : Float64 → ℤ → PlanDiscount → ℤ
off_of fl base d = if text_eq d.kind (text "percent") then percent_of fl base d.value else d.value

-- At most the base, and not negative.
abbrev pub clamp_off : ℤ → ℤ → ℤ
clamp_off base off =
    let most = if ltb_ℤ base off then base else off in if ltb_ℤ most (pos 0) then pos 0 else most

-- ApplyPlanDiscount
unfoldable pub apply_plan_discount : Float64 → ℤ → Option PlanDiscount → ℤ
apply_plan_discount fl base none = base
apply_plan_discount fl base (some d) =
    if leb_ℤ base (pos 0) || leb_ℤ d.value (pos 0)
    then base
    else base -ℤ clamp_off base (off_of fl base d)

abbrev pub has_plan : Option ℕ → Bool
has_plan none = false
has_plan (some k) = not (k == 0)

-- discountSpecificity
unfoldable pub discount_specificity : PlanDiscount → ℕ
discount_specificity d =
    (if has_plan d.plan_id then 2 else 0) + (if text_eq d.audience (text "selected") then 1 else 0)

abbrev pub of_plan : Option ℕ → ℕ → Bool
of_plan none plan = true
of_plan (some k) plan = k == plan

-- A row of plan_discounts with its two dates.
pub record DatedDiscount : Type 0 where
  pub discount : PlanDiscount
  pub first_day : ℕ
  pub last_day : ℕ

-- The WHERE of FindBestPlanDiscount.
unfoldable pub is_eligible : ℕ → ℕ → ℕ → ℕ → DatedDiscount → Bool
is_eligible t plan customer on r =
    let d = r.discount in
    d.tenant_id == t
    && d.is_active
    && leb r.first_day on
    && leb on r.last_day
    && of_plan d.plan_id plan
    && (text_eq d.audience (text "all") || any (λ c. c == customer) d.customer_ids)

-- The loop's test: a lower price, or the same price and more specific.
unfoldable pub is_better : Float64 → ℤ → Option PlanDiscount → ℤ → PlanDiscount → Bool
is_better fl base none best_price d = true
is_better fl base (some b) best_price d =
    let price = apply_plan_discount fl base (some d) in
    ltb_ℤ price best_price
    || (eqb_ℤ price best_price && ltb (discount_specificity b) (discount_specificity d))

-- The loop over the rows, in the order in which they come.
unfoldable pub best_of :
    Float64 → ℤ → Option PlanDiscount → ℤ → List DatedDiscount → Option PlanDiscount
best_of fl base best best_price [] = best
best_of fl base best best_price (r ∷ rs) =
    let d = r.discount in
    let next = if is_better fl base best best_price d then some d else best in
    let price =
      if is_better fl base best best_price d
      then apply_plan_discount fl base (some d)
      else best_price in
    best_of fl base next price rs

-- FindBestPlanDiscount, for the rows of plan_discounts.
unfoldable pub find_best_plan_discount :
    Float64 → ℕ → ℕ → ℕ → ℕ → ℤ → List DatedDiscount → Option PlanDiscount
find_best_plan_discount fl t plan customer on base rows =
    if customer == 0 || leb_ℤ base (pos 0)
    then none
    else best_of fl base none base (keep (is_eligible t plan customer on) rows)

-- ResolveBilledPlanPrice, for the price that the plan or its cluster offer sets.
unfoldable pub resolve_billed_plan_price :
    Float64 → ℕ → ℕ → ℕ → ℕ → ℤ → List DatedDiscount → ℤ × Option PlanDiscount
resolve_billed_plan_price fl t plan customer on base rows =
    let disc = find_best_plan_discount fl t plan customer on base rows in
    (apply_plan_discount fl base disc, disc)
