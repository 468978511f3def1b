-- ===== src/Webhook/Amounts.antt =====
-- The amount that a notification pays: positive, and never more than the intent asks for.
use d5net_billing.Prelude.{◌&&◌, arith, if◌then◌else◌}
use d5net_billing.Prelude.Int.{ℤ, pos, ◌<ℤ◌, ◌≤ℤ◌, ltb_ℤ, leb_ℤ}
use d5net_billing.Prelude.Int64.{IsInt64}
use d5net_billing.Prelude.Text.{text}
use d5net_billing.Db.{PaymentIntent}
use d5net_billing.Webhook.{Effects, WebhookEvent, meta_int64, base_amount, paid_amount_of}

-- An intent asks for a positive amount, and its amounts are 64-bit integers.
pub record IsSoundIntent (f : Effects) (pi : PaymentIntent) : Type 0 where
  pub positive : pos 0 <ℤ pi.amount
  pub fits : IsInt64 pi.amount
  pub base_fits : IsInt64 (meta_int64 f pi.metadata (text "base_amount"))

-- The amount recorded, from the base and the amount of the event.
abbrev recorded : ℤ → ℤ → ℤ
recorded base n =
    let amount = if leb_ℤ n (pos 0) then base else n in
    if ltb_ℤ (pos 0) base && ltb_ℤ base amount then base else amount

recorded_bounds :
    (base n : ℤ) → pos 0 <ℤ base → (pos 0 <ℤ recorded base n) × (recorded base n ≤ℤ base)
recorded_bounds base n h = ground arith

recorded-IsInt64 : (base n : ℤ) → IsInt64 base → IsInt64 n → IsInt64 (recorded base n)
recorded-IsInt64 base n hb hn = ground arith

or_positive : (b a : ℤ) → pos 0 <ℤ a → pos 0 <ℤ (if ltb_ℤ (pos 0) b then b else a)
or_positive b a h = ground arith

or-IsInt64 : (b a : ℤ) → IsInt64 b → IsInt64 a → IsInt64 (if ltb_ℤ (pos 0) b then b else a)
or-IsInt64 b a hb ha = ground arith

module _ (f : Effects) (pi : PaymentIntent) (s : IsSoundIntent f pi) where
  base-positive : pos 0 <ℤ base_amount f pi
  base-positive = or_positive (meta_int64 f pi.metadata (text "base_amount")) pi.amount s.positive

  base-IsInt64 : IsInt64 (base_amount f pi)
  base-IsInt64 =
      or-IsInt64 (meta_int64 f pi.metadata (text "base_amount")) pi.amount s.base_fits s.fits

  pub paid_amount_of-positive : (e : WebhookEvent) → pos 0 <ℤ paid_amount_of f pi e
  unfolding paid_amount_of
  paid_amount_of-positive e = (recorded_bounds (base_amount f pi) e.amount base-positive).0

  pub paid_amount_of-IsInt64 :
      (e : WebhookEvent) → IsInt64 e.amount → IsInt64 (paid_amount_of f pi e)
  unfolding paid_amount_of
  paid_amount_of-IsInt64 e h = recorded-IsInt64 (base_amount f pi) e.amount base-IsInt64 h

  -- The amount recorded is positive and at most the intent's share of the invoice, whatever amount
  -- the event states, if the intent is sound.
  pub paid_amount_of_bounds :
      (e : WebhookEvent)
      → (pos 0 <ℤ paid_amount_of f pi e) × (paid_amount_of f pi e ≤ℤ base_amount f pi)
  unfolding paid_amount_of
  paid_amount_of_bounds e = recorded_bounds (base_amount f pi) e.amount base-positive
