-- ===== src/Discounts/Normal.antt =====
-- The normal form in which a discount is stored.
use d5net_billing.Prelude.{◌≡◌, refl, arith, ◌⊎◌, [], inl, inr, Bool-cases}
use d5net_billing.Prelude.Int.{ℤ, pos, ◌≤ℤ◌}
use d5net_billing.Prelude.Text.{Text, text, text_eq, trim_space, to_lower, eq_of_text_eq}
use d5net_billing.Discounts.{
  PlanDiscount, normalize_plan_discount, normal_kind, normal_audience, normal_value,
}

-- A discount by percent of at most 100, or by an amount; for all customers, with none listed, or for
-- the listed ones.
pub record IsNormal (d : PlanDiscount) : Type 0 where
  pub kind : (d.kind ≡ text "percent") ⊎ (d.kind ≡ text "amount")
  pub audience : (d.audience ≡ text "all") ⊎ (d.audience ≡ text "selected")
  pub nonneg : pos 0 ≤ℤ d.value
  pub at_most_all : d.kind ≡ text "percent" → d.value ≤ℤ pos 100
  pub unlisted : d.audience ≡ text "all" → d.customer_ids ≡ []

normal_kind-cases : (k : Text) → (normal_kind k ≡ text "percent") ⊎ (normal_kind k ≡ text "amount")
normal_kind-cases k = elim (Bool-cases (text_eq k (text "amount"))) [
  | inl hit ↦ inr (rw hit (eq_of_text_eq k (text "amount") hit))
  | inr miss ↦ inl (rw miss refl)
]

normal_audience-cases :
    (a : Text) → (normal_audience a ≡ text "all") ⊎ (normal_audience a ≡ text "selected")
normal_audience-cases a = elim (Bool-cases (text_eq a (text "selected"))) [
  | inl hit ↦ inr (rw hit (eq_of_text_eq a (text "selected") hit))
  | inr miss ↦ inl (rw miss refl)
]

normal_value_nonneg : (k : Text) (v : ℤ) → pos 0 ≤ℤ normal_value k v
normal_value_nonneg k v = ground arith

normal_value_most : (v : ℤ) → normal_value (text "percent") v ≤ℤ pos 100
normal_value_most v = ground arith

-- NormalizePlanDiscount gives every discount the normal form: a known kind and audience, a value
-- from 0, to 100 for a percentage, and no customers listed where all may have it.
pub normalize_plan_discount-IsNormal : (d : PlanDiscount) → IsNormal (normalize_plan_discount d)
unfolding normalize_plan_discount
normalize_plan_discount-IsNormal d =
    let kind = normal_kind (to_lower (trim_space d.kind)) in
    record {
      kind = normal_kind-cases (to_lower (trim_space d.kind));
      audience = normal_audience-cases (to_lower (trim_space d.audience));
      nonneg = normal_value_nonneg kind d.value;
      at_most_all = λ percent. rw percent (normal_value_most d.value);
      unlisted = λ all. rw all refl;
    }
