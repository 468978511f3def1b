-- ===== src/Discounts/Best.antt =====
-- Of the discounts a customer may have, the best is found.
use mathlib.Core.Option.{some-injective}
use mathlib.Core.Path.{subst}
use d5net_billing.Prelude.{
  ℕ, ◌≤◌, ◌≡◌, ◌≢◌, ◌⊎◌, ◌∙◌, refl, sym, arith, true, false, ◌&&◌, ◌||◌, Option, none, some, List,
  [], ◌∷◌, inl, inr, All, keep, ltb, ◌==◌, Bool-cases,
}
use d5net_billing.Prelude.Int.{ℤ, pos, ◌<ℤ◌, leb_ℤ, ltb_ℤ, eqb_ℤ}
use d5net_billing.Prelude.Float64.{Float64}
use d5net_billing.Discounts.{
  PlanDiscount, DatedDiscount, apply_plan_discount, discount_specificity, is_eligible, is_better,
  best_of, find_best_plan_discount,
}

-- A price and a specificity that are at least as good as others: cheaper, or as cheap and at least
-- as specific.
abbrev pub IsAtLeast : ℤ → ℕ → ℤ → ℕ → Type 0
IsAtLeast p s q r = (p <ℤ q) ⊎ ((p ≡ q) × (r ≤ s))

abbrev pub price_of : Float64 → ℤ → PlanDiscount → ℤ
price_of fl base d = apply_plan_discount fl base (some d)

-- The chosen discount is at least as good as the row's.
abbrev pub Beats : Float64 → ℤ → Option PlanDiscount → DatedDiscount → Type 0
Beats fl base none r = ⊥
Beats fl base (some b) r =
    IsAtLeast (price_of fl base b) (discount_specificity b) (price_of fl base r.discount)
      (discount_specificity r.discount)

-- The chosen discount is one of the rows'.
abbrev pub IsAmong : PlanDiscount → List DatedDiscount → Type 0
IsAmong b [] = ⊥
IsAmong b (r ∷ rs) = (r.discount ≡ b) ⊎ IsAmong b rs

-- The price that the loop carries along is that of its best discount.
abbrev Carries : Float64 → ℤ → Option PlanDiscount → ℤ → Type 0
Carries fl base none price = Unit
Carries fl base (some b) price = price ≡ price_of fl base b

IsAtLeast-trans :
    (p q r : ℤ) (s t u : ℕ) → IsAtLeast p s q t → IsAtLeast q t r u → IsAtLeast p s r u
IsAtLeast-trans p q r s t u (inl a) (inl b) = inl (omega (arith, a, b))
IsAtLeast-trans p q r s t u (inl a) (inr b) = inl (rw (← (b.0)) a)
IsAtLeast-trans p q r s t u (inr a) (inl b) = inl (rw (a.0) b)
IsAtLeast-trans p q r s t u (inr a) (inr b) = inr (a.0 ∙ b.0, omega (arith, a.1, b.1))

better_lem : (p q : ℤ) (s t : ℕ) → (ltb_ℤ p q || (eqb_ℤ p q && ltb t s)) ≡ true → IsAtLeast p s q t
better_lem p q s t h = elim (Bool-cases (ltb_ℤ p q)) [
  | inl less ↦ inl (ground arith)
  | inr not_less ↦ inr (ground arith, ground arith)
]

worse_lem : (p q : ℤ) (s t : ℕ) → (ltb_ℤ p q || (eqb_ℤ p q && ltb t s)) ≡ false → IsAtLeast q t p s
worse_lem p q s t h = elim (Bool-cases (ltb_ℤ q p)) [
  | inl less ↦ inl (ground arith)
  | inr not_less ↦ inr (ground arith, ground arith)
]

module _ (fl : Float64) (base : ℤ) where
  abbrev p : PlanDiscount → ℤ
  p = price_of fl base

  abbrev s : PlanDiscount → ℕ
  s = discount_specificity

  -- What `best` beats is beaten by what the loop ends with.
  best_of-keeps :
      (b : PlanDiscount) (price : ℤ) (rs : List DatedDiscount) (r : DatedDiscount)
      → Carries fl base (some b) price
      → Beats fl base (some b) r
      → Beats fl base (best_of fl base (some b) price rs) r
  unfolding best_of is_better
  best_of-keeps b price [] r c h = h
  best_of-keeps b price (x ∷ rs) r c h =
      let d = x.discount in
      let test = ltb_ℤ (p d) price || (eqb_ℤ (p d) price && ltb (s b) (s d)) in
      elim (Bool-cases test) [
        | inl better ↦
            let won = better_lem (p d) (p b) (s d) (s b) (rw c at better) in
            rw better (
              best_of-keeps d (p d) rs r refl
                (IsAtLeast-trans (p d) (p b) (p r.discount) (s d) (s b) (s r.discount) won h))
        | inr worse ↦ rw worse (best_of-keeps b price rs r c h)
      ]

  best_of-Beats :
      (best : Option PlanDiscount) (price : ℤ) (rs : List DatedDiscount)
      → Carries fl base best price
      → All (Beats fl base (best_of fl base best price rs)) rs
  unfolding best_of is_better
  best_of-Beats best price [] c = tt
  best_of-Beats none price (x ∷ rs) c =
      let d = x.discount in
      (
        best_of-keeps d (p d) rs x refl (inr (refl, omega arith)),
        best_of-Beats (some d) (p d) rs refl,
      )
  best_of-Beats (some b) price (x ∷ rs) c =
      let d = x.discount in
      let test = ltb_ℤ (p d) price || (eqb_ℤ (p d) price && ltb (s b) (s d)) in
      elim (Bool-cases test) [
        | inl better ↦
            let e : best_of fl base (some b) price (x ∷ rs) ≡ best_of fl base (some d) (p d) rs =
              rw better refl in
            subst (λ o. All (Beats fl base o) (x ∷ rs)) (sym e)
              (
                best_of-keeps d (p d) rs x refl (inr (refl, omega arith)),
                best_of-Beats (some d) (p d) rs refl,
              )
        | inr worse ↦
            let lost = worse_lem (p d) (p b) (s d) (s b) (rw c at worse) in
            let e : best_of fl base (some b) price (x ∷ rs) ≡ best_of fl base (some b) price rs =
              rw worse refl in
            subst (λ o. All (Beats fl base o) (x ∷ rs)) (sym e)
              (best_of-keeps b price rs x c lost, best_of-Beats (some b) price rs c)
      ]

  -- What the loop ends with is what it began with, or a row's discount.
  best_of-IsAmong :
      (best : Option PlanDiscount) (price : ℤ) (rs : List DatedDiscount) (b : PlanDiscount)
      → best_of fl base best price rs ≡ some b
      → (best ≡ some b) ⊎ IsAmong b rs
  unfolding best_of
  best_of-IsAmong best price [] b e = inl e
  best_of-IsAmong best price (x ∷ rs) b e =
      let d = x.discount in
      elim (Bool-cases (is_better fl base best price d)) [
        | inl better ↦ elim (best_of-IsAmong (some d) (p d) rs b (rw better at e)) [
          | inl this ↦ inr (inl (some-injective _ _ this))
          | inr later ↦ inr (inr later)
        ]
        | inr worse ↦ elim (best_of-IsAmong best price rs b (rw worse at e)) [
          | inl this ↦ inl this
          | inr later ↦ inr (inr later)
        ]
      ]

-- None where no row is eligible; otherwise an eligible row's discount that is at least as good as
-- that of every eligible row.
abbrev pub IsBest : Float64 → ℤ → List DatedDiscount → Option PlanDiscount → Type 0
IsBest fl base eligible none = eligible ≡ []
IsBest fl base eligible (some b) = IsAmong b eligible × All (Beats fl base (some b)) eligible

best_of-IsBest :
    (fl : Float64) (base : ℤ) (rs : List DatedDiscount) (o : Option PlanDiscount)
    → best_of fl base none base rs ≡ o
    → IsBest fl base rs o
best_of-IsBest fl base [] none e = refl
best_of-IsBest fl base (r ∷ rs) none e =
    absurd (subst (λ o. Beats fl base o r) e ((best_of-Beats fl base none base (r ∷ rs) tt).0))
best_of-IsBest fl base rs (some b) e = (
  elim (best_of-IsAmong fl base none base rs b e) [ inl first ↦ cc | inr among ↦ among ],
  subst (λ o. All (Beats fl base o) rs) e (best_of-Beats fl base none base rs tt),
)

-- FindBestPlanDiscount for a positive price and a customer: none exactly where no discount of the
-- tenant is eligible; otherwise an eligible one, that no eligible one undercuts, and than which none
-- of the same price is more specific. The order of the rows and the rounding do not matter.
pub find_best_plan_discount-IsBest :
    (fl : Float64) (t plan customer on : ℕ) (base : ℤ) (rows : List DatedDiscount)
    → 0 ≢ customer
    → pos 0 <ℤ base
    → IsBest fl base
        (keep (is_eligible t plan customer on) rows)
        (find_best_plan_discount fl t plan customer on base rows)
unfolding find_best_plan_discount
find_best_plan_discount-IsBest fl t plan customer on base rows known positive =
    let open? : (customer == 0 || leb_ℤ base (pos 0)) ≡ false = ground arith in
    rw open? (best_of-IsBest fl base (keep (is_eligible t plan customer on) rows) _ refl)
