-- ===== src/Reports/Balance.antt =====
-- internal/store/ledger.go: why the balance sheet balances.
use d5net_billing.Prelude.{◌≡◌, refl, ap, true, List, [], ◌∷◌, inl, inr, arith, Bool-cases, All}
use d5net_billing.Prelude.Int.{ℤ, pos, pos_part, neg_part, ◌+ℤ◌, eqb_ℤ, +ℤ_parts}
use d5net_billing.Prelude.Int64.{◌+64◌, IsInt64, +64-IsInt64}
use d5net_billing.Prelude.Wrap.{+64_mod, eq_of_mod}
use d5net_billing.Prelude.Text.{Text, to_lower}
use d5net_billing.Reports.{
  TrialBalanceRow, Line, BalanceSheetReport, account_balances, balance_sheet, sheet_sums, add_line,
  line_of, unmoved,
}
use d5net_billing.Reports.Level.{IsAccountType, IsLevel, place-IsLevel}

abbrev pub sum_debit : List TrialBalanceRow → ℤ
sum_debit [] = pos 0
sum_debit (r ∷ rs) = r.debit +ℤ sum_debit rs

abbrev pub sum_credit : List TrialBalanceRow → ℤ
sum_credit [] = pos 0
sum_credit (r ∷ rs) = r.credit +ℤ sum_credit rs

-- A row without movement adds nothing to the sums.
still : (r : TrialBalanceRow) → unmoved r ≡ true → (r.debit ≡ pos 0) × (r.credit ≡ pos 0)
still r e = ground arith

skip-IsLevel :
    (r : TrialBalanceRow) (b : BalanceSheetReport) (ds cs : ℤ)
    → unmoved r ≡ true
    → IsLevel b ds cs
    → IsLevel b (r.debit +ℤ ds) (r.credit +ℤ cs)
skip-IsLevel r b ds cs e h =
    let (d, c) = still r e in
    omega (
      arith,
      h,
      ap pos_part d,
      ap neg_part d,
      ap pos_part c,
      ap neg_part c,
      +ℤ_parts r.debit ds,
      +ℤ_parts r.credit cs,
    )

add_line-IsInt64 :
    (t : Text) (l : Line) (b : BalanceSheetReport)
    → IsInt64 b.total_assets
    → IsInt64 (add_line t l b).total_assets
add_line-IsInt64 t l b h = ground (arith, h, +64-IsInt64 l.amount b.total_assets)

sheet_sums-IsInt64 : (rs : List TrialBalanceRow) → IsInt64 (sheet_sums rs).total_assets
sheet_sums-IsInt64 [] = omega arith
sheet_sums-IsInt64 (r ∷ rs) = elim (Bool-cases (unmoved r)) [
  | inl e ↦ rw e (sheet_sums-IsInt64 rs)
  | inr e ↦
      rw e (add_line-IsInt64 (to_lower r.type) (line_of r) (sheet_sums rs) (sheet_sums-IsInt64 rs))
]

sheet_sums-IsLevel :
    (rs : List TrialBalanceRow)
    → All (λ r. IsAccountType (to_lower r.type)) rs
    → IsLevel (sheet_sums (account_balances rs)) (sum_debit rs) (sum_credit rs)
unfolding account_balances
sheet_sums-IsLevel [] h = refl
sheet_sums-IsLevel (r ∷ rs) (k, ks) =
    let rest = sheet_sums-IsLevel rs ks in
    elim (Bool-cases (unmoved r)) [
      | inl e ↦
          rw e (
            skip-IsLevel r (sheet_sums (account_balances rs)) (sum_debit rs) (sum_credit rs) e rest)
      | inr e ↦
          rw e (
            place-IsLevel r (sheet_sums (account_balances rs)) (sum_debit rs) (sum_credit rs) rest
              k)
    ]

eqb_ℤ-refl : (a b : ℤ) → a ≡ b → eqb_ℤ a b ≡ true
eqb_ℤ-refl a b h = ground (arith, ap pos_part h, ap neg_part h)

level_balanced :
    (b : BalanceSheetReport) (d c : ℤ)
    → d ≡ c
    → IsLevel b d c
    → IsInt64 b.total_assets
    → b.total_assets ≡ (b.total_liabilities +64 b.total_equity) +64 b.current_earnings
level_balanced b d c e h ia = eq_of_mod b.total_assets _ ia (+64-IsInt64 _ _) (
    omega (
      arith,
      h,
      ap pos_part e,
      ap neg_part e,
      +64_mod (b.total_liabilities +64 b.total_equity) b.current_earnings,
      +64_mod b.total_liabilities b.total_equity,
    ))

-- When every account has one of the six types and the debits of all accounts, before any wrapping,
-- sum to the credits, the balance sheet over the rows that accountBalances returns is balanced. The
-- sums of the report wrap at 64 bits.
pub balance_sheet-balanced :
    (rs : List TrialBalanceRow)
    → All (λ r. IsAccountType (to_lower r.type)) rs
    → sum_debit rs ≡ sum_credit rs
    → (balance_sheet (account_balances rs)).balanced ≡ true
unfolding balance_sheet
balance_sheet-balanced rs h e =
    let b = sheet_sums (account_balances rs) in
    eqb_ℤ-refl b.total_assets ((b.total_liabilities +64 b.total_equity) +64 b.current_earnings) (
      level_balanced b (sum_debit rs) (sum_credit rs) e (sheet_sums-IsLevel rs h)
        (sheet_sums-IsInt64 (account_balances rs)))
