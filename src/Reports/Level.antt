-- ===== src/Reports/Level.antt =====
-- internal/store/ledger.go: a row of any type leaves the balance sheet level. Every sum is followed
-- modulo 2^64, as the Go code adds int64.
use d5net_billing.Prelude.{
  ◌+◌, ◌%◌, ◌⊎◌, ◌||◌, ◌≡◌, refl, sym, ap, ◌∙◌, true, false, inl, inr, arith,
}
use d5net_billing.Prelude.Int.{ℤ, pos_part, neg_part, ◌+ℤ◌, +ℤ_parts}
use d5net_billing.Prelude.Int64.{two64, ◌-64◌}
use d5net_billing.Prelude.Wrap.{+64_mod, -64_mod}
use d5net_billing.Prelude.Text.{Text, text, text_eq, trim_space, to_lower}
use d5net_billing.Prelude.Text.Trim.{trim_space-to_lower}
use d5net_billing.Reports.{TrialBalanceRow, BalanceSheetReport, normal_balance, add_line, line_of}

-- The types of account that the balance sheet places.
abbrev pub IsAccountType : Text → Type 0
IsAccountType t =
    (t ≡ text "asset")
    ⊎ (t ≡ text "liability")
    ⊎ (t ≡ text "equity")
    ⊎ (t ≡ text "revenue")
    ⊎ (t ≡ text "income")
    ⊎ (t ≡ text "expense")

-- Assets less the other side are the debits less the credits, modulo 2^64.
abbrev pub IsLevel : BalanceSheetReport → ℤ → ℤ → Type 0
IsLevel b d c =
    (pos_part b.total_assets
        + neg_part b.total_liabilities
        + neg_part b.total_equity
        + neg_part b.current_earnings
        + neg_part d
        + pos_part c)
      % two64
    ≡ (neg_part b.total_assets
        + pos_part b.total_liabilities
        + pos_part b.total_equity
        + pos_part b.current_earnings
        + pos_part d
        + neg_part c)
      % two64

-- A type in lower case has no space to trim, when it is one of the six.
lower_of : (type u : Text) → to_lower type ≡ u → trim_space u ≡ u → to_lower (trim_space type) ≡ u
lower_of type u e h = sym (trim_space-to_lower type) ∙ ap trim_space e ∙ h

debit_lem :
    (type u : Text) (d c : ℤ)
    → to_lower type ≡ u
    → trim_space u ≡ u
    → (text_eq u (text "asset") || text_eq u (text "expense")) ≡ true
    → normal_balance type d c ≡ d -64 c
unfolding normal_balance
debit_lem type u d c e h k = rw (lower_of type u e h, k)

credit_lem :
    (type u : Text) (d c : ℤ)
    → to_lower type ≡ u
    → trim_space u ≡ u
    → (text_eq u (text "asset") || text_eq u (text "expense")) ≡ false
    → normal_balance type d c ≡ c -64 d
unfolding normal_balance
credit_lem type u d c e h k = rw (lower_of type u e h, k)

-- One row more, of each type, keeps the sheet level.
module _ (r : TrialBalanceRow) (b : BalanceSheetReport) (ds cs : ℤ) (h : IsLevel b ds cs) where
  abbrev pub HasLevel : Text → Type 0
  HasLevel t =
      IsLevel
        (add_line t (line_of (record r { balance = normal_balance r.type r.debit r.credit })) b)
        (r.debit +ℤ ds) (r.credit +ℤ cs)

  abbrev Moves : Type 0
  Moves =
      ((pos_part (r.debit -64 r.credit) + neg_part r.debit + pos_part r.credit) % two64
        ≡ (neg_part (r.debit -64 r.credit) + pos_part r.debit + neg_part r.credit) % two64)
      × ((pos_part (r.credit -64 r.debit) + neg_part r.credit + pos_part r.debit) % two64
          ≡ (neg_part (r.credit -64 r.debit) + pos_part r.credit + neg_part r.debit) % two64)
      × (pos_part (r.debit +ℤ ds) + neg_part r.debit + neg_part ds
          ≡ neg_part (r.debit +ℤ ds) + pos_part r.debit + pos_part ds)
      × (pos_part (r.credit +ℤ cs) + neg_part r.credit + neg_part cs
          ≡ neg_part (r.credit +ℤ cs) + pos_part r.credit + pos_part cs)

  moves : Moves
  moves = (
    -64_mod r.debit r.credit,
    -64_mod r.credit r.debit,
    +ℤ_parts r.debit ds,
    +ℤ_parts r.credit cs,
  )

  asset_level : to_lower r.type ≡ text "asset" → HasLevel (to_lower r.type)
  unfolding trim_space
  asset_level e =
      rw (debit_lem r.type (text "asset") r.debit r.credit e refl refl, e)
        (omega (arith, h, moves, +64_mod (r.debit -64 r.credit) b.total_assets))

  liability_level : to_lower r.type ≡ text "liability" → HasLevel (to_lower r.type)
  unfolding trim_space
  liability_level e =
      rw (credit_lem r.type (text "liability") r.debit r.credit e refl refl, e)
        (omega (arith, h, moves, +64_mod (r.credit -64 r.debit) b.total_liabilities))

  equity_level : to_lower r.type ≡ text "equity" → HasLevel (to_lower r.type)
  unfolding trim_space
  equity_level e =
      rw (credit_lem r.type (text "equity") r.debit r.credit e refl refl, e)
        (omega (arith, h, moves, +64_mod (r.credit -64 r.debit) b.total_equity))

  revenue_level : to_lower r.type ≡ text "revenue" → HasLevel (to_lower r.type)
  unfolding trim_space
  revenue_level e =
      rw (credit_lem r.type (text "revenue") r.debit r.credit e refl refl, e)
        (omega (arith, h, moves, +64_mod b.current_earnings (r.credit -64 r.debit)))

  income_level : to_lower r.type ≡ text "income" → HasLevel (to_lower r.type)
  unfolding trim_space
  income_level e =
      rw (credit_lem r.type (text "income") r.debit r.credit e refl refl, e)
        (omega (arith, h, moves, +64_mod b.current_earnings (r.credit -64 r.debit)))

  expense_level : to_lower r.type ≡ text "expense" → HasLevel (to_lower r.type)
  unfolding trim_space
  expense_level e =
      rw (debit_lem r.type (text "expense") r.debit r.credit e refl refl, e)
        (omega (arith, h, moves, -64_mod b.current_earnings (r.debit -64 r.credit)))

  pub place-IsLevel : IsAccountType (to_lower r.type) → HasLevel (to_lower r.type)
  place-IsLevel (inl e) = asset_level e
  place-IsLevel (inr (inl e)) = liability_level e
  place-IsLevel (inr (inr (inl e))) = equity_level e
  place-IsLevel (inr (inr (inr (inl e)))) = revenue_level e
  place-IsLevel (inr (inr (inr (inr (inl e))))) = income_level e
  place-IsLevel (inr (inr (inr (inr (inr e))))) = expense_level e
