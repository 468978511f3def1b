-- ===== src/Reports/Tests.antt =====
-- Runs on the books of one sale in cash.
use d5net_billing.Prelude.{◌≡◌, refl, true, [], ◌∷◌, inl, inr}
use d5net_billing.Prelude.Int.{pos, ◌+ℤ◌, ◌-ℤ◌}
use d5net_billing.Prelude.Int64.{wrap64, ◌+64◌, ◌-64◌}
use d5net_billing.Prelude.Text.{text, trim_space}
use d5net_billing.Reports.{
  TrialBalanceRow, balance_sheet, profit_and_loss, trial_balance, account_balances, normal_balance,
}
use d5net_billing.Reports.Balance.{sum_debit, sum_credit, balance_sheet-balanced}

abbrev cash : TrialBalanceRow
cash = record {
  account_id = 1;
  code = text "1110";
  name = [];
  type = text "asset";
  debit = pos 100;
  credit = pos 0;
  balance = pos 100;
}

abbrev sales : TrialBalanceRow
sales = record {
  account_id = 2;
  code = text "4100";
  name = [];
  type = text "revenue";
  debit = pos 0;
  credit = pos 100;
  balance = pos 100;
}

sheet_balances : (balance_sheet (cash ∷ sales ∷ [])).balanced ≡ true
unfolding balance_sheet ◌+64◌ ◌-64◌ wrap64 ◌+ℤ◌ ◌-ℤ◌
sheet_balances = refl

profit_of_sale : (profit_and_loss (cash ∷ sales ∷ [])).profit ≡ pos 100
unfolding profit_and_loss ◌+64◌ ◌-64◌ wrap64 ◌+ℤ◌ ◌-ℤ◌
profit_of_sale = refl

trial_debits : (trial_balance [] (cash ∷ sales ∷ [])).total_debit ≡ pos 100
unfolding trial_balance normal_balance trim_space ◌+64◌ ◌-64◌ wrap64 ◌+ℤ◌ ◌-ℤ◌
trial_debits = refl

sums_agree : sum_debit (cash ∷ sales ∷ []) ≡ sum_credit (cash ∷ sales ∷ [])
unfolding ◌+ℤ◌
sums_agree = refl

balance_sheet-balanced_example :
    (balance_sheet (account_balances (cash ∷ sales ∷ []))).balanced ≡ true
balance_sheet-balanced_example =
    balance_sheet-balanced (cash ∷ sales ∷ []) (inl refl, (inr (inr (inr (inl refl))), tt))
      sums_agree
