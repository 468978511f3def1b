-- ===== src/Reports.antt =====
-- internal/store/ledger.go: the accounting reports as functions of the sums per account that the
-- database reads; dates are left out. Sums wrap at 64 bits, so that the order of their terms does not matter.
pub mod Level
pub mod Balance
mod Tests
use d5net_billing.Prelude.{
  ℕ, Bool, true, false, not, ◌&&◌, ◌||◌, List, [], ◌∷◌, ◌==◌, keep, if◌then◌else◌,
}
use d5net_billing.Prelude.Int.{ℤ, pos, eqb_ℤ}
use d5net_billing.Prelude.Int64.{◌+64◌, ◌-64◌}
use d5net_billing.Prelude.Text.{Text, text, text_eq, trim_space, to_lower}

-- NormalBalance
unfoldable pub normal_balance : Text → ℤ → ℤ → ℤ
normal_balance type debit credit =
    let t = to_lower (trim_space type) in
    if text_eq t (text "asset") || text_eq t (text "expense")
    then debit -64 credit
    else credit -64 debit

pub record TrialBalanceRow : Type 0 where
  pub account_id : ℕ
  pub code : Text
  pub name : Text
  pub type : Text
  pub debit : ℤ
  pub credit : ℤ
  pub balance : ℤ

-- accountBalances: the loop that sets the balance of each row of the query.
unfoldable pub account_balances : List TrialBalanceRow → List TrialBalanceRow
unfolding normal_balance
account_balances [] = []
account_balances (r ∷ rs) =
    record r { balance = normal_balance r.type r.debit r.credit } ∷ account_balances rs

-- The sums of an account before the period.
pub record Opening : Type 0 where
  pub account_id : ℕ
  pub debit : ℤ
  pub credit : ℤ

abbrev pub opening_of : ℕ → List Opening → Opening
opening_of k [] = record { account_id = k; debit = pos 0; credit = pos 0 }
opening_of k (o ∷ os) = if o.account_id == k then o else opening_of k os

abbrev pub is_zero : ℤ → Bool
is_zero n = eqb_ℤ n (pos 0)

pub record TrialBalance : Type 0 where
  pub rows : List TrialBalanceRow
  pub total_debit : ℤ
  pub total_credit : ℤ

abbrev pub idle_row : List Opening → TrialBalanceRow → Bool
idle_row os r =
    let o = opening_of r.account_id os in
    is_zero (r.debit +64 o.debit) && is_zero (r.credit +64 o.credit)

abbrev pub closed_row : List Opening → TrialBalanceRow → TrialBalanceRow
closed_row os r =
    let o = opening_of r.account_id os in
    record r { balance = normal_balance r.type (r.debit +64 o.debit) (r.credit +64 o.credit) }

abbrev pub add_row : TrialBalanceRow → TrialBalance → TrialBalance
add_row r tb = record {
  rows = r ∷ tb.rows;
  total_debit = r.debit +64 tb.total_debit;
  total_credit = r.credit +64 tb.total_credit;
}

-- TrialBalance
unfoldable pub trial_balance : List Opening → List TrialBalanceRow → TrialBalance
unfolding normal_balance
trial_balance os [] = record { rows = []; total_debit = pos 0; total_credit = pos 0 }
trial_balance os (r ∷ rs) =
    let rest = trial_balance os rs in if idle_row os r then rest else add_row (closed_row os r) rest

abbrev pub unmoved : TrialBalanceRow → Bool
unmoved r = is_zero r.debit && is_zero r.credit

abbrev pub is_revenue : Text → Bool
is_revenue t = text_eq t (text "revenue") || text_eq t (text "income")

pub record Line : Type 0 where
  pub code : Text
  pub name : Text
  pub amount : ℤ

abbrev pub line_of : TrialBalanceRow → Line
line_of r = record { code = r.code; name = r.name; amount = r.balance }

pub record PnlReport : Type 0 where
  pub revenue : ℤ
  pub expense : ℤ
  pub profit : ℤ
  pub revenue_accounts : List Line
  pub expense_accounts : List Line

abbrev pub add_pnl : TrialBalanceRow → PnlReport → PnlReport
add_pnl r p =
    let t = to_lower r.type in
    if is_revenue t
    then record p {
      revenue = r.balance +64 p.revenue;
      revenue_accounts = line_of r ∷ p.revenue_accounts;
    }
    else (if text_eq t (text "expense")
        then record p {
          expense = r.balance +64 p.expense;
          expense_accounts = line_of r ∷ p.expense_accounts;
        }
        else p)

abbrev pub pnl_sums : List TrialBalanceRow → PnlReport
pnl_sums [] = record {
  revenue = pos 0;
  expense = pos 0;
  profit = pos 0;
  revenue_accounts = [];
  expense_accounts = [];
}
pnl_sums (r ∷ rs) = let rest = pnl_sums rs in if unmoved r then rest else add_pnl r rest

-- ProfitAndLoss
unfoldable pub profit_and_loss : List TrialBalanceRow → PnlReport
profit_and_loss rs =
    let sums = pnl_sums rs in record sums { profit = sums.revenue -64 sums.expense }

pub record BalanceSheetReport : Type 0 where
  pub assets : List Line
  pub liabilities : List Line
  pub equity : List Line
  pub total_assets : ℤ
  pub total_liabilities : ℤ
  pub total_equity : ℤ
  pub current_earnings : ℤ
  pub total_liabilities_equity : ℤ
  pub balanced : Bool

-- The switch on the type of an account.
abbrev pub add_line : Text → Line → BalanceSheetReport → BalanceSheetReport
add_line t l b =
    if text_eq t (text "asset")
    then record b { assets = l ∷ b.assets; total_assets = l.amount +64 b.total_assets }
    else (if text_eq t (text "liability")
        then record b {
          liabilities = l ∷ b.liabilities;
          total_liabilities = l.amount +64 b.total_liabilities;
        }
        else (if text_eq t (text "equity")
            then record b { equity = l ∷ b.equity; total_equity = l.amount +64 b.total_equity }
            else (if is_revenue t
                then record b { current_earnings = b.current_earnings +64 l.amount }
                else (if text_eq t (text "expense")
                    then record b { current_earnings = b.current_earnings -64 l.amount }
                    else b))))

abbrev pub sheet_sums : List TrialBalanceRow → BalanceSheetReport
sheet_sums [] = record {
  assets = [];
  liabilities = [];
  equity = [];
  total_assets = pos 0;
  total_liabilities = pos 0;
  total_equity = pos 0;
  current_earnings = pos 0;
  total_liabilities_equity = pos 0;
  balanced = false;
}
sheet_sums (r ∷ rs) =
    let rest = sheet_sums rs in
    if unmoved r then rest else add_line (to_lower r.type) (line_of r) rest

-- BalanceSheet
unfoldable pub balance_sheet : List TrialBalanceRow → BalanceSheetReport
balance_sheet rs =
    let sums = sheet_sums rs in
    let other = (sums.total_liabilities +64 sums.total_equity) +64 sums.current_earnings in
    record sums { total_liabilities_equity = other; balanced = eqb_ℤ sums.total_assets other }
