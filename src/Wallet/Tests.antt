-- ===== src/Wallet/Tests.antt =====
-- Runs on the sample tables, and the theorems about wallets at them.
use d5net_billing.Prelude.{◌≡◌, refl, List, [], ◌∷◌, arith}
use d5net_billing.Prelude.Int.{ℤ, pos, ◌+ℤ◌, ◌-ℤ◌}
use d5net_billing.Prelude.Int64.{wrap64, ◌-64◌}
use d5net_billing.Prelude.Text.{text, trim_space}
use d5net_billing.Db.{Wallet, Outcome, World, ok, monad, update_rows, count_rows}
use d5net_billing.Db.Samples.{sample_db, sample_world, faulty_world}
use d5net_billing.Payments.{normalize_status, add_payment}
use d5net_billing.Wallet.{topup_wallet, credit_wallet, pay_invoice_from_wallet, add_balance}
use d5net_billing.Wallet.Ledger.{txn_sum, debit_sum, credit_sum, Ledger}
use d5net_billing.Wallet.Pay.{
  topup_wallet-Ledger, credit_wallet-Ledger, pay_invoice_from_wallet-Ledger,
}
use d5net_billing.Payments.Books.{Books}
use d5net_billing.Payments.Tests.{sample-Books}
use d5net_billing.Wallet.Books.{pay_invoice_from_wallet-Books}
use d5net_billing.Wallet.Views.{view}
use d5net_billing.Wallet.Machine.{
  Call, topup, credit, pay, Steps, answers, after_all, now, after_all-Steps,
}
use d5net_billing.Wallet.Live.{topup_wallet-Succeeds}
use d5net_billing.Wallet.Settles.{Answer, pay_invoice_from_wallet-Answer}

pub sample-Ledger : Ledger sample_db
unfolding txn_sum debit_sum credit_sum ◌+ℤ◌
sample-Ledger = record {
  balances = (refl, tt);
  funded = (omega arith, tt);
  unique = (tt, tt);
  fresh = (omega arith, tt);
  old = (omega arith, tt);
  balanced = λ e. refl;
}

abbrev pub balances : List Wallet → List ℤ
balances [] = []
balances (wl ∷ wls) = wl.balance ∷ balances wls

pays_rest : balances (pay_invoice_from_wallet 7 20 1 sample_world).1.db.wallets ≡ pos 15_000 ∷ []
unfolding pay_invoice_from_wallet monad update_rows count_rows add_balance add_payment
    normalize_status trim_space ◌+ℤ◌ ◌-64◌ wrap64 ◌-ℤ◌
pays_rest = refl

tops_up :
    balances (topup_wallet 7 20 (pos 500) [] [] [] sample_world).1.db.wallets ≡ pos 75_500 ∷ []
unfolding topup_wallet monad update_rows add_balance trim_space ◌+ℤ◌ wrap64
tops_up = refl

topup_wallet-Ledger_example : Ledger (topup_wallet 7 20 (pos 500) [] [] [] sample_world).1.db
topup_wallet-Ledger_example = topup_wallet-Ledger 7 20 (pos 500) [] [] [] sample_world sample-Ledger

credit_wallet-Ledger_example :
    Ledger (credit_wallet 7 21 (pos 500) (text "refund") [] [] sample_world).1.db
credit_wallet-Ledger_example =
    credit_wallet-Ledger 7 21 (pos 500) (text "refund") [] [] sample_world (omega arith)
      sample-Ledger

pay_invoice_from_wallet-Ledger_example :
    Ledger (pay_invoice_from_wallet 7 20 1 (faulty_world 9)).1.db
pay_invoice_from_wallet-Ledger_example =
    pay_invoice_from_wallet-Ledger 7 20 1 (faulty_world 9) sample-Ledger

pay_invoice_from_wallet-Answer_example :
    Outcome
      (Answer 7 20 1 sample_db)
      (λ d. d ≡ sample_db)
      (pay_invoice_from_wallet 7 20 1 sample_world)
pay_invoice_from_wallet-Answer_example = pay_invoice_from_wallet-Answer 7 20 1 sample_world

pay_invoice_from_wallet-Books_example : Books (pay_invoice_from_wallet 7 20 1 (faulty_world 9)).1.db
pay_invoice_from_wallet-Books_example =
    pay_invoice_from_wallet-Books 7 20 1 (faulty_world 9) sample-Books

abbrev busy_day : List Call
busy_day =
    topup 7 21 (pos 500) [] [] []
    ∷ pay 7 20 1
    ∷ credit 7 21 (pos 40) (text "refund") [] []
    ∷ pay 7 20 1
    ∷ []

after_all-Steps_example :
    Steps busy_day
      (answers busy_day (faulty_world 9))
      (now (faulty_world 9))
      (now (after_all busy_day (faulty_world 9)))
after_all-Steps_example =
    after_all-Steps busy_day (faulty_world 9) (tt, (tt, (omega arith, (tt, tt)))) sample-Ledger

topup_wallet-Succeeds_example :
    (v : World) × (topup_wallet 7 20 (pos 500) [] [] [] sample_world
      ≡ (ok (view sample_db.wallets 7 20 +ℤ pos 500), v))
unfolding ◌+ℤ◌
topup_wallet-Succeeds_example =
    topup_wallet-Succeeds 7 20 (pos 500) [] [] [] sample_world (λ n. refl) (tt, tt) (omega arith)
      (omega arith, omega arith)
