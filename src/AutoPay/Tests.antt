-- ===== src/AutoPay/Tests.antt =====
-- A run on the sample tables, and the theorem about settling at them.
use d5net_billing.Prelude.{◌≡◌, refl, [], ◌∷◌, true}
use d5net_billing.Prelude.Int.{pos, ◌+ℤ◌, ◌-ℤ◌}
use d5net_billing.Prelude.Int64.{wrap64, ◌-64◌}
use d5net_billing.Prelude.Text.{trim_space}
use d5net_billing.Db.{monad, update_rows, count_rows}
use d5net_billing.Db.Samples.{sample_world}
use d5net_billing.Invoices.{is_open_status}
use d5net_billing.Payments.{normalize_status, add_payment}
use d5net_billing.Wallet.{add_balance}
use d5net_billing.Wallet.Tests.{balances}
use d5net_billing.AutoPay.{auto_settle_customer}
use d5net_billing.AutoPay.Settles.{Settling, auto_settle_customer-Settling}

settles : balances ((auto_settle_customer true 7 20 sample_world).1.db.wallets) ≡ pos 15_000 ∷ []
unfolding auto_settle_customer monad update_rows count_rows add_balance add_payment normalize_status
    trim_space ◌+ℤ◌ ◌-64◌ wrap64 ◌-ℤ◌ is_open_status
settles = refl

auto_settle_customer-Settling_example :
    Settling 7 20 sample_world (auto_settle_customer true 7 20 sample_world)
auto_settle_customer-Settling_example = auto_settle_customer-Settling 7 20 sample_world
