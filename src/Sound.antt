-- ===== src/Sound.antt =====
-- The two invariants that the money of the system keeps between calls: the ledger of the wallets and
-- the books of the payments.
pub mod Payments
pub mod Wallets
use d5net_billing.Prelude.{ℕ, ◌≤◌, ◌≡◌, List}
use d5net_billing.Db.{JournalLine, Db}
use d5net_billing.Payments.Books.{Books, Books-frame}
use d5net_billing.Wallet.Ledger.{Ledger, IsBalanced}
use d5net_billing.Wallet.Keeps.{same-Ledger}

abbrev pub IsSoundDb : Db → Type 0
IsSoundDb d = Ledger d × Books d

abbrev pub Keeps : {A : Type 0} → A → Db → Type 0
Keeps a d = IsSoundDb d

abbrev pub Nothing : Db → Type 0
Nothing d = Unit
