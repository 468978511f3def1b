-- ===== src/AutoPay.antt =====
-- internal/billing/wallet.go: settling invoices from the wallet, oldest first, and the query of
-- internal/store/wallet.go for them. Whether the tenant uses wallets is an argument, a setting that
-- WalletEnabled reads. The invoice, items and customer that the result also carries are left out.
pub mod Keeps
pub mod Agenda
pub mod Settles
mod Tests
use d5net_billing.Prelude.{
  ℕ, Bool, true, false, not, ◌&&◌, ◌||◌, Option, none, some, List, [], ◌∷◌, ltb, leb, ◌==◌, is_null,
  keep, sort_by, if◌then◌else◌,
}
use d5net_billing.Prelude.Int.{ℤ, pos, ltb_ℤ}
use d5net_billing.Db.{
  Invoice, InvoiceItem, Payment, Db, World, Result, M, or_else, pure, select, set_tenant_context,
  ◌>>=◌, ◌>>◌,
}
use d5net_billing.Invoices.{get_invoice, is_open_status}
use d5net_billing.Wallet.{get_wallet, pay_invoice_from_wallet}

pub record WalletAutoPayResult : Type 0 where
  pub wallet_enabled : Bool
  pub paid : Bool
  pub balance : ℤ
  pub payment : Option Payment

abbrev pub has_subscription : Option ℕ → Bool
has_subscription none = false
has_subscription (some k) = not (k == 0)

abbrev pub balance_only : ℤ → WalletAutoPayResult
balance_only b = record { wallet_enabled = true; paid = false; balance = b; payment = none }

abbrev pub disabled : WalletAutoPayResult
disabled = record { wallet_enabled = false; paid = false; balance = pos 0; payment = none }

abbrev pub is_made : Option Payment → Bool
is_made none = false
is_made (some p) = true

abbrev pub answered : Option Payment → ℤ → WalletAutoPayResult
answered p b = record { wallet_enabled = true; paid = is_made p; balance = b; payment = p }

-- TryAutoPayInvoice
unfoldable pub try_auto_pay_invoice : Bool → ℕ → ℕ → M WalletAutoPayResult
unfolding get_invoice get_wallet pay_invoice_from_wallet or_else
try_auto_pay_invoice enabled t k =
    let try : M WalletAutoPayResult = (do
      (inv, items) ← get_invoice false t k
      customer ← or_else tt (select λ w. tt)
      let balance = or_else (pos 0) (get_wallet t inv.customer_id)
      let show : M WalletAutoPayResult = (balance >>= λ b. pure (balance_only b))
      let pay : M WalletAutoPayResult = (do
        p ← pay_invoice_from_wallet t inv.customer_id k
        b ← balance
        pure (answered p b))
      if has_subscription inv.subscription_id then pay else show) in
    if enabled then try else pure disabled

-- … deleted_at IS NULL AND status IN (…) AND total_amount > paid_amount AND subscription_id IS NOT NULL
abbrev pub is_outstanding : ℕ → ℕ → Bool → Invoice → Bool
is_outstanding t c subscription_only i =
    i.tenant_id == t
    && i.customer_id == c
    && is_null i.deleted_at
    && is_open_status i.status
    && ltb_ℤ i.paid_amount i.total_amount
    && (not subscription_only || not (is_null i.subscription_id))

abbrev pub nulls_first : Option ℕ → Option ℕ → Bool
nulls_first none b = true
nulls_first (some a) none = false
nulls_first (some a) (some b) = leb a b

-- ORDER BY due_date ASC, issued_at ASC NULLS FIRST
abbrev pub comes_before : Invoice → Invoice → Bool
comes_before a b =
    ltb a.due_date b.due_date || (a.due_date == b.due_date && nulls_first a.issued_at b.issued_at)

abbrev pub ids_of : List Invoice → List ℕ
ids_of [] = []
ids_of (i ∷ is) = i.id ∷ ids_of is

-- outstandingInvoiceIDs
unfoldable pub outstanding_invoice_ids : ℕ → ℕ → Bool → M (List ℕ)
outstanding_invoice_ids t c subscription_only = do
  set_tenant_context
  select
      λ w. ids_of (sort_by comes_before (keep (is_outstanding t c subscription_only) w.db.invoices))

-- The loop of AutoSettleCustomer: it stops at the first invoice that is not paid.
unfoldable pub settle_all : Bool → ℕ → List ℕ → M (List WalletAutoPayResult)
unfolding try_auto_pay_invoice
settle_all enabled t [] = pure []
settle_all enabled t (k ∷ ks) = try_auto_pay_invoice enabled t k >>= λ res.
    let more : M (List WalletAutoPayResult) =
      (settle_all enabled t ks >>= λ results. pure (res ∷ results)) in
    if res.paid then more else pure []

-- AutoSettleCustomer
unfoldable pub auto_settle_customer : Bool → ℕ → ℕ → M (List WalletAutoPayResult)
unfolding outstanding_invoice_ids settle_all
auto_settle_customer enabled t c =
    let settle : M (List WalletAutoPayResult) =
      (outstanding_invoice_ids t c true >>= λ ks. settle_all enabled t ks) in
    if enabled then settle else pure []
