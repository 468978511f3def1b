-- ===== src/Db/Samples.antt =====
-- Small tables for tests: a tenant 7 with a customer 20, an invoice over 100000 and its payments.
use d5net_billing.Prelude.{◌==◌, true, false, none, some, [], ◌∷◌, ℕ}
use d5net_billing.Prelude.Int.{pos}
use d5net_billing.Prelude.Text.{Text, text}
use d5net_billing.Db.Rows.{
  Invoice, Payment, WalletTxn, Account, CommissionEntry, PaymentIntent, Json, Db,
}
use d5net_billing.Db.Monad.{World}

abbrev pub sample_invoice : Invoice
sample_invoice = record {
  id = 1;
  tenant_id = 7;
  customer_id = 20;
  subscription_id = some 30;
  isolir_subscription_id = none;
  isolir = true;
  invoice_number = text "INV-C20-112026ABCDEF";
  subtotal = pos 100_000;
  tax_amount = pos 0;
  discount_amount = pos 0;
  total_amount = pos 100_000;
  paid_amount = pos 40_000;
  status = text "partial";
  due_date = 20_000;
  issued_at = some 1_000_000_000;
  paid_at = none;
  deleted_at = none;
  late_fee_applied_at = none;
}

abbrev pub sample_payment : Payment
sample_payment = record {
  id = 2;
  tenant_id = 7;
  customer_id = 20;
  invoice_id = some 1;
  amount = pos 40_000;
  method = text "tunai";
  reference = none;
  status = text "paid";
  sandbox = false;
  paid_at = some 2_000_000_000;
  created_at = 2_000_000_000;
  deleted_at = none;
}

abbrev pub trashed_payment : Payment
trashed_payment = record sample_payment {
  id = 3;
  amount = pos 5_000;
  deleted_at = some 3_000_000_000;
}

abbrev pub sample_topup : WalletTxn
sample_topup = record {
  id = 9;
  tenant_id = 7;
  wallet_id = 4;
  amount = pos 75_000;
  type = text "topup";
  reference = none;
  description = none;
  created_at = 1_000_000_000;
}

abbrev pub sample_commission : CommissionEntry
sample_commission = record {
  id = 12;
  tenant_id = 7;
  customer_id = 20;
  lead_id = none;
  reseller_id = some 11;
  sales_user_id = none;
  amount = pos 25_000;
  basis = text "acquisition_flat";
  status = text "pending";
  created_at = 1_000_000_000;
  paid_at = none;
}

abbrev account : ℕ → Text → Text → Account
account k code type = record { id = k; tenant_id = 7; code = code; type = type; is_active = true }

-- A checkout for the rest of the invoice, with a fee of 2500.
abbrev pub sample_intent : PaymentIntent
sample_intent = record {
  id = 12;
  tenant_id = 7;
  customer_id = 20;
  invoice_id = some 1;
  provider = text "duitku";
  external_id = text "INV-1-ABCDE";
  amount = pos 62_500;
  status = text "pending";
  metadata = (text "base_amount", Json.num (text "60000") (pos 60_000)) ∷ [];
  created_at = 8_000_000_000;
}

abbrev pub sample_db : Db
sample_db = record {
  next_id = 20;
  invoices = sample_invoice ∷ [];
  invoice_items = [];
  payments = sample_payment ∷ trashed_payment ∷ [];
  payment_intents = sample_intent ∷ [];
  wallets = record { id = 4; tenant_id = 7; customer_id = 20; balance = pos 75_000 } ∷ [];
  wallet_transactions = sample_topup ∷ [];
  chart_of_accounts =
      account 5 (text "1110") (text "asset")
      ∷ account 6 (text "2100") (text "liability")
      ∷ account 8 (text "4100") (text "revenue")
      ∷ [];
  journal_entries = [];
  journal_lines = [];
  commission_entries = sample_commission ∷ [];
  resellers = record { id = 11; tenant_id = 7; balance = pos 25_000 } ∷ [];
  commission_settings =
      record { tenant_id = 7; new_customer_amount = pos 10_000; acquisition_amount = pos 25_000 }
      ∷ [];
}

-- No statement fails.
abbrev pub sample_world : World
sample_world = record {
  db = sample_db;
  fault = λ n. false;
  tick = 0;
  now = 9_000_000_000;
  today = 20_001;
}

-- The statement of the given number fails.
abbrev pub faulty_world : ℕ → World
faulty_world k = record sample_world { fault = λ n. n == k }
