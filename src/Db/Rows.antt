-- ===== src/Db/Rows.antt =====
-- The rows of the tables, as the structs of internal/store and the columns of migrations/ have them.
-- An id is a number, 0 the nil UUID; a date counts days and a time stamp nanoseconds.
use d5net_billing.Prelude.{ℕ, Bool, Option, List}
use d5net_billing.Prelude.Int.{ℤ}
use d5net_billing.Prelude.Text.{Text}

pub record Invoice : Type 0 where
  pub id : ℕ
  pub tenant_id : ℕ
  pub customer_id : ℕ
  pub subscription_id : Option ℕ
  pub isolir_subscription_id : Option ℕ
  pub isolir : Bool
  pub invoice_number : Text
  pub subtotal : ℤ
  pub tax_amount : ℤ
  pub discount_amount : ℤ
  pub total_amount : ℤ
  pub paid_amount : ℤ
  pub status : Text
  pub due_date : ℕ
  pub issued_at : Option ℕ
  pub paid_at : Option ℕ
  pub deleted_at : Option ℕ
  pub late_fee_applied_at : Option ℕ

-- `invoice_id` is a column of invoice_items that the Go struct leaves out.
pub record InvoiceItem : Type 0 where
  pub id : ℕ
  pub tenant_id : ℕ
  pub invoice_id : ℕ
  pub description : Text
  pub quantity : ℤ
  pub unit_price : ℤ
  pub amount : ℤ

pub record Payment : Type 0 where
  pub id : ℕ
  pub tenant_id : ℕ
  pub customer_id : ℕ
  pub invoice_id : Option ℕ
  pub amount : ℤ
  pub method : Text
  pub reference : Option Text
  pub status : Text
  pub sandbox : Bool
  pub paid_at : Option ℕ
  pub created_at : ℕ
  pub deleted_at : Option ℕ

-- A value of a JSON object, as far as the code reads it; a number is its text and what Go's int64(v)
-- makes of it.
pub data Json : Type 0 where
  str : Text → Json
  num : Text → ℤ → Json
  flag : Bool → Json
  other : Json

abbrev pub JsonObject : Type 0
JsonObject = List (Text × Json)

-- `metadata` without the texts of QR codes and links.
pub record PaymentIntent : Type 0 where
  pub id : ℕ
  pub tenant_id : ℕ
  pub customer_id : ℕ
  pub invoice_id : Option ℕ
  pub provider : Text
  pub external_id : Text
  pub amount : ℤ
  pub status : Text
  pub metadata : JsonObject
  pub created_at : ℕ

pub record Wallet : Type 0 where
  pub id : ℕ
  pub tenant_id : ℕ
  pub customer_id : ℕ
  pub balance : ℤ

pub record WalletTxn : Type 0 where
  pub id : ℕ
  pub tenant_id : ℕ
  pub wallet_id : ℕ
  pub amount : ℤ
  pub type : Text
  pub reference : Option Text
  pub description : Option Text
  pub created_at : ℕ

pub record Account : Type 0 where
  pub id : ℕ
  pub tenant_id : ℕ
  pub code : Text
  pub type : Text
  pub is_active : Bool

pub record JournalEntry : Type 0 where
  pub id : ℕ
  pub tenant_id : ℕ
  pub entry_date : ℕ
  pub reference : Option Text
  pub description : Text
  pub source_type : Option Text
  pub source_id : Option ℕ

pub record JournalLine : Type 0 where
  pub tenant_id : ℕ
  pub entry_id : ℕ
  pub account_id : ℕ
  pub debit : ℤ
  pub credit : ℤ

pub record CommissionEntry : Type 0 where
  pub id : ℕ
  pub tenant_id : ℕ
  pub customer_id : ℕ
  pub lead_id : Option ℕ
  pub reseller_id : Option ℕ
  pub sales_user_id : Option ℕ
  pub amount : ℤ
  pub basis : Text
  pub status : Text
  pub created_at : ℕ
  pub paid_at : Option ℕ

-- The setting of key commission.new_customer_amount.
pub record CommissionSettings : Type 0 where
  pub tenant_id : ℕ
  pub new_customer_amount : ℤ
  pub acquisition_amount : ℤ

pub record Reseller : Type 0 where
  pub id : ℕ
  pub tenant_id : ℕ
  pub balance : ℤ

-- `next_id` stands for the random ids of new rows: it is never handed out twice.
pub record Db : Type 0 where
  pub next_id : ℕ
  pub invoices : List Invoice
  pub invoice_items : List InvoiceItem
  pub payments : List Payment
  pub payment_intents : List PaymentIntent
  pub wallets : List Wallet
  pub wallet_transactions : List WalletTxn
  pub chart_of_accounts : List Account
  pub journal_entries : List JournalEntry
  pub journal_lines : List JournalLine
  pub commission_entries : List CommissionEntry
  pub resellers : List Reseller
  pub commission_settings : List CommissionSettings
