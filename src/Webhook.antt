-- ===== src/Webhook.antt =====
-- internal/handlers/provision_helpers.go, checkout.go and wallet.go, internal/store/webhook_ops.go:
-- what a verified notification of a payment gateway does.
pub mod Amounts
pub mod Parts
pub mod Keeps
pub mod Tests
use d5net_billing.Prelude.{
  ℕ, Bool, true, false, not, ◌&&◌, ◌||◌, Option, none, some, List, [], ◌∷◌, ◌++◌, ltb, is_id, ◌==◌,
  if◌then◌else◌,
}
use d5net_billing.Prelude.Int.{ℤ, pos, ltb_ℤ, leb_ℤ}
use d5net_billing.Prelude.Text.{Text, text, text_eq, trim_space, to_lower}
use d5net_billing.Db.{
  Invoice, InvoiceItem, Payment, PaymentIntent, Json, JsonObject, str, num, flag, other, Db, World,
  M, ⊤, Result, Error, ok, err, not_found, pure, gets, select, write, ◌>>=◌, ◌>>◌, or_else,
  set_rows,
}
use d5net_billing.Invoices.{get_invoice}
use d5net_billing.Payments.{record_payment, is_empty}
use d5net_billing.Wallet.{topup_wallet, credit_wallet}
use d5net_billing.AutoPay.{WalletAutoPayResult, auto_settle_customer}
use d5net_billing.Journal.{find_cash_and_revenue_accounts, record_payment_journal}
use d5net_billing.Methods.{method_from_provider}

pub record WebhookEvent : Type 0 where
  pub external_id : Text
  pub status : Text
  pub amount : ℤ
  pub reference : Text
  pub raw : JsonObject

-- m[key]
abbrev pub value_at : Text → JsonObject → Json
value_at key [] = other
value_at key ((k, v) ∷ m) = if text_eq k key then v else value_at key m

abbrev pub string_of : Json → Text
string_of (str s) = s
string_of _ = []

-- metaString
unfoldable pub meta_string : JsonObject → Text → Text
meta_string m key = trim_space (string_of (value_at key m))

abbrev pub is_set : Json → Bool
is_set (flag b) = b
is_set _ = false

-- intentSandbox
abbrev pub intent_sandbox : JsonObject → Bool
intent_sandbox m =
    is_set (value_at (text "sandbox_sim") m)
    || is_set (value_at (text "duitku_sandbox") m)
    || is_set (value_at (text "doku_sandbox") m)

-- A JSON value as SQL text; arrays and objects have a text that is no id.
abbrev pub json_text : Json → Option Text
json_text (str s) = some s
json_text (num digits n) = some digits
json_text (flag true) = some (text "true")
json_text (flag false) = some (text "false")
json_text other = none

-- metadata->>'key': NULL for a missing key
abbrev pub sql_text : Text → JsonObject → Option Text
sql_text key [] = none
sql_text key ((k, v) ∷ m) = if text_eq k key then json_text v else sql_text key m

abbrev pub is_text : Option Text → Text → Bool
is_text none e = false
is_text (some s) e = text_eq s e

-- external_id = $1 OR metadata->>'transaction_id' = $1
abbrev pub is_known_as : Text → PaymentIntent → Bool
is_known_as e pi =
    text_eq pi.external_id e || is_text (sql_text (text "transaction_id") pi.metadata) e

abbrev pub newer : Option PaymentIntent → PaymentIntent → PaymentIntent
newer none pi = pi
newer (some best) pi = if ltb best.created_at pi.created_at then pi else best

-- ORDER BY created_at DESC LIMIT 1
abbrev pub newest : Text → Option PaymentIntent → List PaymentIntent → Option PaymentIntent
newest e best [] = best
newest e best (pi ∷ pis) = newest e (if is_known_as e pi then some (newer best pi) else best) pis

-- GetPaymentIntentByExternalID; `none` is ErrNotFound.
unfoldable pub get_payment_intent_by_external_id : Text → M (Option PaymentIntent)
get_payment_intent_by_external_id e = select λ w. newest e none w.db.payment_intents

abbrev pub set_intents : (PaymentIntent → Bool) → Text → Db → Db
set_intents p status d = record d {
  payment_intents = set_rows p (λ pi. record pi { status = status }) d.payment_intents;
}

-- UpdatePaymentIntentStatus
unfoldable pub update_payment_intent_status : Text → Text → M ⊤
update_payment_intent_status e status = write λ w.
    let unpaid : PaymentIntent → Bool =
      λ pi. text_eq pi.external_id e && not (text_eq pi.status (text "paid")) in
    some (tt, set_intents unpaid status w.db)

abbrev pub is_pending : Text → Bool
is_pending s = text_eq s (text "pending") || text_eq s (text "created") || text_eq s (text "unpaid")

-- CancelPendingPaymentIntentsForInvoice
unfoldable pub cancel_pending_payment_intents_for_invoice : ℕ → ℕ → M ⊤
cancel_pending_payment_intents_for_invoice t k = write λ w.
    let pending : PaymentIntent → Bool =
      λ pi. pi.tenant_id == t && is_id pi.invoice_id k && is_pending (to_lower pi.status) in
    some (tt, set_intents pending (text "cancelled") w.db)

-- The reference of the event, or the id under which the gateway knows the intent.
abbrev pub reference_of : WebhookEvent → Text
reference_of e = if is_empty e.reference then e.external_id else e.reference

abbrev pub found_invoice :
    Result (Invoice × List InvoiceItem) × World → Result (Option Invoice) × World
found_invoice (ok (inv, items), w) = (ok (some inv), w)
found_invoice (err not_found, w) = (ok none, w)
found_invoice (err e, w) = (err e, w)

-- The invoice of the intent: none for ErrNotFound.
abbrev pub invoice_of : ℕ → Option ℕ → M (Option Invoice)
invoice_of t none w = (ok none, w)
invoice_of t (some k) w = found_invoice (get_invoice false t k w)

abbrev pub number_or : Text → Option Invoice → Text
number_or s none = s
number_or s (some inv) = inv.invoice_number

-- What the handler calls besides: whether the tenant uses wallets, the numbers that
-- strconv.ParseInt and fmt.Sscan read, and the parts that do not work on the tables modelled.
pub record Effects : Type 0 where
  pub wallet_enabled : ℕ → Bool
  pub parse_int : Text → ℤ
  pub sscan : Text → ℤ
  -- resumeAfterInvoicePaid
  pub resume_after_invoice_paid : ℕ → Invoice → M ⊤
  -- SendWalletTopup
  pub send_wallet_topup : PaymentIntent → ℤ → ℤ → M ⊤
  -- The loop of autoSettleCustomerWallet over the results: messages and resuming.
  pub after_settle : ℕ → List WalletAutoPayResult → M ⊤
  -- DispatchOutboundEvent
  pub dispatch_outbound_event : ℕ → Text → M ⊤
  -- SendPaymentConfirmation
  pub send_payment_confirmation : PaymentIntent → Option Invoice → ℤ → M ⊤

module _ (f : Effects) where
  abbrev pub int_of : Json → ℤ
  int_of (num digits n) = n
  int_of (str s) = f.parse_int (trim_space s)
  int_of _ = pos 0

  -- metaInt64
  abbrev pub meta_int64 : JsonObject → Text → ℤ
  meta_int64 m key = int_of (value_at key m)

  abbrev pub tip_of : Json → Option ℤ
  tip_of (num digits n) = some n
  tip_of (str s) = some (f.sscan s)
  tip_of _ = none

  abbrev pub first_tip : List Text → JsonObject → ℤ
  first_tip [] m = pos 0
  first_tip (key ∷ keys) m = elim (tip_of (value_at key m)) [ none ↦ first_tip keys m | some n ↦ n ]

  -- webhookTipAmount
  abbrev pub webhook_tip_amount : WebhookEvent → ℤ
  webhook_tip_amount e = first_tip (text "tip" ∷ text "tip_amount" ∷ text "tips" ∷ []) e.raw

  -- The invoice's share of the intent, without the fee of the gateway.
  abbrev pub base_amount : PaymentIntent → ℤ
  base_amount pi =
      let b = meta_int64 pi.metadata (text "base_amount") in
      if ltb_ℤ (pos 0) b then b else pi.amount

  -- The amount that completePaidWebhook records.
  unfoldable pub paid_amount_of : PaymentIntent → WebhookEvent → ℤ
  paid_amount_of pi e =
      let base = base_amount pi in
      let amount = if leb_ℤ e.amount (pos 0) then base else e.amount in
      if ltb_ℤ (pos 0) base && ltb_ℤ base amount then base else amount

  -- The amount that completeWalletTopup adds.
  abbrev pub topup_amount_of : PaymentIntent → WebhookEvent → ℤ
  topup_amount_of pi e =
      let meta = meta_int64 pi.metadata (text "topup_amount") in
      if leb_ℤ e.amount (pos 0) then (if leb_ℤ meta (pos 0) then pi.amount else meta) else e.amount

  abbrev pub webhook_payment : Text → PaymentIntent → WebhookEvent → Payment
  webhook_payment provider pi e = record {
    id = 0;
    tenant_id = pi.tenant_id;
    customer_id = pi.customer_id;
    invoice_id = pi.invoice_id;
    amount = paid_amount_of pi e;
    method = method_from_provider provider;
    reference = some (reference_of e);
    status = text "paid";
    sandbox = intent_sandbox pi.metadata;
    paid_at = none;
    created_at = 0;
    deleted_at = none;
  }

  -- autoSettleCustomerWallet
  unfoldable pub auto_settle_customer_wallet : ℕ → ℕ → M ⊤
  unfolding auto_settle_customer or_else
  auto_settle_customer_wallet t c =
      or_else tt
        (do results ← auto_settle_customer (f.wallet_enabled t) t c; f.after_settle t results)

  -- completeWalletTopup
  unfoldable pub complete_wallet_topup : PaymentIntent → WebhookEvent → M ⊤
  unfolding topup_wallet auto_settle_customer_wallet or_else
  complete_wallet_topup pi e = do
    let amount = topup_amount_of pi e
    balance ←
        topup_wallet pi.tenant_id pi.customer_id amount (text "topup") (reference_of e)
          (text "Topup saldo via " ++ pi.provider)
    or_else tt (f.send_wallet_topup pi amount balance)
    auto_settle_customer_wallet pi.tenant_id pi.customer_id

  abbrev pub cancel_of : ℕ → Option ℕ → M ⊤
  cancel_of t none = pure tt
  cancel_of t (some k) = or_else tt (cancel_pending_payment_intents_for_invoice t k)

  abbrev pub resume_of : ℕ → Option Invoice → M ⊤
  resume_of t none = pure tt
  resume_of t (some inv) = or_else tt (f.resume_after_invoice_paid t inv)

  unfoldable pub credit_tip : PaymentIntent → WebhookEvent → M ⊤
  unfolding credit_wallet or_else
  credit_tip pi e =
      let tip = webhook_tip_amount e in
      let credit : M ⊤ = or_else tt (
        credit_wallet pi.tenant_id pi.customer_id tip (text "tip") e.external_id
          (text "payment tip")) in
      if ltb_ℤ (pos 0) tip then credit else pure tt

  unfoldable pub post_payment : PaymentIntent → WebhookEvent → Option Invoice → M ⊤
  unfolding find_cash_and_revenue_accounts record_payment_journal or_else
  post_payment pi e inv = do
    accounts ← find_cash_and_revenue_accounts pi.tenant_id
    let post : M ⊤ = or_else tt (
        record_payment_journal pi.tenant_id (paid_amount_of pi e) accounts.0 accounts.1
          (number_or e.external_id inv))
    if accounts.0 == 0 || accounts.1 == 0 then pure tt else post

  -- completePaidWebhook for an intent to top up a wallet.
  unfoldable pub complete_topup : PaymentIntent → WebhookEvent → M ⊤
  unfolding complete_wallet_topup update_payment_intent_status or_else
  complete_topup pi e = do
    complete_wallet_topup pi e
    or_else tt (update_payment_intent_status pi.external_id (text "paid"))
    or_else tt (f.dispatch_outbound_event pi.tenant_id (text "wallet.topup"))

  -- completePaidWebhook for any other intent.
  unfoldable pub complete_payment : Text → PaymentIntent → WebhookEvent → M ⊤
  unfolding record_payment update_payment_intent_status cancel_pending_payment_intents_for_invoice
      credit_tip post_payment get_invoice or_else
  complete_payment provider pi e = do
    inv ← invoice_of pi.tenant_id pi.invoice_id
    record_payment (webhook_payment provider pi e)
    or_else tt (update_payment_intent_status pi.external_id (text "paid"))
    cancel_of pi.tenant_id pi.invoice_id
    resume_of pi.tenant_id inv
    credit_tip pi e
    post_payment pi e inv
    or_else tt (f.dispatch_outbound_event pi.tenant_id (text "payment.paid"))
    or_else tt (f.send_payment_confirmation pi inv (paid_amount_of pi e))

  abbrev pub complete_found : Text → WebhookEvent → Option PaymentIntent → M ⊤
  complete_found provider e none = pure tt
  complete_found provider e (some pi) =
      let complete : M ⊤ =
        (if text_eq (meta_string pi.metadata (text "purpose")) (text "wallet_topup")
          then complete_topup pi e
          else complete_payment provider pi e) in
      if text_eq pi.status (text "paid") then pure tt else complete

  -- completePaidWebhook
  unfoldable pub complete_paid_webhook : Text → WebhookEvent → M ⊤
  unfolding get_payment_intent_by_external_id complete_topup complete_payment
  complete_paid_webhook provider e =
      get_payment_intent_by_external_id e.external_id >>= complete_found provider e
