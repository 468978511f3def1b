-- ===== src/Webhook/Tests.antt =====
-- Deliveries to the sample tables, and the theorems at them. When only the statement that marks the
-- intent fails, a second delivery of the same notification records the payment again.
use d5net_billing.Prelude.{◌≡◌, refl, [], ◌∷◌, true, arith, List}
use d5net_billing.Prelude.Int.{ℤ, pos, ◌+ℤ◌, ◌<ℤ◌, ◌≤ℤ◌}
use d5net_billing.Prelude.Int64.{wrap64}
use d5net_billing.Prelude.Text.{Text, text, trim_space}
use d5net_billing.Db.{PaymentIntent, Payment, World, monad, pure, update_rows, count_rows, set_rows}
use d5net_billing.Db.Samples.{sample_db, sample_world, sample_intent, faulty_world}
use d5net_billing.Invoices.{get_invoice}
use d5net_billing.Payments.{normalize_status, is_paid_status, add_payment}
use d5net_billing.Payments.Tests.{sample-Books}
use d5net_billing.Wallet.Tests.{sample-Ledger}
use d5net_billing.Sound.{IsSoundDb}
use d5net_billing.Methods.{method_from_provider}
use d5net_billing.Webhook.{
  Effects, WebhookEvent, paid_amount_of, base_amount, meta_string, complete_paid_webhook,
}
use d5net_billing.Webhook.Amounts.{IsSoundIntent, paid_amount_of_bounds}
use d5net_billing.Webhook.Parts.{IsApart}
use d5net_billing.Webhook.Keeps.{complete_paid_webhook-Sound}

-- Effects that do nothing, and texts that are no numbers.
abbrev pub quiet : Effects
quiet = record {
  wallet_enabled = λ t. true;
  parse_int = λ s. pos 0;
  sscan = λ s. pos 0;
  resume_after_invoice_paid = λ t inv. pure tt;
  send_wallet_topup = λ pi a b. pure tt;
  after_settle = λ t rs. pure tt;
  dispatch_outbound_event = λ t event. pure tt;
  send_payment_confirmation = λ pi inv a. pure tt;
}

pub quiet-IsApart : IsApart quiet
unfolding pure
quiet-IsApart = record {
  resume = λ t inv w. refl;
  topup = λ pi a b w. refl;
  settle = λ t rs w. refl;
  outbound = λ t event w. refl;
  confirm = λ pi inv a w. refl;
}

abbrev pub event : WebhookEvent
event = record {
  external_id = text "INV-1-ABCDE";
  status = text "paid";
  amount = pos 62_500;
  reference = text "TRX9";
  raw = [];
}

pub sample_intent-IsSoundIntent : IsSoundIntent quiet sample_intent
sample_intent-IsSoundIntent = record {
  positive = omega arith;
  fits = (omega arith, omega arith);
  base_fits = (omega arith, omega arith);
}

abbrev amounts : List Payment → List ℤ
amounts [] = []
amounts (p ∷ ps) = p.amount ∷ amounts ps

abbrev statuses : List PaymentIntent → List Text
statuses [] = []
statuses (pi ∷ pis) = pi.status ∷ statuses pis

deliver : World → World
deliver w = (complete_paid_webhook quiet (text "duitku") event w).1

marks : statuses ((deliver sample_world).db.payment_intents) ≡ text "paid" ∷ []
unfolding deliver complete_paid_webhook monad update_rows count_rows set_rows add_payment
    normalize_status is_paid_status trim_space paid_amount_of ◌+ℤ◌ wrap64 method_from_provider
    meta_string get_invoice
marks = refl

records_share :
    amounts ((deliver sample_world).db.payments) ≡ pos 60_000 ∷ amounts (sample_db.payments)
unfolding deliver complete_paid_webhook monad update_rows count_rows set_rows add_payment
    normalize_status is_paid_status trim_space paid_amount_of ◌+ℤ◌ wrap64 method_from_provider
    meta_string get_invoice
records_share = refl

records_once :
    amounts ((deliver (deliver sample_world)).db.payments)
    ≡ pos 60_000 ∷ amounts (sample_db.payments)
unfolding deliver complete_paid_webhook monad update_rows count_rows set_rows add_payment
    normalize_status is_paid_status trim_space paid_amount_of ◌+ℤ◌ wrap64 method_from_provider
    meta_string get_invoice
records_once = refl

-- Statement 9 of the first delivery is the UPDATE of the intent.
records_again :
    amounts ((deliver (deliver (faulty_world 9))).db.payments)
    ≡ pos 60_000 ∷ pos 60_000 ∷ amounts (sample_db.payments)
unfolding deliver complete_paid_webhook monad update_rows count_rows set_rows add_payment
    normalize_status is_paid_status trim_space paid_amount_of ◌+ℤ◌ wrap64 method_from_provider
    meta_string get_invoice
records_again = refl

complete_paid_webhook-Sound_example :
    IsSoundDb (complete_paid_webhook quiet (text "duitku") event (faulty_world 9)).1.db
complete_paid_webhook-Sound_example =
    complete_paid_webhook-Sound quiet quiet-IsApart (text "duitku") event (faulty_world 9)
      (sample_intent-IsSoundIntent, tt) (omega arith, omega arith) (sample-Ledger, sample-Books)

paid_amount_of_bounds_example :
    (pos 0 <ℤ paid_amount_of quiet sample_intent event)
    × (paid_amount_of quiet sample_intent event ≤ℤ base_amount quiet sample_intent)
paid_amount_of_bounds_example =
    paid_amount_of_bounds quiet sample_intent sample_intent-IsSoundIntent event
