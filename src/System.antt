-- ===== src/System.antt =====
-- The money operations as one machine: a request runs one operation of internal/store,
-- internal/billing or internal/handlers on the tables, any statement of which may fail, and the
-- worlds that requests lead to.
mod Tests
use d5net_billing.Prelude.{ℕ, Bool, ◌≡◌, List, All, Option}
use d5net_billing.Prelude.Int.{ℤ, pos, ◌≤ℤ◌, ◌<ℤ◌}
use d5net_billing.Prelude.Int64.{IsInt64}
use d5net_billing.Prelude.Text.{Text}
use d5net_billing.Prelude.Float64.{Float64}
use d5net_billing.Db.{Payment, World}
use d5net_billing.Payments.{record_payment, delete_payment}
use d5net_billing.Wallet.{topup_wallet, credit_wallet, pay_invoice_from_wallet}
use d5net_billing.AutoPay.{auto_settle_customer}
use d5net_billing.Journal.{PostedLine, post_journal_entry}
use d5net_billing.Journal.Keeps.{line_total, post_journal_entry-Sound}
use d5net_billing.LateFees.{process_manual_late_fees}
use d5net_billing.LateFees.Keeps.{process_manual_late_fees-IsSoundDb}
use d5net_billing.Webhook.{Effects, WebhookEvent, complete_paid_webhook}
use d5net_billing.Webhook.Amounts.{IsSoundIntent}
use d5net_billing.Webhook.Parts.{IsApart}
use d5net_billing.Webhook.Keeps.{complete_paid_webhook-Sound}
use d5net_billing.Sound.{IsSoundDb}
use d5net_billing.Sound.Payments.{record_payment-Sound, delete_payment-Sound}
use d5net_billing.Sound.Wallets.{
  topup_wallet-Sound, credit_wallet-Sound, pay_invoice_from_wallet-Sound,
  auto_settle_customer-Sound,
}

module _ (f : Effects) (fl : Float64) where
  pub data Request : Type 0 where
    record_paid : Payment → Request
    delete_paid : ℕ → ℕ → Request
    topup : ℕ → ℕ → ℤ → Text → Text → Text → Request
    credit : ℕ → ℕ → ℤ → Text → Text → Text → Request
    pay : ℕ → ℕ → ℕ → Request
    settle : Bool → ℕ → ℕ → Request
    post : ℕ → ℕ → Text → Text → Text → Option ℕ → List PostedLine → Request
    late_fees : ℕ → fl.F → Text → Request
    notify : Text → WebhookEvent → Request

  -- The world after a request, whatever it answers.
  unfoldable pub serve : Request → World → World
  serve (record_paid p) w = (record_payment p w).1
  serve (delete_paid t k) w = (delete_payment t k w).1
  serve (topup t c a type ref desc) w = (topup_wallet t c a type ref desc w).1
  serve (credit t c a type ref desc) w = (credit_wallet t c a type ref desc w).1
  serve (pay t c k) w = (pay_invoice_from_wallet t c k w).1
  serve (settle enabled t c) w = (auto_settle_customer enabled t c w).1
  serve (post t date desc ref source id ls) w =
      (post_journal_entry t date desc ref source id ls w).1
  serve (late_fees t percent desc) w = (process_manual_late_fees fl t percent desc w).1
  serve (notify provider e) w = (complete_paid_webhook f provider e w).1

  -- What a request has to meet: amounts are positive and fit in 64 bits, a credit is not negative,
  -- posted lines balance, and the intents that a notification may find are sound.
  abbrev pub IsAdmitted : Request → World → Type 0
  IsAdmitted (record_paid p) w = (pos 0 <ℤ p.amount) × IsInt64 p.amount
  IsAdmitted (credit t c a type ref desc) w = pos 0 ≤ℤ a
  IsAdmitted (post t date desc ref source id ls) w = line_total ls ≡ pos 0
  IsAdmitted (notify provider e) w = All (IsSoundIntent f) w.db.payment_intents × IsInt64 e.amount
  IsAdmitted r w = Unit

  -- The worlds that requests lead to. Between requests time passes and other statements fail.
  pub data Reachable (from : World) : World → Type 0 where
    start : Reachable from from
    pass : {w : World} (v : World) → v.db ≡ w.db → Reachable from w → Reachable from v
    request :
        {w : World} (r : Request) → IsAdmitted r w → Reachable from w → Reachable from (serve r w)

  serve-Sound :
      (lawful : IsApart f) (r : Request) (w : World)
      → IsAdmitted r w
      → IsSoundDb w.db
      → IsSoundDb (serve r w).db
  unfolding serve
  serve-Sound lawful (record_paid p) w (positive, fits) h = record_payment-Sound p w positive fits h
  serve-Sound lawful (delete_paid t k) w a h = delete_payment-Sound t k w h
  serve-Sound lawful (topup t c n type ref desc) w a h = topup_wallet-Sound t c n type ref desc w h
  serve-Sound lawful (credit t c n type ref desc) w a h =
      credit_wallet-Sound t c n type ref desc w a h
  serve-Sound lawful (pay t c k) w a h = pay_invoice_from_wallet-Sound t c k w h
  serve-Sound lawful (settle enabled t c) w a h = auto_settle_customer-Sound enabled t c w h
  serve-Sound lawful (post t date desc ref source id ls) w a h =
      post_journal_entry-Sound t date desc ref source id ls w a h
  serve-Sound lawful (late_fees t percent desc) w a h =
      process_manual_late_fees-IsSoundDb fl t percent desc w h
  serve-Sound lawful (notify provider e) w (intents, fits) h =
      complete_paid_webhook-Sound f lawful provider e w intents fits h

  -- When the effects of a notification leave the tables alone: from tables whose ledger and books are
  -- right, any sequence of admitted requests, interrupted at any statements, leads to tables whose
  -- ledger and books are right.
  pub reachable-Sound :
      (lawful : IsApart f) {from w : World} → Reachable from w → IsSoundDb from.db → IsSoundDb w.db
  reachable-Sound lawful start h = h
  reachable-Sound lawful (pass v same r) h = rw same (reachable-Sound lawful r h)
  reachable-Sound lawful (request {w} r a steps) h =
      serve-Sound lawful r w a (reachable-Sound lawful steps h)
