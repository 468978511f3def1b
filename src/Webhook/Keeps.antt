-- ===== src/Webhook/Keeps.antt =====
-- Completing a notification keeps the ledger of the wallets and the books of the payments.
use d5net_billing.Prelude.{
  ℕ, ◌≡◌, refl, ltb, Option, none, some, List, [], ◌∷◌, ◌++◌, inl, inr, All, Bool-cases,
}
use d5net_billing.Prelude.Int64.{IsInt64}
use d5net_billing.Prelude.Text.{Text, text, text_eq}
use mathlib.Core.Option.{some-injective}
use d5net_billing.Db.{
  PaymentIntent, World, Outcome, Outcome_db, bump, pure-Outcome, >>=-Outcome, >>-Outcome,
  select->>=, or_else, ◌>>=◌,
}
use d5net_billing.Payments.{record_payment}
use d5net_billing.Wallet.{topup_wallet}
use d5net_billing.AutoPay.{auto_settle_customer}
use d5net_billing.Sound.{IsSoundDb, Keeps}
use d5net_billing.Sound.Payments.{record_payment-Sound}
use d5net_billing.Sound.Wallets.{topup_wallet-Sound, auto_settle_customer-Sound}
use d5net_billing.Webhook.{
  Effects, WebhookEvent, update_payment_intent_status, newest, is_known_as, newer,
  get_payment_intent_by_external_id, webhook_payment, auto_settle_customer_wallet, topup_amount_of,
  reference_of, complete_wallet_topup, complete_topup, complete_payment, complete_found,
  complete_paid_webhook, meta_string, paid_amount_of,
}
use d5net_billing.Webhook.Amounts.{IsSoundIntent, paid_amount_of-positive, paid_amount_of-IsInt64}
use d5net_billing.Webhook.Parts.{
  IsApart, ignored, kept, untouched, update_status-Keeps, invoice_of-Keeps, cancel_of-Keeps,
  resume_of-Keeps, credit_tip-Keeps, post_payment-Keeps,
}

module _ (f : Effects) (lawful : IsApart f) where
  auto_settle-Keeps :
      (t c : ℕ) (w : World)
      → IsSoundDb w.db
      → Outcome Keeps IsSoundDb (auto_settle_customer_wallet f t c w)
  unfolding auto_settle_customer_wallet
  auto_settle-Keeps t c w h =
      ignored tt (auto_settle_customer (f.wallet_enabled t) t c >>= f.after_settle t) w (
        >>=-Outcome Keeps IsSoundDb Keeps (auto_settle_customer (f.wallet_enabled t) t c)
          (f.after_settle t) w
          (kept (auto_settle_customer (f.wallet_enabled t) t c) w
            (auto_settle_customer-Sound (f.wallet_enabled t) t c w h))
          (λ rs v h. untouched (f.after_settle t rs) v (lawful.settle t rs v) h))

  complete_wallet_topup-Keeps :
      (pi : PaymentIntent) (e : WebhookEvent) (w : World)
      → IsSoundDb w.db
      → Outcome Keeps IsSoundDb (complete_wallet_topup f pi e w)
  unfolding complete_wallet_topup
  complete_wallet_topup-Keeps pi e w h =
      let a = topup_amount_of f pi e in
      >>=-Outcome Keeps IsSoundDb Keeps _ _ w
        (kept
          (topup_wallet pi.tenant_id pi.customer_id a (text "topup") (reference_of e)
            (text "Topup saldo via " ++ pi.provider))
          w
          (topup_wallet-Sound pi.tenant_id pi.customer_id a (text "topup") (reference_of e)
            (text "Topup saldo via " ++ pi.provider) w h))
        (λ b v h.
          >>-Outcome Keeps IsSoundDb Keeps _ _ v
            (ignored tt (f.send_wallet_topup pi a b) v
              (untouched (f.send_wallet_topup pi a b) v (lawful.topup pi a b v) h))
            (λ _ v h. auto_settle-Keeps pi.tenant_id pi.customer_id v h))

  outbound-Keeps :
      (t : ℕ) (event : Text) (w : World)
      → IsSoundDb w.db
      → Outcome Keeps IsSoundDb (or_else tt (f.dispatch_outbound_event t event) w)
  outbound-Keeps t event w h =
      ignored tt (f.dispatch_outbound_event t event) w
        (untouched (f.dispatch_outbound_event t event) w (lawful.outbound t event w) h)

  paid-Keeps :
      (pi : PaymentIntent) (w : World)
      → IsSoundDb w.db
      → Outcome Keeps IsSoundDb
          (or_else tt (update_payment_intent_status pi.external_id (text "paid")) w)
  paid-Keeps pi w h =
      ignored tt (update_payment_intent_status pi.external_id (text "paid")) w
        (update_status-Keeps pi.external_id (text "paid") w h)

  complete_topup-Keeps :
      (pi : PaymentIntent) (e : WebhookEvent) (w : World)
      → IsSoundDb w.db
      → Outcome Keeps IsSoundDb (complete_topup f pi e w)
  unfolding complete_topup
  complete_topup-Keeps pi e w h =
      >>-Outcome Keeps IsSoundDb Keeps _ _ w (complete_wallet_topup-Keeps pi e w h) (λ _ v h.
        >>-Outcome Keeps IsSoundDb Keeps _ _ v (paid-Keeps pi v h)
          (λ _ v h. outbound-Keeps pi.tenant_id (text "wallet.topup") v h))

  complete_payment-Keeps :
      (provider : Text) (pi : PaymentIntent) (e : WebhookEvent) (w : World)
      → IsSoundIntent f pi
      → IsInt64 e.amount
      → IsSoundDb w.db
      → Outcome Keeps IsSoundDb (complete_payment f provider pi e w)
  unfolding complete_payment
  complete_payment-Keeps provider pi e w s fits h =
      let p = webhook_payment f provider pi e in
      let a = paid_amount_of f pi e in
      >>=-Outcome Keeps IsSoundDb Keeps _ _ w (invoice_of-Keeps pi.tenant_id pi.invoice_id w h)
        (λ inv v h.
          >>-Outcome Keeps IsSoundDb Keeps _ _ v
            (kept (record_payment p) v (
              record_payment-Sound p v (paid_amount_of-positive f pi s e)
                (paid_amount_of-IsInt64 f pi s e fits) h))
            (λ _ v h. >>-Outcome Keeps IsSoundDb Keeps _ _ v (paid-Keeps pi v h) (λ _ v h.
              >>-Outcome Keeps IsSoundDb Keeps _ _ v
                (cancel_of-Keeps f lawful pi.tenant_id pi.invoice_id v h)
                (λ _ v h.
                  >>-Outcome Keeps IsSoundDb Keeps _ _ v
                    (resume_of-Keeps f lawful pi.tenant_id inv v h)
                    (λ _ v h.
                      >>-Outcome Keeps IsSoundDb Keeps _ _ v (credit_tip-Keeps f lawful pi e v h)
                        (λ _ v h.
                          >>-Outcome Keeps IsSoundDb Keeps _ _ v
                            (post_payment-Keeps f lawful pi e inv v h)
                            (λ _ v h.
                              >>-Outcome Keeps IsSoundDb Keeps _ _ v
                                (outbound-Keeps pi.tenant_id (text "payment.paid") v h)
                                (λ _ v h. ignored tt (f.send_payment_confirmation pi inv a) v (
                                  untouched (f.send_payment_confirmation pi inv a) v
                                    (lawful.confirm pi inv a v) h)))))))))

  complete_found-Keeps :
      (provider : Text) (e : WebhookEvent) (o : Option PaymentIntent) (w : World)
      → ((pi : PaymentIntent) → o ≡ some pi → IsSoundIntent f pi)
      → IsInt64 e.amount
      → IsSoundDb w.db
      → Outcome Keeps IsSoundDb (complete_found f provider e o w)
  complete_found-Keeps provider e none w s fits h = pure-Outcome Keeps IsSoundDb tt w h
  complete_found-Keeps provider e (some pi) w s fits h =
      elim (Bool-cases (text_eq pi.status (text "paid"))) [
        | inl paid ↦ rw paid (pure-Outcome Keeps IsSoundDb tt w h)
        | inr unpaid ↦
            rw unpaid
              (elim (Bool-cases
                (text_eq (meta_string pi.metadata (text "purpose")) (text "wallet_topup"))) [
                  | inl topup ↦ rw topup (complete_topup-Keeps pi e w h)
                  | inr invoice ↦
                      rw invoice (complete_payment-Keeps provider pi e w (s pi refl) fits h)
                ])
      ]

  newest-Sound :
      (e : Text) (best : Option PaymentIntent) (pis : List PaymentIntent) (pi : PaymentIntent)
      → newest e best pis ≡ some pi
      → ((x : PaymentIntent) → best ≡ some x → IsSoundIntent f x)
      → All (IsSoundIntent f) pis
      → IsSoundIntent f pi
  newest-Sound e best [] pi found sb h = sb pi found
  newest-Sound e best (x ∷ xs) pi found sb (sx, h) = elim (Bool-cases (is_known_as e x)) [
    | inl hit ↦
        newest-Sound e (some (newer best x)) xs pi (rw hit at found)
          (λ y eq. rw (← some-injective _ _ eq) (newer-Sound best x sb sx)) h
    | inr miss ↦ newest-Sound e best xs pi (rw miss at found) sb h
  ]
    where
      newer-Sound :
          (best : Option PaymentIntent) (x : PaymentIntent)
          → ((y : PaymentIntent) → best ≡ some y → IsSoundIntent f y)
          → IsSoundIntent f x
          → IsSoundIntent f (newer best x)
      newer-Sound none x sb sx = sx
      newer-Sound (some b) x sb sx = elim (Bool-cases (ltb b.created_at x.created_at)) [
        | inl later ↦ rw later sx
        | inr earlier ↦ rw earlier (sb b refl)
      ]

  -- Completing a notification keeps the ledger and the books, whatever the provider, the event and
  -- the intent it names, and whichever statement or effect fails, if every intent is sound, the
  -- amount of the event is a 64-bit integer, and the effects leave the tables as they are.
  pub complete_paid_webhook-Sound :
      (provider : Text) (e : WebhookEvent) (w : World)
      → All (IsSoundIntent f) w.db.payment_intents
      → IsInt64 e.amount
      → IsSoundDb w.db
      → IsSoundDb (complete_paid_webhook f provider e w).1.db
  unfolding complete_paid_webhook get_payment_intent_by_external_id
  complete_paid_webhook-Sound provider e w s fits h = Outcome_db IsSoundDb _ (
      select->>= Keeps IsSoundDb _ _ w h (
        complete_found-Keeps provider e (newest e.external_id none w.db.payment_intents) (bump w)
          (λ pi found. newest-Sound e.external_id none w.db.payment_intents pi found (λ x eq. cc) s)
          fits h))
