-- ===== src/Webhook/Parts.antt =====
-- The parts of completing a notification keep the ledger and the books.
use d5net_billing.Prelude.{
  ℕ, ◌≡◌, refl, ap, false, Bool, ◌||◌, ◌==◌, Option, none, some, List, inl, inr, arith, Bool-cases,
}
use d5net_billing.Prelude.Int.{ℤ, pos, ltb_ℤ}
use d5net_billing.Prelude.Text.{Text, text}
use mathlib.Core.Option.{some-injective}
use d5net_billing.Db.{
  Invoice, InvoiceItem, PaymentIntent, Db, World, M, Result, ok, err, db_error, rejected, not_found,
  not_trashed, has_paid, method_required, bad_amount, Outcome, Outcome_db, db-Outcome, pure-Outcome,
  >>=-Outcome, write-Outcome, or_else-Outcome, select-Outcome, or_else, select,
}
use d5net_billing.Payments.Books.{Books-frame}
use d5net_billing.Wallet.{credit_wallet}
use d5net_billing.AutoPay.{WalletAutoPayResult}
use d5net_billing.AutoPay.Keeps.{get_invoice-Keeps}
use d5net_billing.Journal.{
  first_account, find_account_by_type_or_code, find_or, find_cash_and_revenue_accounts,
  record_payment_journal,
}
use d5net_billing.Journal.Keeps.{record_payment_journal-Sound}
use d5net_billing.Sound.{IsSoundDb, Keeps}
use d5net_billing.Sound.Wallets.{credit_wallet-Sound, pay_invoice_from_wallet-Sound}
use d5net_billing.Webhook.{
  Effects, WebhookEvent, set_intents, update_payment_intent_status,
  cancel_pending_payment_intents_for_invoice, invoice_of, found_invoice, webhook_tip_amount,
  credit_tip, post_payment, cancel_of, resume_of, number_or, paid_amount_of,
}

-- The effects leave the tables modelled as they are, whether or not they fail.
pub record IsApart (f : Effects) : Type 0 where
  pub resume :
      (t : ℕ) (inv : Invoice) (w : World) → (f.resume_after_invoice_paid t inv w).1.db ≡ w.db
  pub topup :
      (pi : PaymentIntent) (a b : ℤ) (w : World) → (f.send_wallet_topup pi a b w).1.db ≡ w.db
  pub settle :
      (t : ℕ) (rs : List WalletAutoPayResult) (w : World) → (f.after_settle t rs w).1.db ≡ w.db
  pub outbound :
      (t : ℕ) (event : Text) (w : World) → (f.dispatch_outbound_event t event w).1.db ≡ w.db
  pub confirm :
      (pi : PaymentIntent) (inv : Option Invoice) (a : ℤ) (w : World)
      → (f.send_payment_confirmation pi inv a w).1.db ≡ w.db

intents-Sound :
    (d : Db) (p : PaymentIntent → Bool) (s : Text) → IsSoundDb d → IsSoundDb (set_intents p s d)
intents-Sound d p s (ledger, books) = (
  record {
    balances = ledger.balances;
    funded = ledger.funded;
    unique = ledger.unique;
    fresh = ledger.fresh;
    old = ledger.old;
    balanced = ledger.balanced;
  },
  Books-frame d _ refl refl (omega arith) books,
)

apart : (d d' : Db) → d' ≡ d → IsSoundDb d → IsSoundDb d'
apart d d' e h = rw e h

pub ignored :
    {A : Type 0} (a : A) (m : M A) (w : World)
    → Outcome Keeps IsSoundDb (m w)
    → Outcome Keeps IsSoundDb (or_else a m w)
ignored a m w h = or_else-Outcome IsSoundDb a m w (Outcome_db IsSoundDb (m w) h)

pub kept : {A : Type 0} (m : M A) (w : World) → IsSoundDb (m w).1.db → Outcome Keeps IsSoundDb (m w)
kept m w h = db-Outcome IsSoundDb (m w) h

pub untouched :
    {A : Type 0} (m : M A) (w : World)
    → (m w).1.db ≡ w.db
    → IsSoundDb w.db
    → Outcome Keeps IsSoundDb (m w)
untouched m w e h = kept m w (apart w.db (m w).1.db e h)

pub update_status-Keeps :
    (e s : Text) (w : World)
    → IsSoundDb w.db
    → Outcome Keeps IsSoundDb (update_payment_intent_status e s w)
unfolding update_payment_intent_status
update_status-Keeps e s w h =
    write-Outcome Keeps IsSoundDb _ w h
      (λ u d q. rw (← ap (λ r. r.1) (some-injective _ _ q)) (intents-Sound w.db _ s h))

pub cancel_pending-Keeps :
    (t k : ℕ) (w : World)
    → IsSoundDb w.db
    → Outcome Keeps IsSoundDb (cancel_pending_payment_intents_for_invoice t k w)
unfolding cancel_pending_payment_intents_for_invoice
cancel_pending-Keeps t k w h =
    write-Outcome Keeps IsSoundDb _ w h
      (λ u d q. rw (← ap (λ r. r.1) (some-injective _ _ q)) (intents-Sound w.db _ _ h))

found_invoice-Keeps :
    (r : Result (Invoice × List InvoiceItem) × World)
    → Outcome Keeps IsSoundDb r
    → Outcome Keeps IsSoundDb (found_invoice r)
found_invoice-Keeps (ok (inv, items), w) h = h
found_invoice-Keeps (err db_error, w) h = h
found_invoice-Keeps (err rejected, w) h = h
found_invoice-Keeps (err not_found, w) h = h
found_invoice-Keeps (err not_trashed, w) h = h
found_invoice-Keeps (err has_paid, w) h = h
found_invoice-Keeps (err method_required, w) h = h
found_invoice-Keeps (err bad_amount, w) h = h

pub invoice_of-Keeps :
    (t : ℕ) (o : Option ℕ) (w : World) → IsSoundDb w.db → Outcome Keeps IsSoundDb (invoice_of t o w)
invoice_of-Keeps t none w h = h
invoice_of-Keeps t (some k) w h =
    found_invoice-Keeps _ (get_invoice-Keeps IsSoundDb pay_invoice_from_wallet-Sound false t k w h)

find_account-Keeps :
    (t : ℕ) (type code : Text) (w : World)
    → IsSoundDb w.db
    → Outcome Keeps IsSoundDb (find_account_by_type_or_code t type code w)
unfolding find_account_by_type_or_code
find_account-Keeps t type code w h =
    let find : World → ℕ = λ w. first_account t type code none w.db.chart_of_accounts in
    ignored 0 (select find) w (select-Outcome IsSoundDb find w h)

find_or-Keeps :
    (k : ℕ) (m : M ℕ) (w : World)
    → IsSoundDb w.db
    → Outcome Keeps IsSoundDb (m w)
    → Outcome Keeps IsSoundDb (find_or k m w)
find_or-Keeps k m w h hm = elim (Bool-cases (k == 0)) [
  | inl missing ↦ rw missing hm
  | inr found ↦ rw found (pure-Outcome Keeps IsSoundDb k w h)
]

pub find_accounts-Keeps :
    (t : ℕ) (w : World)
    → IsSoundDb w.db
    → Outcome Keeps IsSoundDb (find_cash_and_revenue_accounts t w)
unfolding find_cash_and_revenue_accounts
find_accounts-Keeps t w h =
    >>=-Outcome Keeps IsSoundDb Keeps _ _ w (find_account-Keeps t (text "asset") (text "1110") w h)
      (λ a v h.
        >>=-Outcome Keeps IsSoundDb Keeps _ _ v
          (find_or-Keeps a _ v h (find_account-Keeps t (text "cash") (text "1000") v h))
          (λ cash v h.
            >>=-Outcome Keeps IsSoundDb Keeps _ _ v
              (find_account-Keeps t (text "revenue") (text "4110") v h)
              (λ b v h.
                >>=-Outcome Keeps IsSoundDb Keeps _ _ v
                  (find_or-Keeps b _ v h (find_account-Keeps t (text "income") (text "4000") v h))
                  (λ revenue v h. pure-Outcome Keeps IsSoundDb (cash, revenue) v h))))

module _ (f : Effects) (lawful : IsApart f) where
  pub cancel_of-Keeps :
      (t : ℕ) (o : Option ℕ) (w : World)
      → IsSoundDb w.db
      → Outcome Keeps IsSoundDb (cancel_of f t o w)
  cancel_of-Keeps t none w h = pure-Outcome Keeps IsSoundDb tt w h
  cancel_of-Keeps t (some k) w h =
      ignored tt (cancel_pending_payment_intents_for_invoice t k) w (cancel_pending-Keeps t k w h)

  pub resume_of-Keeps :
      (t : ℕ) (o : Option Invoice) (w : World)
      → IsSoundDb w.db
      → Outcome Keeps IsSoundDb (resume_of f t o w)
  resume_of-Keeps t none w h = pure-Outcome Keeps IsSoundDb tt w h
  resume_of-Keeps t (some inv) w h =
      ignored tt (f.resume_after_invoice_paid t inv) w
        (untouched (f.resume_after_invoice_paid t inv) w (lawful.resume t inv w) h)

  pub credit_tip-Keeps :
      (pi : PaymentIntent) (e : WebhookEvent) (w : World)
      → IsSoundDb w.db
      → Outcome Keeps IsSoundDb (credit_tip f pi e w)
  unfolding credit_tip
  credit_tip-Keeps pi e w h =
      let tip = webhook_tip_amount f e in
      let credit =
        credit_wallet pi.tenant_id pi.customer_id tip (text "tip") e.external_id
          (text "payment tip") in
      elim (Bool-cases (ltb_ℤ (pos 0) tip)) [
        | inl tipped ↦ rw tipped (
            ignored tt credit w (
              kept credit w (
                credit_wallet-Sound pi.tenant_id pi.customer_id tip (text "tip") e.external_id
                  (text "payment tip") w (ground arith) h)))
        | inr no_tip ↦ rw no_tip (pure-Outcome Keeps IsSoundDb tt w h)
      ]

  pub post_payment-Keeps :
      (pi : PaymentIntent) (e : WebhookEvent) (inv : Option Invoice) (w : World)
      → IsSoundDb w.db
      → Outcome Keeps IsSoundDb (post_payment f pi e inv w)
  unfolding post_payment
  post_payment-Keeps pi e inv w h =
      >>=-Outcome Keeps IsSoundDb Keeps _ _ w (find_accounts-Keeps pi.tenant_id w h)
        (λ (cash, revenue) v h. elim (Bool-cases (cash == 0 || revenue == 0)) [
          | inl missing ↦ rw missing (pure-Outcome Keeps IsSoundDb tt v h)
          | inr found ↦
              let post =
                record_payment_journal pi.tenant_id (paid_amount_of f pi e) cash revenue
                  (number_or e.external_id inv) in
              rw found (
                ignored tt post v (
                  kept post v (
                    record_payment_journal-Sound pi.tenant_id (paid_amount_of f pi e) cash revenue
                      (number_or e.external_id inv) v h)))
        ])
