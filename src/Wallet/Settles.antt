-- ===== src/Wallet/Settles.antt =====
-- What PayInvoiceFromWallet answers, and what it leaves of the tables.
use d5net_billing.Prelude.{
  true, ◌∷◌, ℕ, ◌≡◌, refl, false, none, some, Option, inl, inr, arith, find?, Bool-cases,
}
use d5net_billing.Prelude.Int.{pos, ◌+ℤ◌, ◌-ℤ◌, ◌≤ℤ◌, ◌<ℤ◌, leb_ℤ, ltb_ℤ}
use d5net_billing.Prelude.Int64.{◌-64◌}
use d5net_billing.Prelude.Text.{text}
use d5net_billing.Db.{
  Invoice, Payment, Wallet, Db, World, Outcome, bump, pure-Outcome, select->>=,
  set_tenant_context->>, transaction-Outcome,
}
use d5net_billing.Payments.{normalize_status}
use d5net_billing.Wallet.{
  is_wallet, pay_from, pay_found, is_closed_status, is_customer_invoice, pay_invoice_from_wallet,
}
use d5net_billing.Wallet.Settlement.{Lost, settle-Settled}

-- The payment that was made: of the whole rest of an open invoice of this customer that is not in
-- the trash, from a wallet that holds it.
pub record IsRest (t c k : ℕ) (d : Db) (p : Payment) : Type 0 where
  pub invoice : Invoice
  pub found : find? (is_customer_invoice t c k) d.invoices ≡ some invoice
  pub is_open : is_closed_status (normalize_status invoice.status) ≡ false
  pub of_invoice : p.invoice_id ≡ some invoice.id
  pub rest : p.amount ≡ invoice.total_amount -64 invoice.paid_amount
  pub positive : pos 0 <ℤ p.amount
  pub wallet : Wallet
  pub held : find? (is_wallet t c) d.wallets ≡ some wallet
  pub enough : p.amount ≤ℤ wallet.balance

-- What the payment leaves: it is recorded, the wallet holds that much less, and the invoice has that
-- much more paid, and the status paid once its total is reached.
pub record IsSettlement (t c k : ℕ) (i : Invoice) (wl : Wallet) (before : Db) (p : Payment)
    (after : Db) : Type 0 where
  pub recorded : after.payments ≡ p ∷ before.payments
  pub debited :
      find? (is_wallet t c) after.wallets
      ≡ some (record wl { balance = wl.balance +ℤ (pos 0 -ℤ p.amount) })
  pub settled : Invoice
  pub found : find? (is_customer_invoice t c k) after.invoices ≡ some settled
  pub paid : settled.paid_amount ≡ i.paid_amount +ℤ p.amount
  pub closed : i.total_amount ≤ℤ i.paid_amount +ℤ p.amount → settled.status ≡ text "paid"

-- Why nothing is paid.
pub data Refusal (t c k : ℕ) (d : Db) : Type 0 where
  no_invoice : find? (is_customer_invoice t c k) d.invoices ≡ none → Refusal t c k d
  is_closed :
      (i : Invoice)
      → find? (is_customer_invoice t c k) d.invoices ≡ some i
      → is_closed_status (normalize_status i.status) ≡ true
      → Refusal t c k d
  nothing_left :
      (i : Invoice)
      → find? (is_customer_invoice t c k) d.invoices ≡ some i
      → i.total_amount -64 i.paid_amount ≤ℤ pos 0
      → Refusal t c k d
  no_wallet : find? (is_wallet t c) d.wallets ≡ none → Refusal t c k d
  too_little :
      (i : Invoice) (wl : Wallet)
      → find? (is_customer_invoice t c k) d.invoices ≡ some i
      → find? (is_wallet t c) d.wallets ≡ some wl
      → wl.balance <ℤ i.total_amount -64 i.paid_amount
      → Refusal t c k d

abbrev pub Answer : ℕ → ℕ → ℕ → Db → Option Payment → Db → Type 0
Answer t c k before none after = (after ≡ before) × Refusal t c k before
Answer t c k before (some p) after =
    (r : IsRest t c k before p) × IsSettlement t c k r.invoice r.wallet before p after

module _ (t c k : ℕ) (i : Invoice) (w : World) where
  pay_from-Answer :
      (o : Option Wallet)
      → find? (is_customer_invoice t c k) w.db.invoices ≡ some i
      → is_closed_status (normalize_status i.status) ≡ false
      → pos 0 <ℤ i.total_amount -64 i.paid_amount
      → find? (is_wallet t c) w.db.wallets ≡ o
      → Outcome (Answer t c k w.db) Lost (pay_from t c i (i.total_amount -64 i.paid_amount) o w)
  pay_from-Answer none found open? positive held =
      pure-Outcome (Answer t c k w.db) Lost none w (refl, no_wallet held)
  pay_from-Answer (some wl) found open? positive held =
      let a = i.total_amount -64 i.paid_amount in
      elim (Bool-cases (ltb_ℤ wl.balance a)) [
        | inl short ↦ rw short (
            pure-Outcome (Answer t c k w.db) Lost none w
              (refl, too_little i wl found held (ground arith)))
        | inr enough ↦ rw enough (
            settle-Settled t c k i a wl w.db w (Answer t c k w.db) refl held found
              (λ p d (wallet, ps, (of_invoice, amount), (j, found_j, paid, closed)). (
                record {
                  invoice = i;
                  found = found;
                  is_open = open?;
                  of_invoice = of_invoice;
                  rest = amount;
                  positive = rw amount positive;
                  wallet = wl;
                  held = held;
                  enough = rw amount (ground arith);
                },
                record {
                  recorded = ps;
                  debited = rw amount wallet;
                  settled = j;
                  found = found_j;
                  paid = rw amount paid;
                  closed = rw amount closed;
                },
              )))
      ]

pay_found-Answer :
    (t c k : ℕ) (o : Option Invoice) (w : World)
    → find? (is_customer_invoice t c k) w.db.invoices ≡ o
    → Outcome (Answer t c k w.db) Lost (pay_found t c o w)
pay_found-Answer t c k none w found =
    pure-Outcome (Answer t c k w.db) Lost none w (refl, no_invoice found)
pay_found-Answer t c k (some i) w found =
    let remaining = i.total_amount -64 i.paid_amount in
    let closed = is_closed_status (normalize_status i.status) in
    elim (Bool-cases closed) [
      | inl stop ↦
          rw stop (pure-Outcome (Answer t c k w.db) Lost none w (refl, is_closed i found stop))
      | inr open? ↦ rw open? (elim (Bool-cases (leb_ℤ remaining (pos 0))) [
        | inl stop ↦ rw stop (
            pure-Outcome (Answer t c k w.db) Lost none w
              (refl, nothing_left i found (ground arith)))
        | inr due ↦ rw due (
            select->>= (Answer t c k w.db) Lost _ _ w tt (
              pay_from-Answer t c k i (bump w) (find? (is_wallet t c) w.db.wallets) found open?
                (ground arith) refl))
      ])
    ]

-- Whichever statement fails: when PayInvoiceFromWallet answers with a payment, the customer had an
-- open invoice of that id out of the trash and a wallet that held the whole rest; the payment is of
-- exactly that rest and is recorded, the wallet holds that much less, and the invoice has that much
-- more paid and is marked paid if that reaches its total. When it answers with none, the tables are as
-- they were and the customer has no such invoice, or it is closed or has nothing left to pay, or the
-- customer has no wallet or too little in it. When it fails, the tables are as they were.
pub pay_invoice_from_wallet-Answer :
    (t c k : ℕ) (w : World)
    → Outcome (Answer t c k w.db) (λ d. d ≡ w.db) (pay_invoice_from_wallet t c k w)
unfolding pay_invoice_from_wallet
pay_invoice_from_wallet-Answer t c k w =
    let Q = Answer t c k w.db in
    let E : Db → Type 0 = λ d. d ≡ w.db in
    set_tenant_context->> Q E _ w refl (
      transaction-Outcome Q E _ (bump w) refl (
        set_tenant_context->> Q Lost _ (bump (bump w)) tt
          (select->>= Q Lost _ _ _ tt (pay_found-Answer t c k _ _ refl))))
