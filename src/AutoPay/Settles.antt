-- ===== src/AutoPay/Settles.antt =====
-- What AutoSettleCustomer does: the invoices that it tries, and where it stops.
use d5net_billing.Prelude.{
  ℕ, ◌≡◌, refl, ap, ◌∙◌, Bool, true, Option, none, some, List, [], ◌∷◌, inl, inr, arith, Bool-cases,
  if◌then◌else◌,
}
use d5net_billing.Db.{
  Invoice, Payment, Db, World, Result, ok, err, Error, M, Outcome, bump, pure, select, pure-Outcome,
  if-Outcome, set_tenant_context->>, >>=-Outcome, trivial-Outcome, ◌>>=◌, find?_holds,
}
use d5net_billing.Wallet.{pay_invoice_from_wallet, is_customer_invoice}
use d5net_billing.Wallet.Settles.{Answer, pay_invoice_from_wallet-Answer}
use d5net_billing.AutoPay.{
  WalletAutoPayResult, is_made, has_subscription, balance_only, answered, try_auto_pay_invoice,
  outstanding_invoice_ids, ids_of, settle_all, auto_settle_customer,
}
use d5net_billing.AutoPay.Agenda.{IsAgenda, agenda, agenda-IsAgenda}

abbrev Any : Db → Type 0
Any d = Unit

-- Paid says whether a payment was made, and a payment is for the invoice that was asked for.
abbrev IsTrue : ℕ → WalletAutoPayResult → Db → Type 0
IsTrue k res d =
    (res.paid ≡ is_made res.payment)
    × ((p : Payment) → res.payment ≡ some p → p.invoice_id ≡ some k)

abbrev IsFor : ℕ → Option Payment → Db → Type 0
IsFor k o d = (p : Payment) → o ≡ some p → p.invoice_id ≡ some k

Answer-IsFor :
    (t c k : ℕ) (before d : Db) (o : Option Payment) → Answer t c k before o d → IsFor k o d
Answer-IsFor t c k before d none a p e = cc
Answer-IsFor t c k before d (some q) (rest, made) p e =
    let hit = find?_holds (is_customer_invoice t c k) before.invoices (rest.found) in
    let same : rest.invoice.id ≡ k = ground arith in
    let which : q.invoice_id ≡ some k = rest.of_invoice ∙ ap some same in cc

pay-IsFor : (t c k : ℕ) (w : World) → Outcome (IsFor k) Any (pay_invoice_from_wallet t c k w)
pay-IsFor t c k w = go (pay_invoice_from_wallet t c k w) (pay_invoice_from_wallet-Answer t c k w)
  where
    go :
        (r : Result (Option Payment) × World)
        → Outcome (Answer t c k w.db) (λ d. d ≡ w.db) r
        → Outcome (IsFor k) Any r
    go (ok o, v) h = Answer-IsFor t c k w.db v.db o h
    go (err e, v) h = tt

try-IsTrue : (t k : ℕ) (w : World) → Outcome (IsTrue k) Any (try_auto_pay_invoice true t k w)
unfolding try_auto_pay_invoice
try-IsTrue t k w =
    >>=-Outcome (IsTrue k) Any (λ _. Any) _ _ w (trivial-Outcome _)
      (λ (inv, items) v _.
        >>=-Outcome (IsTrue k) Any (λ _. Any) _ _ v (trivial-Outcome _)
          (λ customer v _. elim (Bool-cases (has_subscription inv.subscription_id)) [
            | inl of_subscription ↦ rw of_subscription (
                >>=-Outcome (IsTrue k) Any (IsFor k) _ _ v (pay-IsFor t inv.customer_id k v)
                  (λ p v for.
                    >>=-Outcome (IsTrue k) Any (λ _. Any) _ _ v (trivial-Outcome _)
                      (λ b v _. pure-Outcome (IsTrue k) Any (answered p b) v (refl, for))))
            | inr manual ↦ rw manual (
                >>=-Outcome (IsTrue k) Any (λ _. Any) _ _ v (trivial-Outcome _)
                  (λ b v _. pure-Outcome (IsTrue k) Any (balance_only b) v (refl, λ p e. cc)))
          ]))

-- A run over some invoices: each is tried in the tables that the ones before it have left; the run goes
-- on while payments are made, and answers with the results of those.
pub data Settles (t : ℕ)
    : List Invoice → World → Result (List WalletAutoPayResult) × World → Type 0 where
  finished : {w : World} → Settles t [] w (ok [], w)
  stopped :
      {i : Invoice} {is : List Invoice} {w v : World} (res : WalletAutoPayResult)
      → try_auto_pay_invoice true t i.id w ≡ (ok res, v)
      → res.payment ≡ none
      → Settles t (i ∷ is) w (ok [], v)
  failed :
      {i : Invoice} {is : List Invoice} {w v : World} {e : Error}
      → try_auto_pay_invoice true t i.id w ≡ (err e, v)
      → Settles t (i ∷ is) w (err e, v)
  paid_on :
      {i : Invoice} {is : List Invoice} {w v u : World} {res : WalletAutoPayResult}
      {results : List WalletAutoPayResult} (p : Payment)
      → try_auto_pay_invoice true t i.id w ≡ (ok res, v)
      → res.payment ≡ some p
      → p.invoice_id ≡ some i.id
      → Settles t is v (ok results, u)
      → Settles t (i ∷ is) w (ok (res ∷ results), u)
  failed_on :
      {i : Invoice} {is : List Invoice} {w v u : World} {res : WalletAutoPayResult} {e : Error}
      (p : Payment)
      → try_auto_pay_invoice true t i.id w ≡ (ok res, v)
      → res.payment ≡ some p
      → p.invoice_id ≡ some i.id
      → Settles t is v (err e, u)
      → Settles t (i ∷ is) w (err e, u)

more : Bool → WalletAutoPayResult → M (List WalletAutoPayResult) → M (List WalletAutoPayResult)
more on res rest = if on then rest >>= (λ results. pure (res ∷ results)) else pure []

more-Settles :
    (t : ℕ) (i : Invoice) (is : List Invoice) (w v : World) (res : WalletAutoPayResult)
    (o : Option Payment) (on : Bool)
    → try_auto_pay_invoice true t i.id w ≡ (ok res, v)
    → res.payment ≡ o
    → on ≡ is_made o
    → IsFor i.id o v.db
    → (rest : M (List WalletAutoPayResult)) → Settles t is v (rest v)
    → Settles t (i ∷ is) w (more on res rest v)
unfolding more ◌>>=◌ pure
more-Settles t i is w v res none on run payment paid for rest h = rw paid (stopped res run payment)
more-Settles t i is w v res (some p) on run payment paid for rest h = rw paid (go (rest v) h)
  where
    go :
        (r : Result (List WalletAutoPayResult) × World)
        → Settles t is v r
        → Settles t
            (i ∷ is)
            w
            (let (x, u) = r in elim x [ ok results ↦ (ok (res ∷ results), u) | err e ↦ (err e, u) ])
    go (ok results, u) h = paid_on p run payment (for p refl) h
    go (err e, u) h = failed_on p run payment (for p refl) h

settle_all-Settles :
    (t : ℕ) (is : List Invoice) (w : World) → Settles t is w (settle_all true t (ids_of is) w)
unfolding settle_all ◌>>=◌ pure more
settle_all-Settles t [] w = finished
settle_all-Settles t (i ∷ is) w =
    go (try_auto_pay_invoice true t i.id w) refl (try-IsTrue t i.id w) (settle_all-Settles t is)
  where
    go :
        (r : Result WalletAutoPayResult × World)
        → try_auto_pay_invoice true t i.id w ≡ r
        → Outcome (IsTrue i.id) Any r
        → ((v : World) → Settles t is v (settle_all true t (ids_of is) v))
        → Settles t (i ∷ is) w (
            let (x, v) = r in
            elim x [
              | ok res ↦ more (res.paid) res (settle_all true t (ids_of is)) v
              | err e ↦ (err e, v)
            ])
    go (ok res, v) run (paid, for) rest =
        more-Settles t i is w v res res.payment res.paid run refl paid for
          (settle_all true t (ids_of is)) (rest v)
    go (err e, v) run h rest = failed run

-- The query fails and nothing is changed, or the invoices due are tried in their order.
pub data Settling (t c : ℕ) (w : World) : Result (List WalletAutoPayResult) × World → Type 0 where
  unread : {e : Error} {v : World} → v.db ≡ w.db → Settling t c w (err e, v)
  tried :
      {r : Result (List WalletAutoPayResult) × World} (is : List Invoice) (v : World)
      → IsAgenda t c w.db.invoices is
      → v.db ≡ w.db
      → Settles t is v r
      → Settling t c w r

-- The ids that the query returns.
abbrev Queried : ℕ → ℕ → Db → List ℕ → Db → Type 0
Queried t c before ks d = (ks ≡ ids_of (agenda t c before.invoices)) × (d ≡ before)

query-Queried :
    (t c : ℕ) (w : World)
    → Outcome (Queried t c w.db) (λ d. d ≡ w.db) (outstanding_invoice_ids t c true w)
unfolding outstanding_invoice_ids select
query-Queried t c w =
    let Q = Queried t c w.db in
    let E : Db → Type 0 = λ d. d ≡ w.db in
    set_tenant_context->> Q E _ w refl
      (if-Outcome Q E (w.fault (bump w).tick) _ _ refl (refl, refl))

-- AutoSettleCustomer with wallets in use: either the query fails and nothing is changed, or it tries
-- the invoices of the customer that are for a subscription, out of the trash, open and not paid in
-- full, all of these and no others, those due first in front. It tries each in the tables that the
-- ones before it have left, goes on exactly while payments are made, each for the invoice in turn, and
-- answers with the results of those, or with the error of the first that fails.
pub auto_settle_customer-Settling :
    (t c : ℕ) (w : World) → Settling t c w (auto_settle_customer true t c w)
unfolding auto_settle_customer ◌>>=◌
auto_settle_customer-Settling t c w = go (outstanding_invoice_ids t c true w) (query-Queried t c w)
  where
    go :
        (r : Result (List ℕ) × World)
        → Outcome (Queried t c w.db) (λ d. d ≡ w.db) r
        → Settling t c w
            (let (x, v) = r in elim x [ ok ks ↦ settle_all true t ks v | err e ↦ (err e, v) ])
    go (ok ks, v) (same, kept) = rw same (
        tried (agenda t c w.db.invoices) v (agenda-IsAgenda t c w.db.invoices) kept
          (settle_all-Settles t (agenda t c w.db.invoices) v))
    go (err e, v) kept = unread kept
