-- ===== src/Wallet/Machine.antt =====
-- The abstract machine of the wallets: balances by tenant and customer that calls move or leave, and
-- that runs of the calls implement.
use d5net_billing.Prelude.{
  ℕ, ◌≡◌, Bool, true, false, refl, ap, ◌||◌, Option, none, some, List, [], ◌∷◌, inl, inr, arith,
  find?, Bool-cases, All,
}
use d5net_billing.Prelude.Int.{ℤ, pos, ◌-ℤ◌, ◌≤ℤ◌, ◌<ℤ◌, leb_ℤ, ltb_ℤ}
use d5net_billing.Prelude.Int64.{◌-64◌}
use d5net_billing.Prelude.Text.{Text}
use d5net_billing.Db.{
  Invoice, Payment, Wallet, Db, World, Result, ok, err, Outcome, bump, pure-Outcome, select->>=,
  set_tenant_context->>, transaction-Outcome,
}
use d5net_billing.Payments.{normalize_status}
use d5net_billing.Wallet.{
  is_wallet, topup_wallet, credit_wallet, pay_from, pay_found, is_closed_status,
  pay_invoice_from_wallet,
}
use d5net_billing.Wallet.Ledger.{Ledger, HasUniqueKeys}
use d5net_billing.Wallet.Frames.{Any}
use d5net_billing.Wallet.Pay.{
  topup_wallet-Ledger, credit_wallet-Ledger, pay_invoice_from_wallet-Ledger,
}
use d5net_billing.Wallet.Views.{Balances, view, moved, IsMoved}
use d5net_billing.Wallet.Refines.{
  ToppedUp, topup_wallet-ToppedUp, credit_wallet-IsMoved, Spent, settle-Spent, found-balance,
}

pay_from-Spent :
    (t c : ℕ) (i : Invoice) (a : ℤ) (o : Option Wallet) (w : World)
    → HasUniqueKeys w.db.wallets
    → pos 0 <ℤ a
    → find? (is_wallet t c) w.db.wallets ≡ o
    → Outcome (Spent t c w.db) Any (pay_from t c i a o w)
pay_from-Spent t c i a none w u positive found = pure-Outcome (Spent t c w.db) Any none w refl
pay_from-Spent t c i a (some wl) w u positive found = elim (Bool-cases (ltb_ℤ wl.balance a)) [
  | inl short ↦ rw short (pure-Outcome (Spent t c w.db) Any none w refl)
  | inr enough ↦
      let held : a ≤ℤ view w.db.wallets t c =
        rw (found-balance t c w.db.wallets found) (ground arith) in
      rw enough (settle-Spent t c i a wl w.db w u found (λ ws m. (a, positive, held, m)))
]

pay_found-Spent :
    (t c : ℕ) (o : Option Invoice) (w : World)
    → HasUniqueKeys w.db.wallets
    → Outcome (Spent t c w.db) Any (pay_found t c o w)
pay_found-Spent t c none w u = pure-Outcome (Spent t c w.db) Any none w refl
pay_found-Spent t c (some i) w u =
    let remaining = i.total_amount -64 i.paid_amount in
    elim (Bool-cases (is_closed_status (normalize_status i.status) || leb_ℤ remaining (pos 0))) [
      | inl closed ↦ rw closed (pure-Outcome (Spent t c w.db) Any none w refl)
      | inr due ↦ rw due (
          select->>= (Spent t c w.db) Any _ _ w tt (
            pay_from-Spent t c i remaining (find? (is_wallet t c) w.db.wallets) (bump w) u
              (ground arith) refl))
    ]

pay_invoice_from_wallet-Spent :
    (t c k : ℕ) (w : World)
    → HasUniqueKeys w.db.wallets
    → Outcome (Spent t c w.db) (λ d. d ≡ w.db) (pay_invoice_from_wallet t c k w)
unfolding pay_invoice_from_wallet
pay_invoice_from_wallet-Spent t c k w u =
    let Q = Spent t c w.db in
    let E : Db → Type 0 = λ d. d ≡ w.db in
    set_tenant_context->> Q E _ w refl (
      transaction-Outcome Q E _ (bump w) refl (
        set_tenant_context->> Q Any _ (bump (bump w)) tt
          (select->>= Q Any _ _ _ tt (pay_found-Spent t c _ _ u))))

-- The calls.
pub data Call : Type 0 where
  topup : ℕ → ℕ → ℤ → Text → Text → Text → Call
  credit : ℕ → ℕ → ℤ → Text → Text → Text → Call
  pay : ℕ → ℕ → ℕ → Call

-- CreditWallet does not look at the sign of its amount; its callers do.
abbrev pub IsAllowed : Call → Type 0
IsAllowed (topup t c a type ref desc) = Unit
IsAllowed (credit t c a type ref desc) = pos 0 ≤ℤ a
IsAllowed (pay t c k) = Unit

-- Whether a call answers with success; a payment, with a payment made.
abbrev is_ok : {A : Type 0} → Result A × World → Bool
is_ok (ok a, w) = true
is_ok (err e, w) = false

abbrev is_made : Result (Option Payment) × World → Bool
is_made (ok none, w) = false
is_made (ok (some p), w) = true
is_made (err e, w) = false

unfoldable pub answer : Call → World → Bool
answer (topup t c a type ref desc) w = is_ok (topup_wallet t c a type ref desc w)
answer (credit t c a type ref desc) w = is_ok (credit_wallet t c a type ref desc w)
answer (pay t c k) w = is_made (pay_invoice_from_wallet t c k w)

-- The world after a call, whatever it answers.
unfoldable pub after : Call → World → World
after (topup t c a type ref desc) w = (topup_wallet t c a type ref desc w).1
after (credit t c a type ref desc) w = (credit_wallet t c a type ref desc w).1
after (pay t c k) w = (pay_invoice_from_wallet t c k w).1

unfoldable pub after_all : List Call → World → World
unfolding after
after_all [] w = w
after_all (x ∷ xs) w = after_all xs (after x w)

-- What a call does to the balances, with its answer.
pub data Step : Call → Bool → Balances → Balances → Type 0 where
  failed : {x : Call} {b b' : Balances} → ((t c : ℕ) → b' t c ≡ b t c) → Step x false b b'
  topped_up :
      {t c : ℕ} {a : ℤ} {type ref desc : Text} {b b' : Balances}
      → pos 0 <ℤ a
      → ((t' c' : ℕ) → b' t' c' ≡ moved t c a b t' c')
      → Step (topup t c a type ref desc) true b b'
  credited :
      {t c : ℕ} {a : ℤ} {type ref desc : Text} {b b' : Balances}
      → ((t' c' : ℕ) → b' t' c' ≡ moved t c a b t' c')
      → Step (credit t c a type ref desc) true b b'
  spent :
      {t c k : ℕ} {b b' : Balances} (n : ℤ)
      → pos 0 <ℤ n
      → n ≤ℤ b t c
      → ((t' c' : ℕ) → b' t' c' ≡ moved t c (pos 0 -ℤ n) b t' c')
      → Step (pay t c k) true b b'

-- The calls run one after the other, with their answers.
pub data Steps : List Call → List Bool → Balances → Balances → Type 0 where
  stop : {b : Balances} → Steps [] [] b b
  next :
      {x : Call} {xs : List Call} {r : Bool} {rs : List Bool} {b b'' : Balances} (b' : Balances)
      → Step x r b b'
      → Steps xs rs b' b''
      → Steps (x ∷ xs) (r ∷ rs) b b''

unfoldable pub answers : List Call → World → List Bool
unfolding after answer
answers [] w = []
answers (x ∷ xs) w = answer x w ∷ answers xs (after x w)

abbrev pub now : World → Balances
now w = view w.db.wallets

same-view : (d d' : Db) → d' ≡ d → (t c : ℕ) → view d'.wallets t c ≡ view d.wallets t c
same-view d d' e t c = ap (λ x. view x.wallets t c) e

topup-Step :
    (t c : ℕ) (a : ℤ) (type ref desc : Text) (w : World) (r : Result ℤ × World)
    → Outcome (ToppedUp t c a w.db) (λ d. d ≡ w.db) r
    → Step (topup t c a type ref desc) (is_ok r) (now w) (now r.1)
topup-Step t c a type ref desc w (ok b, v) h = topped_up h.0 h.1
topup-Step t c a type ref desc w (err e, v) h = failed (same-view w.db v.db h)

credit-Step :
    (t c : ℕ) (a : ℤ) (type ref desc : Text) (w : World) (r : Result Unit × World)
    → Outcome (λ _ d. IsMoved t c a w.db.wallets d.wallets) (λ d. d ≡ w.db) r
    → Step (credit t c a type ref desc) (is_ok r) (now w) (now r.1)
credit-Step t c a type ref desc w (ok u, v) h = credited h
credit-Step t c a type ref desc w (err e, v) h = failed (same-view w.db v.db h)

pay-Step :
    (t c k : ℕ) (w : World) (r : Result (Option Payment) × World)
    → Outcome (Spent t c w.db) (λ d. d ≡ w.db) r
    → Step (pay t c k) (is_made r) (now w) (now r.1)
pay-Step t c k w (ok none, v) h = failed (same-view w.db v.db h)
pay-Step t c k w (ok (some p), v) (n, positive, held, m) = spent n positive held m
pay-Step t c k w (err e, v) h = failed (same-view w.db v.db h)

after-Step : (x : Call) (w : World) → Ledger w.db → Step x (answer x w) (now w) (now (after x w))
unfolding after answer
after-Step (topup t c a type ref desc) w h =
    topup-Step t c a type ref desc w _ (topup_wallet-ToppedUp t c a type ref desc w h.unique)
after-Step (credit t c a type ref desc) w h =
    credit-Step t c a type ref desc w _ (credit_wallet-IsMoved t c a type ref desc w h.unique)
after-Step (pay t c k) w h = pay-Step t c k w _ (pay_invoice_from_wallet-Spent t c k w h.unique)

after-Ledger : (x : Call) (w : World) → IsAllowed x → Ledger w.db → Ledger (after x w).db
unfolding after
after-Ledger (topup t c a type ref desc) w allowed h = topup_wallet-Ledger t c a type ref desc w h
after-Ledger (credit t c a type ref desc) w allowed h =
    credit_wallet-Ledger t c a type ref desc w allowed h
after-Ledger (pay t c k) w allowed h = pay_invoice_from_wallet-Ledger t c k w h

-- Any sequence of top-ups, credits that are not negative and payments from wallets, run one after
-- the other from tables that keep the ledger and with whichever statements failing, implements the
-- abstract machine: a call that answers with success moves exactly the balance of its customer, a
-- top-up by its positive amount, a credit by its amount, a payment down by a positive amount that
-- the balance holds; a call that does not leaves every balance.
pub after_all-Steps :
    (xs : List Call) (w : World)
    → All IsAllowed xs
    → Ledger w.db
    → Steps xs (answers xs w) (now w) (now (after_all xs w))
unfolding after_all answers
after_all-Steps [] w allowed h = stop
after_all-Steps (x ∷ xs) w (allowed, rest) h =
    next (now (after x w)) (after-Step x w h)
      (after_all-Steps xs (after x w) rest (after-Ledger x w allowed h))
