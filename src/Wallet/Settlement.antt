-- ===== src/Wallet/Settlement.antt =====
-- The statements that settle an invoice from a wallet, and what they leave of the tables.
use mathlib.Core.Option.{some-injective}
use d5net_billing.Prelude.{
  ◌∙◌, true, List, ◌∷◌, if◌then◌else◌, ℕ, ◌≡◌, refl, ap, none, some, Option, arith, find?, if_some,
}
use d5net_billing.Prelude.Int.{ℤ, pos, ◌+ℤ◌, ◌-ℤ◌, ◌≤ℤ◌, leb_ℤ}
use d5net_billing.Prelude.Text.{text}
use d5net_billing.Db.{
  find?_holds, find?-update, update_rows, Invoice, Payment, Wallet, Db, World, Outcome, bump,
  write-Outcome, >>=-Outcome, >>-Outcome, pure-Outcome, gets->>=, select->>=,
}
use d5net_billing.Payments.Books.{add_payment_lem}
use d5net_billing.Invoices.{update_invoices, is_invoice}
use d5net_billing.Invoices.Updates.{update_invoices-Outcome}
use d5net_billing.Payments.{set_paid, add_payment, references, insert_payment}
use d5net_billing.Wallet.Frames.{insert_wallet_txn-Holds, post-Holds}
use d5net_billing.Wallet.{
  is_wallet_id, set_balance, add_balance, update_wallets, set_wallets, is_wallet,
  settle_from_wallet, is_customer_invoice, wallet_payment, lookup_account,
}

abbrev pub Lost : Db → Type 0
Lost d = Unit

-- The tables on the way to a payment.
abbrev pub Way : Type 1
Way = List Wallet → List Invoice → List Payment → Type 0

abbrev pub On : Way → {A : Type 0} → A → Db → Type 0
On P a d = P d.wallets d.invoices d.payments

add_balance_lem :
    (a : ℤ) (x y : Wallet) → add_balance a x ≡ some y → y ≡ set_balance x (x.balance +ℤ a)
unfolding add_balance
add_balance_lem a x y e = ground arith

balance-key :
    (t c k : ℕ) (a : ℤ) (x y : Wallet)
    → (if is_wallet_id t k x then add_balance a x else some x) ≡ some y
    → is_wallet t c y ≡ is_wallet t c x
unfolding add_balance
balance-key t c k a x y e = ground arith

payment-key :
    (t c k k' now : ℕ) (a : ℤ) (x y : Invoice)
    → (if is_invoice t k' x then add_payment now a x else some x) ≡ some y
    → is_customer_invoice t c k y ≡ is_customer_invoice t c k x
unfolding add_payment
payment-key t c k k' now a x y e = ground arith

paid_status :
    (now : ℕ) (i : Invoice) (n : ℤ) → i.total_amount ≤ℤ n → (set_paid now n i).status ≡ text "paid"
paid_status now i n h = let full : leb_ℤ i.total_amount n ≡ true = ground arith in rw full refl

module _ (t c k : ℕ) (i : Invoice) (a : ℤ) (wl : Wallet) (before : Db) where
  abbrev pub debited_wallet : Wallet
  debited_wallet = record wl { balance = wl.balance +ℤ (pos 0 -ℤ a) }

  abbrev Debited : Way
  Debited ws is ps =
      (find? (is_wallet t c) ws ≡ some debited_wallet)
      × (is ≡ before.invoices)
      × (ps ≡ before.payments)

  abbrev pub Made : Payment → Type 0
  Made p = (p.invoice_id ≡ some i.id) × (p.amount ≡ a)

  abbrev Recorded : Payment → Way
  Recorded p ws is ps =
      (find? (is_wallet t c) ws ≡ some debited_wallet)
      × (is ≡ before.invoices)
      × (ps ≡ p ∷ before.payments)
      × Made p

  abbrev pub Settled : Payment → Way
  Settled p ws is ps =
      (find? (is_wallet t c) ws ≡ some debited_wallet)
      × (ps ≡ p ∷ before.payments)
      × Made p
      × ((j : Invoice) × (find? (is_customer_invoice t c k) is ≡ some j)
          × (j.paid_amount ≡ i.paid_amount +ℤ a)
          × (i.total_amount ≤ℤ i.paid_amount +ℤ a → j.status ≡ text "paid"))

  debit-Debited :
      (w : World)
      → w.db ≡ before
      → find? (is_wallet t c) before.wallets ≡ some wl
      → Outcome
          (On Debited)
          Lost
          (update_wallets (is_wallet_id t wl.id) (add_balance (pos 0 -ℤ a)) w)
  unfolding update_wallets
  debit-Debited w same found = write-Outcome (On Debited) Lost _ w tt (λ u d q.
      go (update_rows (is_wallet_id t wl.id) (add_balance (pos 0 -ℤ a)) w.db.wallets) refl d q)
    where
      go :
          (r : Option (List Wallet))
          → update_rows (is_wallet_id t wl.id) (add_balance (pos 0 -ℤ a)) w.db.wallets ≡ r
          → (d : Db) → set_wallets w.db r ≡ some (tt, d)
          → On Debited tt d
      go none q d e = cc
      go (some rows) q d e =
          let (y, at_y, written) =
            find?-update (is_wallet t c) (is_wallet_id t wl.id) (add_balance (pos 0 -ℤ a))
              before.wallets (balance-key t c wl.id (pos 0 -ℤ a)) found (rw same at q) in
          let hit = find?_holds (is_wallet t c) before.wallets found in
          let own : is_wallet_id t wl.id wl ≡ true = ground arith in
          let result : y ≡ record wl { balance = wl.balance +ℤ (pos 0 -ℤ a) } =
            add_balance_lem (pos 0 -ℤ a) wl y (rw own at written) in
          rw (← ap (λ r. r.1) (some-injective _ _ e))
            (at_y ∙ ap some result, ap (λ b. b.invoices) same, ap (λ b. b.payments) same)

  insert-Recorded :
      (now : ℕ) (w : World)
      → On Debited tt w.db
      → Outcome (λ p. On (Recorded p) p) Lost (insert_payment (wallet_payment t c i a now) w)
  unfolding insert_payment
  insert-Recorded now w (wallet, is, ps) =
      write-Outcome (λ p. On (Recorded p) p) Lost _ w tt
        (λ n d q.
          let q' = if_some (references (some i.id) w.db.invoices) _ q in
          let new : Payment = record (wallet_payment t c i a now) {
            id = w.db.next_id;
            created_at = w.now;
            deleted_at = none;
          } in
          rw (← ap (λ r. r.0) q', ← ap (λ r. r.1) q') (wallet, is, ap (◌∷◌ new) ps, (refl, refl)))

  paid-Settled :
      (p : Payment) (now : ℕ) (w : World)
      → find? (is_customer_invoice t c k) before.invoices ≡ some i
      → On (Recorded p) p w.db
      → Outcome (On (Settled p)) Lost (update_invoices (is_invoice t i.id) (add_payment now a) w)
  paid-Settled p now w found (wallet, is, ps, made) =
      update_invoices-Outcome (On (Settled p)) Lost _ _ w tt (λ rows q.
        let (j, at_j, written) =
          find?-update (is_customer_invoice t c k) (is_invoice t i.id) (add_payment now a)
            before.invoices (payment-key t c k i.id now a) found (rw is at q) in
        let hit = find?_holds (is_customer_invoice t c k) before.invoices found in
        let own : is_invoice t i.id i ≡ true = ground arith in
        let result : j ≡ set_paid now (i.paid_amount +ℤ a) i =
          add_payment_lem now a i j (rw own at written) in
        (
          wallet,
          ps,
          made,
          (
            set_paid now (i.paid_amount +ℤ a) i,
            at_j ∙ ap some result,
            refl,
            paid_status now i (i.paid_amount +ℤ a),
          ),
        ))

  pub settle-Settled :
      (w : World) (Q : Option Payment → Db → Type 0)
      → w.db ≡ before
      → find? (is_wallet t c) before.wallets ≡ some wl
      → find? (is_customer_invoice t c k) before.invoices ≡ some i
      → ((p : Payment) (d : Db) → On (Settled p) p d → Q (some p) d)
      → Outcome Q Lost (settle_from_wallet t c i a wl w)
  unfolding settle_from_wallet lookup_account
  settle-Settled w Q same held found made =
      >>-Outcome Q Lost (On Debited) _ _ w (debit-Debited w same held) (λ _ v h.
        >>-Outcome Q Lost (On Debited) _ _ v
          (insert_wallet_txn-Holds Debited t wl.id (pos 0 -ℤ a) _ _ _ v h)
          (λ _ v h. gets->>= Q Lost _ _ v (
            >>=-Outcome Q Lost (λ p. On (Recorded p) p) _ _ v (insert-Recorded v.now v h)
              (λ p v h.
                >>-Outcome Q Lost (On (Settled p)) _ _ v (paid-Settled p _ v found h) (λ _ v h.
                  select->>= Q Lost _ _ v tt (
                    select->>= Q Lost _ _ (bump v) tt (
                      >>-Outcome Q Lost (On (Settled p)) _ _ (bump (bump v))
                        (post-Holds (Settled p) t _ _ _ (some i.id) _ _ a (bump (bump v)) h)
                        (λ _ v h. pure-Outcome Q Lost (some p) v (made p v.db h)))))))))
