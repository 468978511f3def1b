-- ===== src/Wallet/Refines.antt =====
-- TopupWallet, CreditWallet and PayInvoiceFromWallet as moves of one balance, or of none.
use mathlib.Core.Option.{some-injective}
use d5net_billing.Prelude.{
  ℕ, ◌≡◌, refl, ap, Bool, Option, none, some, List, [], ◌∷◌, inl, inr, arith, find?, Bool-cases,
}
use d5net_billing.Prelude.Int.{ℤ, pos, ◌-ℤ◌, ◌≤ℤ◌, ◌<ℤ◌}
use d5net_billing.Prelude.Text.{Text}
use d5net_billing.Db.{
  Invoice, Payment, Wallet, Db, World, ⊤, Outcome, bump, write-Outcome, >>=-Outcome, >>-Outcome,
  pure-Outcome, gets->>=, select->>=, guard->>, set_tenant_context->>, transaction-Outcome,
  update_rows, find?_holds,
}
use d5net_billing.Invoices.Updates.{update_invoices-Outcome}
use d5net_billing.Wallet.{
  is_wallet, is_wallet_id, add_balance, with_wallets, upsert_rows, upsert_wallet, set_wallets,
  update_wallets, lookup_account, balance_of, topup_wallet, credit_wallet, settle_from_wallet,
  wallet_payment,
}
use d5net_billing.Wallet.Ledger.{HasUniqueKeys, is_wallet-Picks, is_wallet_id-Picks}
use d5net_billing.Wallet.Frames.{
  Any, insert_txn-Holds, insert_wallet_txn-Holds, post-Holds, insert_payment-Holds,
}
use d5net_billing.Wallet.Views.{view, IsMoved, update-IsMoved, insert-IsMoved}

upsert-IsMoved :
    (t c : ℕ) (a : ℤ) (d : Db) (o : Option Wallet)
    → HasUniqueKeys d.wallets
    → find? (is_wallet t c) d.wallets ≡ o
    → (k : ℕ) (d' : Db) → upsert_rows t c a d o ≡ some (k, d')
    → IsMoved t c a d.wallets d'.wallets
upsert-IsMoved t c a d none u missing k d' e =
    rw (← ap (λ r. r.1) (some-injective _ _ e)) (insert-IsMoved d.next_id t c a d.wallets missing)
upsert-IsMoved t c a d (some wl) u found k d' e =
    go (update_rows (is_wallet t c) (add_balance a) d.wallets) refl e
  where
    go :
        (r : Option (List Wallet))
        → update_rows (is_wallet t c) (add_balance a) d.wallets ≡ r
        → with_wallets wl.id d r ≡ some (k, d')
        → IsMoved t c a d.wallets d'.wallets
    go none q e = cc
    go (some rows) q e = rw (← ap (λ r. r.1) (some-injective _ _ e)) (
        update-IsMoved (is_wallet t c) wl a t c (find?_holds (is_wallet t c) d.wallets found)
          d.wallets found q (is_wallet-Picks t c d.wallets u found))

upsert_wallet-IsMoved :
    (t c : ℕ) (a : ℤ) (w : World)
    → HasUniqueKeys w.db.wallets
    → Outcome (λ _ d. IsMoved t c a w.db.wallets d.wallets) Any (upsert_wallet t c a w)
unfolding upsert_wallet
upsert_wallet-IsMoved t c a w u =
    write-Outcome _ Any _ w tt
      (λ k d q. upsert-IsMoved t c a w.db (find? (is_wallet t c) w.db.wallets) u refl k d q)

update_wallets-IsMoved :
    (t c : ℕ) (a : ℤ) (wl : Wallet) (w : World)
    → HasUniqueKeys w.db.wallets
    → find? (is_wallet t c) w.db.wallets ≡ some wl
    → Outcome
        (λ _ d. IsMoved t c a w.db.wallets d.wallets)
        Any
        (update_wallets (is_wallet_id t wl.id) (add_balance a) w)
unfolding update_wallets
update_wallets-IsMoved t c a wl w u found =
    let p = is_wallet_id t wl.id in
    let ws = w.db.wallets in
    write-Outcome _ Any _ w tt (λ k d q. go p ws (update_rows p (add_balance a) ws) refl d q)
  where
    go :
        (p : Wallet → Bool) (ws : List Wallet) (r : Option (List Wallet))
        → update_rows (is_wallet_id t wl.id) (add_balance a) w.db.wallets ≡ r
        → (d : Db) → set_wallets w.db r ≡ some (tt, d)
        → IsMoved t c a w.db.wallets d.wallets
    go p ws none q d e = cc
    go p ws (some rows) q d e = rw (← ap (λ r. r.1) (some-injective _ _ e)) (
        update-IsMoved (is_wallet_id t wl.id) wl a t c
          (find?_holds (is_wallet t c) w.db.wallets found) w.db.wallets found q
          (is_wallet_id-Picks t c wl w.db.wallets (is_wallet-Picks t c w.db.wallets u found)))

-- The answer of a top-up: the balance moved by the amount, which is positive.
abbrev pub ToppedUp : ℕ → ℕ → ℤ → Db → ℤ → Db → Type 0
ToppedUp t c a before b after =
    (pos 0 <ℤ a) × IsMoved t c a before.wallets after.wallets × (b ≡ view after.wallets t c)

pub topup_wallet-ToppedUp :
    (t c : ℕ) (a : ℤ) (type ref desc : Text) (w : World)
    → HasUniqueKeys w.db.wallets
    → Outcome (ToppedUp t c a w.db) (λ d. d ≡ w.db) (topup_wallet t c a type ref desc w)
unfolding topup_wallet lookup_account
topup_wallet-ToppedUp t c a type ref desc w u =
    let Q = ToppedUp t c a w.db in
    let E : Db → Type 0 = λ d. d ≡ w.db in
    guard->> Q E _ _ _ w refl (λ positive. transaction-Outcome Q E _ w refl (
      set_tenant_context->> Q Any _ (bump w) tt (
        >>=-Outcome Q Any (λ _ d. IsMoved t c a w.db.wallets d.wallets) _ _ (bump (bump w))
          (upsert_wallet-IsMoved t c a (bump (bump w)) u)
          (λ k v m. gets->>= Q Any _ _ v (
            let b = balance_of t c v.db.wallets in
            let P : List Wallet → Type 0 =
              λ ws. IsMoved t c a w.db.wallets ws × (b ≡ view ws t c) in
            >>-Outcome Q Any (λ _ d. P d.wallets) _ _ v
              (insert_wallet_txn-Holds (λ ws _ _. P ws) t k a _ ref desc v (m, refl))
              (λ _ v h. select->>= Q Any _ _ v tt (
                select->>= Q Any _ _ (bump v) tt (
                  >>-Outcome Q Any (λ _ d. P d.wallets) _ _ (bump (bump v))
                    (post-Holds (λ ws _ _. P ws) t _ _ _ (some c) _ _ a (bump (bump v)) h)
                    (λ _ v h. pure-Outcome Q Any b v (ground arith, h.0, h.1))))))))))

pub credit_wallet-IsMoved :
    (t c : ℕ) (a : ℤ) (type ref desc : Text) (w : World)
    → HasUniqueKeys w.db.wallets
    → Outcome
        (λ _ d. IsMoved t c a w.db.wallets d.wallets)
        (λ d. d ≡ w.db)
        (credit_wallet t c a type ref desc w)
unfolding credit_wallet
credit_wallet-IsMoved t c a type ref desc w u =
    let P : List Wallet → Type 0 = λ ws. IsMoved t c a w.db.wallets ws in
    let Q : ⊤ → Db → Type 0 = λ _ d. P d.wallets in
    transaction-Outcome Q (λ d. d ≡ w.db) _ w refl
      (>>=-Outcome Q Any (λ _ d. P d.wallets) _ _ (bump w) (upsert_wallet-IsMoved t c a (bump w) u)
        (λ k v m. insert_txn-Holds (λ ws _ _. P ws) t k a type _ _ v m))

-- A balance went down by a positive amount that it held.
abbrev pub IsSpent : ℕ → ℕ → List Wallet → List Wallet → Type 0
IsSpent t c before after =
    (n : ℤ) × (pos 0 <ℤ n) × (n ≤ℤ view before t c) × IsMoved t c (pos 0 -ℤ n) before after

abbrev pub Spent : ℕ → ℕ → Db → Option Payment → Db → Type 0
Spent t c before none after = after ≡ before
Spent t c before (some p) after = IsSpent t c before.wallets after.wallets

pub settle-Spent :
    (t c : ℕ) (i : Invoice) (a : ℤ) (wl : Wallet) (before : Db) (w : World)
    → HasUniqueKeys w.db.wallets
    → find? (is_wallet t c) w.db.wallets ≡ some wl
    → ((ws : List Wallet)
        → IsMoved t c (pos 0 -ℤ a) w.db.wallets ws
        → IsSpent t c before.wallets ws)
    → Outcome (Spent t c before) Any (settle_from_wallet t c i a wl w)
unfolding settle_from_wallet lookup_account
settle-Spent t c i a wl before w u found spent =
    let P = IsMoved t c (pos 0 -ℤ a) w.db.wallets in
    let Q = Spent t c before in
    >>-Outcome Q Any (λ _ d. P d.wallets) _ _ w
      (update_wallets-IsMoved t c (pos 0 -ℤ a) wl w u found)
      (λ _ v m.
        >>-Outcome Q Any (λ _ d. P d.wallets) _ _ v
          (insert_wallet_txn-Holds (λ ws _ _. P ws) t wl.id (pos 0 -ℤ a) _ _ _ v m)
          (λ _ v m. gets->>= Q Any _ _ v (
            >>=-Outcome Q Any (λ _ d. P d.wallets) _ _ v
              (insert_payment-Holds P (wallet_payment t c i a v.now) v m)
              (λ p v m.
                >>-Outcome Q Any (λ _ d. P d.wallets) _ _ v
                  (update_invoices-Outcome (λ _ d. P d.wallets) Any _ _ v tt (λ rows q. m))
                  (λ _ v m. select->>= Q Any _ _ v tt (
                    select->>= Q Any _ _ (bump v) tt (
                      >>-Outcome Q Any (λ _ d. P d.wallets) _ _ (bump (bump v))
                        (post-Holds (λ ws _ _. P ws) t _ _ _ (some i.id) _ _ a (bump (bump v)) m)
                        (λ _ v m. pure-Outcome Q Any (some p) v (spent v.db.wallets m)))))))))

pub found-balance :
    (t c : ℕ) (ws : List Wallet) {wl : Wallet}
    → find? (is_wallet t c) ws ≡ some wl
    → view ws t c ≡ wl.balance
found-balance t c [] e = cc
found-balance t c (x ∷ xs) e = elim (Bool-cases (is_wallet t c x)) [
  | inl hit ↦ rw hit (ap (λ v. v.balance) (some-injective _ _ (rw hit at e)))
  | inr miss ↦ rw miss (found-balance t c xs (rw miss at e))
]
