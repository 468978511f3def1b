-- ===== src/AutoPay/Keeps.antt =====
-- Settling invoices from the wallet keeps the ledger.
use d5net_billing.Prelude.{ℕ, Bool, true, false, List, [], ◌∷◌, inl, inr, Bool-cases, if◌then◌else◌}
use d5net_billing.Prelude.Int.{pos}
use d5net_billing.Db.{
  or_else, recovered, Db, World, Result, ok, err, M, Outcome, Outcome_db, db-Outcome, bump,
  pure-Outcome, >>=-Outcome, select->>=, row->>=, set_tenant_context->>, select,
}
use d5net_billing.Invoices.{get_invoice, list_invoice_items}
use d5net_billing.Wallet.{get_wallet, pay_invoice_from_wallet}
use d5net_billing.AutoPay.{
  has_subscription, balance_only, answered, disabled, try_auto_pay_invoice, outstanding_invoice_ids,
  settle_all, auto_settle_customer,
}

-- An invariant that paying one invoice keeps is kept by the engine.
module _ (P : Db → Type 0)
    (pays : (t c k : ℕ) (w : World) → P w.db → P (pay_invoice_from_wallet t c k w).1.db) where
  abbrev Keeps : {A : Type 0} → A → Db → Type 0
  Keeps a d = P d

  select-Keeps : {A : Type 0} (f : World → A) (w : World) → P w.db → Outcome Keeps P (select f w)
  unfolding select
  select-Keeps f w h = elim (Bool-cases (w.fault w.tick)) [
    | inl failed ↦ rw failed h
    | inr fine ↦ rw fine h
  ]

  or_else-Keeps :
      {A : Type 0} (a : A) (m : M A) (w : World)
      → Outcome Keeps P (m w)
      → Outcome Keeps P (or_else a m w)
  unfolding or_else
  or_else-Keeps a m w h = go (m w) h
    where
      go : (r : Result _ × World) → Outcome Keeps P r → Outcome Keeps P (recovered a r)
      go (ok b, v) h = h
      go (err e, v) h = h

  get_wallet-Keeps : (t c : ℕ) (w : World) → P w.db → Outcome Keeps P (get_wallet t c w)
  unfolding get_wallet
  get_wallet-Keeps t c w h = select-Keeps _ w h

  pub get_invoice-Keeps :
      (deleted : Bool) (t k : ℕ) (w : World) → P w.db → Outcome Keeps P (get_invoice deleted t k w)
  unfolding get_invoice list_invoice_items
  get_invoice-Keeps deleted t k w h = set_tenant_context->> Keeps P _ w h (
      select->>= Keeps P _ _ (bump w) h
        (row->>= Keeps P _ _ _ h (λ i e. select->>= Keeps P _ _ _ h (pure-Outcome Keeps P _ _ h))))

  try_auto_pay_invoice-Keeps :
      (enabled : Bool) (t k : ℕ) (w : World)
      → P w.db
      → Outcome Keeps P (try_auto_pay_invoice enabled t k w)
  unfolding try_auto_pay_invoice
  try_auto_pay_invoice-Keeps false t k w h = pure-Outcome Keeps P disabled w h
  try_auto_pay_invoice-Keeps true t k w h =
      >>=-Outcome Keeps P Keeps _ _ w (get_invoice-Keeps false t k w h) (λ (inv, items) v kept.
        >>=-Outcome Keeps P Keeps _ _ v
          (or_else-Keeps tt (select λ w. tt) v (select-Keeps (λ w. tt) v kept))
          (λ customer v kept. elim (Bool-cases (has_subscription inv.subscription_id)) [
            | inl of_subscription ↦ rw of_subscription (
                >>=-Outcome Keeps P Keeps _ _ v (db-Outcome P _ (pays t inv.customer_id k v kept))
                  (λ p v kept.
                    >>=-Outcome Keeps P Keeps _ _ v
                      (or_else-Keeps (pos 0) (get_wallet t inv.customer_id) v
                        (get_wallet-Keeps t inv.customer_id v kept))
                      (λ b v kept. pure-Outcome Keeps P (answered p b) v kept)))
            | inr manual ↦ rw manual (
                >>=-Outcome Keeps P Keeps _ _ v
                  (or_else-Keeps (pos 0) (get_wallet t inv.customer_id) v
                    (get_wallet-Keeps t inv.customer_id v kept))
                  (λ b v kept. pure-Outcome Keeps P (balance_only b) v kept))
          ]))

  either-Keeps :
      {A : Type 0} (c : Bool) (x y : M A) (w : World)
      → Outcome Keeps P (x w)
      → Outcome Keeps P (y w)
      → Outcome Keeps P ((if c then x else y) w)
  either-Keeps true x y w h k = h
  either-Keeps false x y w h k = k

  settle_all-Keeps :
      (enabled : Bool) (t : ℕ) (ks : List ℕ) (w : World)
      → P w.db
      → Outcome Keeps P (settle_all enabled t ks w)
  unfolding settle_all
  settle_all-Keeps enabled t [] w h = pure-Outcome Keeps P [] w h
  settle_all-Keeps enabled t (k ∷ ks) w h =
      >>=-Outcome Keeps P Keeps _ _ w (try_auto_pay_invoice-Keeps enabled t k w h) (λ res v kept.
        either-Keeps (res.paid) _ _ v
          (>>=-Outcome Keeps P Keeps _ _ v (settle_all-Keeps enabled t ks v kept)
            (λ results v kept. pure-Outcome Keeps P (res ∷ results) v kept))
          (pure-Outcome Keeps P [] v kept))

  pub auto_settle_customer-Keeps :
      (enabled : Bool) (t c : ℕ) (w : World) → P w.db → P (auto_settle_customer enabled t c w).1.db
  unfolding auto_settle_customer outstanding_invoice_ids
  auto_settle_customer-Keeps false t c w h = Outcome_db P _ (pure-Outcome Keeps P [] w h)
  auto_settle_customer-Keeps true t c w h = Outcome_db P _ (
      >>=-Outcome Keeps P Keeps _ _ w
        (set_tenant_context->> Keeps P _ w h (select-Keeps _ (bump w) h))
        (λ ks v kept. settle_all-Keeps true t ks v kept))
