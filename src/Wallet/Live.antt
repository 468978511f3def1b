-- ===== src/Wallet/Live.antt =====
-- TopupWallet succeeds where no statement fails.
use mathlib.Core.Path.{subst}
use d5net_billing.Prelude.{
  ℕ, ◌≡◌, refl, ◌∙◌, ap, ◌||◌, ◌&&◌, Bool, true, Option, none, some, List, [], ◌∷◌, inl, inr, arith,
  find?, ◌==◌, Bool-cases, if◌then◌else◌,
}
use d5net_billing.Prelude.Int.{ℤ, pos, ◌+ℤ◌, ◌<ℤ◌, leb_ℤ}
use d5net_billing.Prelude.Int64.{IsInt64, in_int64}
use d5net_billing.Prelude.Text.{Text}
use d5net_billing.Db.{
  Wallet, Db, World, M, ok, Calm, Outcome, update_rows, Succeeds, pure-Succeeds, select-Succeeds,
  write-Succeeds, transaction-Succeeds, guard-Succeeds, bind-Succeeds, then-Succeeds, gets-Succeeds,
  tenant-Succeeds, bump,
}
use d5net_billing.Wallet.{
  is_wallet, add_balance, set_balance, upsert_rows, upsert_wallet, insert_txn, insert_wallet_txn,
  lookup_account, insert_journal_entry, insert_journal_lines, post_wallet_journal, topup_wallet,
}
use d5net_billing.Wallet.Ledger.{HasUniqueKeys, Picks, is_wallet-Picks}
use d5net_billing.Wallet.Refines.{ToppedUp, topup_wallet-ToppedUp, found-balance}
use d5net_billing.Wallet.Views.{view}

add_balance-some :
    (a : ℤ) (wl : Wallet)
    → IsInt64 (wl.balance +ℤ a)
    → add_balance a wl ≡ some (set_balance wl (wl.balance +ℤ a))
unfolding add_balance
add_balance-some a wl h =
    let inside : in_int64 (wl.balance +ℤ a) ≡ true = ground arith in rw (add_balance, inside)

-- The one row that is written stays in range.
update-exists :
    (p : Wallet → Bool) (wl y : Wallet) (a : ℤ) (ws : List Wallet)
    → add_balance a wl ≡ some y
    → Picks p wl ws
    → (rows : List Wallet) × (update_rows p (add_balance a) ws ≡ some rows)
unfolding update_rows
update-exists p wl y a [] e s = ([], refl)
update-exists p wl y a (x ∷ xs) e ((q, same), s) =
    let (rows, tail) = update-exists p wl y a xs e s in
    elim (Bool-cases (p x)) [
      | inl hit ↦ (y ∷ rows, rw (hit, same hit, e, tail) refl)
      | inr miss ↦ (x ∷ rows, rw (miss, tail) refl)
    ]

upsert-exists :
    (t c : ℕ) (a : ℤ) (d : Db) (o : Option Wallet)
    → HasUniqueKeys d.wallets
    → IsInt64 (view d.wallets t c +ℤ a)
    → find? (is_wallet t c) d.wallets ≡ o
    → (r : ℕ × Db) × (upsert_rows t c a d o ≡ some r)
upsert-exists t c a d none u fits found = (_, refl)
upsert-exists t c a d (some wl) u fits found =
    let b : IsInt64 (wl.balance +ℤ a) = rw (found-balance t c d.wallets found) at fits in
    let (rows, e) =
      update-exists (is_wallet t c) wl (set_balance wl (wl.balance +ℤ a)) a d.wallets
        (add_balance-some a wl b) (is_wallet-Picks t c d.wallets u found) in
    ((wl.id, record d { wallets = rows }), rw e refl)

insert_wallet_txn-Succeeds :
    (t k : ℕ) (a : ℤ) (type ref desc : Text) (w : World)
    → Calm w
    → Succeeds (insert_wallet_txn t k a type ref desc) w
unfolding insert_wallet_txn insert_txn
insert_wallet_txn-Succeeds t k a type ref desc w calm = write-Succeeds _ w _ _ calm refl

post-Succeeds :
    (t : ℕ) (description ref source_type : Text) (source_id : Option ℕ) (debit credit : ℕ) (a : ℤ)
    (w : World)
    → Calm w
    → Succeeds (post_wallet_journal t description ref source_type source_id debit credit a) w
unfolding post_wallet_journal insert_journal_entry insert_journal_lines
post-Succeeds t description ref source_type source_id debit credit a w calm =
    elim (Bool-cases (leb_ℤ a (pos 0) || debit == 0 || credit == 0)) [
      | inl skip ↦ rw skip (pure-Succeeds tt w calm)
      | inr post ↦ rw post (
          bind-Succeeds _ _ w (write-Succeeds _ w _ _ calm refl)
            (λ e v q calm. write-Succeeds _ v _ _ calm refl))
    ]

-- The value of the answer, from what every answer says.
answer-value :
    (t c : ℕ) (a : ℤ) (m : M ℤ) (w : World) (b : ℤ) (v : World)
    → m w ≡ (ok b, v)
    → Outcome (ToppedUp t c a w.db) (λ d. d ≡ w.db) (m w)
    → b ≡ view w.db.wallets t c +ℤ a
answer-value t c a m w b v e h =
    let (positive, moves, value) =
      subst (λ r. Outcome (ToppedUp t c a w.db) (λ d. d ≡ w.db) r) e h in
    let own : (t == t && c == c) ≡ true = ground arith in
    value
    ∙ moves t c
    ∙ ap (λ q. if q then view w.db.wallets t c +ℤ a else view w.db.wallets t c) own

-- Where no statement fails and customers have one wallet each, a top-up by a positive amount that
-- leaves the balance a 64-bit integer succeeds, and answers with the old balance and the amount.
pub topup_wallet-Succeeds :
    (t c : ℕ) (a : ℤ) (type ref desc : Text) (w : World)
    → Calm w
    → HasUniqueKeys w.db.wallets
    → pos 0 <ℤ a
    → IsInt64 (view w.db.wallets t c +ℤ a)
    → (v : World) × (topup_wallet t c a type ref desc w ≡ (ok (view w.db.wallets t c +ℤ a), v))
unfolding topup_wallet upsert_wallet lookup_account
topup_wallet-Succeeds t c a type ref desc w calm u positive fits =
    let ((k, d), inserted) =
      upsert-exists t c a w.db (find? (is_wallet t c) w.db.wallets) u fits refl in
    let (b, v, e, later) = guard-Succeeds _ _ _ w (ground arith) (
      transaction-Succeeds _ w calm (
        tenant-Succeeds _ (bump w) calm (
          bind-Succeeds _ _ (bump (bump w)) (write-Succeeds _ (bump (bump w)) k d calm inserted)
            (λ k v q calm. gets-Succeeds _ _ v (
              then-Succeeds _ _ v (insert_wallet_txn-Succeeds t k a _ ref desc v calm)
                (λ _ v q calm. bind-Succeeds _ _ v (select-Succeeds _ v calm) (λ cash v q calm.
                  bind-Succeeds _ _ v (select-Succeeds _ v calm) (λ liability v q calm.
                    then-Succeeds _ _ v (post-Succeeds t _ _ _ (some c) cash liability a v calm)
                      (λ _ v q calm. pure-Succeeds _ v calm))))))))) in
    let value =
      answer-value t c a (topup_wallet t c a type ref desc) w b v e
        (topup_wallet-ToppedUp t c a type ref desc w u) in
    (v, e ∙ ap (λ n. (ok n, v)) value)
