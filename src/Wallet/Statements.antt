-- ===== src/Wallet/Statements.antt =====
-- What each action on wallets, transactions and the journal does to the ledger.
use mathlib.Core.Option.{some-injective}
use d5net_billing.Prelude.{
  ℕ, ◌<◌, ◌≡◌, refl, ap, Bool, ◌||◌, none, some, Option, List, inl, inr, find?, ◌==◌, Bool-cases,
}
use d5net_billing.Prelude.Int.{ℤ, pos, ◌+ℤ◌, ◌≤ℤ◌, int_laws, leb_ℤ}
use d5net_billing.Prelude.Text.{Text}
use d5net_billing.Db.{
  Wallet, Db, World, Outcome, write-Outcome, >>=-Outcome, pure-Outcome, update_rows, find?-All,
}
use d5net_billing.Wallet.{
  is_wallet, upsert_rows, add_balance, with_wallets, upsert_wallet, set_wallets, update_wallets,
  insert_txn, insert_wallet_txn, insert_journal_entry, insert_journal_lines, post_wallet_journal,
}
use d5net_billing.Wallet.Ledger.{IsFunded, Ahead, Ledger, Picks, is_wallet-Picks}
use d5net_billing.Wallet.Keeps.{
  insert-Ahead, update-Ahead, insert-Ledger, same-Ledger, journal_lines_of-IsBalanced,
}

abbrev pub Nothing : Db → Type 0
Nothing d = Unit

abbrev pub Keeps : {A : Type 0} → A → Db → Type 0
Keeps a d = Ledger d

upsert-Ahead :
    (t c : ℕ) (a : ℤ) (d : Db) (o : Option Wallet)
    → pos 0 ≤ℤ a
    → Ledger d
    → find? (is_wallet t c) d.wallets ≡ o
    → (k : ℕ) (d' : Db) → upsert_rows t c a d o ≡ some (k, d')
    → Ahead k a d'
upsert-Ahead t c a d none nonneg h missing k d' e =
    let q = some-injective _ _ e in
    rw (← ap (λ r. r.0) q, ← ap (λ r. r.1) q) (insert-Ahead t c a d nonneg h missing)
upsert-Ahead t c a d (some wl) nonneg h found k d' e =
    go (update_rows (is_wallet t c) (add_balance a) d.wallets) refl e
  where
    funded : pos 0 ≤ℤ wl.balance
    funded = find?-All IsFunded (is_wallet t c) d.wallets found h.funded

    go :
        (r : Option (List Wallet))
        → update_rows (is_wallet t c) (add_balance a) d.wallets ≡ r
        → with_wallets wl.id d r ≡ some (k, d')
        → Ahead k a d'
    go none u e = cc
    go (some rows) u e =
        let q = some-injective _ _ e in
        rw (← ap (λ r. r.0) q, ← ap (λ r. r.1) q)
          (update-Ahead (is_wallet t c) wl a d h (is_wallet-Picks t c d.wallets h.unique found)
            (find?-All (λ x. x.id < d.next_id) (is_wallet t c) d.wallets found h.fresh)
            (omega (int_laws, funded)) u)

pub upsert_wallet-Ahead :
    (t c : ℕ) (a : ℤ) (w : World)
    → pos 0 ≤ℤ a
    → Ledger w.db
    → Outcome (λ k. Ahead k a) Nothing (upsert_wallet t c a w)
unfolding upsert_wallet
upsert_wallet-Ahead t c a w nonneg h =
    write-Outcome (λ k. Ahead k a) Nothing _ w tt
      (λ k d q. upsert-Ahead t c a w.db (find? (is_wallet t c) w.db.wallets) nonneg h refl k d q)

pub update_wallets-Ahead :
    (p : Wallet → Bool) (wl : Wallet) (a : ℤ) (w : World)
    → Ledger w.db
    → Picks p wl w.db.wallets
    → wl.id < w.db.next_id
    → pos 0 ≤ℤ wl.balance +ℤ a
    → Outcome (λ _. Ahead wl.id a) Nothing (update_wallets p (add_balance a) w)
unfolding update_wallets
update_wallets-Ahead p wl a w h picks known nonneg =
    write-Outcome (λ _. Ahead wl.id a) Nothing _ w tt
      (λ k d q. go (update_rows p (add_balance a) w.db.wallets) refl d q)
  where
    go :
        (r : Option (List Wallet))
        → update_rows p (add_balance a) w.db.wallets ≡ r
        → (d : Db) → set_wallets w.db r ≡ some (tt, d)
        → Ahead wl.id a d
    go none u d e = cc
    go (some rows) u d e =
        rw (← ap (λ r. r.1) (some-injective _ _ e))
          (update-Ahead p wl a w.db h picks known nonneg u)

pub insert_txn-Ledger :
    (t k : ℕ) (a : ℤ) (type : Text) (ref desc : Option Text) (w : World)
    → Ahead k a w.db
    → Outcome Keeps Nothing (insert_txn t k a type ref desc w)
unfolding insert_txn
insert_txn-Ledger t k a type ref desc w h =
    write-Outcome Keeps Nothing _ w tt
      (λ u d q. rw (← ap (λ r. r.1) (some-injective _ _ q)) (insert-Ledger k a _ w.db refl refl h))

pub insert_wallet_txn-Ledger :
    (t k : ℕ) (a : ℤ) (type ref desc : Text) (w : World)
    → Ahead k a w.db
    → Outcome Keeps Nothing (insert_wallet_txn t k a type ref desc w)
unfolding insert_wallet_txn
insert_wallet_txn-Ledger t k a type ref desc w h = insert_txn-Ledger t k a type _ _ w h

insert_journal_entry-Ledger :
    (t : ℕ) (description ref source_type : Text) (source_id : Option ℕ) (w : World)
    → Ledger w.db
    → Outcome Keeps Nothing (insert_journal_entry t description ref source_type source_id w)
unfolding insert_journal_entry
insert_journal_entry-Ledger t description ref source_type source_id w h =
    write-Outcome Keeps Nothing _ w tt (λ u d q.
      rw (← ap (λ r. r.1) (some-injective _ _ q)) (same-Ledger w.db _ refl refl refl h.balanced h))

insert_journal_lines-Ledger :
    (t e debit credit : ℕ) (a : ℤ) (w : World)
    → Ledger w.db
    → Outcome Keeps Nothing (insert_journal_lines t e debit credit a w)
unfolding insert_journal_lines
insert_journal_lines-Ledger t e debit credit a w h = write-Outcome Keeps Nothing _ w tt (λ u d q.
    rw (← ap (λ r. r.1) (some-injective _ _ q)) (record {
      balances = h.balances;
      funded = h.funded;
      unique = h.unique;
      fresh = h.fresh;
      old = h.old;
      balanced = journal_lines_of-IsBalanced t e debit credit a w.db.journal_lines h.balanced;
    }))

pub post_wallet_journal-Ledger :
    (t : ℕ) (description ref source_type : Text) (source_id : Option ℕ) (debit credit : ℕ) (a : ℤ)
    (w : World)
    → Ledger w.db
    → Outcome Keeps Nothing
        (post_wallet_journal t description ref source_type source_id debit credit a w)
unfolding post_wallet_journal
post_wallet_journal-Ledger t description ref source_type source_id debit credit a w h =
    elim (Bool-cases (leb_ℤ a (pos 0) || debit == 0 || credit == 0)) [
      | inl skip ↦ rw skip (pure-Outcome Keeps Nothing tt w h)
      | inr post ↦ rw post (
          >>=-Outcome Keeps Nothing Keeps _ _ w
            (insert_journal_entry-Ledger t description ref source_type source_id w h)
            (λ e v k. insert_journal_lines-Ledger t e debit credit a v k))
    ]
