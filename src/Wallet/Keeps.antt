-- ===== src/Wallet/Keeps.antt =====
-- What each statement on wallets, transactions and the journal does to the ledger.
use mathlib.Core.Path.{subst}
use d5net_billing.Prelude.{
  ℕ, suc, ◌<◌, ◌≡◌, refl, sym, Bool, true, false, none, some, List, [], ◌∷◌, inl, inr, arith, All,
  find?, ◌==◌, Bool-cases,
}
use d5net_billing.Prelude.Int.{ℤ, pos, ◌+ℤ◌, ◌≤ℤ◌, int_laws}
use d5net_billing.Db.{Wallet, WalletTxn, JournalLine, Db, update_rows}
use d5net_billing.Wallet.{is_wallet, add_balance, new_wallet, journal_lines_of}
use d5net_billing.Wallet.Ledger.{
  txn_sum, debit_sum, credit_sum, IsBalanced, Ahead, Ledger, Picks, All-map, update-IsAhead,
  update-IsFunded, update_keeps, update-HasUniqueKeys,
}

-- Rows that no query finds fail its condition.
find?-none : (p : Wallet → Bool) (xs : List Wallet) → find? p xs ≡ none → All (λ x. p x ≡ false) xs
find?-none p [] e = tt
find?-none p (x ∷ xs) e = elim (Bool-cases (p x)) [
  | inl hit ↦ (let q = rw hit at e in cc)
  | inr miss ↦ (miss, find?-none p xs (rw miss at e))
]

-- A wallet that no transaction names has the sum 0.
txn_sum_fresh : (k : ℕ) (xs : List WalletTxn) → All (λ x. x.wallet_id < k) xs → txn_sum k xs ≡ pos 0
unfolding txn_sum
txn_sum_fresh k [] h = refl
txn_sum_fresh k (x ∷ xs) (b, h) =
    let other : (x.wallet_id == k) ≡ false = ground arith in
    rw (other, txn_sum_fresh k xs h) (omega int_laws)

All-zip :
    {A : Type 0} (P Q R : A → Type 0) (xs : List A)
    → All P xs
    → All Q xs
    → ((x : A) → P x → Q x → R x)
    → All R xs
All-zip P Q R [] h k f = tt
All-zip P Q R (x ∷ xs) (p, h) (q, k) f = (f x p q, All-zip P Q R xs h k f)

-- Handing out an id keeps what is below it.
pub later_fresh : (n : ℕ) (xs : List Wallet) → All (λ x. x.id < n) xs → All (λ x. x.id < suc n) xs
later_fresh n xs h = All-map xs h (λ x b. omega arith)

pub later_old :
    (n : ℕ) (xs : List WalletTxn)
    → All (λ x. x.wallet_id < n) xs
    → All (λ x. x.wallet_id < suc n) xs
later_old n xs h = All-map xs h (λ x b. omega arith)

pub insert-Ahead :
    (t c : ℕ) (a : ℤ) (d : Db)
    → pos 0 ≤ℤ a
    → Ledger d
    → find? (is_wallet t c) d.wallets ≡ none
    → Ahead d.next_id a
        (record d { next_id = suc d.next_id; wallets = new_wallet d.next_id t c a ∷ d.wallets })
insert-Ahead t c a d nonneg h missing =
    let unknown = find?-none (is_wallet t c) d.wallets missing in
    let own : (d.next_id == d.next_id) ≡ true = ground arith in
    record {
      balances = (
        rw (own, txn_sum_fresh d.next_id d.wallet_transactions h.old) (omega int_laws),
        All-zip _ _ _ d.wallets h.fresh h.balances (λ x b q.
            let other : (x.id == d.next_id) ≡ false = ground arith in
            rw (other, q) (omega int_laws)),
      );
      funded = (nonneg, h.funded);
      unique = (
        All-zip _ _ _ d.wallets h.fresh unknown (λ x b miss. ((λ e. omega arith), miss)),
        h.unique,
      );
      fresh = (omega arith, later_fresh d.next_id d.wallets h.fresh);
      old = later_old d.next_id d.wallet_transactions h.old;
      known = omega arith;
      balanced = h.balanced;
    }

-- Changing one wallet's balance by `a`, where the result is not negative.
pub update-Ahead :
    (p : Wallet → Bool) (wl : Wallet) (a : ℤ) (d : Db) {rows : List Wallet}
    → Ledger d
    → Picks p wl d.wallets
    → wl.id < d.next_id
    → pos 0 ≤ℤ wl.balance +ℤ a
    → update_rows p (add_balance a) d.wallets ≡ some rows
    → Ahead wl.id a (record d { wallets = rows })
update-Ahead p wl a d h picks known nonneg e =
    let txns = d.wallet_transactions in
    record {
      balances = update-IsAhead p wl a txns d.wallets e picks h.balances;
      funded = update-IsFunded p wl a txns d.wallets e picks nonneg h.funded;
      unique = update-HasUniqueKeys p wl a txns d.wallets e h.unique;
      fresh = update_keeps p wl a txns _ d.wallets e (λ x b q. q) h.fresh;
      old = h.old;
      known = known;
      balanced = h.balanced;
    }

-- The transaction row makes up for the balance.
pub insert-Ledger :
    (k : ℕ) (a : ℤ) (x : WalletTxn) (d : Db)
    → x.wallet_id ≡ k
    → x.amount ≡ a
    → Ahead k a d
    → Ledger (record d { next_id = suc d.next_id; wallet_transactions = x ∷ d.wallet_transactions })
unfolding txn_sum
insert-Ledger k a x d own same h = record {
  balances = All-map d.wallets h.balances (λ y b. elim (Bool-cases (y.id == k)) [
    | inl hit ↦
        let q : (x.wallet_id == y.id) ≡ true = ground arith in rw (q, same, b, hit) (omega int_laws)
    | inr miss ↦
        let q : (x.wallet_id == y.id) ≡ false = ground arith in rw (q, b, miss) (omega int_laws)
  ]);
  funded = h.funded;
  unique = h.unique;
  fresh = later_fresh d.next_id d.wallets h.fresh;
  old = (rw own (let b = h.known in omega arith), later_old d.next_id d.wallet_transactions h.old);
  balanced = h.balanced;
}

-- Tables that differ elsewhere, and in ids handed out.
pub same-Ledger :
    (d d' : Db)
    → d'.next_id ≡ suc d.next_id
    → d'.wallets ≡ d.wallets
    → d'.wallet_transactions ≡ d.wallet_transactions
    → IsBalanced d'.journal_lines
    → Ledger d
    → Ledger d'
same-Ledger d d' n ws ts balanced h = record {
  balances = rw (ws, ts) (h.balances);
  funded = rw ws (h.funded);
  unique = rw ws (h.unique);
  fresh = rw ws (
      subst (λ m. All (λ x. x.id < m) d.wallets) (sym n) (later_fresh d.next_id d.wallets h.fresh));
  old = rw ts (
      subst (λ m. All (λ x. x.wallet_id < m) d.wallet_transactions) (sym n)
        (later_old d.next_id d.wallet_transactions h.old));
  balanced = balanced;
}

pub journal_lines_of-IsBalanced :
    (t e debit credit : ℕ) (a : ℤ) (ls : List JournalLine)
    → IsBalanced ls
    → IsBalanced (journal_lines_of t e debit credit a ls)
unfolding debit_sum credit_sum
journal_lines_of-IsBalanced t e debit credit a ls h e' = elim (Bool-cases (e == e')) [
  | inl hit ↦ rw (hit, h e') (omega int_laws)
  | inr miss ↦ rw (miss, h e') refl
]
