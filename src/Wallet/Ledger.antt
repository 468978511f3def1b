-- ===== src/Wallet/Ledger.antt =====
-- The ledger of the wallets: what holds of the tables between transactions, and the steps on the
-- rows that move it.
use mathlib.Core.Option.{some-injective}
use mathlib.Core.Path.{subst}
use d5net_billing.Prelude.{
  ℕ, ◌<◌, ◌≡◌, ◌≢◌, refl, ap, Bool, true, false, some, List, [], ◌∷◌, inl, inr, arith, All, find?,
  ◌==◌, Bool-cases, if◌then◌else◌,
}
use d5net_billing.Prelude.Int.{ℤ, pos, ◌+ℤ◌, ◌≤ℤ◌, int_laws}
use d5net_billing.Db.{
  Wallet, WalletTxn, JournalLine, Db, update_rows, update_rows-All, cons?_split, find?-All,
}
use d5net_billing.Wallet.{is_wallet, is_wallet_id, add_balance, set_balance}

-- The sum of a wallet's transactions.
unfoldable pub txn_sum : ℕ → List WalletTxn → ℤ
txn_sum k [] = pos 0
txn_sum k (x ∷ xs) = (if x.wallet_id == k then x.amount else pos 0) +ℤ txn_sum k xs

-- What the lines of an entry debit and credit.
unfoldable pub debit_sum : ℕ → List JournalLine → ℤ
debit_sum e [] = pos 0
debit_sum e (l ∷ ls) = (if l.entry_id == e then l.debit else pos 0) +ℤ debit_sum e ls

unfoldable pub credit_sum : ℕ → List JournalLine → ℤ
credit_sum e [] = pos 0
credit_sum e (l ∷ ls) = (if l.entry_id == e then l.credit else pos 0) +ℤ credit_sum e ls

abbrev pub IsBalanced : List JournalLine → Type 0
IsBalanced ls = (e : ℕ) → debit_sum e ls ≡ credit_sum e ls

-- Two rows differ in their id, and in their tenant or customer.
abbrev pub IsApart : Wallet → Wallet → Type 0
IsApart x y = (x.id ≢ y.id) × (is_wallet x.tenant_id x.customer_id y ≡ false)

abbrev pub HasUniqueKeys : List Wallet → Type 0
HasUniqueKeys [] = Unit
HasUniqueKeys (x ∷ xs) = All (IsApart x) xs × HasUniqueKeys xs

-- The balance is `a` ahead of the transactions in wallet `k`, and equal to their sum elsewhere.
abbrev pub IsAhead : ℕ → ℤ → List WalletTxn → Wallet → Type 0
IsAhead k a txns wl = wl.balance ≡ txn_sum wl.id txns +ℤ (if wl.id == k then a else pos 0)

abbrev pub IsFunded : Wallet → Type 0
IsFunded wl = pos 0 ≤ℤ wl.balance

-- The ledger while the transaction row of wallet `k` is still to be inserted.
pub record Ahead (k : ℕ) (a : ℤ) (d : Db) : Type 0 where
  pub balances : All (IsAhead k a d.wallet_transactions) d.wallets
  pub funded : All IsFunded d.wallets
  pub unique : HasUniqueKeys d.wallets
  pub fresh : All (λ wl. wl.id < d.next_id) d.wallets
  pub old : All (λ x. x.wallet_id < d.next_id) d.wallet_transactions
  pub known : k < d.next_id
  pub balanced : IsBalanced d.journal_lines

-- Every balance is the sum of the wallet's transactions and not negative, every journal entry
-- debits what it credits.
pub record Ledger (d : Db) : Type 0 where
  pub balances : All (λ wl. wl.balance ≡ txn_sum wl.id d.wallet_transactions) d.wallets
  pub funded : All IsFunded d.wallets
  pub unique : HasUniqueKeys d.wallets
  pub fresh : All (λ wl. wl.id < d.next_id) d.wallets
  pub old : All (λ x. x.wallet_id < d.next_id) d.wallet_transactions
  pub balanced : IsBalanced d.journal_lines

pub All-map :
    {A : Type 0} {P Q : A → Type 0} (xs : List A) → All P xs → ((x : A) → P x → Q x) → All Q xs
All-map [] h f = tt
All-map (x ∷ xs) (p, h) f = (f x p, All-map xs h f)

All-both :
    {A : Type 0} (P Q : A → Type 0) (xs : List A) → All P xs → All Q xs → All (λ x. P x × Q x) xs
All-both P Q [] h k = tt
All-both P Q (x ∷ xs) (p, h) (q, k) = ((p, q), All-both P Q xs h k)

-- A test that picks the wallet `wl` and no other row.
abbrev pub Picks : (Wallet → Bool) → Wallet → List Wallet → Type 0
Picks p wl = All λ x. (p x ≡ (x.id == wl.id)) × (p x ≡ true → x ≡ wl)

apart-Picks :
    (t c : ℕ) (x : Wallet) (xs : List Wallet)
    → is_wallet t c x ≡ true
    → All (IsApart x) xs
    → Picks (is_wallet t c) x xs
apart-Picks t c x xs hit h = All-map xs h (λ y a.
    let miss : is_wallet t c y ≡ false = (let n = a.1 in ground arith) in
    let other : (y.id == x.id) ≡ false = (let n = a.0 in ground arith) in
    (rw (miss, other) refl, (λ hit. cc)))

-- The wallet found for a customer is the only one of that customer.
pub is_wallet-Picks :
    (t c : ℕ) (xs : List Wallet) {wl : Wallet}
    → HasUniqueKeys xs
    → find? (is_wallet t c) xs ≡ some wl
    → Picks (is_wallet t c) wl xs
is_wallet-Picks t c [] u e = tt
is_wallet-Picks t c (x ∷ xs) {wl} u e = elim (Bool-cases (is_wallet t c x)) [
  | inl hit ↦
      let same : x ≡ wl = some-injective _ _ (rw hit at e) in
      subst (λ v. Picks (is_wallet t c) v (x ∷ xs)) same
        ((ground arith, (λ _. refl)), apart-Picks t c x xs hit u.0)
  | inr miss ↦
      let found = rw miss at e in
      let apart = find?-All (IsApart x) (is_wallet t c) xs found u.0 in
      let n = apart.0 in ((ground arith, (λ hit. cc)), is_wallet-Picks t c xs u.1 found)
]

pub is_wallet_id-Picks :
    (t c : ℕ) (wl : Wallet) (xs : List Wallet)
    → Picks (is_wallet t c) wl xs
    → Picks (is_wallet_id t wl.id) wl xs
is_wallet_id-Picks t c wl xs h = All-map xs h (λ x (s, same).
    let both : is_wallet_id t wl.id x ≡ (x.id == wl.id) = ground arith in
    (both, (λ hit. same (ground arith))))

pub add_balance_lem :
    (a : ℤ) (x y : Wallet) → add_balance a x ≡ some y → y ≡ set_balance x (x.balance +ℤ a)
unfolding add_balance
add_balance_lem a x y e = ground arith

-- Changing the one row `wl` by `a`.
module _ (p : Wallet → Bool) (wl : Wallet) (a : ℤ) (txns : List WalletTxn) where
  -- The row after the update, by cases.
  written :
      (Q : Wallet → Type 0) (x y : Wallet)
      → (if p x then add_balance a x else some x) ≡ some y
      → (p x ≡ true → Q (set_balance x (x.balance +ℤ a)))
      → (p x ≡ false → Q x)
      → Q y
  written Q x y e hit miss = elim (Bool-cases (p x)) [
    | inl yea ↦ rw (add_balance_lem a x y (rw yea at e)) (hit yea)
    | inr nay ↦ rw (← some-injective _ _ (rw nay at e)) (miss nay)
  ]

  pub update-IsAhead :
      (xs : List Wallet) {ys : List Wallet}
      → update_rows p (add_balance a) xs ≡ some ys
      → Picks p wl xs
      → All (λ x. x.balance ≡ txn_sum x.id txns) xs
      → All (IsAhead wl.id a txns) ys
  update-IsAhead xs e s h =
      update_rows-All _ _ xs e
        (λ x y (b, q) g.
          written (IsAhead wl.id a txns) x y g
            (λ hit. let own : (x.id == wl.id) ≡ true = rw (← (q.0)) hit in rw (own, b) refl)
            (λ miss.
              let other : (x.id == wl.id) ≡ false = rw (← (q.0)) miss in
              rw (other, b) (omega int_laws)))
        (All-both _ _ xs h s)

  pub update-IsFunded :
      (xs : List Wallet) {ys : List Wallet}
      → update_rows p (add_balance a) xs ≡ some ys
      → Picks p wl xs
      → pos 0 ≤ℤ wl.balance +ℤ a
      → All IsFunded xs
      → All IsFunded ys
  update-IsFunded xs e s nonneg h =
      update_rows-All _ _ xs e
        (λ x y (b, q) g.
          written IsFunded x y g (λ hit. rw (ap (λ v. v.balance) (q.1 hit)) nonneg) (λ miss. b))
        (All-both _ _ xs h s)

  -- Of each row the id, the tenant and the customer stay.
  pub update_keeps :
      (P : Wallet → Type 0) (xs : List Wallet) {ys : List Wallet}
      → update_rows p (add_balance a) xs ≡ some ys
      → ((x : Wallet) (b : ℤ) → P x → P (set_balance x b))
      → All P xs
      → All P ys
  update_keeps P xs e keep h =
      update_rows-All _ _ xs e
        (λ x y b g. written P x y g (λ hit. keep x (x.balance +ℤ a) b) (λ miss. b)) h

  pub update-HasUniqueKeys :
      (xs : List Wallet) {ys : List Wallet}
      → update_rows p (add_balance a) xs ≡ some ys
      → HasUniqueKeys xs
      → HasUniqueKeys ys
  unfolding update_rows
  update-HasUniqueKeys [] e u = rw (← some-injective _ _ e) tt
  update-HasUniqueKeys (x ∷ xs) e (apart, u) =
      let (y, zs, head, tail, all) = cons?_split _ _ e in
      rw all (
        written (λ v. All (IsApart v) zs) x y head (λ hit. later zs tail) (λ miss. later zs tail),
        update-HasUniqueKeys xs tail u,
      )
    where
      later : (zs : List Wallet) → update_rows p (add_balance a) xs ≡ some zs → All (IsApart x) zs
      later zs tail = update_keeps (IsApart x) xs tail (λ y b n. n) apart
