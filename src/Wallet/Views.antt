-- ===== src/Wallet/Views.antt =====
-- The balances as a function of tenant and customer, and what a statement on the wallets does to it.
use mathlib.Core.Option.{some-injective}
use d5net_billing.Prelude.{
  ℕ, ◌≡◌, ◌≢◌, refl, sym, ap, ◌∙◌, Bool, true, false, ◌&&◌, none, some, List, [], ◌∷◌, inl, inr,
  arith, ◌==◌, find?, Bool-cases, if◌then◌else◌,
}
use d5net_billing.Prelude.Int.{ℤ, pos, ◌+ℤ◌, int_laws}
use d5net_billing.Db.{Wallet, update_rows, cons?_split}
use d5net_billing.Wallet.{is_wallet, add_balance, set_balance, new_wallet, balance_of}
use d5net_billing.Wallet.Ledger.{Picks, add_balance_lem}

-- What a customer has, by tenant and customer; 0 without a wallet.
abbrev pub Balances : Type 0
Balances = ℕ → ℕ → ℤ

abbrev pub view : List Wallet → Balances
view ws t c = balance_of t c ws

-- One customer's balance moves by `n`.
abbrev pub moved : ℕ → ℕ → ℤ → Balances → Balances
moved t c n b t' c' = if t' == t && c' == c then b t c +ℤ n else b t' c'

abbrev pub IsMoved : ℕ → ℕ → ℤ → List Wallet → List Wallet → Type 0
IsMoved t c n ws ws' = (t' c' : ℕ) → view ws' t' c' ≡ moved t c n (view ws) t' c'

step_of :
    (p : Wallet → Bool) (wl : Wallet) (a : ℤ) (x y : Wallet)
    → (if p x then add_balance a x else some x) ≡ some y
    → p x ≡ true
    → y ≡ set_balance x (x.balance +ℤ a)
step_of p wl a x y e hit = add_balance_lem a x y (rw hit at e)

stays :
    (p : Wallet → Bool) (a : ℤ) (x y : Wallet)
    → (if p x then add_balance a x else some x) ≡ some y
    → p x ≡ false
    → x ≡ y
stays p a x y e miss = some-injective _ _ (rw miss at e)

balance_of-hit :
    (t c : ℕ) (x : Wallet) (xs : List Wallet)
    → is_wallet t c x ≡ true
    → balance_of t c (x ∷ xs) ≡ x.balance
balance_of-hit t c x xs h = rw h

balance_of-miss :
    (t c : ℕ) (x : Wallet) (xs : List Wallet)
    → is_wallet t c x ≡ false
    → balance_of t c (x ∷ xs) ≡ balance_of t c xs
balance_of-miss t c x xs h = rw h

same_id : {wl : Wallet} (x : Wallet) → x ≡ wl → (x.id == wl.id) ≡ true
same_id x e = rw (← e) (ground arith)

true-not-false : true ≢ false
true-not-false e = cc

-- The first row after an update that writes it, and after one that does not.
written-miss :
    (t c : ℕ) (n : ℤ) (x y : Wallet) {ys zs : List Wallet}
    → ys ≡ y ∷ zs
    → y ≡ set_balance x n
    → is_wallet t c x ≡ false
    → balance_of t c ys ≡ balance_of t c zs
written-miss t c n x y all e h = rw (all, e) (balance_of-miss t c (set_balance x n) _ h)

written-hit :
    (t c : ℕ) (n : ℤ) (x y : Wallet) {ys zs : List Wallet}
    → ys ≡ y ∷ zs
    → y ≡ set_balance x n
    → is_wallet t c x ≡ true
    → balance_of t c ys ≡ n
written-hit t c n x y all e h = rw (all, e) (balance_of-hit t c (set_balance x n) _ h)

kept-first :
    (t c : ℕ) (x y : Wallet) (xs : List Wallet) {ys zs : List Wallet}
    → ys ≡ y ∷ zs
    → x ≡ y
    → balance_of t c zs ≡ balance_of t c xs
    → balance_of t c ys ≡ balance_of t c (x ∷ xs)
kept-first t c x y xs all e h = rw (all, ← e, h) refl

module _ (p : Wallet → Bool) (wl : Wallet) (a : ℤ) (t c : ℕ) (own : is_wallet t c wl ≡ true) where
  other-view :
      (ws : List Wallet) {ys : List Wallet} (t' c' : ℕ)
      → is_wallet t' c' wl ≡ false
      → update_rows p (add_balance a) ws ≡ some ys
      → Picks p wl ws
      → balance_of t' c' ys ≡ balance_of t' c' ws
  unfolding update_rows
  other-view [] t' c' apart e s = rw (← some-injective _ _ e)
  other-view (x ∷ xs) t' c' apart e ((q, same), s) =
      let (y, zs, head, tail, all) = cons?_split _ _ e in
      let rest = other-view xs t' c' apart tail s in
      elim (Bool-cases (p x)) [
        | inl hit ↦
            let miss : is_wallet t' c' x ≡ false = rw (same hit) apart in
            written-miss t' c' (x.balance +ℤ a) x y all (step_of p wl a x y head hit) miss
            ∙ rest
            ∙ sym (balance_of-miss t' c' x xs miss)
        | inr miss ↦ kept-first t' c' x y xs all (stays p a x y head miss) rest
      ]

  own-view :
      (ws : List Wallet) {ys : List Wallet}
      → find? (is_wallet t c) ws ≡ some wl
      → update_rows p (add_balance a) ws ≡ some ys
      → Picks p wl ws
      → balance_of t c ys ≡ balance_of t c ws +ℤ a
  unfolding update_rows
  own-view [] found e s = cc
  own-view (x ∷ xs) found e ((q, same), s) =
      let (y, zs, head, tail, all) = cons?_split _ _ e in
      elim (Bool-cases (p x)) [
        | inl hit ↦
            let mine : is_wallet t c x ≡ true = rw (same hit) own in
            written-hit t c (x.balance +ℤ a) x y all (step_of p wl a x y head hit) mine
            ∙ ap (λ n. n +ℤ a) (sym (balance_of-hit t c x xs mine))
        | inr miss ↦ elim (Bool-cases (is_wallet t c x)) [
          | inl mine ↦
              let this : x ≡ wl = some-injective _ _ (rw mine at found) in
              let picked : p x ≡ true = q ∙ same_id x this in
              absurd (true-not-false (sym picked ∙ miss))
          | inr other ↦
              let rest = own-view xs (rw other at found) tail s in
              rw (all, ← stays p a x y head miss)
                (balance_of-miss t c x zs other
                  ∙ rest
                  ∙ ap (λ n. n +ℤ a) (sym (balance_of-miss t c x xs other)))
        ]
      ]

  -- The update moves the balance of the wallet's customer, and no other.
  pub update-IsMoved :
      (ws : List Wallet) {ys : List Wallet}
      → find? (is_wallet t c) ws ≡ some wl
      → update_rows p (add_balance a) ws ≡ some ys
      → Picks p wl ws
      → IsMoved t c a ws ys
  update-IsMoved ws found e s t' c' = elim (Bool-cases (t' == t && c' == c)) [
    | inl this ↦
        let et : t' ≡ t = ground arith in
        let ec : c' ≡ c = ground arith in rw this (rw (et, ec) (own-view ws found e s))
    | inr other ↦ rw other (other-view ws t' c' (ground arith) e s)
  ]

balance_of-missing :
    (t c : ℕ) (ws : List Wallet) → find? (is_wallet t c) ws ≡ none → balance_of t c ws ≡ pos 0
balance_of-missing t c [] h = refl
balance_of-missing t c (x ∷ xs) h = elim (Bool-cases (is_wallet t c x)) [
  | inl hit ↦ let e = rw hit at h in cc
  | inr miss ↦ balance_of-miss t c x xs miss ∙ balance_of-missing t c xs (rw miss at h)
]

zero_plus : (a : ℤ) → a ≡ pos 0 +ℤ a
zero_plus a = omega int_laws

-- A first top-up inserts the wallet.
pub insert-IsMoved :
    (k t c : ℕ) (a : ℤ) (ws : List Wallet)
    → find? (is_wallet t c) ws ≡ none
    → IsMoved t c a ws (new_wallet k t c a ∷ ws)
insert-IsMoved k t c a ws missing t' c' = elim (Bool-cases (t' == t && c' == c)) [
  | inl this ↦
      let mine : (t == t' && c == c') ≡ true = ground arith in
      rw (this, mine, balance_of-missing t c ws missing) (zero_plus a)
  | inr other ↦ let theirs : (t == t' && c == c') ≡ false = ground arith in rw (other, theirs) refl
]
