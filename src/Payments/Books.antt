-- ===== src/Payments/Books.antt =====
-- The books of the payments: for every live invoice the paid amount is the sum of its counted
-- payments. Here are the steps on the tables that keep them.
use mathlib.Core.Option.{some-injective}
use d5net_billing.Prelude.{
  ℕ, ◌<◌, ◌≤◌, ◌≡◌, sym, ◌∙◌, true, false, ◌&&◌, none, some, List, [], ◌∷◌, inl, inr, arith, All,
  ◌==◌, Bool-cases, if◌then◌else◌,
}
use d5net_billing.Prelude.Int.{ℤ, pos, ◌+ℤ◌, ◌≤ℤ◌, int_laws}
use d5net_billing.Db.{Payment, Invoice, Db, update_rows, update_rows-All}
use d5net_billing.Invoices.{is_invoice, is_live_invoice}
use d5net_billing.Payments.{add_payment, set_paid, add_delta, set_delta, greatest_0}
use d5net_billing.Payments.Sums.{paid_sum, paid_sum_nonneg, IsSound, HasUniqueIds}

abbrev pub IsSettled : List Payment → Invoice → Type 0
IsSettled ps i = i.deleted_at ≡ none → i.paid_amount ≡ paid_sum i.tenant_id i.id ps

pub record Books (d : Db) : Type 0 where
  pub settled : All (IsSettled d.payments) d.invoices
  pub sound : All IsSound d.payments
  pub unique : HasUniqueIds d.payments
  pub fresh : All (λ p. p.id < d.next_id) d.payments

-- The sums of one invoice have moved by `delta`, those of the others stay.
abbrev pub Shift : ℕ → ℕ → ℤ → List Payment → List Payment → Type 0
Shift t inv delta ps ps' =
    (t' k' : ℕ)
    → paid_sum t' k' ps' ≡ paid_sum t' k' ps +ℤ (if t == t' && inv == k' then delta else pos 0)

pub add_payment_lem :
    (now : ℕ) (a : ℤ) (x y : Invoice)
    → add_payment now a x ≡ some y
    → y ≡ set_paid now (x.paid_amount +ℤ a) x
unfolding add_payment
add_payment_lem now a x y e = ground arith

pub add_delta_lem :
    (now today : ℕ) (a : ℤ) (x y : Invoice)
    → add_delta now today a x ≡ some y
    → y ≡ set_delta now today (greatest_0 (x.paid_amount +ℤ a)) x
unfolding add_delta
add_delta_lem now today a x y e = ground arith

pub greatest_0_id : (n : ℤ) → pos 0 ≤ℤ n → greatest_0 n ≡ n
greatest_0_id n h = ground arith

module _ (t inv : ℕ) (delta : ℤ) (ps ps' : List Payment) (moved : Shift t inv delta ps ps') where
  other-IsSettled :
      (x : Invoice) → is_live_invoice t inv x ≡ false → IsSettled ps x → IsSettled ps' x
  other-IsSettled x miss h live =
      let apart : (t == x.tenant_id && inv == x.id) ≡ false = ground arith in
      let same : paid_sum x.tenant_id x.id ps' ≡ paid_sum x.tenant_id x.id ps +ℤ pos 0 =
        rw apart at (moved x.tenant_id x.id) in
      rw (same, h live) (omega int_laws)

  -- The invoice whose row is written.
  same_sum :
      (x : Invoice)
      → is_live_invoice t inv x ≡ true
      → IsSettled ps x
      → paid_sum x.tenant_id x.id ps' ≡ x.paid_amount +ℤ delta
  same_sum x hit h =
      let own : (t == x.tenant_id && inv == x.id) ≡ true = ground arith in
      let live : x.deleted_at ≡ none = ground arith in
      rw (h live) (rw own at (moved x.tenant_id x.id))

  add_payment-step :
      (now : ℕ) (x y : Invoice)
      → IsSettled ps x
      → (if is_live_invoice t inv x then add_payment now delta x else some x) ≡ some y
      → IsSettled ps' y
  add_payment-step now x y h e = elim (Bool-cases (is_live_invoice t inv x)) [
    | inl hit ↦ rw (add_payment_lem now delta x y (rw hit at e)) (λ _. sym (same_sum x hit h))
    | inr miss ↦ rw (← some-injective _ _ (rw miss at e)) (other-IsSettled x miss h)
  ]

  add_delta-step :
      (now today : ℕ) (x y : Invoice)
      → All IsSound ps'
      → IsSettled ps x
      → (if is_live_invoice t inv x then add_delta now today delta x else some x) ≡ some y
      → IsSettled ps' y
  add_delta-step now today x y s h e = elim (Bool-cases (is_live_invoice t inv x)) [
    | inl hit ↦
        let sum = same_sum x hit h in
        let n = x.paid_amount +ℤ delta in
        let nonneg : pos 0 ≤ℤ n = rw (← sum) (paid_sum_nonneg x.tenant_id x.id ps' s) in
        rw (add_delta_lem now today delta x y (rw hit at e), greatest_0_id n nonneg) (λ _. sym sum)
    | inr miss ↦ rw (← some-injective _ _ (rw miss at e)) (other-IsSettled x miss h)
  ]

  -- The same when the statement also writes a trashed row of that id.
  pay-step :
      (now : ℕ) (x y : Invoice)
      → IsSettled ps x
      → (if is_invoice t inv x then add_payment now delta x else some x) ≡ some y
      → IsSettled ps' y
  pay-step now x y h e = elim (Bool-cases (is_invoice t inv x)) [
    | inl hit ↦ elim (Bool-cases (is_live_invoice t inv x)) [
      | inl live ↦ rw (add_payment_lem now delta x y (rw hit at e)) (λ _. sym (same_sum x live h))
      | inr dead ↦ rw (add_payment_lem now delta x y (rw hit at e)) (λ live. ground arith)
    ]
    | inr miss ↦
        let dead : is_live_invoice t inv x ≡ false = rw miss in
        rw (← some-injective _ _ (rw miss at e)) (other-IsSettled x dead h)
  ]

  pub pay-IsSettled :
      (now : ℕ) (is : List Invoice) {ys : List Invoice}
      → update_rows (is_invoice t inv) (add_payment now delta) is ≡ some ys
      → All (IsSettled ps) is
      → All (IsSettled ps') ys
  pay-IsSettled now is e = update_rows-All _ _ is e (pay-step now)

  pub add_payment-IsSettled :
      (now : ℕ) (is : List Invoice) {ys : List Invoice}
      → update_rows (is_live_invoice t inv) (add_payment now delta) is ≡ some ys
      → All (IsSettled ps) is
      → All (IsSettled ps') ys
  add_payment-IsSettled now is e = update_rows-All _ _ is e (add_payment-step now)

  pub add_delta-IsSettled :
      (now today : ℕ) (is : List Invoice) {ys : List Invoice}
      → All IsSound ps'
      → update_rows (is_live_invoice t inv) (add_delta now today delta) is ≡ some ys
      → All (IsSettled ps) is
      → All (IsSettled ps') ys
  add_delta-IsSettled now today is s e =
      update_rows-All _ _ is e (λ x y. add_delta-step now today x y s)

-- Where no sum moves, no invoice has to.
pub unmoved-IsSettled :
    (ps ps' : List Payment)
    → ((t k : ℕ) → paid_sum t k ps' ≡ paid_sum t k ps)
    → (is : List Invoice) → All (IsSettled ps) is
    → All (IsSettled ps') is
unmoved-IsSettled ps ps' same [] h = tt
unmoved-IsSettled ps ps' same (i ∷ is) (settled, h) =
    ((λ live. settled live ∙ sym (same i.tenant_id i.id)), unmoved-IsSettled ps ps' same is h)

-- The rest of the tables is no part of the books.
pub Books-frame :
    (d d' : Db)
    → d'.invoices ≡ d.invoices
    → d'.payments ≡ d.payments
    → d.next_id ≤ d'.next_id
    → Books d
    → Books d'
Books-frame d d' is ps n h = record {
  settled = rw (ps, is) (h.settled);
  sound = rw ps (h.sound);
  unique = rw ps (h.unique);
  fresh = rw ps (older d.payments h.fresh);
}
  where
    older : (qs : List Payment) → All (λ p. p.id < d.next_id) qs → All (λ p. p.id < d'.next_id) qs
    older [] k = tt
    older (q ∷ qs) (k, ks) = (omega arith, older qs ks)
