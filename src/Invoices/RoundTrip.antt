-- ===== src/Invoices/RoundTrip.antt =====
-- A trashed invoice comes back as it was.
use d5net_billing.Prelude.{
  ℕ, ◌-◌, ◌≡◌, ◌≢◌, ◌∙◌, refl, ap, arith, true, false, some, List, [], ◌∷◌, inl, inr, All, find?,
  Bool-cases,
}
use d5net_billing.Db.{
  Invoice, InvoiceItem, Payment, Db, World, ok, bump, Calm, count_rows, set_rows, row-run,
  select-last, bind-run, tenant-run, ◌>>◌, then-run, pure,
}
use d5net_billing.Invoices.{
  is_invoice, is_live_invoice, is_trashed_invoice, is_payment_of, is_bundled_payment, is_intent_of,
  cancel_intent, trash_payment, untrash_payment, delete_invoice, restore_invoice, get_invoice,
  list_invoice_items, two_seconds,
}
use d5net_billing.Invoices.Trash.{
  trashed, untrashed, trashed_db, restored_db, delete_invoice-run, restore_invoice_tx-run,
}

-- No row of this id lies in the trash.
abbrev pub IsKept : ℕ → ℕ → Invoice → Type 0
IsKept t k i = is_trashed_invoice t k i ≡ false

-- A payment of the invoice that lies in the trash was put there more than two seconds before.
abbrev pub IsLongGone : ℕ → ℕ → ℕ → Payment → Type 0
IsLongGone t k now p = is_bundled_payment t k (now - two_seconds) p ≡ false

invoice-restored :
    (t k now : ℕ) (is : List Invoice)
    → All (IsKept t k) is
    → set_rows (is_trashed_invoice t k) untrashed (set_rows (is_live_invoice t k) (trashed now) is)
      ≡ is
unfolding set_rows
invoice-restored t k now [] h = refl
invoice-restored t k now (i ∷ is) (kept, h) = elim (Bool-cases (is_live_invoice t k i)) [
  | inl live ↦
      let hit : is_trashed_invoice t k (trashed now i) ≡ true = ground arith in
      let same : untrashed (trashed now i) ≡ i = ground arith in
      rw (live, hit, invoice-restored t k now is h) (ap (λ x. x ∷ is) same)
  | inr miss ↦ rw (miss, kept, invoice-restored t k now is h) refl
]

payment-restored :
    (t k now : ℕ) (ps : List Payment)
    → All (IsLongGone t k now) ps
    → set_rows
        (is_bundled_payment t k (now - two_seconds))
        untrash_payment
        (set_rows (is_payment_of t k) (trash_payment now) ps)
      ≡ ps
unfolding set_rows
payment-restored t k now [] h = refl
payment-restored t k now (p ∷ ps) (gone, h) = elim (Bool-cases (is_payment_of t k p)) [
  | inl live ↦
      let hit : is_bundled_payment t k (now - two_seconds) (trash_payment now p) ≡ true =
        ground arith in
      let same : untrash_payment (trash_payment now p) ≡ p = ground arith in
      rw (live, hit, payment-restored t k now ps h) (ap (λ x. x ∷ ps) same)
  | inr miss ↦ rw (miss, gone, payment-restored t k now ps h) refl
]

find-passed :
    (t k now : ℕ) (i : Invoice) (is : List Invoice) (j : Invoice)
    → is_live_invoice t k i ≡ false
    → is_invoice t k i ≡ false
    → find? (is_invoice t k) (set_rows (is_live_invoice t k) (trashed now) is)
      ≡ some (trashed now j)
    → find? (is_invoice t k) (set_rows (is_live_invoice t k) (trashed now) (i ∷ is))
      ≡ some (trashed now j)
unfolding set_rows
find-passed t k now i is j miss other e = rw (miss, other) e

-- The trashed invoice is found, with the time of the trashing.
find-trashed :
    (t k now : ℕ) (is : List Invoice)
    → All (IsKept t k) is
    → 0 ≢ count_rows (is_live_invoice t k) is
    → (i : Invoice) × (find? (is_invoice t k) (set_rows (is_live_invoice t k) (trashed now) is)
        ≡ some (trashed now i))
unfolding set_rows count_rows
find-trashed t k now [] h live = absurd (live refl)
find-trashed t k now (i ∷ is) (kept, h) live = elim (Bool-cases (is_live_invoice t k i)) [
  | inl hit ↦
      let own : is_invoice t k (trashed now i) ≡ true = ground arith in (i, rw (hit, own) refl)
  | inr miss ↦
      let other : is_invoice t k i ≡ false = ground arith in
      let live' : 0 ≢ count_rows (is_live_invoice t k) is =
        (let l = rw miss at live in omega arith) in
      let found = find-trashed t k now is h live' in
      (found.0, find-passed t k now i is (found.0) miss other (found.1))
]

trashed-count :
    (t k now : ℕ) (is : List Invoice)
    → 0 ≢ count_rows (is_live_invoice t k) is
    → 0 ≢ count_rows (is_trashed_invoice t k) (set_rows (is_live_invoice t k) (trashed now) is)
unfolding set_rows count_rows
trashed-count t k now [] live = live
trashed-count t k now (i ∷ is) live = elim (Bool-cases (is_live_invoice t k i)) [
  | inl hit ↦
      let own : is_trashed_invoice t k (trashed now i) ≡ true = ground arith in
      rw (hit, own) (omega arith)
  | inr miss ↦
      let live' : 0 ≢ count_rows (is_live_invoice t k) is =
        (let l = rw miss at live in omega arith) in
      let rest = trashed-count t k now is live' in rw miss (omega arith)
]

get_invoice-run :
    (t k : ℕ) (w : World) (i : Invoice)
    → Calm w
    → find? (is_invoice t k) w.db.invoices ≡ some i
    → (items : List InvoiceItem) × (get_invoice true t k w ≡ (ok (i, items), bump (bump (bump w))))
unfolding get_invoice list_invoice_items pure
get_invoice-run t k w i calm found = (
  _,
  tenant-run _ w calm
      ∙ bind-run _ _ _ _ _ (select-last _ _ calm)
      ∙ row-run _ _ _ i found
      ∙ bind-run _ _ _ _ _ (select-last _ _ calm),
)

restore_invoice-run :
    (t k at : ℕ) (i : Invoice) (w : World)
    → Calm w
    → find? (is_invoice t k) w.db.invoices ≡ some (trashed at i)
    → 0 ≢ count_rows (is_trashed_invoice t k) w.db.invoices
    → (v : World) × (restore_invoice t k w ≡ (ok tt, v)) × (v.db ≡ restored_db t k at w.db)
unfolding restore_invoice
restore_invoice-run t k at i w calm found some_row =
    let (items, e) = get_invoice-run t k w (trashed at i) calm found in
    (
      _,
      bind-run _ _ _ _ _ e ∙ restore_invoice_tx-run t k at (bump (bump (bump w))) calm some_row,
      refl,
    )

-- The open payment intents of the invoice are let go.
abbrev pub cancelled : ℕ → ℕ → Db → Db
cancelled t k d = record d {
  payment_intents = set_rows (is_intent_of t k) cancel_intent d.payment_intents;
}

pair-≡ : {A B : Type 0} {x x' : A} {y y' : B} → x ≡ x' → y ≡ y' → ◌≡◌ {A = A × B} (x, y) (x', y')
pair-≡ p q = rw (p, q) refl

-- Where no statement fails, DeleteInvoice of an invoice that is there, followed by RestoreInvoice,
-- succeeds and leaves every table as it was but for the open payment intents of the invoice, which
-- stay cancelled. No row of that id may lie in the trash already, and no payment of the invoice may
-- have been put there in the two seconds before.
pub delete-restore :
    (t k : ℕ) (w : World)
    → Calm w
    → 0 ≢ count_rows (is_live_invoice t k) w.db.invoices
    → All (IsKept t k) w.db.invoices
    → All (IsLongGone t k w.now) w.db.payments
    → let r = (delete_invoice t k >> restore_invoice t k) w in
      (r.0 ≡ ok tt) × (r.1.db ≡ cancelled t k w.db)
delete-restore t k w calm live kept gone =
    let is = w.db.invoices in
    let (i, found) = find-trashed t k w.now is kept live in
    let (v, ran, left) =
      restore_invoice-run t k w.now i _ calm found (trashed-count t k w.now is live) in
    let all = then-run _ _ w tt _ (delete_invoice-run t k w calm live) ∙ ran in
    let back : restored_db t k w.now (trashed_db t k w.now w.db) ≡ cancelled t k w.db =
      ap (λ xs. record (trashed_db t k w.now w.db) { payments = xs.0; invoices = xs.1 })
        (pair-≡ (payment-restored t k w.now w.db.payments gone)
          (invoice-restored t k w.now is kept)) in
    (ap (λ r. r.0) all, ap (λ r. r.1.db) all ∙ left ∙ back)
