-- ===== src/Journal/Keeps.antt =====
-- Posting an entry whose lines debit what they credit keeps the invariants.
use mathlib.Core.Option.{some-injective}
use d5net_billing.Prelude.{
  ℕ, ◌≡◌, refl, sym, ◌∙◌, ap, Bool-cases, inl, inr, List, [], ◌∷◌, Option, none, arith, ◌==◌,
  if◌then◌else◌,
}
use d5net_billing.Prelude.Int.{ℤ, pos, pos_part, neg_part, ◌+ℤ◌, ◌-ℤ◌, int_laws}
use d5net_billing.Prelude.Text.{Text}
use d5net_billing.Db.{
  JournalLine, Db, World, Outcome, Outcome_db, bump, gets, ◌>>=◌, write-Outcome, >>=-Outcome,
  >>-Outcome, pure-Outcome, transaction-Outcome,
}
use d5net_billing.Payments.Books.{Books-frame}
use d5net_billing.Wallet.Ledger.{IsBalanced, debit_sum, credit_sum}
use d5net_billing.Wallet.Keeps.{same-Ledger}
use d5net_billing.Sound.{IsSoundDb, Keeps, Nothing}
use d5net_billing.Journal.{
  PostedLine, insert_entry, insert_line, insert_lines, post_journal_entry, record_payment_journal,
}

-- What the lines debit more than they credit.
abbrev pub line_total : List PostedLine → ℤ
line_total [] = pos 0
line_total (l ∷ ls) = (l.debit -ℤ l.credit) +ℤ line_total ls

-- Entry `e` debits `n` more than it credits, and nothing else stands against the invariants.
record Tilted (e : ℕ) (n : ℤ) (d : Db) : Type 0 where
  rest : (ls : List JournalLine) → IsBalanced ls → IsSoundDb (record d { journal_lines = ls })
  tilt :
      (k : ℕ)
      → debit_sum k d.journal_lines ≡ credit_sum k d.journal_lines +ℤ (if e == k then n else pos 0)

abbrev posted : ℕ → ℕ → PostedLine → JournalLine
posted t e l = record {
  tenant_id = t;
  entry_id = e;
  account_id = l.account_id;
  debit = l.debit;
  credit = l.credit;
}

tilt_sum : (x y n d c : ℤ) → x ≡ y +ℤ n → d +ℤ x ≡ c +ℤ y +ℤ (n +ℤ (d -ℤ c))
tilt_sum x y n d c h = omega (int_laws, ap pos_part h, ap neg_part h)

flat_sum : (x y : ℤ) → x ≡ y +ℤ pos 0 → pos 0 +ℤ x ≡ pos 0 +ℤ y +ℤ pos 0
flat_sum x y h = omega (int_laws, ap pos_part h, ap neg_part h)

zero_plus : (y : ℤ) → pos 0 +ℤ y ≡ y
zero_plus y = omega int_laws

plus_zero : (y : ℤ) → y +ℤ pos 0 ≡ y
plus_zero y = omega int_laws

line-tilt :
    (t e k : ℕ) (n : ℤ) (l : PostedLine) (ls : List JournalLine)
    → debit_sum k ls ≡ credit_sum k ls +ℤ (if e == k then n else pos 0)
    → debit_sum k (posted t e l ∷ ls)
      ≡ credit_sum k (posted t e l ∷ ls) +ℤ (if e == k then n +ℤ (l.debit -ℤ l.credit) else pos 0)
unfolding debit_sum credit_sum
line-tilt t e k n l ls h = elim (Bool-cases (e == k)) [
  | inl own ↦ rw own (tilt_sum _ _ n l.debit l.credit (rw own at h))
  | inr apart ↦ rw apart (flat_sum _ _ (rw apart at h))
]

insert_line-Tilted :
    (t e : ℕ) (n : ℤ) (l : PostedLine) (w : World)
    → Tilted e n w.db
    → Outcome (λ _. Tilted e (n +ℤ (l.debit -ℤ l.credit))) Nothing (insert_line t e l w)
unfolding insert_line
insert_line-Tilted t e n l w h = write-Outcome _ Nothing _ w tt (λ u d q.
    rw (← ap (λ r. r.1) (some-injective _ _ q))
      (record { rest = h.rest; tilt = λ k. line-tilt t e k n l w.db.journal_lines (h.tilt k) }))

Tilted-level : (e : ℕ) (d : Db) → Tilted e (pos 0) d → IsSoundDb d
Tilted-level e d h = h.rest d.journal_lines (λ k. elim (Bool-cases (e == k)) [
  | inl own ↦ (rw own at (h.tilt k)) ∙ plus_zero _
  | inr apart ↦ (rw apart at (h.tilt k)) ∙ plus_zero _
])

sum_step : (n a b : ℤ) → n +ℤ a +ℤ b ≡ n +ℤ (a +ℤ b)
sum_step n a b = omega int_laws

insert_lines-Sound :
    (t e : ℕ) (n : ℤ) (ls : List PostedLine) (w : World)
    → n +ℤ line_total ls ≡ pos 0
    → Tilted e n w.db
    → Outcome Keeps Nothing (insert_lines t e ls w)
unfolding insert_lines
insert_lines-Sound t e n [] w level h =
    let none_left : n ≡ pos 0 = sym (plus_zero n) ∙ level in
    pure-Outcome Keeps Nothing tt w (Tilted-level e w.db (rw none_left at h))
insert_lines-Sound t e n (l ∷ ls) w level h =
    >>-Outcome Keeps Nothing (λ _. Tilted e (n +ℤ (l.debit -ℤ l.credit))) _ _ w
      (insert_line-Tilted t e n l w h)
      (λ _ v h.
        insert_lines-Sound t e (n +ℤ (l.debit -ℤ l.credit)) ls v
          (sum_step n (l.debit -ℤ l.credit) _ ∙ level) h)

no_tilt : (e k : ℕ) (y : ℤ) → y +ℤ (if e == k then pos 0 else pos 0) ≡ y
no_tilt e k y = elim (Bool-cases (e == k)) [
  | inl own ↦ rw own (plus_zero y)
  | inr apart ↦ rw apart (plus_zero y)
]

insert_entry-Tilted :
    (t date : ℕ) (description ref source_type : Text) (source_id : Option ℕ) (w : World)
    → IsSoundDb w.db
    → Outcome
        (λ e. Tilted e (pos 0))
        Nothing
        (insert_entry t date description ref source_type source_id w)
unfolding insert_entry
insert_entry-Tilted t date description ref source_type source_id w (ledger, books) =
    write-Outcome _ Nothing _ w tt (λ e d q. rw (← ap (λ r. r.1) (some-injective _ _ q)) (record {
      rest = λ ls balanced. (
        same-Ledger w.db _ refl refl refl balanced ledger,
        Books-frame w.db _ refl refl (omega arith) books,
      );
      tilt = λ k. ledger.balanced k ∙ sym (no_tilt e k _);
    }))

-- PostJournalEntry of lines that debit in sum what they credit keeps the ledger and the books,
-- whichever statement fails.
pub post_journal_entry-Sound :
    (t date : ℕ) (description ref source_type : Text) (source_id : Option ℕ) (ls : List PostedLine)
    (w : World)
    → line_total ls ≡ pos 0
    → IsSoundDb w.db
    → IsSoundDb (post_journal_entry t date description ref source_type source_id ls w).1.db
unfolding post_journal_entry
post_journal_entry-Sound t date description ref source_type source_id ls w level h =
    Outcome_db IsSoundDb _ (
      transaction-Outcome Keeps IsSoundDb _ w h (
        >>=-Outcome Keeps Nothing (λ e. Tilted e (pos 0)) _ _ (bump w)
          (insert_entry-Tilted t date description ref source_type source_id (bump w) h)
          (λ e v h. insert_lines-Sound t e (pos 0) ls v (zero_plus _ ∙ level) h)))

pub record_payment_journal-Sound :
    (t : ℕ) (a : ℤ) (cash revenue : ℕ) (ref : Text) (w : World)
    → IsSoundDb w.db
    → IsSoundDb (record_payment_journal t a cash revenue ref w).1.db
unfolding record_payment_journal ◌>>=◌ gets
record_payment_journal-Sound t a cash revenue ref w h =
    post_journal_entry-Sound t w.today _ ref _ none
      (record { account_id = cash; debit = a; credit = pos 0 }
        ∷ record { account_id = revenue; debit = pos 0; credit = a }
        ∷ [])
      w (omega int_laws) h
