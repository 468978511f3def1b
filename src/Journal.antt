-- ===== src/Journal.antt =====
-- internal/store/operations.go and extra_ops.go: posting a journal entry outside of a wallet.
pub mod Keeps
mod Tests
use d5net_billing.Prelude.{
  ℕ, suc, Bool, true, false, ◌&&◌, ◌||◌, Option, none, some, List, [], ◌∷◌, ◌++◌, ◌==◌,
  if◌then◌else◌,
}
use d5net_billing.Prelude.Int.{ℤ, pos}
use d5net_billing.Prelude.Text.{Text, text, text_eq, to_lower}
use d5net_billing.Db.{
  Account, JournalEntry, gets, JournalLine, Db, World, M, ⊤, pure, select, write, transaction,
  ◌>>=◌, ◌>>◌, or_else,
}
use d5net_billing.Wallet.{non_blank, non_nil, text_lt}

-- The struct JournalLine: the tenant and the entry come with the INSERT.
pub record PostedLine : Type 0 where
  pub account_id : ℕ
  pub debit : ℤ
  pub credit : ℤ

unfoldable pub insert_line : ℕ → ℕ → PostedLine → M ⊤
insert_line t e l = write λ w.
    let new : JournalLine = record {
      tenant_id = t;
      entry_id = e;
      account_id = l.account_id;
      debit = l.debit;
      credit = l.credit;
    } in
    some (tt, record (w.db) { journal_lines = new ∷ w.db.journal_lines })

unfoldable pub insert_lines : ℕ → ℕ → List PostedLine → M ⊤
unfolding insert_line
insert_lines t e [] = pure tt
insert_lines t e (l ∷ ls) = insert_line t e l >> insert_lines t e ls

unfoldable pub insert_entry : ℕ → ℕ → Text → Text → Text → Option ℕ → M ℕ
insert_entry t date description ref source_type source_id = write λ w.
    let new : JournalEntry = record {
      id = w.db.next_id;
      tenant_id = t;
      entry_date = date;
      reference = non_blank ref;
      description = description;
      source_type = non_blank source_type;
      source_id = non_nil source_id;
    } in
    some (
      w.db.next_id,
      record (w.db) { next_id = suc w.db.next_id; journal_entries = new ∷ w.db.journal_entries },
    )

-- PostJournalEntry
unfoldable pub post_journal_entry : ℕ → ℕ → Text → Text → Text → Option ℕ → List PostedLine → M ⊤
unfolding insert_entry insert_lines
post_journal_entry t date description ref source_type source_id lines =
    transaction
      do e ← insert_entry t date description ref source_type source_id; insert_lines t e lines

-- RecordPaymentJournal
unfoldable pub record_payment_journal : ℕ → ℤ → ℕ → ℕ → Text → M ⊤
unfolding post_journal_entry
record_payment_journal t a cash revenue ref =
    let debited : PostedLine = record { account_id = cash; debit = a; credit = pos 0 } in
    let credited : PostedLine = record { account_id = revenue; debit = pos 0; credit = a } in
    gets (λ w. w.today) >>= λ today.
    post_journal_entry t today (text "Pembayaran " ++ ref) ref (text "payment") none
      (debited ∷ credited ∷ [])

abbrev pub is_typed : Text → Account → Bool
is_typed type a = text_eq (to_lower a.type) (to_lower type)

-- ORDER BY CASE WHEN LOWER(type)=LOWER($2) THEN 0 ELSE 1 END, code
abbrev pub typed_before : Text → Account → Account → Bool
typed_before type a b =
    if is_typed type a
    then (if is_typed type b then text_lt a.code b.code else true)
    else (if is_typed type b then false else text_lt a.code b.code)

abbrev pub first_typed : Text → Option Account → Account → Option Account
first_typed type none a = some a
first_typed type (some b) a = if typed_before type a b then some a else some b

abbrev pub matches : ℕ → Text → Text → Account → Bool
matches t type code a = a.tenant_id == t && a.is_active && (is_typed type a || text_eq a.code code)

-- The id of the first account in the order, or the nil id.
abbrev pub first_account : ℕ → Text → Text → Option Account → List Account → ℕ
first_account t type code none [] = 0
first_account t type code (some b) [] = b.id
first_account t type code best (a ∷ accts) =
    first_account t type code (if matches t type code a then first_typed type best a else best)
      accts

-- FindAccountByTypeOrCode, whose error the callers drop: the nil id if there is none.
unfoldable pub find_account_by_type_or_code : ℕ → Text → Text → M ℕ
unfolding or_else
find_account_by_type_or_code t type code =
    or_else 0 (select λ w. first_account t type code none w.db.chart_of_accounts)

abbrev pub find_or : ℕ → M ℕ → M ℕ
find_or k m = if k == 0 then m else pure k

-- FindCashAndRevenueAccounts
unfoldable pub find_cash_and_revenue_accounts : ℕ → M (ℕ × ℕ)
unfolding find_account_by_type_or_code
find_cash_and_revenue_accounts t = do
  first_cash ← find_account_by_type_or_code t (text "asset") (text "1110")
  cash ← find_or first_cash (find_account_by_type_or_code t (text "cash") (text "1000"))
  first_revenue ← find_account_by_type_or_code t (text "revenue") (text "4110")
  revenue ← find_or first_revenue (find_account_by_type_or_code t (text "income") (text "4000"))
  pure (cash, revenue)
