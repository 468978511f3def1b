-- ===== src/Wallet.antt =====
-- internal/store/wallet.go and invoices.go: the balance of a customer, its transactions, and the
-- journal that is posted with them, dated in the time zone of the database here. A query whose error the code drops inside a transaction
-- (lookupAccountTx) has aborted that transaction, so that its Commit fails; here it fails at once.
pub mod Ledger
pub mod Keeps
pub mod Statements
pub mod Pay
pub mod Books
pub mod Settlement
pub mod Settles
pub mod Views
pub mod Frames
pub mod Refines
pub mod Machine
pub mod Live
pub mod Tests
use d5net_billing.Prelude.{
  ℕ, suc, Bool, true, false, ◌&&◌, ◌||◌, Option, none, some, List, [], ◌∷◌, ◌++◌, ltb, ◌==◌, find?,
  if◌then◌else◌,
}
use d5net_billing.Prelude.Int.{ℤ, pos, ◌+ℤ◌, ◌-ℤ◌, leb_ℤ, ltb_ℤ}
use d5net_billing.Prelude.Int64.{bigint, ◌-64◌}
use d5net_billing.Prelude.Text.{Text, text, text_eq, trim_space, to_lower}
use d5net_billing.Db.{
  Invoice, Payment, Wallet, WalletTxn, Account, JournalEntry, JournalLine, Db, World, M, ⊤,
  bad_amount, pure, throw, gets, select, write, transaction, guard, set_tenant_context, ◌>>=◌, ◌>>◌,
  update_rows,
}
use d5net_billing.Invoices.{is_invoice, is_live_invoice, update_invoices}
use d5net_billing.Payments.{add_payment, is_empty, insert_payment, normalize_status}

-- WHERE tenant_id = t AND customer_id = c, which is unique.
abbrev pub is_wallet : ℕ → ℕ → Wallet → Bool
is_wallet t c wl = wl.tenant_id == t && wl.customer_id == c

abbrev pub is_wallet_id : ℕ → ℕ → Wallet → Bool
is_wallet_id t k wl = wl.tenant_id == t && wl.id == k

abbrev pub set_balance : Wallet → ℤ → Wallet
set_balance wl b = record wl { balance = b }

unfoldable pub add_balance : ℤ → Wallet → Option Wallet
add_balance a wl = elim (bigint (wl.balance +ℤ a)) [
  | none ↦ none
  | some b ↦ some (set_balance wl b)
]

abbrev pub new_wallet : ℕ → ℕ → ℕ → ℤ → Wallet
new_wallet k t c a = record { id = k; tenant_id = t; customer_id = c; balance = a }

abbrev pub with_wallets : ℕ → Db → Option (List Wallet) → Option (ℕ × Db)
with_wallets k d none = none
with_wallets k d (some rows) = some (k, record d { wallets = rows })

-- INSERT … ON CONFLICT (tenant_id, customer_id) DO UPDATE SET balance = wallets.balance + a
abbrev pub upsert_rows : ℕ → ℕ → ℤ → Db → Option Wallet → Option (ℕ × Db)
upsert_rows t c a d none = some (
  d.next_id,
  record d { next_id = suc d.next_id; wallets = new_wallet d.next_id t c a ∷ d.wallets },
)
upsert_rows t c a d (some wl) =
    with_wallets wl.id d (update_rows (is_wallet t c) (add_balance a) d.wallets)

unfoldable pub upsert_wallet : ℕ → ℕ → ℤ → M ℕ
upsert_wallet t c a = write λ w. upsert_rows t c a w.db (find? (is_wallet t c) w.db.wallets)

abbrev pub set_wallets : Db → Option (List Wallet) → Option (⊤ × Db)
set_wallets d none = none
set_wallets d (some rows) = some (tt, record d { wallets = rows })

unfoldable pub update_wallets : (Wallet → Bool) → (Wallet → Option Wallet) → M ⊤
update_wallets p f = write λ w. set_wallets w.db (update_rows p f w.db.wallets)

-- A blank text is stored as NULL.
abbrev pub non_blank : Text → Option Text
non_blank s = if is_empty (trim_space s) then none else some s

unfoldable pub insert_txn : ℕ → ℕ → ℤ → Text → Option Text → Option Text → M ⊤
insert_txn t k a type ref desc = write λ w.
    let new : WalletTxn = record {
      id = w.db.next_id;
      tenant_id = t;
      wallet_id = k;
      amount = a;
      type = type;
      reference = ref;
      description = desc;
      created_at = w.now;
    } in
    some (
      tt,
      record (w.db) {
        next_id = suc w.db.next_id;
        wallet_transactions = new ∷ w.db.wallet_transactions;
      },
    )

-- insertWalletTxnTx
unfoldable pub insert_wallet_txn : ℕ → ℕ → ℤ → Text → Text → Text → M ⊤
unfolding insert_txn
insert_wallet_txn t k a type ref desc = insert_txn t k a type (non_blank ref) (non_blank desc)

abbrev pub is_account : ℕ → Text → Text → Account → Bool
is_account t type code a =
    a.tenant_id == t
    && a.is_active
    && (text_eq (to_lower a.type) (to_lower type) || text_eq a.code code)

-- code = $3 sorts first, then the smaller code.
abbrev pub text_lt : Text → Text → Bool
text_lt s [] = false
text_lt [] (b ∷ t) = true
text_lt (a ∷ s) (b ∷ t) = if a == b then text_lt s t else ltb a b

abbrev pub sorts_before : Text → Account → Account → Bool
sorts_before code a b =
    if text_eq a.code code
    then true
    else (if text_eq b.code code then false else text_lt a.code b.code)

abbrev pub best_account : Text → Option Account → Account → Option Account
best_account code none a = some a
best_account code (some b) a = if sorts_before code a b then some a else some b

-- The id of the first account in the order, or the nil id.
abbrev pub pick_account : ℕ → Text → Text → Option Account → List Account → ℕ
pick_account t type code none [] = 0
pick_account t type code (some b) [] = b.id
pick_account t type code best (a ∷ accts) =
    pick_account t type code (if is_account t type code a then best_account code best a else best)
      accts

-- lookupAccountTx
unfoldable pub lookup_account : ℕ → Text → Text → M ℕ
lookup_account t type code = select λ w. pick_account t type code none w.db.chart_of_accounts

abbrev pub non_nil : Option ℕ → Option ℕ
non_nil none = none
non_nil (some k) = if k == 0 then none else some k

abbrev pub journal_lines_of : ℕ → ℕ → ℕ → ℕ → ℤ → List JournalLine → List JournalLine
journal_lines_of t e debit credit a ls =
    record { tenant_id = t; entry_id = e; account_id = debit; debit = a; credit = pos 0 }
    ∷ record { tenant_id = t; entry_id = e; account_id = credit; debit = pos 0; credit = a }
    ∷ ls

-- The INSERT of one journal entry.
unfoldable pub insert_journal_entry : ℕ → Text → Text → Text → Option ℕ → M ℕ
insert_journal_entry t description ref source_type source_id = write λ w.
    let new : JournalEntry = record {
      id = w.db.next_id;
      tenant_id = t;
      entry_date = w.today;
      reference = non_blank ref;
      description = description;
      source_type = non_blank source_type;
      source_id = non_nil source_id;
    } in
    some (
      w.db.next_id,
      record (w.db) { next_id = suc w.db.next_id; journal_entries = new ∷ w.db.journal_entries },
    )

unfoldable pub insert_journal_lines : ℕ → ℕ → ℕ → ℕ → ℤ → M ⊤
insert_journal_lines t e debit credit a = write λ w.
    some
      (tt, record (w.db) { journal_lines = journal_lines_of t e debit credit a w.db.journal_lines })

-- postWalletJournalTx
unfoldable pub post_wallet_journal : ℕ → Text → Text → Text → Option ℕ → ℕ → ℕ → ℤ → M ⊤
unfolding insert_journal_entry insert_journal_lines
post_wallet_journal t description ref source_type source_id debit credit a =
    let post : M ⊤ = (do
      e ← insert_journal_entry t description ref source_type source_id
      insert_journal_lines t e debit credit a) in
    if leb_ℤ a (pos 0) || debit == 0 || credit == 0 then pure tt else post

abbrev pub or_topup : Text → Text
or_topup s = if is_empty (trim_space s) then text "topup" else s

abbrev pub balance_of : ℕ → ℕ → List Wallet → ℤ
balance_of t c [] = pos 0
balance_of t c (wl ∷ wls) = if is_wallet t c wl then wl.balance else balance_of t c wls

-- TopupWallet
unfoldable pub topup_wallet : ℕ → ℕ → ℤ → Text → Text → Text → M ℤ
unfolding upsert_wallet insert_wallet_txn lookup_account post_wallet_journal
topup_wallet t c a type ref desc =
    guard (ltb_ℤ (pos 0) a) bad_amount
    >> transaction do
      set_tenant_context
      k ← upsert_wallet t c a
      balance ← gets λ w. balance_of t c w.db.wallets
      insert_wallet_txn t k a (or_topup type) ref desc
      cash ← lookup_account t (text "asset") (text "1110")
      liability ← lookup_account t (text "liability") (text "2100")
      post_wallet_journal t (text "Topup saldo") ref (text "wallet_topup") (some c) cash liability a
      pure balance

-- CreditWallet
unfoldable pub credit_wallet : ℕ → ℕ → ℤ → Text → Text → Text → M ⊤
unfolding upsert_wallet insert_txn
credit_wallet t c a type ref desc =
    transaction do k ← upsert_wallet t c a; insert_txn t k a type (some ref) (some desc)

-- GetWallet
unfoldable pub get_wallet : ℕ → ℕ → M ℤ
get_wallet t c = select λ w. balance_of t c w.db.wallets

abbrev pub is_closed_status : Text → Bool
is_closed_status s =
    text_eq s (text "paid")
    || text_eq s (text "void")
    || text_eq s (text "cancelled")
    || text_eq s (text "canceled")

abbrev pub is_customer_invoice : ℕ → ℕ → ℕ → Invoice → Bool
is_customer_invoice t c k i = is_live_invoice t k i && i.customer_id == c

abbrev pub wallet_payment : ℕ → ℕ → Invoice → ℤ → ℕ → Payment
wallet_payment t c i a now = record {
  id = 0;
  tenant_id = t;
  customer_id = c;
  invoice_id = some i.id;
  amount = a;
  method = text "saldo";
  reference = some i.invoice_number;
  status = text "paid";
  sandbox = false;
  paid_at = some now;
  created_at = 0;
  deleted_at = none;
}

-- The statements that take `a` from the wallet and settle the invoice with it.
unfoldable pub settle_from_wallet : ℕ → ℕ → Invoice → ℤ → Wallet → M (Option Payment)
unfolding update_wallets insert_wallet_txn insert_payment update_invoices lookup_account
    post_wallet_journal
settle_from_wallet t c i a wl = do
  update_wallets (is_wallet_id t wl.id) (add_balance (pos 0 -ℤ a))
  let number = i.invoice_number
  insert_wallet_txn t wl.id (pos 0 -ℤ a) (text "invoice_payment") number
      (text "Bayar tagihan " ++ number)
  now ← gets λ w. w.now
  payment ← insert_payment (wallet_payment t c i a now)
  update_invoices (is_invoice t i.id) (add_payment now a)
  liability ← lookup_account t (text "liability") (text "2100")
  revenue ← lookup_account t (text "revenue") (text "4100")
  post_wallet_journal t (text "Pembayaran " ++ number) number (text "wallet_payment") (some i.id)
      liability revenue a
  pure (some payment)

abbrev pub pay_from : ℕ → ℕ → Invoice → ℤ → Option Wallet → M (Option Payment)
pay_from t c i remaining none = pure none
pay_from t c i remaining (some wl) =
    if ltb_ℤ wl.balance remaining then pure none else settle_from_wallet t c i remaining wl

abbrev pub pay_found : ℕ → ℕ → Option Invoice → M (Option Payment)
pay_found t c none = pure none
pay_found t c (some i) =
    let remaining = i.total_amount -64 i.paid_amount in
    let pay : M (Option Payment) = (do
      wl ← select λ w. find? (is_wallet t c) w.db.wallets
      pay_from t c i remaining wl) in
    if is_closed_status (normalize_status i.status) || leb_ℤ remaining (pos 0)
    then pure none
    else pay

-- PayInvoiceFromWallet; `none` is its paid = false.
unfoldable pub pay_invoice_from_wallet : ℕ → ℕ → ℕ → M (Option Payment)
unfolding settle_from_wallet
pay_invoice_from_wallet t c k = do
  set_tenant_context
  transaction do
    set_tenant_context
    i ← select λ w. find? (is_customer_invoice t c k) w.db.invoices
    pay_found t c i
