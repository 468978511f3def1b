-- ===== src/Lib.antt =====
-- d5net-billing: the money of an internet provider's billing system, modelled and verified.
--
-- The program is a Go service over a PostgreSQL database. internal/store holds the statements on the
-- tables, internal/billing the engine that computes amounts and dates and calls the stores,
-- internal/httpx the HTTP server and internal/provision the routers.
--
-- Files:
--   Prelude          shared types and lemmas: tests on the native numbers, integers, 64-bit integers,
--                    text with TrimSpace and ToLower, sorting, and float64 as any interpretation
--   Db               the tables (Db.Rows), statements as actions with an error result (Db.Monad),
--                    UPDATE on a table (Db.Tables), the rules for what holds whichever statement fails
--                    (Db.Outcomes) and the rules for runs without failure (Db.Runs)
--   Invoices         internal/store/invoices.go: CreateInvoice, getInvoice, DeleteInvoice,
--                    RestoreInvoice, PurgeInvoice, SetInvoiceDiscountAmounts, ApplyInvoiceLateFee
--   Payments         internal/store/invoices.go: RecordPayment, GetPayment, DeletePayment,
--                    RestorePayment, applyInvoicePaymentDelta
--   Wallet           internal/store/wallet.go and invoices.go: TopupWallet, CreditWallet, GetWallet,
--                    PayInvoiceFromWallet and the journal they post
--   Commission       internal/store/commission.go: settings, CreditCommission, MarkCommissionPaid,
--                    VoidCommissionEntry
--   Discounts        internal/store/plan_discounts.go: NormalizePlanDiscount, ApplyPlanDiscount,
--                    FindBestPlanDiscount, ResolveBilledPlanPrice
--   Billing          internal/billing/engine.go: prorated amounts, late fees, days, due dates, billing
--                    anchors, and the amounts and direction of a plan change
--   AutoPay          internal/billing/wallet.go: TryAutoPayInvoice, AutoSettleCustomer, and the query of
--                    the outstanding invoices in internal/store/wallet.go
--   Schedule         internal/store/jobs_settings.go: ParseNotifyTime, NormalizeNotifyTime,
--                    NormalizeJobScheduleSettings
--   Isolir           internal/provision/reconcile.go: WithIsolirComment, WithoutIsolirComment,
--                    SecretLooksIsolir
--   LateFees         internal/billing/engine.go: ProcessManualLateFees, and its query in
--                    internal/store/invoices.go
--   Journal          internal/store/operations.go and extra_ops.go: PostJournalEntry,
--                    RecordPaymentJournal, FindAccountByTypeOrCode, FindCashAndRevenueAccounts
--   Sound            the two invariants together, and that the money operations keep them
--   Webhook          internal/handlers/provision_helpers.go, wallet.go, checkout.go and
--                    internal/store/webhook_ops.go: completePaidWebhook, completeWalletTopup,
--                    GetPaymentIntentByExternalID, UpdatePaymentIntentStatus, webhookTipAmount
--   System           the money operations as requests to one machine and the worlds they lead to
--   Reports          internal/store/ledger.go: NormalBalance, accountBalances, TrialBalance, ProfitAndLoss,
--                    BalanceSheet
--   RateLimit        internal/httpx/ratelimit.go: authRateLimiter.allow
--   Breaker          internal/provision/routeros/breaker.go: allow, success, fail
--   PendingPlan      internal/store/subscription_pending.go: PendingPlanInvoicePaid
--   Methods          internal/payment/method.go: MethodFromProvider, NormalizeMethod
--   Addresses        internal/provision/routeros/pool_ranges.go: incIP, decIP, compareIP
--
-- How code becomes definitions. A method of the store is an action `World → Result A × World`. The
-- world holds the tables, the time, and `fault`, which says of each statement by its number whether
-- the database fails it, so that a theorem about all worlds covers every point of failure. A
-- transaction puts the tables back when its body or its Commit fails. NOW() and time.Now() are the
-- time of the world, which stands still within one call. Ids are numbers and a new row takes the next
-- one; UUIDs are random in the program. Amounts are integers: BIGINT expressions fail out of the 64-bit
-- range, as PostgreSQL does, and Go's int64 differences wrap. Only ASCII letters are lowered and
-- raised.
-- Calls are run one after the other; the statements of two transactions are not interleaved, but the
-- transactions of DeletePayment and VoidCommissionEntry take the row that was read before they began.
-- Webhook takes the number readers of Go's library and the calls to routers, outbound webhooks and
-- messages as a record of parameters, of which it assumes that they leave the tables here alone.
-- Every recursion is structural: no fuel is used.
--
-- Not modelled: lists and exports (they read only), joins that add names, `updated_at`, row security,
-- HTTP, routers, gateways and messages.
pub mod Prelude
pub mod Db
pub mod Invoices
pub mod Payments
pub mod Wallet
pub mod Commission
pub mod Discounts
pub mod RateLimit
pub mod Billing
pub mod Breaker
pub mod AutoPay
pub mod Sound
pub mod Isolir
pub mod Journal
pub mod System
pub mod Webhook
pub mod Reports
pub mod LateFees
pub mod Methods
pub mod Addresses
pub mod PendingPlan
pub mod Schedule
