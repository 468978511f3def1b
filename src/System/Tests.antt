-- ===== src/System/Tests.antt =====
-- Two requests on the sample tables, some of whose statements fail, and the theorem at them.
use d5net_billing.Prelude.{refl, arith}
use d5net_billing.Prelude.Text.{text}
use d5net_billing.Db.{World, with_db}
use d5net_billing.Db.Samples.{sample_world, faulty_world}
use d5net_billing.Payments.Tests.{sample-Books}
use d5net_billing.Wallet.Tests.{sample-Ledger}
use d5net_billing.Billing.Tests.{whole}
use d5net_billing.Webhook.Tests.{quiet, event, quiet-IsApart, sample_intent-IsSoundIntent}
use d5net_billing.Sound.{IsSoundDb}
use d5net_billing.System.{
  Reachable, notify, delete_paid, start, pass, request, serve, reachable-Sound,
}

abbrev notified : World
notified = serve quiet whole (notify (text "duitku") event) sample_world

abbrev interrupted : World
interrupted = with_db notified.db (faulty_world 5)

requests : Reachable quiet whole sample_world (serve quiet whole (delete_paid 7 2) interrupted)
requests = request (delete_paid 7 2) tt (
    pass interrupted refl (
      request (notify (text "duitku") event)
        ((sample_intent-IsSoundIntent, tt), (omega arith, omega arith)) start))

reachable-Sound_example : IsSoundDb (serve quiet whole (delete_paid 7 2) interrupted).db
reachable-Sound_example =
    reachable-Sound quiet whole quiet-IsApart requests (sample-Ledger, sample-Books)
