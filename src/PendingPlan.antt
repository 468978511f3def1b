-- ===== src/PendingPlan.antt =====
-- internal/store/subscription_pending.go: an upgrade that waits until its invoice is paid.
use d5net_billing.Prelude.{
  ℕ, ◌≡◌, refl, Bool, false, ◌&&◌, ◌||◌, Option, none, some, ◌==◌, if◌then◌else◌,
}
use d5net_billing.Prelude.Int.{pos, leb_ℤ, ltb_ℤ}
use d5net_billing.Prelude.Text.{Text, text, text_eq}
use d5net_billing.Db.{Invoice, M, monad, pure, ok, ◌>>=◌}
use d5net_billing.Db.Samples.{sample_world}
use d5net_billing.Invoices.{get_invoice}

pub record PendingPlanChange : Type 0 where
  pub old_plan_id : ℕ
  pub new_plan_id : ℕ
  pub invoice_id : ℕ
  pub direction : Text
  pub service_type : Text
  pub created_at : ℕ

abbrev pub is_paid_up : Invoice → Bool
is_paid_up inv =
    (leb_ℤ inv.total_amount inv.paid_amount && ltb_ℤ (pos 0) inv.total_amount)
    || text_eq inv.status (text "paid")

-- PendingPlanInvoicePaid
unfoldable pub pending_plan_invoice_paid : ℕ → Option PendingPlanChange → M Bool
unfolding get_invoice
pending_plan_invoice_paid t none = pure false
pending_plan_invoice_paid t (some p) =
    let look : M Bool = (do
      (inv, items) ← get_invoice false t p.invoice_id
      pure (is_paid_up inv)) in
    if p.invoice_id == 0 then pure false else look

abbrev sample_change : PendingPlanChange
sample_change = record {
  old_plan_id = 1;
  new_plan_id = 2;
  invoice_id = 1;
  direction = text "upgrade";
  service_type = text "pppoe";
  created_at = 1_000_000_000;
}

not_paid_yet : (pending_plan_invoice_paid 7 (some sample_change) sample_world).0 ≡ ok false
unfolding pending_plan_invoice_paid monad
not_paid_yet = refl
