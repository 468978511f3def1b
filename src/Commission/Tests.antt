-- ===== src/Commission/Tests.antt =====
-- Runs on the sample tables, and the theorems about commissions at them.
use d5net_billing.Prelude.{◌≡◌, refl, List, [], ◌∷◌, arith, none, some}
use d5net_billing.Prelude.Int.{ℤ, pos, ◌+ℤ◌, ◌-ℤ◌}
use d5net_billing.Prelude.Text.{text, trim_space}
use d5net_billing.Db.{Reseller, monad, update_rows, count_rows, set_rows}
use d5net_billing.Db.Samples.{sample_db, sample_world, faulty_world}
use d5net_billing.Commission.{
  credit_commission, mark_commission_paid, void_commission_entry, normalize_commission_basis,
  amount_for_basis, credit_reseller, debit_reseller, is_due_status,
}
use d5net_billing.Commission.Owed.{owed_sum, owed_share, Owed}
use d5net_billing.Commission.Keeps.{mark_commission_paid-Owed}
use d5net_billing.Commission.Credit.{credit_commission-Owed}
use d5net_billing.Commission.Void.{void_commission_entry-Owed}

sample-Owed : Owed sample_db
unfolding owed_sum owed_share is_due_status ◌+ℤ◌
sample-Owed = record {
  balances = (refl, tt);
  positive = (omega arith, tt);
  unique = (tt, tt);
  fresh = (omega arith, tt);
}

abbrev balances : List Reseller → List ℤ
balances [] = []
balances (r ∷ rs) = r.balance ∷ balances rs

credits :
    balances
      ((credit_commission 7 20 none (some 11) none (text "akuisisi") sample_world).1.db.resellers)
    ≡ pos 50_000 ∷ []
unfolding credit_commission monad update_rows count_rows credit_reseller amount_for_basis
    normalize_commission_basis trim_space ◌+ℤ◌
credits = refl

voids : balances ((void_commission_entry 7 12 sample_world).1.db.resellers) ≡ pos 0 ∷ []
unfolding void_commission_entry monad update_rows count_rows set_rows debit_reseller is_due_status
    ◌-ℤ◌ ◌+ℤ◌
voids = refl

credit_commission-Owed_example :
    Owed (credit_commission 7 20 none (some 11) none (text "akuisisi") sample_world).1.db
credit_commission-Owed_example =
    credit_commission-Owed 7 20 none (some 11) none (text "akuisisi") sample_world sample-Owed

mark_commission_paid-Owed_example : Owed (mark_commission_paid 7 12 sample_world).1.db
mark_commission_paid-Owed_example = mark_commission_paid-Owed 7 12 sample_world sample-Owed

void_commission_entry-Owed_example : Owed (void_commission_entry 7 12 (faulty_world 3)).1.db
void_commission_entry-Owed_example = void_commission_entry-Owed 7 12 (faulty_world 3) sample-Owed
