-- ===== src/Journal/Tests.antt =====
-- An entry of three lines on the sample tables.
use d5net_billing.Prelude.{[], ◌∷◌, List, none}
use d5net_billing.Prelude.Int.{pos, int_laws}
use d5net_billing.Prelude.Text.{text}
use d5net_billing.Db.Samples.{faulty_world}
use d5net_billing.Payments.Tests.{sample-Books}
use d5net_billing.Wallet.Tests.{sample-Ledger}
use d5net_billing.Sound.{IsSoundDb}
use d5net_billing.Journal.{PostedLine, post_journal_entry}
use d5net_billing.Journal.Keeps.{post_journal_entry-Sound}

abbrev split_lines : List PostedLine
split_lines =
    record { account_id = 5; debit = pos 900; credit = pos 0 }
    ∷ record { account_id = 6; debit = pos 0; credit = pos 500 }
    ∷ record { account_id = 8; debit = pos 0; credit = pos 400 }
    ∷ []

post_journal_entry-Sound_example :
    IsSoundDb
      (post_journal_entry 7 20_000 (text "Kas") [] [] none split_lines (faulty_world 3)).1.db
post_journal_entry-Sound_example =
    post_journal_entry-Sound 7 20_000 (text "Kas") [] [] none split_lines (faulty_world 3)
      (omega int_laws) (sample-Ledger, sample-Books)
