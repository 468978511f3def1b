-- ===== src/Db.antt =====
-- The database that internal/store works on: its tables, and statements as actions.
mod Rows
mod Monad
mod Tables
mod Outcomes
mod Runs
mod Answers
pub mod Samples
pub use Rows.*
unfoldable pub use Monad.*
unfoldable pub use Tables.*
unfoldable pub use Outcomes.*
unfoldable pub use Runs.*
pub use Answers.*
