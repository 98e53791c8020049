-- ===== src/Pg/Statements.antt =====
-- crates/pg/src/model.rs: the statement of each query, its text with the values of its parameters.
pub mod Accounts
pub mod Transactions
pub mod Rules
pub mod Insert
pub mod Named
use mxfactorial.Prelude.{String, List}

-- A text and the values of its parameters.
abbrev pub Statement : Type 0 → Type 0
Statement V = String × List V
