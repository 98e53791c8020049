-- ===== src/Pg/Sqls.antt =====
-- crates/pg/src/sqls: the texts of the statements.
pub mod Column
pub mod Params
pub mod Account
pub mod Approval
pub mod Balance
pub mod Profile
pub mod RuleInstance
pub mod TransactionItem
pub mod Transaction
pub mod Insert
pub mod Auxiliary
