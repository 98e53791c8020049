-- ===== src/Pg/Sqls/RuleInstance.antt =====
-- crates/pg/src/sqls/rule_instance.rs: the three tables of rule instances.
pub mod Transaction
pub mod Item
pub mod Approval
