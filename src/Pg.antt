-- ===== src/Pg.antt =====
-- crates/pg/src: the statements that the services send to the database, and the queries that send
-- them. Sqls holds the statements, Value and Row what goes in and comes out, and Queries the
-- implementation of Service.Model.
pub mod Sqls
pub mod Value
pub mod Row
pub mod Placeholders
pub mod Statements
pub mod Queries
