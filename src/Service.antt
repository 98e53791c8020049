-- ===== src/Service.antt =====
-- The crate `service` (crates/service/src/lib.rs): what the HTTP services do with the database and
-- the cache. The database and the cache are interfaces, records of actions on a world.
pub mod Error
pub mod Model
pub mod Cache
pub mod Accounts
pub mod ReadThrough
pub mod Lookup
pub mod Funds
pub mod Approve
