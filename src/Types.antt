-- ===== src/Types.antt =====
-- The crate `types` (crates/types/src): the records that the services exchange and their methods.
pub mod Role
pub mod Approval
pub mod Account
pub mod Rule
pub mod Item
pub mod Errors
pub mod Items
pub mod Transaction
pub mod Messages
pub mod Balance
