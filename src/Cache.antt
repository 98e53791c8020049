-- ===== src/Cache.antt =====
-- crates/cache/src: the keys of the cache's entries, and its Redis client (Service.Cache is the trait).
pub mod Key
pub mod Redis
pub mod Dynamo
