-- ===== src/Event.antt =====
-- services/event/src: what follows a transaction that reached equilibrium. Queries of the
-- database are arguments, as are the publisher and the writer of JSON.
pub mod Gdp
pub mod Threshold
pub mod Pending
