-- ===== src/AutoTransact.antt =====
-- services/auto-transact/src: transactions that rules create are sent through the rule service to
-- request-create. The HTTP client, the queue and the JSON reader are arguments.
pub mod Retry
pub mod Worker
