-- ===== src/Rule.antt =====
-- The rule service (services/rule/src): taxes, fees and approvals that stored rules add to a
-- transaction.
pub mod ItemRules
pub mod ApprovalRules
pub mod Label
pub mod ItemStage
pub mod ApprovalStage
pub mod Handler
