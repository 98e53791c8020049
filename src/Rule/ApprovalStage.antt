-- ===== src/Rule/ApprovalStage.antt =====
-- services/rule/src/main.rs: `apply_approval_rules`.
pub mod Approvers
use mxfactorial.Prelude.{
  String, ◌>>=◌ as bind, List, [], ◌∷◌, ◌++◌, Option, none, some, Outcome, ok, map_err,
}
use mxfactorial.Effect.{Action, pure, lift, map_error, ◌>>=◌}
use mxfactorial.Types.Role.{AccountRole, RoleSequence}
use mxfactorial.Types.Approval.{Approval, Approvals}
use mxfactorial.Types.Item.{TransactionItem, get_account_by_role}
use mxfactorial.Types.Items.{TransactionItems}
use mxfactorial.Types.Rule.{ApprovalRuleInstances}
use mxfactorial.Service.Error.{ServiceError, internal}
use mxfactorial.Service.Model.{Model}
use mxfactorial.Service.Cache.{Cache}
use mxfactorial.Service.ReadThrough.{get_account_approvers, get_approval_rule_instances}
use mxfactorial.Rule.ApprovalRules.{match_approval_rule}

module _ {Time : Type 0} where
  -- An approval that no one has given yet.
  abbrev pub new_approval : AccountRole → String → Approval Time
  new_approval role approver = record {
    id = none;
    rule_instance_id = none;
    transaction_id = none;
    transaction_item_id = none;
    account_name = approver;
    account_role = role;
    device_id = none;
    device_latlng = none;
    approval_time = none;
    rejection_time = none;
    expiration_time = none;
  }

-- The loop over the approval rules of one approver.
unfoldable pub apply_approval_rule_list :
    {Time : Type 0}
    → ApprovalRuleInstances Time
    → TransactionItem Time
    → Time
    → Approval Time
    → Outcome (ServiceError Time) (Approval Time)
apply_approval_rule_list [] item time approval = ok approval
apply_approval_rule_list (rule ∷ rest) item time approval =
    bind (map_err internal (match_approval_rule rule item time approval))
      (apply_approval_rule_list rest item time)

module _ {W Time D : Type 0} (conn : Model W Time D) (cache : Option (Cache W Time))
    (time : Time) where
  unfoldable pub approve_by :
      TransactionItem Time
      → AccountRole
      → List String
      → Action W (ServiceError Time) (Approvals Time)
  approve_by item role [] = pure []
  approve_by item role (approver ∷ rest) = do
    rules ← map_error internal (get_approval_rule_instances conn cache role approver)
    approval ← lift (apply_approval_rule_list rules item time (new_approval role approver))
    others ← approve_by item role rest
    pure (approval ∷ others)

  approve_role : TransactionItem Time → AccountRole → Action W (ServiceError Time) (Approvals Time)
  unfolding approve_by
  approve_role item role = do
    approvers ←
        map_error internal (get_account_approvers conn cache (get_account_by_role role item))
    approve_by item role approvers

  unfoldable pub apply_approval_rules :
      RoleSequence → TransactionItems Time → Action W (ServiceError Time) (TransactionItems Time)
  unfolding approve_role
  apply_approval_rules role_sequence [] = pure []
  apply_approval_rules role_sequence (item ∷ rest) = do
    first ← approve_role item role_sequence.0
    second ← approve_role item role_sequence.1
    others ← apply_approval_rules role_sequence rest
    pure (record item { approvals = some (first ++ second) } ∷ others)
