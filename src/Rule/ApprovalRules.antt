-- ===== src/Rule/ApprovalRules.antt =====
-- services/rule/src/rules/approval.rs: the rules that approve on behalf of an approver.
pub mod Stamp
use mxfactorial.Prelude.{◌&&◌, some, ◌==◌, string_eq, Outcome, ok, err, ◌>>=◌, ok_or, if◌then◌else◌}
use mxfactorial.Types.Role.{role_eq, parse}
use mxfactorial.Types.Approval.{Approval}
use mxfactorial.Types.Item.{TransactionItem}
use mxfactorial.Types.Errors.{BoxError, message, prefixed}
use mxfactorial.Types.Rule.{ApprovalRuleInstance}
use mxfactorial.Rule.ItemRules.{index}

module _ {Time : Type 0} where
  -- The approval, stamped with the rule, the item and the time.
  abbrev pub stamped :
      ApprovalRuleInstance Time → TransactionItem Time → Time → Approval Time → Approval Time
  stamped rule_instance item approval_time approval = record approval {
    rule_instance_id = rule_instance.id;
    transaction_id = item.transaction_id;
    transaction_item_id = item.id;
    approval_time = some approval_time;
  }

  -- variable_values = [DEBITOR, CREDITOR, ITEM_ID, APPROVER_ROLE, APPROVER_NAME]
  unfoldable pub approve_item_between_accounts :
      ApprovalRuleInstance Time
      → TransactionItem Time
      → Time
      → Approval Time
      → Outcome (BoxError Time) (Approval Time)
  approve_item_between_accounts rule_instance item approval_time approval = do
    debitor_name ← index rule_instance.variable_values 0
    creditor_name ← index rule_instance.variable_values 1
    item_id ← index rule_instance.variable_values 2
    role_text ← index rule_instance.variable_values 3
    approver_role ← ok_or (parse role_text) (prefixed "unsupported approver role")
    approver_account ← index rule_instance.variable_values 4
    ok (
        if (item.debitor == debitor_name)
          && ((item.creditor == creditor_name)
              && ((item.item_id == item_id)
                  && ((approval.account_role == approver_role)
                      && (approval.account_name == approver_account))))
        then stamped rule_instance item approval_time approval
        else approval)

  -- variable_values = [CREDITOR, APPROVER_ROLE, APPROVER_NAME]
  unfoldable pub approve_any_credit_item :
      ApprovalRuleInstance Time
      → TransactionItem Time
      → Time
      → Approval Time
      → Outcome (BoxError Time) (Approval Time)
  approve_any_credit_item rule_instance item approval_time approval = do
    _ ← index rule_instance.variable_values 0
    role_text ← index rule_instance.variable_values 1
    approver_role ← ok_or (parse role_text) (prefixed "unsupported approver role")
    approver_account ← index rule_instance.variable_values 2
    if (approval.account_role == approver_role) && (approval.account_name == approver_account)
        then ok (record (stamped rule_instance item approval_time approval) {
          account_name = approver_account;
          account_role = approver_role;
        })
        else err (message "unmatched approver rule instance from db")

  unfoldable pub match_approval_rule :
      ApprovalRuleInstance Time
      → TransactionItem Time
      → Time
      → Approval Time
      → Outcome (BoxError Time) (Approval Time)
  unfolding approve_item_between_accounts approve_any_credit_item
  match_approval_rule rule_instance item approval_time approval =
      if rule_instance.rule_name == "approveAnyCreditItem"
      then approve_any_credit_item rule_instance item approval_time approval
      else if rule_instance.rule_name == "approveItemBetweenAccounts"
      then approve_item_between_accounts rule_instance item approval_time approval
      else ok approval
