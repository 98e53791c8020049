-- ===== src/Pg/Statements/Rules.antt =====
-- crates/pg/src/model.rs: the statements of the queries of rule instances.
use mxfactorial.Prelude.{String, List, [], ◌∷◌, Outcome, ok, ◌>>=◌}
use mxfactorial.Types.Role.{AccountRole, creditor, to_string}
use mxfactorial.Types.Errors.{BoxError}
use mxfactorial.Pg.Value.{Value, text, texts, role_value}
use mxfactorial.Pg.Sqls.RuleInstance.Item as ItemRules
use mxfactorial.Pg.Sqls.RuleInstance.Approval as ApprovalRules
use mxfactorial.Pg.Statements.{Statement}

module _ {Time D F : Type 0} where
  abbrev approval_rule_values :
      String → String → AccountRole → String → List String → List (Value Time D F)
  approval_rule_values rule_name rule_instance_name account_role account_name variable_values =
      text rule_name
      ∷ text rule_instance_name
      ∷ role_value account_role
      ∷ text account_name
      ∷ texts variable_values
      ∷ []

  unfoldable pub select_approval_rule_instance_exists :
      String
      → String
      → AccountRole
      → String
      → List String
      → Outcome (BoxError Time) (Statement (Value Time D F))
  select_approval_rule_instance_exists rule_name rule_instance_name role account_name values = do
    sql ← ApprovalRules.select_exists_sql
    ok (sql, approval_rule_values rule_name rule_instance_name role account_name values)

  unfoldable pub insert_approval_rule_instance :
      String
      → String
      → AccountRole
      → String
      → List String
      → Outcome (BoxError Time) (Statement (Value Time D F))
  insert_approval_rule_instance rule_name rule_instance_name role account_name values = do
    sql ← ApprovalRules.insert_sql
    ok (sql, approval_rule_values rule_name rule_instance_name role account_name values)

  -- The rule that approves every item of a creditor.
  abbrev approve_all_values : String → List (Value Time D F)
  approve_all_values account_name =
      approval_rule_values "approveAnyCreditItem" "ApprovalAllCreditRequests" creditor account_name
        (account_name ∷ to_string creditor ∷ account_name ∷ [])

  unfoldable pub select_approve_all_credit_rule_instance_exists :
      String → Outcome (BoxError Time) (Statement (Value Time D F))
  select_approve_all_credit_rule_instance_exists account_name = do
    sql ← ApprovalRules.select_exists_sql
    ok (sql, approve_all_values account_name)

  unfoldable pub insert_approve_all_credit_rule_instance :
      String → Outcome (BoxError Time) (Statement (Value Time D F))
  insert_approve_all_credit_rule_instance account_name = do
    sql ← ApprovalRules.insert_sql
    ok (sql, approve_all_values account_name)

  unfoldable pub select_transaction_item_rule_instances_by_role_state :
      AccountRole → String → Outcome (BoxError Time) (Statement (Value Time D F))
  select_transaction_item_rule_instances_by_role_state account_role state_name = do
    sql ← ItemRules.select_by_role_state_sql
    ok (sql, role_value account_role ∷ text state_name ∷ [])

  unfoldable pub select_transaction_item_rules_by_role_state :
      AccountRole → String → Outcome (BoxError Time) (Statement (Value Time D F))
  select_transaction_item_rules_by_role_state account_role state_name = do
    sql ← ItemRules.select_rules_by_role_state_sql
    ok (sql, role_value account_role ∷ text state_name ∷ [])

  unfoldable pub select_transaction_item_rule_instances_by_role_account :
      AccountRole → String → Outcome (BoxError Time) (Statement (Value Time D F))
  select_transaction_item_rule_instances_by_role_account account_role account_name = do
    sql ← ItemRules.select_by_role_account_sql
    ok (sql, role_value account_role ∷ text account_name ∷ [])

  unfoldable pub select_transaction_item_rules_by_role_account :
      AccountRole → String → Outcome (BoxError Time) (Statement (Value Time D F))
  select_transaction_item_rules_by_role_account account_role account_name = do
    sql ← ItemRules.select_rules_by_role_account_sql
    ok (sql, role_value account_role ∷ text account_name ∷ [])

  unfoldable pub select_approval_rule_instances_by_role_account :
      AccountRole → String → Outcome (BoxError Time) (Statement (Value Time D F))
  select_approval_rule_instances_by_role_account account_role account_name = do
    sql ← ApprovalRules.select_by_role_account_sql
    ok (sql, role_value account_role ∷ text account_name ∷ [])
