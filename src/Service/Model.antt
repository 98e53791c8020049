-- ===== src/Service/Model.antt =====
-- crates/pg/src/model.rs: the interface to the database, one action for each query.
use mxfactorial.Prelude.{String, Bool, List, Option, ℤ}
use mxfactorial.Effect.{Action}
use mxfactorial.Types.Role.{AccountRole}
use mxfactorial.Types.Approval.{Approvals}
use mxfactorial.Types.Account.{AccountProfile, AccountProfiles}
use mxfactorial.Types.Rule.{TransactionItemRuleInstances, ApprovalRuleInstances}
use mxfactorial.Types.Errors.{BoxError}
use mxfactorial.Types.Items.{TransactionItems}
use mxfactorial.Types.Transaction.{Transaction, Transactions}
use mxfactorial.Types.Balance.{AccountBalances}

-- `W` is the world, `Time` the instants and `D` the decimals.
pub record Model (W Time D : Type 0) : Type 0 where
  pub insert_account_query : String → Action W (BoxError Time) (Unit {0})
  pub delete_owner_account_query : String → Action W (BoxError Time) (Unit {0})
  pub select_account_balance_query : String → Action W (BoxError Time) String
  pub select_account_balances_query : List String → Action W (BoxError Time) (AccountBalances D)
  pub update_account_balances_query : TransactionItems Time → Action W (BoxError Time) (Unit {0})
  pub insert_account_balance_query : String → D → ℤ → Action W (BoxError Time) (Unit {0})
  pub select_approvals_by_transaction_id_query : ℤ → Action W (BoxError Time) (Approvals Time)
  pub select_approvals_by_transaction_ids_query : List ℤ → Action W (BoxError Time) (Approvals Time)
  pub update_approvals_by_account_and_role_query :
      ℤ → String → AccountRole → Action W (BoxError Time) (Option Time)
  pub insert_account_profile_query : AccountProfile Time → Action W (BoxError Time) String
  pub select_profile_ids_by_account_names_query :
      List String → Action W (BoxError Time) (List (String × String))
  pub select_account_profiles_by_account_names_query :
      List String → Action W (BoxError Time) (AccountProfiles Time)
  pub select_transaction_items_by_transaction_id_query :
      ℤ → Action W (BoxError Time) (TransactionItems Time)
  pub select_transaction_items_by_transaction_ids_query :
      List ℤ → Action W (BoxError Time) (TransactionItems Time)
  pub select_transaction_by_id_query : ℤ → Action W (BoxError Time) (Transaction Time)
  pub insert_transaction_query : Transaction Time → Action W (BoxError Time) String
  pub select_last_n_transactions_query : String → ℤ → Action W (BoxError Time) (Transactions Time)
  pub select_last_n_requests_query : String → ℤ → Action W (BoxError Time) (Transactions Time)
  pub select_transactions_by_ids_query : List ℤ → Action W (BoxError Time) (Transactions Time)
  pub select_approve_all_credit_rule_instance_exists_query : String → Action W (BoxError Time) Bool
  pub insert_approve_all_credit_rule_instance_query : String → Action W (BoxError Time) (Unit {0})
  pub select_approvers_query : String → Action W (BoxError Time) (List String)
  pub select_transaction_item_rule_instances_by_role_state_query :
      AccountRole → String → Action W (BoxError Time) (TransactionItemRuleInstances Time)
  pub select_transaction_item_rules_by_role_state_query :
      AccountRole → String → Action W (BoxError Time) (TransactionItemRuleInstances Time)
  pub select_transaction_item_rule_instances_by_role_account_query :
      AccountRole → String → Action W (BoxError Time) (TransactionItemRuleInstances Time)
  pub select_transaction_item_rules_by_role_account_query :
      AccountRole → String → Action W (BoxError Time) (TransactionItemRuleInstances Time)
  pub select_approval_rule_instances_by_role_account_query :
      AccountRole → String → Action W (BoxError Time) (ApprovalRuleInstances Time)
  pub select_approval_rule_instance_exists_query :
      String → String → AccountRole → String → List String → Action W (BoxError Time) Bool
  pub insert_approval_rule_instance_query :
      String → String → AccountRole → String → List String → Action W (BoxError Time) (Unit {0})
