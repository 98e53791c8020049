-- ===== src/Service/Accounts.antt =====
-- crates/service/src/lib.rs: accounts, their profiles and their balances.
use mxfactorial.Prelude.{String, not, List, ℤ}
use mxfactorial.Effect.{Action, ◌>>=◌, ◌>>◌, when}
use mxfactorial.Types.Errors.{BoxError}
use mxfactorial.Types.Account.{AccountProfile}
use mxfactorial.Types.Balance.{AccountBalances}
use mxfactorial.Types.Items.{TransactionItems, list_unique_debitors}
use mxfactorial.Service.Model.{Model}

module _ {W Time D : Type 0} (conn : Model W Time D) where
  pub create_account : String → Action W (BoxError Time) (Unit {0})
  create_account account = conn.insert_account_query account

  pub delete_owner_account : String → Action W (BoxError Time) (Unit {0})
  delete_owner_account account = conn.delete_owner_account_query account

  pub create_account_profile : AccountProfile Time → Action W (BoxError Time) String
  create_account_profile profile = conn.insert_account_profile_query profile

  pub create_account_balance : String → D → ℤ → Action W (BoxError Time) (Unit {0})
  create_account_balance account balance curr_tr_item_id =
      conn.insert_account_balance_query account balance curr_tr_item_id

  pub get_account_balance : String → Action W (BoxError Time) String
  get_account_balance account = conn.select_account_balance_query account

  pub get_account_balances : List String → Action W (BoxError Time) (AccountBalances D)
  get_account_balances accounts = conn.select_account_balances_query accounts

  unfoldable pub get_debitor_account_balances :
      TransactionItems Time → Action W (BoxError Time) (AccountBalances D)
  unfolding get_account_balances
  get_debitor_account_balances items = get_account_balances (list_unique_debitors items)

  unfoldable pub change_account_balances :
      TransactionItems Time → Action W (BoxError Time) (Unit {0})
  change_account_balances items = conn.update_account_balances_query items

  unfoldable pub add_approve_all_credit_rule_instance_if_not_exists :
      String → Action W (BoxError Time) (Unit {0})
  add_approve_all_credit_rule_instance_if_not_exists account_name = do
    exists ← conn.select_approve_all_credit_rule_instance_exists_query account_name
    when (not exists) (conn.insert_approve_all_credit_rule_instance_query account_name)

  unfoldable pub create_account_from_cognito_trigger :
      AccountProfile Time → D → ℤ → Action W (BoxError Time) (Unit {0})
  unfolding create_account create_account_profile create_account_balance
      add_approve_all_credit_rule_instance_if_not_exists
  create_account_from_cognito_trigger profile beginning_balance current_transaction_item_id = do
    create_account profile.account_name
    _ ← create_account_profile profile
    create_account_balance profile.account_name beginning_balance current_transaction_item_id
    add_approve_all_credit_rule_instance_if_not_exists profile.account_name
