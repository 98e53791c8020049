-- ===== src/RequestCreate.antt =====
-- services/request-create/src/main.rs: a client's transaction is checked against the rule service,
-- stored, and approved by its author. The rule service and the connection pool are arguments.
pub mod Sound
pub mod Accept
use mxfactorial.Prelude.{
  ℕ, String, not, List, Option, none, some, Outcome, ok, err, panic, ok_or, err_if, map_err,
  is_none, Eq,
}
use mxfactorial.Prelude.Maps.{Map}
use mxfactorial.Effect.{Action, pure, lift, map_error, ◌>>=◌, ◌>>◌}
use mxfactorial.External.{FloatOps, DecimalOps, InstantOps}
use mxfactorial.Types.Errors.{BoxError, message, item_error}
use mxfactorial.Types.Item.{TransactionItemError}
use mxfactorial.Types.Items.{
  TransactionItems, list_accounts, add_profile_ids, remove_unauthorized_values, filter_user_added,
}
use mxfactorial.Types.Items.Loops.{sum_value, items_equality}
use mxfactorial.Types.Transaction.{Transaction, test_sum_value}
use mxfactorial.Types.Messages.{IntraTransaction, add_rule_tested_values}
use mxfactorial.Service.Error.{ServiceError, internal, bad_request}
use mxfactorial.Service.Model.{Model}
use mxfactorial.Service.Cache.{Cache}
use mxfactorial.Service.ReadThrough.{get_profile_ids_by_account_names}
use mxfactorial.Service.Lookup.{create_transaction, get_full_transaction_by_id}
use mxfactorial.Service.Approve.{approve, parse_id}

pub data RequestCreateError : Type 0 where
  missing_auth_account : RequestCreateError
  missing_author : RequestCreateError
  missing_author_role : RequestCreateError
  sum_value_failure : RequestCreateError

-- The texts of the errors.
abbrev pub error_text : RequestCreateError → String
error_text missing_auth_account = "missing auth account in request"
error_text missing_author = "missing author in request"
error_text missing_author_role = "missing author role in request"
error_text sum_value_failure = "sum_value failure"

module _ {Time : Type 0} where
  abbrev pub create_error : RequestCreateError → BoxError Time
  create_error e = message (error_text e)

  -- `test_sum_value().is_err()`
  unfoldable pub sum_tested :
      Outcome (TransactionItemError Time) (Unit {0}) → Outcome (BoxError Time) (Unit {0})
  sum_tested (ok _) = ok tt
  sum_tested (err _) = err (create_error sum_value_failure)
  sum_tested panic = panic

  -- What the rule service is given: the author's fields and the client's own items.
  abbrev pub rule_input : Transaction Time → String → TransactionItems Time → Transaction Time
  rule_input t sum items = record {
    id = none;
    rule_instance_id = t.rule_instance_id;
    author = t.author;
    author_device_id = t.author_device_id;
    author_device_latlng = t.author_device_latlng;
    author_role = t.author_role;
    equilibrium_time = none;
    event_time = none;
    debitor_first = t.debitor_first;
    sum_value = sum;
    transaction_items = items;
  }

  abbrev pub client_items : Transaction Time → TransactionItems Time
  client_items t = filter_user_added (remove_unauthorized_values t.transaction_items)

module _ {W Time F D : Type 0} ⦃e : Eq Time⦄ (float : FloatOps F) (dec : DecimalOps D)
    (get_rule_applied_transaction : Transaction Time
      → Action W (BoxError Time) (IntraTransaction Time)) where
  unfoldable pub test_values :
      IntraTransaction Time → Action W (BoxError Time) (IntraTransaction Time)
  unfolding sum_tested
  test_values req = do
    lift (err_if (is_none req.auth_account) (create_error missing_auth_account))
    lift (err_if (is_none req.transaction.author) (create_error missing_author))
    lift (err_if (is_none req.transaction.author_role) (create_error missing_author_role))
    lift (sum_tested (test_sum_value float dec req.transaction))
    sum ← lift (sum_value float (client_items req.transaction))
    rule_tested ←
        get_rule_applied_transaction (rule_input req.transaction sum (client_items req.transaction))
    lift (
        map_err item_error (
          items_equality dec rule_tested.transaction.transaction_items
            req.transaction.transaction_items))
    lift (add_rule_tested_values rule_tested req)

module _ {W Time D : Type 0} (conn : Model W Time D) (cache : Option (Cache W Time)) where
  unfoldable pub create_request :
      IntraTransaction Time → Action W (BoxError Time) (Transaction Time)
  create_request rule_tested = do
    profile_ids ←
        get_profile_ids_by_account_names conn cache
          (list_accounts rule_tested.transaction.transaction_items)
    items ← lift (add_profile_ids profile_ids rule_tested.transaction.transaction_items)
    transaction_id ←
        create_transaction conn (record rule_tested.transaction { transaction_items = items })
    id ← lift (parse_id "invalid transaction id" transaction_id)
    get_full_transaction_by_id conn id

module _ {W Time F D : Type 0} ⦃e : Eq Time⦄ (float : FloatOps F) (dec : DecimalOps D)
    (clock : InstantOps Time) (conn : Model W Time D) (cache : Option (Cache W Time))
    (order : Map D → Map D) (connect : Action W (BoxError Time) (Unit {0}))
    (get_rule_applied_transaction : Transaction Time
      → Action W (BoxError Time) (IntraTransaction Time)) where
  connected : Action W (ServiceError Time) (Unit {0})
  connected = map_error (λ _. internal (message "failed to get db connection")) connect

  -- `started` and `now` are the instants that the pending tests of the approval read.
  unfoldable pub handle_create :
      Time
      → (ℕ → ℕ → Time)
      → IntraTransaction Time
      → Action W (ServiceError Time) (IntraTransaction Time)
  unfolding connected
  handle_create started now request = do
    rule_tested ← map_error bad_request (test_values float dec get_rule_applied_transaction request)
    connected
    inserted ← map_error internal (create_request conn cache rule_tested)
    auth_account ←
        lift (ok_or rule_tested.auth_account (bad_request (message "missing auth account")))
    approver_role ←
        lift
          (ok_or rule_tested.transaction.author_role (bad_request (message "missing author role")))
    connected
    map_error internal
        (approve dec clock conn order started now auth_account approver_role inserted)
