-- ===== src/Service/Lookup.antt =====
-- crates/service/src/lib.rs: transactions read back with their items and approvals.
use mxfactorial.Prelude.{String, List, is_empty, map_err, if◌then◌else◌, ℤ}
use mxfactorial.Effect.{Action, pure, lift, ◌>>=◌}
use mxfactorial.Types.Approval.{Approvals}
use mxfactorial.Types.Errors.{BoxError, item_error, transaction_error}
use mxfactorial.Types.Items.{TransactionItems, items_add_approvals}
use mxfactorial.Types.Transaction.{
  Transaction, Transactions, build, build_all, list_ids, add_items_to_all,
}
use mxfactorial.Service.Model.{Model}

module _ {W Time D : Type 0} (conn : Model W Time D) where
  unfoldable pub get_transaction_items_by_transaction_id :
      ℤ → Action W (BoxError Time) (TransactionItems Time)
  get_transaction_items_by_transaction_id id =
      conn.select_transaction_items_by_transaction_id_query id

  pub get_transaction_items_by_transaction_ids :
      List ℤ → Action W (BoxError Time) (TransactionItems Time)
  get_transaction_items_by_transaction_ids ids =
      conn.select_transaction_items_by_transaction_ids_query ids

  unfoldable pub get_approvals_by_transaction_id : ℤ → Action W (BoxError Time) (Approvals Time)
  get_approvals_by_transaction_id id = conn.select_approvals_by_transaction_id_query id

  pub get_approvals_by_transaction_ids : List ℤ → Action W (BoxError Time) (Approvals Time)
  get_approvals_by_transaction_ids ids = conn.select_approvals_by_transaction_ids_query ids

  unfoldable pub get_transaction_by_id : ℤ → Action W (BoxError Time) (Transaction Time)
  get_transaction_by_id id = conn.select_transaction_by_id_query id

  pub create_transaction : Transaction Time → Action W (BoxError Time) String
  create_transaction t = conn.insert_transaction_query t

  unfoldable pub get_transaction_with_transaction_items_and_approvals_by_id :
      ℤ → Action W (BoxError Time) (Transaction Time)
  unfolding get_transaction_items_by_transaction_id get_approvals_by_transaction_id
  get_transaction_with_transaction_items_and_approvals_by_id transaction_id = do
    transaction ← conn.select_transaction_by_id_query transaction_id
    items ← get_transaction_items_by_transaction_id transaction_id
    approvals ← get_approvals_by_transaction_id transaction_id
    lift (build items approvals transaction)

  unfoldable pub get_full_transaction_by_id : ℤ → Action W (BoxError Time) (Transaction Time)
  unfolding get_transaction_with_transaction_items_and_approvals_by_id
  get_full_transaction_by_id transaction_id =
      get_transaction_with_transaction_items_and_approvals_by_id transaction_id

  unfoldable pub get_transactions_with_transaction_items_and_approvals_by_ids :
      List ℤ → Action W (BoxError Time) (Transactions Time)
  unfolding get_transaction_items_by_transaction_ids get_approvals_by_transaction_ids
  get_transactions_with_transaction_items_and_approvals_by_ids ids = do
    transactions ← conn.select_transactions_by_ids_query ids
    items ← get_transaction_items_by_transaction_ids ids
    approvals ← get_approvals_by_transaction_ids ids
    lift (build_all items approvals transactions)

  unfoldable pub get_transaction_items_and_approvals_by_transaction_ids :
      List ℤ → Action W (BoxError Time) (TransactionItems Time)
  unfolding get_transaction_items_by_transaction_ids get_approvals_by_transaction_ids
  get_transaction_items_and_approvals_by_transaction_ids ids = do
    items ← get_transaction_items_by_transaction_ids ids
    approvals ← get_approvals_by_transaction_ids ids
    lift (map_err item_error (items_add_approvals approvals items))

  -- The common tail of `get_last_n_requests` and `get_last_n_transactions`.
  with_items : Transactions Time → Action W (BoxError Time) (Transactions Time)
  unfolding get_transaction_items_and_approvals_by_transaction_ids
  with_items transactions = do
    ids ← lift (map_err transaction_error (list_ids transactions))
    let fetch = do
      items ← get_transaction_items_and_approvals_by_transaction_ids ids
      lift (map_err transaction_error (add_items_to_all items transactions))
    if is_empty ids then pure transactions else fetch

  unfoldable pub get_last_n_requests : String → ℤ → Action W (BoxError Time) (Transactions Time)
  unfolding with_items
  get_last_n_requests account n = do
    requests ← conn.select_last_n_requests_query account n
    with_items requests

  unfoldable pub get_last_n_transactions : String → ℤ → Action W (BoxError Time) (Transactions Time)
  unfolding with_items
  get_last_n_transactions account n = do
    transactions ← conn.select_last_n_transactions_query account n
    with_items transactions
