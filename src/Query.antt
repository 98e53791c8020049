-- ===== src/Query.antt =====
-- The services that answer queries: services/balance-by-account, request-by-id, transaction-by-id,
-- requests-by-account and transactions-by-account. The connection pool is an argument.
pub mod Access
use mxfactorial.Prelude.{
  String, Bool, not, ◌&&◌, List, Option, Outcome, err_if, unwrap, unwrap_result, is_none, is_empty,
  filter, ◌==◌, string_eq, ℤ,
}
use mxfactorial.Prelude.Numeral.{parse_i32}
use mxfactorial.Effect.{Action, pure, lift, map_error, ◌>>=◌, ◌>>◌}
use mxfactorial.Types.Approval.{Approvals}
use mxfactorial.Types.Errors.{BoxError}
use mxfactorial.Types.Transaction.{Transaction, build}
use mxfactorial.Types.Messages.{
  IntraTransaction, IntraTransactions, QueryById, QueryByAccount, intra_transaction,
  intra_transactions,
}
use mxfactorial.Service.Model.{Model}
use mxfactorial.Service.Accounts.{get_account_balance}
use mxfactorial.Service.Lookup.{
  get_approvals_by_transaction_id, get_transaction_items_by_transaction_id, get_transaction_by_id,
  get_last_n_requests, get_last_n_transactions,
}

-- The statuses that the query services answer with instead of a value.
pub data Refusal : Type 0 where
  internal : Refusal
  bad_request : Refusal

module _ {Time : Type 0} where
  -- No approval of the account is open.
  abbrev pub lacks_open : String → Approvals Time → Bool
  lacks_open account approvals =
      is_empty (filter (λ a. a.account_name == account && is_none a.approval_time) approvals)

  -- No approval is the account's.
  abbrev pub lacks_any : String → Approvals Time → Bool
  lacks_any account approvals = is_empty (filter (λ a. a.account_name == account) approvals)

  -- Some approval has no time.
  abbrev pub unfinished : Approvals Time → Bool
  unfinished approvals = not (is_empty (filter (λ a. is_none a.approval_time) approvals))

-- An error of the database is an internal one.
abbrev pub or_internal : {W E A : Type 0} → Action W E A → Action W Refusal A
or_internal m = map_error (λ _. internal) m

module _ {W Time D : Type 0} (conn : Model W Time D)
    (connect : Action W (BoxError Time) (Unit {0})) where
  -- The items and the transaction are read, and a build that fails is a panic.
  pub read_whole : ℤ → Approvals Time → Action W Refusal (Transaction Time)
  read_whole id approvals = do
    items ← or_internal (get_transaction_items_by_transaction_id conn id)
    transaction ← or_internal (get_transaction_by_id conn id)
    lift (unwrap_result (build items approvals transaction))

  unfoldable pub handle_request_by_id : QueryById → Action W Refusal (IntraTransaction Time)
  unfolding read_whole
  handle_request_by_id query = do
    or_internal connect
    id ← lift (unwrap (parse_i32 query.id))
    approvals ← or_internal (get_approvals_by_transaction_id conn id)
    lift (err_if (lacks_open query.auth_account approvals) bad_request)
    transaction ← read_whole id approvals
    pure (intra_transaction query.auth_account transaction)

  unfoldable pub handle_transaction_by_id : QueryById → Action W Refusal (IntraTransaction Time)
  unfolding read_whole
  handle_transaction_by_id query = do
    or_internal connect
    id ← lift (unwrap (parse_i32 query.id))
    approvals ← or_internal (get_approvals_by_transaction_id conn id)
    lift (err_if (lacks_any query.auth_account approvals) bad_request)
    lift (err_if (unfinished approvals) bad_request)
    transaction ← read_whole id approvals
    pure (intra_transaction query.auth_account transaction)

  pub handle_balance : QueryByAccount → Action W Refusal String
  handle_balance query = do
    or_internal connect
    or_internal (get_account_balance conn query.account_name)

  module _ (limit : Option ℤ) where
    -- `limit` is the setting `RETURN_RECORD_LIMIT`, read as a number.
    pub handle_requests_by_account : QueryByAccount → Action W Refusal (IntraTransactions Time)
    handle_requests_by_account query = do
      or_internal connect
      n ← lift (unwrap limit)
      requests ← or_internal (get_last_n_requests conn query.account_name n)
      pure (intra_transactions query.account_name requests)

    pub handle_transactions_by_account : QueryByAccount → Action W Refusal (IntraTransactions Time)
    handle_transactions_by_account query = do
      or_internal connect
      n ← lift (unwrap limit)
      transactions ← or_internal (get_last_n_transactions conn query.account_name n)
      pure (intra_transactions query.account_name transactions)
