-- ===== src/Types/Errors.antt =====
-- The errors that cross components: `TransactionError` (crates/types/src/transaction.rs) and
-- `Box<dyn Error>`, which holds any of them or a text.
use mxfactorial.Prelude.{String}
use mxfactorial.Types.Approval.{ApprovalError}
use mxfactorial.Types.Item.{TransactionItemError}

pub data TransactionError : Type 0 where
  adding_to_non_empty_transaction_items : TransactionError
  missing_transaction_id : TransactionError
  missing_author_in_transaction_items : TransactionError
  missing_author_in_transaction : TransactionError
  missing_auth_account_in_transaction : TransactionError
  missing_author_role_in_transaction : TransactionError

pub data BoxError (Time : Type 0) : Type 0 where
  approval_error : ApprovalError Time → BoxError Time
  item_error : TransactionItemError Time → BoxError Time
  transaction_error : TransactionError → BoxError Time
  -- a text of the repository
  message : String → BoxError Time
  -- a text of the repository before the text of a library's error, which is left out
  prefixed : String → BoxError Time
  -- an error of the database, the cache, the network or the JSON reader
  external : String → BoxError Time
