-- ===== src/Types/Messages.antt =====
-- crates/types/src/request_response.rs: what the services send one another.
use mxfactorial.Prelude.{String, Option, some, Outcome, ok, ◌>>=◌, unwrap_result}
use mxfactorial.Types.Role.{AccountRole}
use mxfactorial.Types.Errors.{BoxError}
use mxfactorial.Types.Transaction.{Transaction, Transactions, set_author_role}

pub record IntraTransaction (Time : Type 0) : Type 0 where
  pub auth_account : Option String
  pub transaction : Transaction Time

pub record IntraTransactions (Time : Type 0) : Type 0 where
  pub auth_account : Option String
  pub transactions : Transactions Time

pub record RequestApprove : Type 0 where
  pub auth_account : String
  pub id : String
  pub account_name : String
  pub account_role : AccountRole

pub record QueryById : Type 0 where
  pub auth_account : String
  pub account_name : String
  pub id : String

pub record QueryByAccount : Type 0 where
  pub auth_account : String
  pub account_name : String

module _ {Time : Type 0} where
  -- `IntraTransaction::new`
  abbrev pub intra_transaction : String → Transaction Time → IntraTransaction Time
  intra_transaction auth_account t = record { auth_account = some auth_account; transaction = t }

  -- `IntraTransactions::new`
  abbrev pub intra_transactions : String → Transactions Time → IntraTransactions Time
  intra_transactions auth_account ts = record {
    auth_account = some auth_account;
    transactions = ts;
  }

  -- The role is set from the client's items, before the rule service's items replace them.
  unfoldable pub add_rule_tested_values :
      IntraTransaction Time
      → IntraTransaction Time
      → Outcome (BoxError Time) (IntraTransaction Time)
  add_rule_tested_values rule_tested request = do
    t ← unwrap_result (set_author_role request.transaction)
    ok (record request {
      transaction = record t {
        sum_value = rule_tested.transaction.sum_value;
        transaction_items = rule_tested.transaction.transaction_items;
      };
    })
