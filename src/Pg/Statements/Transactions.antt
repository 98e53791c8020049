-- ===== src/Pg/Statements/Transactions.antt =====
-- crates/pg/src/model.rs: the statements of the queries that read transactions, items and approvals.
use mxfactorial.Prelude.{
  String, List, [], ◌∷◌, map, Outcome, ok, ◌>>=◌, ℤ, length, string_eq, true, false,
}
use mxfactorial.Types.Role.{AccountRole}
use mxfactorial.Types.Errors.{BoxError}
use mxfactorial.Pg.Value.{Value, text, int, role_value}
use mxfactorial.Pg.Sqls.Approval
use mxfactorial.Pg.Sqls.TransactionItem as ItemSqls
use mxfactorial.Pg.Sqls.Transaction
use mxfactorial.Pg.Statements.{Statement}

module _ {Time D F : Type 0} where
  unfoldable pub select_approvals_by_transaction_id :
      ℤ → Outcome (BoxError Time) (Statement (Value Time D F))
  select_approvals_by_transaction_id transaction_id = do
    sql ← Approval.select_approvals_by_transaction_id_sql
    ok (sql, int transaction_id ∷ [])

  unfoldable pub select_approvals_by_transaction_ids :
      List ℤ → Outcome (BoxError Time) (Statement (Value Time D F))
  select_approvals_by_transaction_ids transaction_ids = do
    sql ← Approval.select_approvals_by_transaction_ids_sql (length transaction_ids)
    ok (sql, map (λ t. int t) transaction_ids)

  abbrev pub update_approvals_by_account_and_role :
      ℤ → String → AccountRole → Statement (Value Time D F)
  update_approvals_by_account_and_role transaction_id account role = (
    Approval.update_approvals_by_account_and_role_sql,
    int transaction_id ∷ text account ∷ role_value role ∷ [],
  )

  unfoldable pub select_transaction_items_by_transaction_id :
      ℤ → Outcome (BoxError Time) (Statement (Value Time D F))
  select_transaction_items_by_transaction_id transaction_id = do
    sql ← ItemSqls.select_transaction_items_by_transaction_id_sql
    ok (sql, int transaction_id ∷ [])

  unfoldable pub select_transaction_items_by_transaction_ids :
      List ℤ → Outcome (BoxError Time) (Statement (Value Time D F))
  select_transaction_items_by_transaction_ids transaction_ids = do
    sql ← ItemSqls.select_transaction_items_by_transaction_ids_sql (length transaction_ids)
    ok (sql, map (λ t. int t) transaction_ids)

  unfoldable pub select_transaction_by_id : ℤ → Outcome (BoxError Time) (Statement (Value Time D F))
  select_transaction_by_id transaction_id = do
    sql ← Transaction.select_transaction_by_id_sql
    ok (sql, int transaction_id ∷ [])

  unfoldable pub select_transactions_by_ids :
      List ℤ → Outcome (BoxError Time) (Statement (Value Time D F))
  select_transactions_by_ids transaction_ids = do
    sql ← Transaction.select_transactions_by_ids_sql (length transaction_ids)
    ok (sql, map (λ t. int t) transaction_ids)

  unfoldable pub select_last_n_transactions :
      String → ℤ → Outcome (BoxError Time) (Statement (Value Time D F))
  select_last_n_transactions account n = do
    sql ← Transaction.select_last_n_reqs_or_trans_by_account_sql true
    ok (sql, text account ∷ int n ∷ [])

  unfoldable pub select_last_n_requests :
      String → ℤ → Outcome (BoxError Time) (Statement (Value Time D F))
  select_last_n_requests account n = do
    sql ← Transaction.select_last_n_reqs_or_trans_by_account_sql false
    ok (sql, text account ∷ int n ∷ [])
