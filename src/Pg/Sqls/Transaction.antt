-- ===== src/Pg/Sqls/Transaction.antt =====
-- crates/pg/src/sqls/transaction.rs: transactions, and the call that stores one with its items.
use mxfactorial.Prelude.{String, ℕ, [], ◌∷◌, Outcome, ok, ◌>>=◌, Bool, if◌then◌else◌}
use mxfactorial.Prelude.Text.{format, join}
use mxfactorial.Pg.Sqls.Column.{
  Columns, Table, text, point, numeric, new_table, get_column_name, columns_of, plain, cast_column,
  cast_value, join_with_casting, add_column,
}
use mxfactorial.Pg.Sqls.Params.{create_params}

abbrev pub transaction_table : Table
transaction_table = new_table "transaction" (
    "id" ∷ "rule_instance_id" ∷ "author" ∷ "author_device_id" ∷ "author_device_latlng"
    ∷ "author_role" ∷ "equilibrium_time" ∷ "event_time" ∷ "debitor_first" ∷ "sum_value"
    ∷ "transaction_items" ∷ [])

module _ {ℓ} {E : Type ℓ} where
  unfoldable pub insert_columns_with_casting : Outcome E Columns
  insert_columns_with_casting = columns_of transaction_table (
      plain "rule_instance_id"
      ∷ plain "author"
      ∷ plain "author_device_id"
      ∷ cast_value point "author_device_latlng"
      ∷ plain "author_role"
      ∷ plain "equilibrium_time"
      ∷ plain "debitor_first"
      ∷ cast_value numeric "sum_value"
      ∷ [])

  -- Two columns are added to the table, which is made from the struct.
  unfoldable pub fn_insert_columns_with_casting : Outcome E Columns
  fn_insert_columns_with_casting =
      columns_of (add_column "event_time" (add_column "created_at" transaction_table)) (
        plain "id"
        ∷ plain "rule_instance_id"
        ∷ plain "author"
        ∷ plain "author_device_id"
        ∷ cast_value point "author_device_latlng"
        ∷ plain "author_role"
        ∷ plain "equilibrium_time"
        ∷ plain "debitor_first"
        ∷ cast_value numeric "sum_value"
        ∷ plain "created_at"
        ∷ plain "event_time"
        ∷ [])

  unfoldable pub select_all_with_casting : Outcome E Columns
  select_all_with_casting = columns_of transaction_table (
      cast_column text "id"
      ∷ cast_column text "rule_instance_id"
      ∷ plain "author"
      ∷ plain "author_device_id"
      ∷ cast_column text "author_device_latlng"
      ∷ plain "author_role"
      ∷ plain "equilibrium_time"
      ∷ plain "event_time"
      ∷ plain "debitor_first"
      ∷ cast_column text "sum_value"
      ∷ [])

  unfoldable pub select_transaction_by_id_sql : Outcome E String
  unfolding select_all_with_casting
  select_transaction_by_id_sql = do
    columns ← select_all_with_casting
    id ← get_column_name "id" transaction_table
    ok (
        join " " (
          "SELECT"
          ∷ join_with_casting columns
          ∷ "FROM"
          ∷ transaction_table.name
          ∷ "WHERE"
          ∷ id
          ∷ "="
          ∷ "$1"
          ∷ []))

  unfoldable pub select_transactions_by_ids_sql : ℕ → Outcome E String
  unfolding select_all_with_casting
  select_transactions_by_ids_sql id_count = do
    columns ← select_all_with_casting
    id ← get_column_name "id" transaction_table
    ok (
        join " " (
          "SELECT"
          ∷ join_with_casting columns
          ∷ "FROM"
          ∷ transaction_table.name
          ∷ "WHERE"
          ∷ id
          ∷ "IN"
          ∷ format ("(" ∷ (create_params id_count 1).0 ∷ ")" ∷ [])
          ∷ []))

  -- The line breaks and the indentation of the text are single spaces here.
  unfoldable pub select_last_n_reqs_or_trans_by_account_sql : Bool → Outcome E String
  unfolding select_all_with_casting
  select_last_n_reqs_or_trans_by_account_sql all_approved = do
    columns ← select_all_with_casting
    ok (
        join " " (
          "WITH transactions AS ( SELECT transaction_id, every(approval_time IS NOT NULL) AS all_approved"
          ∷ "FROM approval WHERE transaction_id IN ( SELECT DISTINCT(transaction_id) FROM approval"
          ∷ "WHERE account_name = $1 ORDER BY transaction_id DESC ) GROUP BY transaction_id"
          ∷ "ORDER BY transaction_id DESC ) SELECT"
          ∷ join_with_casting columns
          ∷ "FROM transaction"
          ∷ "WHERE id IN ( SELECT transaction_id FROM transactions WHERE all_approved IS"
          ∷ (if all_approved then "TRUE" else "FALSE")
          ∷ "LIMIT $2 );"
          ∷ []))
