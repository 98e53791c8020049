-- ===== src/Pg/Sqls/TransactionItem.antt =====
-- crates/pg/src/sqls/transaction_item.rs: transaction items.
use mxfactorial.Prelude.{String, ℕ, [], ◌∷◌, Outcome, ok, ◌>>=◌}
use mxfactorial.Prelude.Text.{format, join}
use mxfactorial.Pg.Sqls.Column.{
  Columns, Table, text, numeric, new_table, get_column_name, columns_of, plain, cast_column,
  cast_value, join_with_casting,
}
use mxfactorial.Pg.Sqls.Params.{create_params}

abbrev pub transaction_item_table : Table
transaction_item_table = new_table "transaction_item" (
    "id" ∷ "transaction_id" ∷ "item_id" ∷ "price" ∷ "quantity" ∷ "rule_instance_id"
    ∷ "rule_exec_ids" ∷ "unit_of_measurement" ∷ "units_measured" ∷ "debitor" ∷ "creditor"
    ∷ "debitor_profile_id" ∷ "creditor_profile_id" ∷ "debitor_approval_time"
    ∷ "creditor_approval_time" ∷ "debitor_rejection_time" ∷ "creditor_rejection_time"
    ∷ "debitor_expiration_time" ∷ "creditor_expiration_time" ∷ "approvals" ∷ [])

module _ {ℓ} {E : Type ℓ} where
  unfoldable pub insert_columns_with_casting : Outcome E Columns
  insert_columns_with_casting = columns_of transaction_item_table (
      plain "transaction_id"
      ∷ plain "item_id"
      ∷ cast_value numeric "price"
      ∷ cast_value numeric "quantity"
      ∷ plain "rule_instance_id"
      ∷ plain "rule_exec_ids"
      ∷ plain "unit_of_measurement"
      ∷ plain "units_measured"
      ∷ plain "debitor"
      ∷ plain "creditor"
      ∷ plain "debitor_profile_id"
      ∷ plain "creditor_profile_id"
      ∷ plain "debitor_approval_time"
      ∷ plain "creditor_approval_time"
      ∷ plain "debitor_expiration_time"
      ∷ plain "creditor_expiration_time"
      ∷ [])

  unfoldable pub fn_insert_columns_with_casting : Outcome E Columns
  fn_insert_columns_with_casting = columns_of transaction_item_table (
      plain "id"
      ∷ plain "transaction_id"
      ∷ plain "item_id"
      ∷ cast_value numeric "price"
      ∷ cast_value numeric "quantity"
      ∷ plain "rule_instance_id"
      ∷ plain "rule_exec_ids"
      ∷ plain "unit_of_measurement"
      ∷ plain "units_measured"
      ∷ plain "debitor"
      ∷ plain "creditor"
      ∷ plain "debitor_profile_id"
      ∷ plain "creditor_profile_id"
      ∷ plain "debitor_approval_time"
      ∷ plain "creditor_approval_time"
      ∷ plain "debitor_expiration_time"
      ∷ plain "creditor_expiration_time"
      ∷ plain "debitor_rejection_time"
      ∷ plain "creditor_rejection_time"
      ∷ [])

  unfoldable pub select_all_with_casting : Outcome E Columns
  select_all_with_casting = columns_of transaction_item_table (
      cast_column text "id"
      ∷ cast_column text "transaction_id"
      ∷ plain "item_id"
      ∷ cast_column text "price"
      ∷ cast_column text "quantity"
      ∷ cast_column text "rule_instance_id"
      ∷ plain "rule_exec_ids"
      ∷ plain "unit_of_measurement"
      ∷ cast_column text "units_measured"
      ∷ plain "debitor"
      ∷ plain "creditor"
      ∷ cast_column text "debitor_profile_id"
      ∷ cast_column text "creditor_profile_id"
      ∷ plain "debitor_approval_time"
      ∷ plain "creditor_approval_time"
      ∷ plain "debitor_rejection_time"
      ∷ plain "creditor_rejection_time"
      ∷ plain "debitor_expiration_time"
      ∷ plain "creditor_expiration_time"
      ∷ [])

  unfoldable pub select_transaction_items_by_transaction_id_sql : Outcome E String
  unfolding select_all_with_casting
  select_transaction_items_by_transaction_id_sql = do
    columns ← select_all_with_casting
    transaction_id ← get_column_name "transaction_id" transaction_item_table
    id ← get_column_name "id" transaction_item_table
    ok (
        join " " (
          "SELECT"
          ∷ join_with_casting columns
          ∷ "FROM"
          ∷ transaction_item_table.name
          ∷ "WHERE"
          ∷ transaction_id
          ∷ "="
          ∷ "$1"
          ∷ "ORDER BY"
          ∷ id
          ∷ []))

  unfoldable pub select_transaction_items_by_transaction_ids_sql : ℕ → Outcome E String
  unfolding select_all_with_casting
  select_transaction_items_by_transaction_ids_sql row_count = do
    columns ← select_all_with_casting
    transaction_id ← get_column_name "transaction_id" transaction_item_table
    id ← get_column_name "id" transaction_item_table
    ok (
        join " " (
          "SELECT"
          ∷ join_with_casting columns
          ∷ "FROM"
          ∷ transaction_item_table.name
          ∷ "WHERE"
          ∷ transaction_id
          ∷ "IN"
          ∷ format ("(" ∷ (create_params row_count 1).0 ∷ ")" ∷ [])
          ∷ "ORDER BY"
          ∷ id
          ∷ []))
