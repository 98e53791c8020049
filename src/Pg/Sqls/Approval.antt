-- ===== src/Pg/Sqls/Approval.antt =====
-- crates/pg/src/sqls/approval.rs: approvals.
use mxfactorial.Prelude.{String, ℕ, [], ◌∷◌, Outcome, ok, ◌>>=◌}
use mxfactorial.Prelude.Text.{format, join}
use mxfactorial.Pg.Sqls.Column.{
  Columns, Table, text, point, new_table, get_column_name, columns_of, plain, cast_column,
  cast_value, join_columns, join_with_casting,
}
use mxfactorial.Pg.Sqls.Params.{create_params, create_value_params}

abbrev pub approval_table : Table
approval_table = new_table "approval" (
    "id" ∷ "rule_instance_id" ∷ "transaction_id" ∷ "transaction_item_id" ∷ "account_name"
    ∷ "account_role" ∷ "device_id" ∷ "device_latlng" ∷ "approval_time" ∷ "rejection_time"
    ∷ "expiration_time" ∷ [])

module _ {ℓ} {E : Type ℓ} where
  unfoldable pub insert_columns : Outcome E Columns
  insert_columns = columns_of approval_table (
      plain "rule_instance_id"
      ∷ plain "transaction_id"
      ∷ plain "transaction_item_id"
      ∷ plain "account_name"
      ∷ plain "account_role"
      ∷ plain "device_id"
      ∷ cast_value point "device_latlng"
      ∷ plain "approval_time"
      ∷ plain "expiration_time"
      ∷ [])

  unfoldable pub fn_insert_columns_with_casting : Outcome E Columns
  fn_insert_columns_with_casting = columns_of approval_table (
      plain "id"
      ∷ plain "rule_instance_id"
      ∷ plain "transaction_id"
      ∷ plain "transaction_item_id"
      ∷ plain "account_name"
      ∷ plain "account_role"
      ∷ plain "device_id"
      ∷ cast_value point "device_latlng"
      ∷ plain "approval_time"
      ∷ plain "rejection_time"
      ∷ plain "expiration_time"
      ∷ [])

  unfoldable pub select_all_with_casting : Outcome E Columns
  select_all_with_casting = columns_of approval_table (
      cast_column text "id"
      ∷ cast_column text "rule_instance_id"
      ∷ cast_column text "transaction_id"
      ∷ cast_column text "transaction_item_id"
      ∷ plain "account_name"
      ∷ plain "account_role"
      ∷ plain "device_id"
      ∷ cast_column text "device_latlng"
      ∷ plain "approval_time"
      ∷ plain "rejection_time"
      ∷ plain "expiration_time"
      ∷ [])

  unfoldable pub insert_approvals_sql : ℕ → Outcome E String
  unfolding create_value_params insert_columns
  insert_approvals_sql row_count = do
    columns ← insert_columns
    ok (
        join " " (
          "INSERT INTO"
          ∷ approval_table.name
          ∷ format ("(" ∷ join_columns columns ∷ ")" ∷ [])
          ∷ "VALUES"
          ∷ (create_value_params columns row_count 1).0
          ∷ []))

  unfoldable pub select_approvals_by_transaction_id_sql : Outcome E String
  unfolding select_all_with_casting
  select_approvals_by_transaction_id_sql = do
    columns ← select_all_with_casting
    transaction_id ← get_column_name "transaction_id" approval_table
    ok (
        join " " (
          "SELECT"
          ∷ join_with_casting columns
          ∷ "FROM"
          ∷ approval_table.name
          ∷ "WHERE"
          ∷ transaction_id
          ∷ "="
          ∷ "$1"
          ∷ []))

  unfoldable pub select_approvals_by_transaction_ids_sql : ℕ → Outcome E String
  unfolding select_all_with_casting
  select_approvals_by_transaction_ids_sql row_count = do
    columns ← select_all_with_casting
    transaction_id ← get_column_name "transaction_id" approval_table
    ok (
        join " " (
          "SELECT"
          ∷ join_with_casting columns
          ∷ "FROM"
          ∷ approval_table.name
          ∷ "WHERE"
          ∷ transaction_id
          ∷ "IN"
          ∷ format ("(" ∷ (create_params row_count 1).0 ∷ ")" ∷ [])
          ∷ []))

abbrev pub update_approvals_by_account_and_role_sql : String
update_approvals_by_account_and_role_sql =
    "SELECT approve_all_role_account($1, $2, $3) AS equilibrium_time"
