-- ===== src/Pg/Sqls/Balance.antt =====
-- crates/pg/src/sqls/balance.rs: account balances.
use mxfactorial.Prelude.{String, ℕ, ◌+◌, ◌*◌, zero, suc, [], ◌∷◌, Outcome, ok, ◌>>=◌}
use mxfactorial.Prelude.Text.{format, join}
use mxfactorial.Pg.Sqls.Column.{
  Columns, Table, text, new_table, get_column_name, columns_of, plain, cast_column, join_columns,
  join_with_casting,
}
use mxfactorial.Pg.Sqls.Params.{param, comma, create_params, create_value_params}

abbrev pub account_balance_table : Table
account_balance_table =
    new_table "account_balance"
      ("account_name" ∷ "current_balance" ∷ "current_transaction_item_id" ∷ [])

module _ {ℓ} {E : Type ℓ} where
  unfoldable pub select_columns_with_casting : Outcome E Columns
  select_columns_with_casting = columns_of account_balance_table (
      plain "account_name"
      ∷ plain "current_balance"
      ∷ cast_column text "current_transaction_item_id"
      ∷ [])

  unfoldable pub insert_columns : Outcome E Columns
  insert_columns =
      columns_of account_balance_table
        (plain "account_name" ∷ plain "current_balance" ∷ plain "current_transaction_item_id" ∷ [])

  unfoldable pub select_account_balances_sql : ℕ → Outcome E String
  unfolding select_columns_with_casting
  select_account_balances_sql accounts_count = do
    columns ← select_columns_with_casting
    account_name ← get_column_name "account_name" account_balance_table
    ok (
        join " " (
          "SELECT"
          ∷ join_with_casting columns
          ∷ "FROM"
          ∷ account_balance_table.name
          ∷ "WHERE"
          ∷ account_name
          ∷ "IN"
          ∷ format ("(" ∷ (create_params accounts_count 1).0 ∷ ")" ∷ [])
          ∷ []))

  unfoldable pub select_current_account_balance_by_account_name_sql : Outcome E String
  select_current_account_balance_by_account_name_sql = do
    current_balance ← get_column_name "current_balance" account_balance_table
    account_name ← get_column_name "account_name" account_balance_table
    ok (
        join " " (
          "SELECT" ∷ current_balance ∷ "FROM" ∷ account_balance_table.name ∷ "WHERE" ∷ account_name
          ∷ "=" ∷ "$1" ∷ []))

  unfoldable pub insert_account_balance_sql : Outcome E String
  unfolding create_value_params insert_columns
  insert_account_balance_sql = do
    columns ← insert_columns
    ok (
        join " " (
          "INSERT INTO"
          ∷ account_balance_table.name
          ∷ format ("(" ∷ join_columns columns ∷ ")" ∷ [])
          ∷ "VALUES"
          ∷ (create_value_params columns 1 1).0
          ∷ []))

-- The row of one account: three parameters, the second as a text, and two columns that the
-- database sets.
unfoldable pub balance_row : ℕ → String
balance_row p = format (
    "ROW("
    ∷ param p
    ∷ ", "
    ∷ param (p + 1)
    ∷ "::text"
    ∷ ", "
    ∷ param (p + 2)
    ∷ ", NULL, NULL"
    ∷ ")::"
    ∷ account_balance_table.name
    ∷ [])

unfoldable pub balance_rows : ℕ → ℕ → String
unfolding balance_row
balance_rows zero p = ""
balance_rows (suc k) p = format (balance_row p ∷ comma k ∷ balance_rows k (p + 3) ∷ [])

-- One row for the creditor and one for the debitor of each item.
unfoldable pub update_account_balances_sql : ℕ → String
unfolding balance_rows
update_account_balances_sql transaction_item_count =
    format ("SELECT change_balances(" ∷ balance_rows (transaction_item_count * 2) 1 ∷ ")" ∷ [])
