-- ===== src/Pg/Sqls/RuleInstance/Approval.antt =====
-- crates/pg/src/sqls/rule_instance.rs: the table approval_rule_instance.
use mxfactorial.Prelude.{String, [], ◌∷◌, Outcome, ok, ◌>>=◌}
use mxfactorial.Prelude.Text.{format, join}
use mxfactorial.Pg.Sqls.Column.{
  Columns, Table, text, new_table, get_column_name, columns_of, plain, cast_column, join_columns,
  join_with_casting,
}
use mxfactorial.Pg.Sqls.Params.{create_value_params}

abbrev pub approval_rule_instance_table : Table
approval_rule_instance_table = new_table "approval_rule_instance" (
    "id" ∷ "rule_name" ∷ "rule_instance_name" ∷ "variable_values" ∷ "account_role" ∷ "account_name"
    ∷ "disabled_time" ∷ "removed_time" ∷ "created_at" ∷ [])

module _ {ℓ} {E : Type ℓ} where
  unfoldable pub select_all_with_text_casting : Outcome E Columns
  select_all_with_text_casting = columns_of approval_rule_instance_table (
      cast_column text "id"
      ∷ plain "rule_name"
      ∷ plain "rule_instance_name"
      ∷ plain "variable_values"
      ∷ plain "account_role"
      ∷ plain "account_name"
      ∷ plain "disabled_time"
      ∷ plain "removed_time"
      ∷ plain "created_at"
      ∷ [])

  unfoldable pub insert_columns : Outcome E Columns
  insert_columns = columns_of approval_rule_instance_table (
      plain "rule_name"
      ∷ plain "rule_instance_name"
      ∷ plain "account_role"
      ∷ plain "account_name"
      ∷ plain "variable_values"
      ∷ [])

  unfoldable pub select_by_role_account_sql : Outcome E String
  unfolding select_all_with_text_casting
  select_by_role_account_sql = do
    columns ← select_all_with_text_casting
    account_role ← get_column_name "account_role" approval_rule_instance_table
    account_name ← get_column_name "account_name" approval_rule_instance_table
    ok (
        join " " (
          "SELECT"
          ∷ join_with_casting columns
          ∷ "FROM"
          ∷ approval_rule_instance_table.name
          ∷ "WHERE"
          ∷ account_role
          ∷ "="
          ∷ "$1"
          ∷ "AND"
          ∷ account_name
          ∷ "="
          ∷ "$2"
          ∷ []))

  unfoldable pub select_exists_sql : Outcome E String
  select_exists_sql = do
    rule_name ← get_column_name "rule_name" approval_rule_instance_table
    rule_instance_name ← get_column_name "rule_instance_name" approval_rule_instance_table
    account_role ← get_column_name "account_role" approval_rule_instance_table
    account_name ← get_column_name "account_name" approval_rule_instance_table
    variable_values ← get_column_name "variable_values" approval_rule_instance_table
    ok (
        join " " (
          "SELECT" ∷ "EXISTS(SELECT" ∷ "1" ∷ "FROM" ∷ approval_rule_instance_table.name ∷ "WHERE"
          ∷ rule_name ∷ "=" ∷ "$1" ∷ "AND" ∷ rule_instance_name ∷ "=" ∷ "$2" ∷ "AND" ∷ account_role
          ∷ "=" ∷ "$3" ∷ "AND" ∷ account_name ∷ "=" ∷ "$4" ∷ "AND" ∷ variable_values ∷ "=" ∷ "$5);"
          ∷ []))

  unfoldable pub insert_sql : Outcome E String
  unfolding create_value_params insert_columns
  insert_sql = do
    columns ← insert_columns
    ok (
        join " " (
          "INSERT INTO"
          ∷ approval_rule_instance_table.name
          ∷ format ("(" ∷ join_columns columns ∷ ")" ∷ [])
          ∷ "VALUES"
          ∷ (create_value_params columns 1 1).0
          ∷ []))
