-- ===== src/Pg/Sqls/RuleInstance/Item.antt =====
-- crates/pg/src/sqls/rule_instance.rs: the table transaction_item_rule_instance.
use mxfactorial.Prelude.{String, [], ◌∷◌, Outcome, ok, ◌>>=◌}
use mxfactorial.Prelude.Text.{join}
use mxfactorial.Pg.Sqls.Column.{
  Columns, Table, text, new_table, get_column_name, columns_of, plain, cast_column,
  join_with_casting,
}

abbrev pub transaction_item_rule_instance_table : Table
transaction_item_rule_instance_table = new_table "transaction_item_rule_instance" (
    "id" ∷ "rule_name" ∷ "rule_instance_name" ∷ "variable_values" ∷ "account_role" ∷ "account_name"
    ∷ "item_id" ∷ "price" ∷ "quantity" ∷ "country_name" ∷ "city_name" ∷ "county_name" ∷ "state_name"
    ∷ "latlng" ∷ "occupation_id" ∷ "industry_id" ∷ "disabled_time" ∷ "removed_time" ∷ "created_at"
    ∷ "transaction_rule_instance_id" ∷ [])

module _ {ℓ} {E : Type ℓ} where
  unfoldable pub select_all_with_text_casting : Outcome E Columns
  select_all_with_text_casting = columns_of transaction_item_rule_instance_table (
      cast_column text "id"
      ∷ plain "rule_name"
      ∷ plain "rule_instance_name"
      ∷ plain "variable_values"
      ∷ plain "account_role"
      ∷ plain "account_name"
      ∷ plain "item_id"
      ∷ cast_column text "price"
      ∷ cast_column text "quantity"
      ∷ plain "country_name"
      ∷ plain "city_name"
      ∷ plain "county_name"
      ∷ plain "state_name"
      ∷ cast_column text "latlng"
      ∷ cast_column text "occupation_id"
      ∷ cast_column text "industry_id"
      ∷ plain "disabled_time"
      ∷ plain "removed_time"
      ∷ plain "created_at"
      ∷ cast_column text "transaction_rule_instance_id"
      ∷ [])

  unfoldable pub select_by_role_account_sql : Outcome E String
  unfolding select_all_with_text_casting
  select_by_role_account_sql = do
    columns ← select_all_with_text_casting
    account_role ← get_column_name "account_role" transaction_item_rule_instance_table
    account_name ← get_column_name "account_name" transaction_item_rule_instance_table
    ok (
        join " " (
          "SELECT"
          ∷ join_with_casting columns
          ∷ "FROM"
          ∷ transaction_item_rule_instance_table.name
          ∷ "WHERE"
          ∷ account_role
          ∷ "="
          ∷ "$1"
          ∷ "AND"
          ∷ account_name
          ∷ "="
          ∷ "$2"
          ∷ []))

  unfoldable pub select_rules_by_role_account_sql : Outcome E String
  unfolding select_all_with_text_casting
  select_rules_by_role_account_sql = do
    columns ← select_all_with_text_casting
    account_role ← get_column_name "account_role" transaction_item_rule_instance_table
    account_name ← get_column_name "account_name" transaction_item_rule_instance_table
    transaction_rule_instance_id ←
        get_column_name "transaction_rule_instance_id" transaction_item_rule_instance_table
    ok (
        join " " (
          "SELECT"
          ∷ join_with_casting columns
          ∷ "FROM"
          ∷ transaction_item_rule_instance_table.name
          ∷ "WHERE"
          ∷ account_role
          ∷ "="
          ∷ "$1"
          ∷ "AND"
          ∷ account_name
          ∷ "="
          ∷ "$2"
          ∷ "AND"
          ∷ transaction_rule_instance_id
          ∷ "IS NULL"
          ∷ []))

  unfoldable pub select_by_role_state_sql : Outcome E String
  unfolding select_all_with_text_casting
  select_by_role_state_sql = do
    columns ← select_all_with_text_casting
    account_role ← get_column_name "account_role" transaction_item_rule_instance_table
    state_name ← get_column_name "state_name" transaction_item_rule_instance_table
    ok (
        join " " (
          "SELECT"
          ∷ join_with_casting columns
          ∷ "FROM"
          ∷ transaction_item_rule_instance_table.name
          ∷ "WHERE"
          ∷ account_role
          ∷ "="
          ∷ "$1"
          ∷ "AND"
          ∷ state_name
          ∷ "="
          ∷ "$2"
          ∷ []))

  unfoldable pub select_by_transaction_rule_instance_id_sql : Outcome E String
  unfolding select_all_with_text_casting
  select_by_transaction_rule_instance_id_sql = do
    columns ← select_all_with_text_casting
    transaction_rule_instance_id ←
        get_column_name "transaction_rule_instance_id" transaction_item_rule_instance_table
    ok (
        join " " (
          "SELECT"
          ∷ join_with_casting columns
          ∷ "FROM"
          ∷ transaction_item_rule_instance_table.name
          ∷ "WHERE"
          ∷ transaction_rule_instance_id
          ∷ "="
          ∷ "$1"
          ∷ []))

  unfoldable pub select_rules_by_role_state_sql : Outcome E String
  unfolding select_all_with_text_casting
  select_rules_by_role_state_sql = do
    columns ← select_all_with_text_casting
    account_role ← get_column_name "account_role" transaction_item_rule_instance_table
    state_name ← get_column_name "state_name" transaction_item_rule_instance_table
    transaction_rule_instance_id ←
        get_column_name "transaction_rule_instance_id" transaction_item_rule_instance_table
    ok (
        join " " (
          "SELECT"
          ∷ join_with_casting columns
          ∷ "FROM"
          ∷ transaction_item_rule_instance_table.name
          ∷ "WHERE"
          ∷ account_role
          ∷ "="
          ∷ "$1"
          ∷ "AND"
          ∷ state_name
          ∷ "="
          ∷ "$2"
          ∷ "AND"
          ∷ transaction_rule_instance_id
          ∷ "IS NULL"
          ∷ []))
