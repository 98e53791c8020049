-- ===== src/Pg/Sqls/RuleInstance/Transaction.antt =====
-- crates/pg/src/sqls/rule_instance.rs: the table transaction_rule_instance.
use mxfactorial.Prelude.{String, [], ◌∷◌, Outcome, ok, ◌>>=◌}
use mxfactorial.Prelude.Text.{join}
use mxfactorial.Pg.Sqls.Column.{
  Columns, Table, text, new_table, get_column_name, columns_of, plain, cast_column,
  join_with_casting,
}

abbrev pub transaction_rule_instance_table : Table
transaction_rule_instance_table = new_table "transaction_rule_instance" (
    "id" ∷ "rule_name" ∷ "rule_instance_name" ∷ "variable_values" ∷ "author" ∷ "author_device_id"
    ∷ "author_device_latlng" ∷ "author_role" ∷ "cron" ∷ "disabled_time" ∷ "removed_time"
    ∷ "created_at" ∷ [])

module _ {ℓ} {E : Type ℓ} where
  unfoldable pub select_all_with_text_casting : Outcome E Columns
  select_all_with_text_casting = columns_of transaction_rule_instance_table (
      cast_column text "id"
      ∷ plain "rule_name"
      ∷ plain "rule_instance_name"
      ∷ plain "variable_values"
      ∷ plain "author"
      ∷ plain "author_device_id"
      ∷ cast_column text "author_device_latlng"
      ∷ plain "author_role"
      ∷ plain "cron"
      ∷ plain "disabled_time"
      ∷ plain "removed_time"
      ∷ plain "created_at"
      ∷ [])

  unfoldable pub select_by_author_sql : Outcome E String
  unfolding select_all_with_text_casting
  select_by_author_sql = do
    columns ← select_all_with_text_casting
    author ← get_column_name "author" transaction_rule_instance_table
    ok (
        join " " (
          "SELECT"
          ∷ join_with_casting columns
          ∷ "FROM"
          ∷ transaction_rule_instance_table.name
          ∷ "WHERE"
          ∷ author
          ∷ "="
          ∷ "$1"
          ∷ []))
