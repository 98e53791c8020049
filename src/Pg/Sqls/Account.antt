-- ===== src/Pg/Sqls/Account.antt =====
-- crates/pg/src/sqls/account.rs: accounts and their owners.
use mxfactorial.Prelude.{String, [], ◌∷◌, Outcome, ok, ◌>>=◌}
use mxfactorial.Prelude.Text.{format, join}
use mxfactorial.Pg.Sqls.Column.{Table, new_column, new_table, get_column_name, join_columns}
use mxfactorial.Pg.Sqls.Params.{create_value_params}

unfoldable pub insert_account_sql : String
unfolding create_value_params
insert_account_sql =
    let columns = new_column "name" ∷ [] in
    join " " (
      "INSERT INTO"
      ∷ "account"
      ∷ format ("(" ∷ join_columns columns ∷ ")" ∷ [])
      ∷ "VALUES"
      ∷ (create_value_params columns 1 1).0
      ∷ "ON CONFLICT"
      ∷ "DO NOTHING"
      ∷ [])

abbrev pub delete_owner_account_sql : String
delete_owner_account_sql = "DELETE FROM account_owner WHERE owner_account = $1"

abbrev pub delete_account_sql : String
delete_account_sql = "DELETE FROM account WHERE name = $1"

abbrev pub account_owner_table : Table
account_owner_table = new_table "account_owner" (
    "id" ∷ "owner_account" ∷ "owned_account" ∷ "owner_subaccount" ∷ "owned_subaccount"
    ∷ "removed_by" ∷ "removed_time" ∷ [])

module _ {ℓ} {E : Type ℓ} where
  unfoldable pub select_approvers_sql : Outcome E String
  select_approvers_sql = do
    owner_account ← get_column_name "owner_account" account_owner_table
    owner_subaccount ← get_column_name "owner_subaccount" account_owner_table
    owned_account ← get_column_name "owned_account" account_owner_table
    owned_subaccount ← get_column_name "owned_subaccount" account_owner_table
    ok (
        join " " (
          "SELECT"
          ∷ "DISTINCT"
          ∷ format ("coalesce(" ∷ owner_account ∷ ", '')" ∷ [])
          ∷ "||"
          ∷ format ("coalesce(" ∷ owner_subaccount ∷ ", '')" ∷ [])
          ∷ "AS"
          ∷ "approver"
          ∷ "FROM"
          ∷ account_owner_table.name
          ∷ "ao"
          ∷ "WHERE"
          ∷ format ("ao." ∷ owned_account ∷ [])
          ∷ "="
          ∷ "$1"
          ∷ "OR"
          ∷ format ("ao." ∷ owned_subaccount ∷ [])
          ∷ "="
          ∷ "$1"
          ∷ []))
