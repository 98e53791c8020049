-- ===== src/Pg/Sqls/Auxiliary.antt =====
-- crates/pg/src/sqls: the statements that no query sends, among them those whose values come from
-- auxiliary statements. A counter of parameters goes on from one statement to the next.
use mxfactorial.Prelude.{
  String, ℕ, zero, suc, ◌+◌, [], ◌∷◌, Option, none, some, Outcome, ok, ◌>>=◌, ◌==◌, string_eq,
  if◌then◌else◌,
}
use mxfactorial.Prelude.Text.{format, join}
use mxfactorial.Pg.Sqls.Column.{
  Columns, get_column_name, join_columns, join_with_casting, cast_text,
}
use mxfactorial.Pg.Sqls.Params.{param, separator, comma, create_value_params}
use mxfactorial.Pg.Sqls.Approval
use mxfactorial.Pg.Sqls.Approval.{approval_table}
use mxfactorial.Pg.Sqls.Balance.{account_balance_table}
use mxfactorial.Pg.Sqls.Transaction
use mxfactorial.Pg.Sqls.Transaction.{transaction_table}
use mxfactorial.Pg.Sqls.TransactionItem
use mxfactorial.Pg.Sqls.TransactionItem.{transaction_item_table}

-- `(SELECT column FROM table)`
abbrev auxiliary : String → String → String
auxiliary column table =
    format ("(" ∷ "SELECT" ∷ " " ∷ column ∷ " " ∷ "FROM" ∷ " " ∷ table ∷ ")" ∷ [])

-- The values of one row: a column with an auxiliary statement takes no parameter.
unfoldable pub auxiliary_cells : (String → Option String) → Columns → ℕ → String × ℕ
auxiliary_cells aux [] p = ("", p)
auxiliary_cells aux (c ∷ columns) p =
    let with_param = auxiliary_cells aux columns (p + 1) in
    let without = auxiliary_cells aux columns p in
    elim (aux c.name) [
      | none ↦ (
        format (param p ∷ cast_text c.cast_value_as ∷ separator columns ∷ with_param.0 ∷ []),
        with_param.1,
      )
      | some value ↦ (
        format (value ∷ cast_text c.cast_value_as ∷ separator columns ∷ without.0 ∷ []),
        without.1,
      )
    ]

unfoldable pub auxiliary_rows : (String → Option String) → Columns → ℕ → ℕ → String × ℕ
unfolding auxiliary_cells
auxiliary_rows aux columns zero p = ("", p)
auxiliary_rows aux columns (suc rows) p =
    let (row, q) = auxiliary_cells aux columns p in
    let (rest, r) = auxiliary_rows aux columns rows q in
    (format ("(" ∷ row ∷ ")" ∷ comma rows ∷ rest ∷ []), r)

module _ {ℓ} {E : Type ℓ} where
  unfoldable pub insert_approval_cte_sql :
      String → String → String → String → ℕ → ℕ → Outcome E (String × ℕ)
  unfolding auxiliary_rows Approval.insert_columns
  insert_approval_cte_sql tr_aux_table tr_aux_column tr_item_aux_table tr_item_aux_column row_count
        p =
      do
        columns ← Approval.insert_columns
        let aux : String → Option String = λ name.
            if name == "transaction_id"
            then some (auxiliary tr_aux_column tr_aux_table)
            else if name == "transaction_item_id"
            then some (auxiliary tr_item_aux_column tr_item_aux_table)
            else none
        let (values, q) = auxiliary_rows aux columns row_count p
        ok (
          join " " (
              "INSERT INTO"
              ∷ approval_table.name
              ∷ format ("(" ∷ join_columns columns ∷ ")" ∷ [])
              ∷ "VALUES"
              ∷ values
              ∷ []),
          q,
        )

  unfoldable pub insert_transaction_item_with_sql : String → String → ℕ → Outcome E (String × ℕ)
  unfolding auxiliary_rows TransactionItem.insert_columns_with_casting
  insert_transaction_item_with_sql tr_aux_table tr_aux_column p = do
    columns ← TransactionItem.insert_columns_with_casting
    id ← get_column_name "id" transaction_item_table
    let aux : String → Option String = λ name.
        if name == "transaction_id" then some (auxiliary tr_aux_column tr_aux_table) else none
    let (values, q) = auxiliary_rows aux columns 1 p
    ok (
      join " " (
          "INSERT INTO"
          ∷ transaction_item_table.name
          ∷ format ("(" ∷ join_columns columns ∷ ")" ∷ [])
          ∷ "VALUES"
          ∷ values
          ∷ "RETURNING"
          ∷ id
          ∷ []),
      q,
    )

  unfoldable pub insert_transaction_sql : ℕ → Outcome E (String × ℕ)
  unfolding create_value_params Transaction.insert_columns_with_casting
  insert_transaction_sql p = do
    columns ← Transaction.insert_columns_with_casting
    let (values, q) = create_value_params columns 1 p
    ok (
      join " " (
          "INSERT INTO"
          ∷ transaction_table.name
          ∷ format ("(" ∷ join_with_casting columns ∷ ")" ∷ [])
          ∷ "VALUES"
          ∷ values
          ∷ "RETURNING"
          ∷ "*"
          ∷ []),
      q,
    )

  unfoldable pub update_transaction_by_id_sql : Outcome E String
  update_transaction_by_id_sql = do
    equilibrium_time ← get_column_name "equilibrium_time" transaction_table
    id ← get_column_name "id" transaction_table
    ok (
        join " " (
          "UPDATE" ∷ transaction_table.name ∷ "SET" ∷ equilibrium_time ∷ "=" ∷ "$1" ∷ "WHERE" ∷ id
          ∷ "=" ∷ "$2" ∷ "RETURNING" ∷ "*" ∷ []))

  unfoldable pub update_account_balance_sql : Outcome E String
  update_account_balance_sql = do
    current_balance ← get_column_name "current_balance" account_balance_table
    item_id ← get_column_name "current_transaction_item_id" account_balance_table
    account_name ← get_column_name "account_name" account_balance_table
    ok (
        join " " (
          "UPDATE"
          ∷ account_balance_table.name
          ∷ "SET"
          ∷ current_balance
          ∷ "="
          ∷ format ("$1" ∷ "," ∷ [])
          ∷ item_id
          ∷ "="
          ∷ "$2"
          ∷ "WHERE"
          ∷ account_name
          ∷ "="
          ∷ "$3"
          ∷ []))

-- The one of the profile table.
unfoldable pub select_approvers : String
select_approvers = join " " (
    "SELECT" ∷ "DISTINCT" ∷ "coalesce(owner_account, '')" ∷ "||" ∷ "coalesce(owner_subaccount, '')"
    ∷ "AS" ∷ "approver" ∷ "FROM" ∷ "account_owner" ∷ "ao" ∷ "WHERE" ∷ "ao.owned_account" ∷ "="
    ∷ "$1" ∷ "OR" ∷ "ao.owned_subaccount" ∷ "=" ∷ "$1" ∷ [])
