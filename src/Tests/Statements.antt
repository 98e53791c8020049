-- ===== src/Tests/Statements.antt =====
-- Examples of the theorems on the statements and rows of the database.
use mxfactorial.Prelude.{
  ℕ, ◌*◌, String, List, [], ◌∷◌, some, Outcome, ok, err, panic, ◌≡◌, refl, arith, pos,
}
use mxfactorial.Prelude.Numeral.{parse_i32}
use mxfactorial.External.{DecimalOps}
use mxfactorial.Types.Errors.{BoxError}
use mxfactorial.Types.Item.{revenue_string, expense_string, revenue, expense, price_times_quantity}
use mxfactorial.Types.Items.{list_lengths_of_approvals}
use mxfactorial.Pg.Value.{
  Value, PgOps, parse_pg_int4, parse_pg_point, parse_pg_timestamp, parse_pg_numeric,
}
use mxfactorial.Pg.Sqls.Transaction
use mxfactorial.Pg.Sqls.TransactionItem
use mxfactorial.Pg.Sqls.Approval
use mxfactorial.Pg.Sqls.Insert.{
  fn_select_insert_transaction_sql, entire_transaction_row, transaction_row,
  entire_transaction_item_array, entire_transaction_item_rows, entire_transaction_item_row,
  transaction_item_row, approval_array,
}
use mxfactorial.Pg.Statements.{Statement}
use mxfactorial.Pg.Statements.Insert.{
  insert_transaction, update_account_balances, transaction_values, approval_values,
  approvals_values, item_row_values, item_values, items_values, balances_values, balance_values,
}
use mxfactorial.Pg.Placeholders.{placeholders}
use mxfactorial.Pg.Placeholders.Params.{from}
use mxfactorial.Pg.Placeholders.Stored.{insert_transaction-numbered}
use mxfactorial.Pg.Placeholders.Balances.{update_account_balances-numbered}
use mxfactorial.Pg.Placeholders.Words.{Numbered}
use mxfactorial.Pg.Placeholders.Reads.{reads_by_list-Numbered}
use mxfactorial.Pg.Statements.Accounts
use mxfactorial.Pg.Statements.Transactions
use mxfactorial.Tests.{money, digit, sale, request}

abbrev pub pg : PgOps ℕ ℕ
pg = record { from_str_exact = digit; rescale = λ _ d. d; parse_coordinate = digit }

abbrev Sent : Type 0
Sent = Outcome (BoxError ℕ) (Statement (Value ℕ ℕ ℕ))

abbrev sql_of : Sent → String
sql_of (ok s) = s.0
sql_of (err e) = ""
sql_of panic = ""

abbrev values_of : Sent → List (Value ℕ ℕ ℕ)
values_of (ok s) = s.1
values_of (err e) = []
values_of panic = []

abbrev stored_request : Sent
stored_request = insert_transaction pg request

-- Eleven values of the transaction, nineteen of its item and eleven of the item's approval.
insert_transaction-numbered_example : placeholders (sql_of stored_request) ≡ from 1 41
unfolding insert_transaction list_lengths_of_approvals fn_select_insert_transaction_sql
    entire_transaction_row transaction_row Transaction.fn_insert_columns_with_casting
    entire_transaction_item_array entire_transaction_item_rows entire_transaction_item_row
    transaction_item_row TransactionItem.fn_insert_columns_with_casting approval_array
    Approval.fn_insert_columns_with_casting transaction_values parse_pg_int4 parse_pg_point
    parse_pg_timestamp parse_pg_numeric approval_values approvals_values item_row_values item_values
    items_values
insert_transaction-numbered_example =
    insert_transaction-numbered pg request (sql_of stored_request) (values_of stored_request) refl
      (omega arith)

-- Money that can be taken: the sign is left out.
abbrev signed : DecimalOps ℕ
signed = record money { minus_one = some 1 }

abbrev changed : Sent
changed = update_account_balances signed (sale ∷ [])

update_account_balances-numbered_example : (placeholders (sql_of changed) ≡ from 1 6) × (6 ≡ 1 * 6)
unfolding update_account_balances balances_values balance_values revenue_string expense_string
    revenue expense price_times_quantity parse_i32
update_account_balances-numbered_example =
    update_account_balances-numbered signed (sale ∷ []) (sql_of changed) (values_of changed) refl
      (omega arith)

reads_by_list-Numbered_example :
    Numbered (
      Transactions.select_approvals_by_transaction_ids {Time = ℕ} {D = ℕ} {F = ℕ}
        (pos 1 ∷ pos 2 ∷ []))
    × Numbered (
        Transactions.select_transaction_items_by_transaction_ids {Time = ℕ} {D = ℕ} {F = ℕ}
          (pos 1 ∷ pos 2 ∷ []))
    × Numbered
        (Transactions.select_transactions_by_ids {Time = ℕ} {D = ℕ} {F = ℕ} (pos 1 ∷ pos 2 ∷ []))
    × Numbered (
        Accounts.select_account_balances {Time = ℕ} {D = ℕ} {F = ℕ}
          ("alice" ∷ "bob" ∷ "alice" ∷ []))
    × Numbered (
        Accounts.select_profile_ids_by_account_names {Time = ℕ} {D = ℕ} {F = ℕ}
          ("alice" ∷ "bob" ∷ "alice" ∷ []))
    × Numbered (
        Accounts.select_account_profiles_by_account_names {Time = ℕ} {D = ℕ} {F = ℕ}
          ("alice" ∷ "bob" ∷ "alice" ∷ []))
reads_by_list-Numbered_example =
    reads_by_list-Numbered ℕ ℕ ℕ (pos 1 ∷ pos 2 ∷ []) ("alice" ∷ "bob" ∷ "alice" ∷ []) (omega arith)
      (omega arith)
