-- ===== src/Pg/Sqls/Insert.antt =====
-- crates/pg/src/sqls/transaction.rs: the call of the function insert_transaction, with one row for
-- the transaction, one for each item, and one for each approval of an item.
use mxfactorial.Prelude.{
  String, ℕ, zero, suc, List, [], ◌∷◌, Option, none, some, Outcome, ok, ◌>>=◌,
}
use mxfactorial.Prelude.Text.{format}
use mxfactorial.Pg.Sqls.Column.{Columns}
use mxfactorial.Pg.Sqls.Params.{separator, comma, value_cells}
use mxfactorial.Pg.Sqls.Transaction
use mxfactorial.Pg.Sqls.TransactionItem
use mxfactorial.Pg.Sqls.Approval

abbrev pub row_type_text : Option String → String
row_type_text none = ""
row_type_text (some t) = format ("::" ∷ t ∷ [])

unfoldable pub pg_row : Columns → Option String → ℕ → String × ℕ
pg_row columns row_type p =
    let (cells, q) = value_cells columns p in
    (format ("ROW(" ∷ cells ∷ ")" ∷ row_type_text row_type ∷ []), q)

-- The rows of an array, without its brackets.
unfoldable pub pg_rows : Columns → ℕ → ℕ → String × ℕ
pg_rows columns zero p = ("", p)
pg_rows columns (suc k) p =
    let (row, q) = pg_row columns none p in
    let (rest, r) = pg_rows columns k q in (format (row ∷ comma k ∷ rest ∷ []), r)

unfoldable pub pg_row_array : Columns → ℕ → String → ℕ → String × ℕ
pg_row_array columns row_count row_type p =
    let (rows, q) = pg_rows columns row_count p in
    (format ("ARRAY [" ∷ rows ∷ "]::" ∷ row_type ∷ "[]" ∷ []), q)

module _ {ℓ} {E : Type ℓ} where
  unfoldable pub transaction_row : ℕ → Outcome E (String × ℕ)
  transaction_row p = do
    columns ← Transaction.fn_insert_columns_with_casting
    ok (pg_row columns none p)

  unfoldable pub transaction_item_row : ℕ → Outcome E (String × ℕ)
  transaction_item_row p = do
    columns ← TransactionItem.fn_insert_columns_with_casting
    ok (pg_row columns none p)

  unfoldable pub approval_array : ℕ → ℕ → Outcome E (String × ℕ)
  approval_array approval_count p = do
    columns ← Approval.fn_insert_columns_with_casting
    ok (pg_row_array columns approval_count "approval" p)

  unfoldable pub entire_transaction_item_row : ℕ → ℕ → Outcome E (String × ℕ)
  entire_transaction_item_row approval_count p = do
    (tr_item_row, q) ← transaction_item_row p
    (appr_array, r) ← approval_array approval_count q
    ok (format ("ROW(" ∷ tr_item_row ∷ ", " ∷ appr_array ∷ ")" ∷ []), r)

  -- The rows of the items, without the brackets of their array.
  unfoldable pub entire_transaction_item_rows : List ℕ → ℕ → Outcome E (String × ℕ)
  entire_transaction_item_rows [] p = ok ("", p)
  entire_transaction_item_rows (n ∷ lengths) p = do
    (row, q) ← entire_transaction_item_row n p
    (rest, r) ← entire_transaction_item_rows lengths q
    ok (format (row ∷ separator lengths ∷ rest ∷ []), r)

  unfoldable pub entire_transaction_item_array : List ℕ → ℕ → Outcome E (String × ℕ)
  entire_transaction_item_array lengths_of_approvals p = do
    (rows, q) ← entire_transaction_item_rows lengths_of_approvals p
    ok (format ("ARRAY [" ∷ rows ∷ "]::entire_transaction_item[]" ∷ []), q)

  unfoldable pub entire_transaction_row : List ℕ → ℕ → Outcome E (String × ℕ)
  entire_transaction_row lengths_of_approvals p = do
    (tr_row, q) ← transaction_row p
    (tr_item_array, r) ← entire_transaction_item_array lengths_of_approvals q
    ok (format ("ROW(" ∷ tr_row ∷ ", " ∷ tr_item_array ∷ ")::entire_transaction" ∷ []), r)

  unfoldable pub fn_select_insert_transaction_sql : List ℕ → Outcome E String
  fn_select_insert_transaction_sql list_of_approval_lengths = do
    (sql, q) ← entire_transaction_row list_of_approval_lengths 1
    ok (format ("SELECT insert_transaction" ∷ "(" ∷ sql ∷ ")" ∷ []))
