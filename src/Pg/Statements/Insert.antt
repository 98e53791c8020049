-- ===== src/Pg/Statements/Insert.antt =====
-- crates/pg/src/model.rs: the values of the two statements that write the items of a transaction,
-- insert_transaction_query and update_account_balances_query.
use mxfactorial.Prelude.{List, [], ◌∷◌, ◌++◌, some, Outcome, ok, ◌>>=◌, ok_or, length}
use mxfactorial.Prelude.Numeral.{parse_i32}
use mxfactorial.External.{DecimalOps}
use mxfactorial.Types.Approval.{Approval, Approvals}
use mxfactorial.Types.Errors.{BoxError, external, message}
use mxfactorial.Types.Item.{TransactionItem, revenue_string, expense_string}
use mxfactorial.Types.Items.{TransactionItems, list_lengths_of_approvals}
use mxfactorial.Types.Transaction.{Transaction}
use mxfactorial.Pg.Value.{
  Value, null, text, int, bool, numeric, timestamp, texts, point, PgOps, optional, role_value,
  parse_pg_int4, parse_pg_point, parse_pg_timestamp, parse_pg_numeric,
}
use mxfactorial.Pg.Sqls.Balance.{update_account_balances_sql}
use mxfactorial.Pg.Sqls.Insert.{fn_select_insert_transaction_sql}
use mxfactorial.Pg.Statements.{Statement}

module _ {Time D F : Type 0} (ops : PgOps D F) where
  unfoldable pub approval_values : Approval Time → Outcome (BoxError Time) (List (Value Time D F))
  approval_values approval = do
    rule_instance_id ← parse_pg_int4 approval.rule_instance_id
    device_latlng ← parse_pg_point ops approval.device_latlng
    approval_time ← parse_pg_timestamp approval.approval_time
    rejection_time ← parse_pg_timestamp approval.rejection_time
    expiration_time ← parse_pg_timestamp approval.expiration_time
    ok (
        null
        ∷ optional int rule_instance_id
        ∷ null
        ∷ null
        ∷ text approval.account_name
        ∷ role_value approval.account_role
        ∷ optional text approval.device_id
        ∷ optional (λ p. point p.0 p.1) device_latlng
        ∷ optional timestamp approval_time
        ∷ optional timestamp rejection_time
        ∷ optional timestamp expiration_time
        ∷ [])

  unfoldable pub approvals_values : Approvals Time → Outcome (BoxError Time) (List (Value Time D F))
  approvals_values [] = ok []
  approvals_values (a ∷ rest) = do
    values ← approval_values a
    more ← approvals_values rest
    ok (values ++ more)

  -- The two rejection times stand the other way round than the columns of the row.
  unfoldable pub item_row_values :
      TransactionItem Time → Outcome (BoxError Time) (List (Value Time D F))
  item_row_values ti = do
    price ← parse_pg_numeric ops (some ti.price)
    quantity ← parse_pg_numeric ops (some ti.quantity)
    rule_instance_id ← parse_pg_int4 ti.rule_instance_id
    units_measured ← parse_pg_numeric ops ti.units_measured
    debitor_profile_id ← parse_pg_int4 ti.debitor_profile_id
    creditor_profile_id ← parse_pg_int4 ti.creditor_profile_id
    debitor_approval_time ← parse_pg_timestamp ti.debitor_approval_time
    creditor_approval_time ← parse_pg_timestamp ti.creditor_approval_time
    debitor_expiration_time ← parse_pg_timestamp ti.debitor_expiration_time
    creditor_expiration_time ← parse_pg_timestamp ti.creditor_expiration_time
    creditor_rejection_time ← parse_pg_timestamp ti.creditor_rejection_time
    debitor_rejection_time ← parse_pg_timestamp ti.debitor_rejection_time
    ok (
        null
        ∷ null
        ∷ text ti.item_id
        ∷ optional numeric price
        ∷ optional numeric quantity
        ∷ optional int rule_instance_id
        ∷ optional texts ti.rule_exec_ids
        ∷ optional text ti.unit_of_measurement
        ∷ optional numeric units_measured
        ∷ text ti.debitor
        ∷ text ti.creditor
        ∷ optional int debitor_profile_id
        ∷ optional int creditor_profile_id
        ∷ optional timestamp debitor_approval_time
        ∷ optional timestamp creditor_approval_time
        ∷ optional timestamp debitor_expiration_time
        ∷ optional timestamp creditor_expiration_time
        ∷ optional timestamp creditor_rejection_time
        ∷ optional timestamp debitor_rejection_time
        ∷ [])

  -- The row of an item, and then the rows of its approvals.
  unfoldable pub item_values :
      TransactionItem Time → Outcome (BoxError Time) (List (Value Time D F))
  item_values ti = do
    row ← item_row_values ti
    approvals ← ok_or ti.approvals (message "missing approvals in transaction item")
    rows ← approvals_values approvals
    ok (row ++ rows)

  unfoldable pub items_values :
      TransactionItems Time → Outcome (BoxError Time) (List (Value Time D F))
  items_values [] = ok []
  items_values (ti ∷ rest) = do
    values ← item_values ti
    more ← items_values rest
    ok (values ++ more)

  unfoldable pub transaction_values :
      Transaction Time → Outcome (BoxError Time) (List (Value Time D F))
  transaction_values t = do
    rule_instance_id ← parse_pg_int4 t.rule_instance_id
    author_device_latlng ← parse_pg_point ops t.author_device_latlng
    equilibrium_time ← parse_pg_timestamp t.equilibrium_time
    sum_value ← parse_pg_numeric ops (some t.sum_value)
    ok (
        null
        ∷ optional int rule_instance_id
        ∷ optional text t.author
        ∷ optional text t.author_device_id
        ∷ optional (λ p. point p.0 p.1) author_device_latlng
        ∷ optional role_value t.author_role
        ∷ optional timestamp equilibrium_time
        ∷ optional bool t.debitor_first
        ∷ optional numeric sum_value
        ∷ null
        ∷ null
        ∷ [])

  unfoldable pub insert_transaction :
      Transaction Time → Outcome (BoxError Time) (Statement (Value Time D F))
  insert_transaction t = do
    approval_lengths ← list_lengths_of_approvals t.transaction_items
    sql ← fn_select_insert_transaction_sql approval_lengths
    values ← transaction_values t
    rows ← items_values t.transaction_items
    ok (sql, values ++ rows)

module _ {Time D F : Type 0} (dec : DecimalOps D) where
  -- The creditor receives the revenue and the debitor the expense of the item.
  unfoldable pub balance_values :
      TransactionItem Time → Outcome (BoxError Time) (List (Value Time D F))
  balance_values ti = do
    revenue ← revenue_string dec ti
    id ← ok_or ti.id (message "missing id in transaction item")
    tr_item_id ← ok_or (parse_i32 id) (external "ParseIntError")
    expense ← expense_string dec ti
    ok (
        text ti.creditor
        ∷ text revenue
        ∷ int tr_item_id
        ∷ text ti.debitor
        ∷ text expense
        ∷ int tr_item_id
        ∷ [])

  unfoldable pub balances_values :
      TransactionItems Time → Outcome (BoxError Time) (List (Value Time D F))
  balances_values [] = ok []
  balances_values (ti ∷ rest) = do
    values ← balance_values ti
    more ← balances_values rest
    ok (values ++ more)

  unfoldable pub update_account_balances :
      TransactionItems Time → Outcome (BoxError Time) (Statement (Value Time D F))
  update_account_balances items = do
    values ← balances_values items
    ok (update_account_balances_sql (length items), values)
