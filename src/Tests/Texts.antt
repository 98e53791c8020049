-- ===== src/Tests/Texts.antt =====
-- Texts of statements that the repository's own tests expect (crates/pg/src/sqls).
use mxfactorial.Prelude.{ok, ◌≡◌, refl}
use mxfactorial.Prelude.Numeral.{show_i32}
use mxfactorial.Pg.Sqls.Auxiliary.{
  insert_transaction_item_with_sql, update_account_balance_sql, update_transaction_by_id_sql,
}

item_with_sql :
    insert_transaction_item_with_sql {E = Unit {0}} "insert_transaction" "id" 1
    ≡ ok (
      "INSERT INTO transaction_item (transaction_id, item_id, price, quantity, rule_instance_id, rule_exec_ids, unit_of_measurement, units_measured, debitor, creditor, debitor_profile_id, creditor_profile_id, debitor_approval_time, creditor_approval_time, debitor_expiration_time, creditor_expiration_time) VALUES ((SELECT id FROM insert_transaction), $1, $2::numeric, $3::numeric, $4, $5, $6, $7, $8, $9, $10, $11, $12, $13, $14, $15) RETURNING id",
      16,
    )
unfolding insert_transaction_item_with_sql show_i32
item_with_sql = refl

balance_sql :
    update_account_balance_sql {E = Unit {0}}
    ≡ ok
        "UPDATE account_balance SET current_balance = $1, current_transaction_item_id = $2 WHERE account_name = $3"
unfolding update_account_balance_sql
balance_sql = refl

transaction_sql :
    update_transaction_by_id_sql {E = Unit {0}}
    ≡ ok "UPDATE transaction SET equilibrium_time = $1 WHERE id = $2 RETURNING *"
unfolding update_transaction_by_id_sql
transaction_sql = refl
