-- ===== src/Pg/Row/Transactions.antt =====
-- `From<Row>` in crates/types/src/transaction_item.rs and transaction.rs.
use mxfactorial.Prelude.{[], some, Outcome, ok, ◌>>=◌}
use mxfactorial.Types.Item.{TransactionItem}
use mxfactorial.Types.Transaction.{Transaction}
use mxfactorial.Pg.Value.{Value}
use mxfactorial.Pg.Row.{Row, get, as_text, as_bool, as_time, as_texts, as_role, optionally}

module _ {Time D F : Type 0} where
  unfoldable pub item_from {ℓ} :
      {E : Type ℓ} → Row (Value Time D F) → Outcome E (TransactionItem Time)
  item_from row = do
    id ← get (optionally as_text) 0 row
    transaction_id ← get (optionally as_text) 1 row
    item_id ← get as_text 2 row
    price ← get as_text 3 row
    quantity ← get as_text 4 row
    rule_instance_id ← get (optionally as_text) 5 row
    rule_exec_ids ← get (optionally as_texts) 6 row
    unit_of_measurement ← get (optionally as_text) 7 row
    units_measured ← get (optionally as_text) 8 row
    debitor ← get as_text 9 row
    creditor ← get as_text 10 row
    debitor_profile_id ← get (optionally as_text) 11 row
    creditor_profile_id ← get (optionally as_text) 12 row
    debitor_approval_time ← get (optionally as_time) 13 row
    creditor_approval_time ← get (optionally as_time) 14 row
    debitor_rejection_time ← get (optionally as_time) 15 row
    creditor_rejection_time ← get (optionally as_time) 16 row
    debitor_expiration_time ← get (optionally as_time) 17 row
    creditor_expiration_time ← get (optionally as_time) 18 row
    ok (record {
      id = id;
      transaction_id = transaction_id;
      item_id = item_id;
      price = price;
      quantity = quantity;
      rule_instance_id = rule_instance_id;
      rule_exec_ids = rule_exec_ids;
      unit_of_measurement = unit_of_measurement;
      units_measured = units_measured;
      debitor = debitor;
      creditor = creditor;
      debitor_profile_id = debitor_profile_id;
      creditor_profile_id = creditor_profile_id;
      debitor_approval_time = debitor_approval_time;
      creditor_approval_time = creditor_approval_time;
      debitor_rejection_time = debitor_rejection_time;
      creditor_rejection_time = creditor_rejection_time;
      debitor_expiration_time = debitor_expiration_time;
      creditor_expiration_time = creditor_expiration_time;
      approvals = some [];
    })

  unfoldable pub transaction_from {ℓ} :
      {E : Type ℓ} → Row (Value Time D F) → Outcome E (Transaction Time)
  transaction_from row = do
    id ← get (optionally as_text) 0 row
    rule_instance_id ← get (optionally as_text) 1 row
    author ← get (optionally as_text) 2 row
    author_device_id ← get (optionally as_text) 3 row
    author_device_latlng ← get (optionally as_text) 4 row
    author_role ← get (optionally as_role) 5 row
    equilibrium_time ← get (optionally as_time) 6 row
    event_time ← get (optionally as_time) 7 row
    debitor_first ← get (optionally as_bool) 8 row
    sum_value ← get as_text 9 row
    ok (record {
      id = id;
      rule_instance_id = rule_instance_id;
      author = author;
      author_device_id = author_device_id;
      author_device_latlng = author_device_latlng;
      author_role = author_role;
      equilibrium_time = equilibrium_time;
      event_time = event_time;
      debitor_first = debitor_first;
      sum_value = sum_value;
      transaction_items = [];
    })
