-- ===== src/Pg/Row/Rules.antt =====
-- `From<&Row>` in crates/types/src/rule.rs.
use mxfactorial.Prelude.{Outcome, ok, ◌>>=◌}
use mxfactorial.Types.Rule.{
  TransactionRuleInstance, TransactionItemRuleInstance, ApprovalRuleInstance,
}
use mxfactorial.Pg.Value.{Value}
use mxfactorial.Pg.Row.{Row, get, as_text, as_time, as_texts, as_role, optionally}

module _ {Time D F : Type 0} where
  unfoldable pub transaction_rule_from {ℓ} :
      {E : Type ℓ} → Row (Value Time D F) → Outcome E (TransactionRuleInstance Time)
  transaction_rule_from row = do
    id ← get (optionally as_text) 0 row
    rule_name ← get as_text 1 row
    rule_instance_name ← get as_text 2 row
    variable_values ← get as_texts 3 row
    author ← get (optionally as_text) 4 row
    author_device_id ← get (optionally as_text) 5 row
    author_device_latlng ← get (optionally as_text) 6 row
    author_role ← get (optionally as_role) 7 row
    cron ← get (optionally as_text) 8 row
    disabled_time ← get (optionally as_time) 9 row
    removed_time ← get (optionally as_time) 10 row
    created_at ← get (optionally as_time) 11 row
    ok (record {
      id = id;
      rule_name = rule_name;
      rule_instance_name = rule_instance_name;
      variable_values = variable_values;
      author = author;
      author_device_id = author_device_id;
      author_device_latlng = author_device_latlng;
      author_role = author_role;
      cron = cron;
      disabled_time = disabled_time;
      removed_time = removed_time;
      created_at = created_at;
    })

  unfoldable pub item_rule_from {ℓ} :
      {E : Type ℓ} → Row (Value Time D F) → Outcome E (TransactionItemRuleInstance Time)
  item_rule_from row = do
    id ← get (optionally as_text) 0 row
    rule_name ← get as_text 1 row
    rule_instance_name ← get as_text 2 row
    variable_values ← get as_texts 3 row
    account_role ← get as_role 4 row
    account_name ← get (optionally as_text) 5 row
    item_id ← get (optionally as_text) 6 row
    price ← get (optionally as_text) 7 row
    quantity ← get (optionally as_text) 8 row
    country_name ← get (optionally as_text) 9 row
    city_name ← get (optionally as_text) 10 row
    county_name ← get (optionally as_text) 11 row
    state_name ← get (optionally as_text) 12 row
    latlng ← get (optionally as_text) 13 row
    occupation_id ← get (optionally as_text) 14 row
    industry_id ← get (optionally as_text) 15 row
    disabled_time ← get (optionally as_time) 16 row
    removed_time ← get (optionally as_time) 17 row
    created_at ← get (optionally as_time) 18 row
    transaction_rule_instance_id ← get (optionally as_text) 19 row
    ok (record {
      id = id;
      rule_name = rule_name;
      rule_instance_name = rule_instance_name;
      variable_values = variable_values;
      account_role = account_role;
      account_name = account_name;
      item_id = item_id;
      price = price;
      quantity = quantity;
      country_name = country_name;
      city_name = city_name;
      county_name = county_name;
      state_name = state_name;
      latlng = latlng;
      occupation_id = occupation_id;
      industry_id = industry_id;
      disabled_time = disabled_time;
      removed_time = removed_time;
      created_at = created_at;
      transaction_rule_instance_id = transaction_rule_instance_id;
    })

  unfoldable pub approval_rule_from {ℓ} :
      {E : Type ℓ} → Row (Value Time D F) → Outcome E (ApprovalRuleInstance Time)
  approval_rule_from row = do
    id ← get (optionally as_text) 0 row
    rule_name ← get as_text 1 row
    rule_instance_name ← get as_text 2 row
    variable_values ← get as_texts 3 row
    account_role ← get as_role 4 row
    account_name ← get as_text 5 row
    disabled_time ← get (optionally as_time) 6 row
    removed_time ← get (optionally as_time) 7 row
    created_at ← get (optionally as_time) 8 row
    ok (record {
      id = id;
      rule_name = rule_name;
      rule_instance_name = rule_instance_name;
      variable_values = variable_values;
      account_role = account_role;
      account_name = account_name;
      disabled_time = disabled_time;
      removed_time = removed_time;
      created_at = created_at;
    })
