-- ===== src/Pg/Row/Selected.antt =====
-- The columns that the statements select (crates/pg/src/sqls) and the cells that `From<Row>` reads
-- (crates/types/src) stand in the same order: what is stored under the names of a record's fields is
-- read back as the record.
use mxfactorial.Prelude.{[], ◌∷◌, Outcome, ◌>>=◌, unwrap, string_eq, map_outcome}
use mxfactorial.Prelude.Maps.{Map, lookup}
use mxfactorial.Types.Approval.{Approval}
use mxfactorial.Types.Account.{AccountProfile}
use mxfactorial.Types.Balance.{AccountBalance}
use mxfactorial.Types.Rule.{
  TransactionRuleInstance, TransactionItemRuleInstance, ApprovalRuleInstance,
}
use mxfactorial.Types.Item.{TransactionItem}
use mxfactorial.Types.Transaction.{Transaction}
use mxfactorial.Pg.Value.{Value, text, bool, numeric, timestamp, texts, optional, role_value}
use mxfactorial.Pg.Row.{Row}
use mxfactorial.Pg.Sqls.Column.{Columns}

-- The cells that a statement returns: for each of its columns what is stored under that name.
abbrev pub cells {ℓ} : {E : Type ℓ} {V : Type 0} → Map V → Columns → Outcome E (Row V)
cells stored = map_outcome (λ c. unwrap (lookup c.name stored))

-- The columns are selected and the cells read.
abbrev pub read_back {ℓ} :
    {E : Type ℓ} {V A : Type 0} → Outcome E Columns → (Row V → Outcome E A) → Map V → Outcome E A
read_back columns read stored = do cs ← columns; row ← cells stored cs; read row

module _ {Time D F : Type 0} where
  abbrev pub approval_stored : Approval Time → Map (Value Time D F)
  approval_stored r =
      ("account_name", text r.account_name)
      ∷ ("account_role", role_value r.account_role)
      ∷ ("approval_time", optional timestamp r.approval_time)
      ∷ ("device_id", optional text r.device_id)
      ∷ ("device_latlng", optional text r.device_latlng)
      ∷ ("expiration_time", optional timestamp r.expiration_time)
      ∷ ("id", optional text r.id)
      ∷ ("rejection_time", optional timestamp r.rejection_time)
      ∷ ("rule_instance_id", optional text r.rule_instance_id)
      ∷ ("transaction_id", optional text r.transaction_id)
      ∷ ("transaction_item_id", optional text r.transaction_item_id)
      ∷ []

  abbrev pub profile_stored : AccountProfile Time → Map (Value Time D F)
  profile_stored r =
      ("account_name", text r.account_name)
      ∷ ("city_name", text r.city_name)
      ∷ ("country_name", text r.country_name)
      ∷ ("county_name", optional text r.county_name)
      ∷ ("description", optional text r.description)
      ∷ ("email_address", text r.email_address)
      ∷ ("first_name", optional text r.first_name)
      ∷ ("floor_number", optional text r.floor_number)
      ∷ ("id", optional text r.id)
      ∷ ("industry_id", optional text r.industry_id)
      ∷ ("last_name", optional text r.last_name)
      ∷ ("latlng", optional text r.latlng)
      ∷ ("middle_name", optional text r.middle_name)
      ∷ ("occupation_id", optional text r.occupation_id)
      ∷ ("postal_code", text r.postal_code)
      ∷ ("region_name", optional text r.region_name)
      ∷ ("removal_time", optional timestamp r.removal_time)
      ∷ ("state_name", text r.state_name)
      ∷ ("street_name", optional text r.street_name)
      ∷ ("street_number", optional text r.street_number)
      ∷ ("telephone_area_code", optional text r.telephone_area_code)
      ∷ ("telephone_country_code", optional text r.telephone_country_code)
      ∷ ("telephone_number", optional text r.telephone_number)
      ∷ ("unit_number", optional text r.unit_number)
      ∷ []

  abbrev pub balance_stored : AccountBalance D → Map (Value Time D F)
  balance_stored r =
      ("account_name", text r.account_name)
      ∷ ("current_balance", numeric r.current_balance)
      ∷ ("current_transaction_item_id", optional text r.current_transaction_item_id)
      ∷ []

  abbrev pub item_rule_stored : TransactionItemRuleInstance Time → Map (Value Time D F)
  item_rule_stored r =
      ("account_name", optional text r.account_name)
      ∷ ("account_role", role_value r.account_role)
      ∷ ("city_name", optional text r.city_name)
      ∷ ("country_name", optional text r.country_name)
      ∷ ("county_name", optional text r.county_name)
      ∷ ("created_at", optional timestamp r.created_at)
      ∷ ("disabled_time", optional timestamp r.disabled_time)
      ∷ ("id", optional text r.id)
      ∷ ("industry_id", optional text r.industry_id)
      ∷ ("item_id", optional text r.item_id)
      ∷ ("latlng", optional text r.latlng)
      ∷ ("occupation_id", optional text r.occupation_id)
      ∷ ("price", optional text r.price)
      ∷ ("quantity", optional text r.quantity)
      ∷ ("removed_time", optional timestamp r.removed_time)
      ∷ ("rule_instance_name", text r.rule_instance_name)
      ∷ ("rule_name", text r.rule_name)
      ∷ ("state_name", optional text r.state_name)
      ∷ ("transaction_rule_instance_id", optional text r.transaction_rule_instance_id)
      ∷ ("variable_values", texts r.variable_values)
      ∷ []

  abbrev pub approval_rule_stored : ApprovalRuleInstance Time → Map (Value Time D F)
  approval_rule_stored r =
      ("account_name", text r.account_name)
      ∷ ("account_role", role_value r.account_role)
      ∷ ("created_at", optional timestamp r.created_at)
      ∷ ("disabled_time", optional timestamp r.disabled_time)
      ∷ ("id", optional text r.id)
      ∷ ("removed_time", optional timestamp r.removed_time)
      ∷ ("rule_instance_name", text r.rule_instance_name)
      ∷ ("rule_name", text r.rule_name)
      ∷ ("variable_values", texts r.variable_values)
      ∷ []

  abbrev pub transaction_rule_stored : TransactionRuleInstance Time → Map (Value Time D F)
  transaction_rule_stored r =
      ("author", optional text r.author)
      ∷ ("author_device_id", optional text r.author_device_id)
      ∷ ("author_device_latlng", optional text r.author_device_latlng)
      ∷ ("author_role", optional role_value r.author_role)
      ∷ ("created_at", optional timestamp r.created_at)
      ∷ ("cron", optional text r.cron)
      ∷ ("disabled_time", optional timestamp r.disabled_time)
      ∷ ("id", optional text r.id)
      ∷ ("removed_time", optional timestamp r.removed_time)
      ∷ ("rule_instance_name", text r.rule_instance_name)
      ∷ ("rule_name", text r.rule_name)
      ∷ ("variable_values", texts r.variable_values)
      ∷ []

  abbrev pub item_stored : TransactionItem Time → Map (Value Time D F)
  item_stored r =
      ("creditor", text r.creditor)
      ∷ ("creditor_approval_time", optional timestamp r.creditor_approval_time)
      ∷ ("creditor_expiration_time", optional timestamp r.creditor_expiration_time)
      ∷ ("creditor_profile_id", optional text r.creditor_profile_id)
      ∷ ("creditor_rejection_time", optional timestamp r.creditor_rejection_time)
      ∷ ("debitor", text r.debitor)
      ∷ ("debitor_approval_time", optional timestamp r.debitor_approval_time)
      ∷ ("debitor_expiration_time", optional timestamp r.debitor_expiration_time)
      ∷ ("debitor_profile_id", optional text r.debitor_profile_id)
      ∷ ("debitor_rejection_time", optional timestamp r.debitor_rejection_time)
      ∷ ("id", optional text r.id)
      ∷ ("item_id", text r.item_id)
      ∷ ("price", text r.price)
      ∷ ("quantity", text r.quantity)
      ∷ ("rule_exec_ids", optional texts r.rule_exec_ids)
      ∷ ("rule_instance_id", optional text r.rule_instance_id)
      ∷ ("transaction_id", optional text r.transaction_id)
      ∷ ("unit_of_measurement", optional text r.unit_of_measurement)
      ∷ ("units_measured", optional text r.units_measured)
      ∷ []

  abbrev pub transaction_stored : Transaction Time → Map (Value Time D F)
  transaction_stored r =
      ("author", optional text r.author)
      ∷ ("author_device_id", optional text r.author_device_id)
      ∷ ("author_device_latlng", optional text r.author_device_latlng)
      ∷ ("author_role", optional role_value r.author_role)
      ∷ ("debitor_first", optional bool r.debitor_first)
      ∷ ("equilibrium_time", optional timestamp r.equilibrium_time)
      ∷ ("event_time", optional timestamp r.event_time)
      ∷ ("id", optional text r.id)
      ∷ ("rule_instance_id", optional text r.rule_instance_id)
      ∷ ("sum_value", text r.sum_value)
      ∷ []
