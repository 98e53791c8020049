-- ===== src/Tests/Records.antt =====
-- Examples of the theorems on the rows of the database.
use mxfactorial.Prelude.{ℕ, List, [], ◌∷◌, none, some, ok, err, panic, ◌≡◌, refl}
use mxfactorial.Types.Role.{debitor, creditor}
use mxfactorial.Types.Errors.{BoxError}
use mxfactorial.Types.Account.{AccountProfile}
use mxfactorial.Types.Balance.{AccountBalance}
use mxfactorial.Types.Rule.{
  TransactionRuleInstance, TransactionItemRuleInstance, ApprovalRuleInstance,
}
use mxfactorial.Types.Item.{TransactionItem}
use mxfactorial.Pg.Value.{Value, parse_pg_int4, parse_pg_numeric, parse_pg_timestamp}
use mxfactorial.Pg.Row.Accounts.{approval_from, profile_from, balance_from}
use mxfactorial.Pg.Row.Rules.{transaction_rule_from, item_rule_from, approval_rule_from}
use mxfactorial.Pg.Row.Transactions.{item_from, transaction_from}
use mxfactorial.Pg.Sqls.Approval
use mxfactorial.Pg.Sqls.Profile
use mxfactorial.Pg.Sqls.Balance
use mxfactorial.Pg.Sqls.Transaction
use mxfactorial.Pg.Sqls.TransactionItem
use mxfactorial.Pg.Sqls.RuleInstance.Transaction as TransactionRules
use mxfactorial.Pg.Sqls.RuleInstance.Item as ItemRules
use mxfactorial.Pg.Sqls.RuleInstance.Approval as ApprovalRules
use mxfactorial.Pg.Row.Selected.{
  read_back, approval_stored, profile_stored, balance_stored, transaction_rule_stored,
  item_rule_stored, approval_rule_stored, item_stored, transaction_stored,
}
use mxfactorial.Pg.Row.ReadBack.{records-read_back}
use mxfactorial.Pg.Statements.Insert.{item_row_values}
use mxfactorial.Pg.Statements.Named.{Stands, item_row_values-rejections}
use mxfactorial.Tests.{given, sale, stored}
use mxfactorial.Tests.Statements.{pg}

abbrev pub person : AccountProfile ℕ
person = record {
  id = some "7";
  account_name = "alice";
  description = none;
  first_name = none;
  middle_name = none;
  last_name = none;
  country_name = "us";
  street_number = none;
  street_name = none;
  floor_number = none;
  unit_number = none;
  city_name = "";
  county_name = none;
  region_name = none;
  state_name = "";
  postal_code = "";
  latlng = none;
  email_address = "";
  telephone_country_code = none;
  telephone_area_code = none;
  telephone_number = none;
  occupation_id = none;
  industry_id = none;
  removal_time = none;
}

abbrev holding : AccountBalance ℕ
holding = record {
  account_name = "alice";
  current_balance = 9;
  current_transaction_item_id = some "1";
}

abbrev scheduled : TransactionRuleInstance ℕ
scheduled = record {
  id = none;
  rule_name = "";
  rule_instance_name = "";
  variable_values = [];
  author = some "alice";
  author_device_id = none;
  author_device_latlng = none;
  author_role = some creditor;
  cron = some "daily";
  disabled_time = none;
  removed_time = none;
  created_at = none;
}

abbrev taxed : TransactionItemRuleInstance ℕ
taxed = record {
  id = some "2";
  rule_name = "";
  rule_instance_name = "";
  variable_values = "bob" ∷ [];
  account_role = creditor;
  account_name = none;
  item_id = none;
  price = none;
  quantity = none;
  country_name = none;
  city_name = none;
  county_name = none;
  state_name = none;
  latlng = none;
  occupation_id = none;
  industry_id = none;
  disabled_time = none;
  removed_time = none;
  created_at = none;
  transaction_rule_instance_id = none;
}

abbrev approving : ApprovalRuleInstance ℕ
approving = record {
  id = some "3";
  rule_name = "";
  rule_instance_name = "";
  variable_values = [];
  account_role = debitor;
  account_name = "alice";
  disabled_time = none;
  removed_time = none;
  created_at = none;
}

-- Rejected by the creditor at two.
abbrev paid_item : TransactionItem ℕ
paid_item = record sale { creditor_rejection_time = some 2 }

records-read_back_example :
    (read_back {E = BoxError ℕ} Approval.select_all_with_casting
        (approval_from {Time = ℕ} {D = ℕ} {F = ℕ})
        (approval_stored given)
      ≡ ok given)
    × (read_back {E = BoxError ℕ} Profile.select_all_with_text_casting
          (profile_from {Time = ℕ} {D = ℕ} {F = ℕ})
          (profile_stored person)
        ≡ ok person)
    × (read_back {E = BoxError ℕ} Balance.select_columns_with_casting
          (balance_from {Time = ℕ} {D = ℕ} {F = ℕ})
          (balance_stored holding)
        ≡ ok holding)
    × (read_back {E = BoxError ℕ} TransactionRules.select_all_with_text_casting
          (transaction_rule_from {Time = ℕ} {D = ℕ} {F = ℕ})
          (transaction_rule_stored scheduled)
        ≡ ok scheduled)
    × (read_back {E = BoxError ℕ} ItemRules.select_all_with_text_casting
          (item_rule_from {Time = ℕ} {D = ℕ} {F = ℕ})
          (item_rule_stored taxed)
        ≡ ok taxed)
    × (read_back {E = BoxError ℕ} ApprovalRules.select_all_with_text_casting
          (approval_rule_from {Time = ℕ} {D = ℕ} {F = ℕ})
          (approval_rule_stored approving)
        ≡ ok approving)
    × (read_back {E = BoxError ℕ} TransactionItem.select_all_with_casting
          (item_from {Time = ℕ} {D = ℕ} {F = ℕ})
          (item_stored paid_item)
        ≡ ok (record paid_item { approvals = some [] }))
    × (read_back {E = BoxError ℕ} Transaction.select_all_with_casting
          (transaction_from {Time = ℕ} {D = ℕ} {F = ℕ})
          (transaction_stored stored)
        ≡ ok (record stored { transaction_items = [] }))
records-read_back_example =
    records-read_back ℕ ℕ ℕ given person holding scheduled taxed approving paid_item stored

abbrev row : List (Value ℕ ℕ ℕ)
unfolding item_row_values
row = elim (item_row_values pg paid_item) [ ok values ↦ values | err _ ↦ [] | panic ↦ [] ]

item_row_values-rejections_example : Stands paid_item row
unfolding item_row_values parse_pg_int4 parse_pg_numeric parse_pg_timestamp
item_row_values-rejections_example = item_row_values-rejections pg paid_item row refl
