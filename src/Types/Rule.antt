-- ===== src/Types/Rule.antt =====
-- crates/types/src/rule.rs: the rule instances that are stored in the database.
use mxfactorial.Prelude.{String, List, Option}
use mxfactorial.Types.Role.{AccountRole}

pub record TransactionRuleInstance (Time : Type 0) : Type 0 where
  pub id : Option String
  pub rule_name : String
  pub rule_instance_name : String
  pub variable_values : List String
  pub author : Option String
  pub author_device_id : Option String
  pub author_device_latlng : Option String
  pub author_role : Option AccountRole
  pub cron : Option String
  pub disabled_time : Option Time
  pub removed_time : Option Time
  pub created_at : Option Time

-- Produces transaction items, such as taxes and fees.
pub record TransactionItemRuleInstance (Time : Type 0) : Type 0 where
  pub id : Option String
  pub rule_name : String
  pub rule_instance_name : String
  pub variable_values : List String
  pub account_role : AccountRole
  pub account_name : Option String
  pub item_id : Option String
  pub price : Option String
  pub quantity : Option String
  pub country_name : Option String
  pub city_name : Option String
  pub county_name : Option String
  pub state_name : Option String
  pub latlng : Option String
  pub occupation_id : Option String
  pub industry_id : Option String
  pub disabled_time : Option Time
  pub removed_time : Option Time
  pub created_at : Option Time
  pub transaction_rule_instance_id : Option String

abbrev pub TransactionItemRuleInstances : Type 0 → Type 0
TransactionItemRuleInstances Time = List (TransactionItemRuleInstance Time)

-- Produces approvals.
pub record ApprovalRuleInstance (Time : Type 0) : Type 0 where
  pub id : Option String
  pub rule_name : String
  pub rule_instance_name : String
  pub variable_values : List String
  pub account_role : AccountRole
  pub account_name : String
  pub disabled_time : Option Time
  pub removed_time : Option Time
  pub created_at : Option Time

abbrev pub ApprovalRuleInstances : Type 0 → Type 0
ApprovalRuleInstances Time = List (ApprovalRuleInstance Time)
