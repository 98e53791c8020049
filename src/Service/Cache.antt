-- ===== src/Service/Cache.antt =====
-- crates/cache/src/lib.rs: the interface to the cache, and the keys of its entries.
use mxfactorial.Prelude.{String, Bool, List, Option}
use mxfactorial.Effect.{Action}
use mxfactorial.Types.Role.{AccountRole}
use mxfactorial.Types.Account.{AccountProfile}
use mxfactorial.Types.Rule.{TransactionItemRuleInstances, ApprovalRuleInstances}

pub data CacheError : Type 0 where
  cache_miss : CacheError
  connection_error : String → CacheError
  serialization_error : String → CacheError
  deserialization_error : String → CacheError

pub record Cache (W Time : Type 0) : Type 0 where
  pub get_transaction_item_rules :
      AccountRole → String → Action W CacheError (TransactionItemRuleInstances Time)
  pub set_transaction_item_rules :
      AccountRole → String → TransactionItemRuleInstances Time → Action W CacheError (Unit {0})
  pub get_approval_rules : AccountRole → String → Action W CacheError (ApprovalRuleInstances Time)
  pub set_approval_rules :
      AccountRole → String → ApprovalRuleInstances Time → Action W CacheError (Unit {0})
  pub get_account_rules :
      AccountRole → String → Action W CacheError (TransactionItemRuleInstances Time)
  pub set_account_rules :
      AccountRole → String → TransactionItemRuleInstances Time → Action W CacheError (Unit {0})
  pub get_account_profile : String → Action W CacheError (AccountProfile Time)
  pub set_account_profile : String → AccountProfile Time → Action W CacheError (Unit {0})
  pub get_profile_id : String → Action W CacheError String
  pub set_profile_id : String → String → Action W CacheError (Unit {0})
  pub get_account_approvers : String → Action W CacheError (List String)
  pub set_account_approvers : String → List String → Action W CacheError (Unit {0})
  pub get : String → Action W CacheError (Option String)
  pub set : String → String → Action W CacheError (Unit {0})
  pub smembers : String → Action W CacheError (List String)
  pub incr_float : String → String → Action W CacheError String
  pub incr_and_check_threshold : String → String → String → Action W CacheError (String × Bool)
  pub del : String → Action W CacheError (Unit {0})
