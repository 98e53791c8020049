-- ===== src/Rule/ItemStage.antt =====
-- services/rule/src/main.rs: `apply_transaction_item_rules`. The source of fresh identifiers is an
-- argument.
pub mod Merge
use mxfactorial.Prelude.{
  String, ◌>>=◌ as bind, [], ◌∷◌, ◌++◌, Option, map_err, ok_or, is_empty, if◌then◌else◌,
}
use mxfactorial.Effect.{Action, pure, lift, map_error, ◌>>=◌}
use mxfactorial.External.{FloatOps}
use mxfactorial.Types.Role.{AccountRole, RoleSequence}
use mxfactorial.Types.Account.{AccountProfiles, match_profile_by_account}
use mxfactorial.Types.Item.{TransactionItem, get_account_by_role, set_profile_id}
use mxfactorial.Types.Errors.{message}
use mxfactorial.Types.Items.{TransactionItems, list_accounts, add_profile_ids}
use mxfactorial.Types.Rule.{TransactionItemRuleInstance, TransactionItemRuleInstances}
use mxfactorial.Service.Error.{ServiceError, internal}
use mxfactorial.Service.Model.{Model}
use mxfactorial.Service.Cache.{Cache}
use mxfactorial.Service.ReadThrough.{
  get_account_profiles, get_state_tr_item_rule_instances,
  get_tr_item_rule_instances_by_role_account, get_profile_ids_by_account_names,
}
use mxfactorial.Rule.ItemRules.{match_transaction_item_rule}
use Prim.Native.String.{◌++◌ as text_append}

-- The item in progress, and the items that rules have added.
pub record Applied (Time : Type 0) : Type 0 where
  pub current : TransactionItem Time
  pub rule_added : TransactionItems Time

module _ {Time : Type 0} where
  -- The first item that a rule returns is the updated original, the rest are computed.
  abbrev pub merge : TransactionItems Time → Applied Time → Applied Time
  merge [] s = s
  merge (first ∷ rest) s = record { current = first; rule_added = s.rule_added ++ rest }

module _ {W Time F D : Type 0} (float : FloatOps F) (conn : Model W Time D)
    (cache : Option (Cache W Time)) (fresh : W → String × W) where
  -- The identifier is drawn before the rule is tried, also for a rule that makes none.
  unfoldable pub apply_rule :
      TransactionItemRuleInstance Time → Applied Time → Action W (ServiceError Time) (Applied Time)
  apply_rule rule s w =
      let (exec_id, w') = fresh w in
      (lift (map_err internal (match_transaction_item_rule float exec_id rule s.current))
          >>= λ added. pure (merge added s))
        w'

  unfoldable pub apply_rule_list :
      TransactionItemRuleInstances Time → Applied Time → Action W (ServiceError Time) (Applied Time)
  unfolding apply_rule
  apply_rule_list [] s = pure s
  apply_rule_list (rule ∷ rest) s = apply_rule rule s >>= apply_rule_list rest

  -- One role of an item: the profile, then the rules of its state, then the rules of the account.
  unfoldable pub apply_role :
      AccountProfiles Time
      → TransactionItem Time
      → AccountRole
      → Applied Time
      → Action W (ServiceError Time) (Applied Time)
  unfolding apply_rule_list
  apply_role profiles tr_item role s = do
    profile ← lift (
        ok_or (match_profile_by_account (get_account_by_role role tr_item) profiles) (
          internal
            (message (text_append "profile not found for " (get_account_by_role role tr_item)))))
    profile_id ← lift (
        ok_or profile.id (
          internal
            (message (text_append "missing profile id for " (get_account_by_role role tr_item)))))
    state_rules ←
        map_error internal (get_state_tr_item_rule_instances conn cache role profile.state_name)
    s' ←
        apply_rule_list state_rules
          (record s { current = set_profile_id role profile_id s.current })
    account_rules ← map_error internal (
        get_tr_item_rule_instances_by_role_account conn cache role
          (get_account_by_role role tr_item))
    apply_rule_list account_rules s'

  -- The profile ids of the added items, fetched only where there are any.
  add_ids : TransactionItems Time → Action W (ServiceError Time) (TransactionItems Time)
  add_ids added = do
    let fetch = do
      ids ← map_error internal (get_profile_ids_by_account_names conn cache (list_accounts added))
      lift (add_profile_ids ids added)
    if is_empty added then pure added else fetch

  unfoldable pub apply_item_rules :
      AccountProfiles Time
      → RoleSequence
      → TransactionItem Time
      → Action W (ServiceError Time) (TransactionItems Time)
  unfolding apply_role add_ids
  apply_item_rules profiles role_sequence tr_item = do
    first ←
        apply_role profiles tr_item role_sequence.0 (record { current = tr_item; rule_added = [] })
    second ← apply_role profiles tr_item role_sequence.1 first
    added ← add_ids second.rule_added
    pure (second.current ∷ added)

  apply_each :
      AccountProfiles Time
      → RoleSequence
      → TransactionItems Time
      → Action W (ServiceError Time) (TransactionItems Time)
  unfolding apply_item_rules
  apply_each profiles role_sequence [] = pure []
  apply_each profiles role_sequence (ti ∷ rest) = do
    items ← apply_item_rules profiles role_sequence ti
    others ← apply_each profiles role_sequence rest
    pure (items ++ others)

  unfoldable pub apply_transaction_item_rules :
      RoleSequence → TransactionItems Time → Action W (ServiceError Time) (TransactionItems Time)
  unfolding apply_each
  apply_transaction_item_rules role_sequence items = do
    profiles ← map_error internal (get_account_profiles conn cache (list_accounts items))
    apply_each profiles role_sequence items
