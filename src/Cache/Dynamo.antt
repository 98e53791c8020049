-- ===== src/Cache/Dynamo.antt =====
-- crates/cache/src/ddb.rs: the cache over DynamoDB. An item has a partition key, a sort key and an
-- attribute `data`; the requests of the client are arguments.
pub mod Callers
pub mod Met
pub mod Alone
use mxfactorial.Prelude.{
  String, Bool, true, false, List, [], ◌∷◌, Option, none, some, Outcome, ok, err, map_err, is_empty,
  if◌then◌else◌, map_outcome, unwrap_or, ◌⊎◌, inl, inr,
}
use mxfactorial.Effect.{Action, pure, lift, raise, attempt, map_error, for_each, ◌>>=◌, ◌>>◌}
use mxfactorial.Types.Role.{AccountRole}
use mxfactorial.Types.Account.{AccountProfile}
use mxfactorial.Types.Rule.{TransactionItemRuleInstance, ApprovalRuleInstance}
use mxfactorial.Service.Cache.{
  Cache, CacheError, cache_miss, connection_error, serialization_error, deserialization_error,
}
use mxfactorial.Cache.Key.{
  Segments, display, rules_state, rules_account, rules_approval, profile, profile_id, approvers,
}
use mxfactorial.Cache.Redis.{Doubles, Codec, plain_text}

pub data UpdateError : Type 0 where
  -- `ConditionalCheckFailedException`
  condition_failed : UpdateError
  other : String → UpdateError

-- The requests, whose errors are texts. `data` is absent where the attribute is missing or no text.
pub record DynamoRequests (W : Type 0) : Type 0 where
  pub get : String → String → Action W String (Option (Option String))
  pub put : String → String → String → Action W String (Unit {0})
  pub query : String → Action W String (List (Option String))
  -- `ADD #acc :amount`, with the new number as a text, where it is there
  pub add : String → String → Action W String (Option String)
  -- `ADD #acc :neg` if `#acc >= :threshold`
  pub add_if_reached : String → String → String → Action W UpdateError (Unit {0})
  pub delete : String → String → Action W String (Unit {0})

-- The texts among the attributes.
abbrev pub present_data : List (Option String) → List String
present_data [] = []
present_data (none ∷ rest) = present_data rest
present_data (some text ∷ rest) = text ∷ present_data rest

module _ {W : Type 0} (dynamo : DynamoRequests W) where
  unfoldable pub get_item : String → String → Action W CacheError (Option String)
  get_item pk sk = do
    item ← map_error connection_error (dynamo.get pk sk)
    pure (unwrap_or item none)

  unfoldable pub put_item : String → String → String → Action W CacheError (Unit {0})
  put_item pk sk text = map_error connection_error (dynamo.put pk sk text)

  unfoldable pub query_items : String → Action W CacheError (List String)
  query_items pk = do
    items ← map_error connection_error (dynamo.query pk)
    pure (present_data items)

  module _ {A : Type 0} (codec : Codec A) where
    unfoldable pub get_members : String → Action W CacheError (List A)
    unfolding query_items
    get_members pk = do
      items ← query_items pk
      let decoded = lift (map_err deserialization_error (map_outcome codec.decode items))
      if is_empty items then raise cache_miss else decoded

    -- Each rule under its own sort key.
    unfoldable pub set_members : (A → String) → String → List A → Action W CacheError (Unit {0})
    unfolding put_item
    set_members sort_key pk rules =
        for_each
          (λ rule. do
            json ← lift (map_err serialization_error (codec.encode rule))
            put_item pk (sort_key rule) json)
          rules

    unfoldable pub get_value : String → Action W CacheError A
    unfolding get_item
    get_value pk = do
      found ← get_item pk "_"
      elim found [
        | none ↦ raise cache_miss
        | some json ↦ lift (map_err deserialization_error (codec.decode json))
      ]

    unfoldable pub set_value : String → A → Action W CacheError (Unit {0})
    unfolding put_item
    set_value pk value = do
      json ← lift (map_err serialization_error (codec.encode value))
      put_item pk "_" json

  module _ {F : Type 0} (doubles : Doubles F) where
    abbrev pub number : String → F
    number text = unwrap_or (doubles.parse text) doubles.zero

    unfoldable pub incr_float : String → String → Action W CacheError String
    unfolding get_item put_item
    incr_float key amount = do
      current ← get_item key "_"
      let new = doubles.to_string (doubles.add (number (unwrap_or current "0")) (number amount))
      put_item key "_" new
      pure new

    -- The second request, on the new value: of several callers that met the threshold, those whose
    -- condition holds take it.
    unfoldable pub take_threshold : String → String → F → Action W CacheError (String × Bool)
    take_threshold key threshold new_val = do
      let neg = doubles.to_string (doubles.negate (number threshold))
      taken ← attempt (dynamo.add_if_reached key neg threshold)
      elim taken [
        | inl _ ↦ pure (doubles.to_string new_val, true)
        | inr e ↦ elim e [
          | condition_failed ↦ pure (doubles.to_string new_val, false)
          | other text ↦ raise (connection_error text)
        ]
      ]

    unfoldable pub incr_and_check_threshold :
        String → String → String → Action W CacheError (String × Bool)
    unfolding take_threshold
    incr_and_check_threshold key amount threshold = do
      result ← map_error connection_error (dynamo.add key (doubles.to_string (number amount)))
      let new_val = number (unwrap_or result "")
      let below = pure (doubles.to_string new_val, false)
      let reached = take_threshold key threshold new_val
      if doubles.less new_val (number threshold) then below else reached

  unfoldable pub delete : String → Action W CacheError (Unit {0})
  delete key = map_error connection_error (dynamo.delete key "_")

module _ {W Time F : Type 0} (doubles : Doubles F) (dynamo : DynamoRequests W) (seg : Segments)
    (item_rules : Codec (TransactionItemRuleInstance Time))
    (approval_rules : Codec (ApprovalRuleInstance Time))
    (profiles : Codec (AccountProfile Time)) where
  abbrev item_rule_key : TransactionItemRuleInstance Time → String
  item_rule_key rule = unwrap_or rule.id "_"

  abbrev approval_rule_key : ApprovalRuleInstance Time → String
  approval_rule_key rule = unwrap_or rule.id "_"

  unfoldable pub dynamo_cache : Cache W Time
  unfolding get_members set_members get_value set_value incr_float incr_and_check_threshold delete
  dynamo_cache = record {
    get_transaction_item_rules =
        λ role state. get_members dynamo item_rules (display seg (rules_state role state));
    set_transaction_item_rules = λ role state.
        set_members dynamo item_rules item_rule_key (display seg (rules_state role state));
    get_approval_rules = λ role account.
        get_members dynamo approval_rules (display seg (rules_approval role account));
    set_approval_rules = λ role account.
        set_members dynamo approval_rules approval_rule_key
          (display seg (rules_approval role account));
    get_account_rules =
        λ role account. get_members dynamo item_rules (display seg (rules_account role account));
    set_account_rules = λ role account.
        set_members dynamo item_rules item_rule_key (display seg (rules_account role account));
    get_account_profile = λ account. get_value dynamo profiles (display seg (profile account));
    set_account_profile = λ account. set_value dynamo profiles (display seg (profile account));
    get_profile_id = λ account. get_value dynamo plain_text (display seg (profile_id account));
    set_profile_id = λ account id. put_item dynamo (display seg (profile_id account)) "_" id;
    get_account_approvers =
        λ account. get_members dynamo plain_text (display seg (approvers account));
    set_account_approvers = λ account.
        set_members dynamo plain_text (λ approver. approver) (display seg (approvers account));
    get = λ key. get_item dynamo key "_";
    set = λ key value. put_item dynamo key "_" value;
    smembers = query_items dynamo;
    incr_float = incr_float dynamo doubles;
    incr_and_check_threshold = incr_and_check_threshold dynamo doubles;
    del = delete dynamo;
  }
