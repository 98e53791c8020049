-- ===== src/Cache/Redis.antt =====
-- crates/cache/src/redis.rs: the cache over Redis. The commands of the client, the JSON of a record
-- and 64-bit floats are arguments.
pub mod Profiles
pub mod Threshold
use mxfactorial.Prelude.{
  String, ℕ, Bool, true, false, List, [], ◌∷◌, Option, none, some, Outcome, ok, err, map_err, ok_or,
  ◌==◌, string_eq, eqb, is_empty, if◌then◌else◌, map_outcome, unwrap_or,
}
use mxfactorial.Prelude.Text.{format}
use Prim.Native.Char.{Char, code}
use mxfactorial.Effect.{Action, pure, lift, raise, map_error, for_each, ◌>>=◌, ◌>>◌}
use mxfactorial.Types.Role.{AccountRole}
use mxfactorial.Types.Account.{AccountProfile}
use mxfactorial.Types.Rule.{TransactionItemRuleInstance, ApprovalRuleInstance}
use mxfactorial.Service.Cache.{
  Cache, CacheError, cache_miss, connection_error, serialization_error, deserialization_error,
}
use mxfactorial.Cache.Key.{
  Segments, display, rules_state, rules_account, rules_approval, profile, profile_id, approvers,
}

-- `f64`: `parse`, `+`, unary minus, `<` and `{}`.
pub record Doubles (F : Type 0) : Type 0 where
  pub parse : String → Option F
  pub zero : F
  pub add : F → F → F
  pub negate : F → F
  pub less : F → F → Bool
  pub to_string : F → String

-- `serde_json::to_string` and `serde_json::from_str`.
pub record Codec (A : Type 0) : Type 0 where
  pub encode : A → Outcome String String
  pub decode : String → Outcome String A

-- The commands of the `fred` client, whose errors are texts.
pub record RedisCommands (W F : Type 0) : Type 0 where
  pub get : String → Action W String (Option String)
  pub set : String → String → Action W String (Unit {0})
  pub sadd : String → String → Action W String ℕ
  pub smembers : String → Action W String (List String)
  pub del : String → Action W String ℕ
  pub incr_by_float : String → F → Action W String F
  -- `redis.call('INCRBYFLOAT', …)` within a script: an amount and the new value as texts
  pub call_incr : String → String → Action W String String

abbrev split_last : Char → Option (String × String) → String → Option (String × String)
split_last c (some (a, b)) s = some (String.◌∷◌ c a, b)
split_last c none s = if eqb (code c) b':' then some ("", s) else none

-- `rsplit_once(':')`
unfoldable pub rsplit_once : String → Option (String × String)
rsplit_once String.[] = none
rsplit_once (String.◌∷◌ c s) = split_last c (rsplit_once s) s

-- The value and the flag behind the last colon.
unfoldable pub read_flag : String → String × Bool
unfolding rsplit_once
read_flag result = elim (rsplit_once result) [
  | none ↦ (result, false)
  | some (value, flag) ↦ (value, flag == "1")
]

module _ {W F : Type 0} (redis : RedisCommands W F) where
  -- `RedisClient` maps every error of a command.
  abbrev pub command : {A : Type 0} → Action W String A → Action W CacheError A
  command = map_error connection_error

  module _ (doubles : Doubles F) where
    unfoldable pub incr_float : String → String → Action W CacheError String
    incr_float key amount = do
      result ← command (redis.incr_by_float key (unwrap_or (doubles.parse amount) doubles.zero))
      pure (doubles.to_string result)

    -- The script, which Redis runs as one command.
    unfoldable pub threshold_script : String → String → String → Action W String String
    threshold_script key amount threshold = do
      new ← redis.call_incr key amount
      bound ← lift (ok_or (doubles.parse threshold) "attempt to compare number with nil")
      value ← lift (ok_or (doubles.parse new) "attempt to compare nil with number")
      let take = redis.call_incr key (doubles.to_string (doubles.negate bound))
      let reached = take >> pure (format (new ∷ ":1" ∷ []))
      if doubles.less value bound then pure (format (new ∷ ":0" ∷ [])) else reached

    unfoldable pub incr_and_check_threshold :
        String → String → String → Action W CacheError (String × Bool)
    unfolding threshold_script
    incr_and_check_threshold key amount threshold = do
      result ← command (threshold_script key amount threshold)
      pure (read_flag result)

  module _ {A : Type 0} (codec : Codec A) where
    unfoldable pub get_members : String → Action W CacheError (List A)
    get_members key = do
      members ← command (redis.smembers key)
      let decoded = lift (map_err deserialization_error (map_outcome codec.decode members))
      if is_empty members then raise cache_miss else decoded

    unfoldable pub add_member : String → A → Action W CacheError (Unit {0})
    add_member key rule = do
      json ← lift (map_err serialization_error (codec.encode rule))
      _ ← command (redis.sadd key json)
      pure tt

    unfoldable pub set_members : String → List A → Action W CacheError (Unit {0})
    unfolding add_member
    set_members key rules = for_each (add_member key) rules

    unfoldable pub get_value : String → Action W CacheError A
    get_value key = do
      value ← command (redis.get key)
      elim value [
        | none ↦ raise cache_miss
        | some json ↦ lift (map_err deserialization_error (codec.decode json))
      ]

    unfoldable pub set_value : String → A → Action W CacheError (Unit {0})
    set_value key value = do
      json ← lift (map_err serialization_error (codec.encode value))
      command (redis.set key json)

-- A text is stored as it is.
abbrev pub plain_text : Codec String
plain_text = record { encode = ok; decode = ok }

module _ {W Time F : Type 0} (doubles : Doubles F) (redis : RedisCommands W F) (seg : Segments)
    (item_rules : Codec (TransactionItemRuleInstance Time))
    (approval_rules : Codec (ApprovalRuleInstance Time))
    (profiles : Codec (AccountProfile Time)) where
  unfoldable pub redis_cache : Cache W Time
  unfolding get_members set_members get_value set_value incr_float incr_and_check_threshold
  redis_cache = record {
    get_transaction_item_rules =
        λ role state. get_members redis item_rules (display seg (rules_state role state));
    set_transaction_item_rules =
        λ role state. set_members redis item_rules (display seg (rules_state role state));
    get_approval_rules = λ role account.
        get_members redis approval_rules (display seg (rules_approval role account));
    set_approval_rules = λ role account.
        set_members redis approval_rules (display seg (rules_approval role account));
    get_account_rules =
        λ role account. get_members redis item_rules (display seg (rules_account role account));
    set_account_rules =
        λ role account. set_members redis item_rules (display seg (rules_account role account));
    get_account_profile = λ account. get_value redis profiles (display seg (profile account));
    set_account_profile = λ account. set_value redis profiles (display seg (profile account));
    get_profile_id = λ account. get_value redis plain_text (display seg (profile_id account));
    set_profile_id = λ account. set_value redis plain_text (display seg (profile_id account));
    get_account_approvers =
        λ account. get_members redis plain_text (display seg (approvers account));
    set_account_approvers =
        λ account. set_members redis plain_text (display seg (approvers account));
    get = λ key. command redis (redis.get key);
    set = λ key value. command redis (redis.set key value);
    smembers = λ key. command redis (redis.smembers key);
    incr_float = incr_float redis doubles;
    incr_and_check_threshold = incr_and_check_threshold redis doubles;
    del = λ key. command redis (redis.del key) >> pure tt;
  }
