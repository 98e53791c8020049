-- ===== src/Cache/Redis/Profiles.antt =====
-- Profiles in the Redis cache (crates/cache/src/redis.rs): what is set is what is read, and no other
-- entry changes.
use mxfactorial.Prelude.{
  String, Option, some, Outcome, ok, err, panic, ◌==◌, string_eq, beq_refl, beq_of_ne, map_err, ◌≡◌,
  ◌≢◌, refl, ap, ◌∙◌, if◌then◌else◌,
}
use mxfactorial.Effect.{lift, map_error, ◌>>=◌}
use mxfactorial.Types.Account.{AccountProfile}
use mxfactorial.Service.Cache.{Cache, CacheError, serialization_error, connection_error}
use mxfactorial.Cache.Key.{Segments, CacheKey, profile, display}
use mxfactorial.Cache.Key.Distinct.{AreSeparate, IsPlain, display-injective}
use mxfactorial.Types.Rule.{TransactionItemRuleInstance, ApprovalRuleInstance}
use mxfactorial.Cache.Redis.{Doubles, Codec, RedisCommands, get_value, set_value, redis_cache}

-- `GET` reads what a key holds; `SET` replaces it and touches no other key, or fails and changes
-- nothing.
pub record RedisLaws {W F : Type 0} (redis : RedisCommands W F) : Type 0 where
  pub held : W → String → Option String
  pub get_reads : (key : String) (w : W) → redis.get key w ≡ (ok (held w key), w)
  pub set_writes :
      (key text asked : String) (w w' : W)
      → redis.set key text w ≡ (ok tt, w')
      → held w' asked ≡ (if key == asked then some text else held w asked)

-- What is written as the JSON of this record is read back.
pub record IsReadBack {A : Type 0} (codec : Codec A) (a : A) : Type 0 where
  pub reads_back : (json : String) → codec.encode a ≡ ok json → codec.decode json ≡ ok a

module _ {W F A : Type 0} (redis : RedisCommands W F) (laws : RedisLaws redis)
    (codec : Codec A) where
  -- A value that was set has a text, which the key holds.
  set_value-written :
      (key : String) (a : A) (w w' : W)
      → set_value redis codec key a w ≡ (ok tt, w')
      → (json : String) × (codec.encode a ≡ ok json) × (redis.set key json w ≡ (ok tt, w'))
  unfolding set_value
  set_value-written key a w w' h = go (codec.encode a) refl h
    where
      sent :
          (json : String) (r : Outcome String (Unit {0})) (v : W)
          → map_error {E = String} {F = CacheError} connection_error (λ _. (r, v)) w ≡ (ok tt, w')
          → (r ≡ ok tt) × (v ≡ w')
      sent json (ok tt) v k = (refl, ap (λ p. p.1) k)
      sent json (err e) v k = cc (ap (λ p. p.0) k)
      sent json panic v k = cc (ap (λ p. p.0) k)

      go :
          (r : Outcome String String)
          → codec.encode a ≡ r
          → (lift (map_err serialization_error r) >>= λ json.
                map_error connection_error (redis.set key json))
              w
            ≡ (ok tt, w')
          → (json : String) × (codec.encode a ≡ ok json) × (redis.set key json w ≡ (ok tt, w'))
      go (ok json) e k =
          let (p, q) = sent json (redis.set key json w).0 (redis.set key json w).1 k in
          (json, e, λ i. (p i, q i))
      go (err x) e k = cc (ap (λ p. p.0) k)
      go panic e k = cc (ap (λ p. p.0) k)

  -- What the key holds is read and decoded.
  get_value-held :
      (key json : String) (a : A) (w : W)
      → IsReadBack codec a
      → codec.encode a ≡ ok json
      → laws.held w key ≡ some json
      → get_value redis codec key w ≡ (ok a, w)
  unfolding get_value
  get_value-held key json a w roundtrip e h =
      rw (laws.get_reads key w, h, roundtrip.reads_back json e) refl

  pub set_value-get_value :
      (key : String) (a : A) (w w' : W)
      → IsReadBack codec a
      → set_value redis codec key a w ≡ (ok tt, w')
      → (get_value redis codec key w' ≡ (ok a, w'))
        × ((other : String) → key ≢ other → laws.held w' other ≡ laws.held w other)
  set_value-get_value key a w w' roundtrip h =
      let (json, e, s) = set_value-written key a w w' h in
      (
        get_value-held key json a w' roundtrip e (
            laws.set_writes key json key w w' s
            ∙ ap (λ b. if b then some json else laws.held w key) (beq_refl key)),
        λ other ne.
            laws.set_writes key json other w w' s
            ∙ ap (λ b. if b then some json else laws.held w other) (beq_of_ne key other ne),
      )

module _ {W Time F : Type 0} (doubles : Doubles F) (redis : RedisCommands W F)
    (laws : RedisLaws redis) (seg : Segments) (separate : AreSeparate seg)
    (item_rules : Codec (TransactionItemRuleInstance Time))
    (approval_rules : Codec (ApprovalRuleInstance Time))
    (profiles : Codec (AccountProfile Time)) where
  abbrev cache : Cache W Time
  cache = redis_cache doubles redis seg item_rules approval_rules profiles

  -- A profile that was set for an account is the one that is read for it, and no other entry of the
  -- cache has changed, of whatever kind and for whatever account, where `SET` and `GET` do as Redis
  -- says, the segments of the keys are separate and the profile's JSON is read back.
  pub set_account_profile-get_account_profile :
      (account : String) (p : AccountProfile Time) (other : CacheKey) (w w' : W)
      → IsReadBack profiles p
      → cache.set_account_profile account p w ≡ (ok tt, w')
      → IsPlain other
      → profile account ≢ other
      → (cache.get_account_profile account w' ≡ (ok p, w'))
        × (laws.held w' (display seg other) ≡ laws.held w (display seg other))
  unfolding redis_cache
  set_account_profile-get_account_profile account p other w w' roundtrip h plain ne =
      let key = display seg (profile account) in
      let (read, others) = set_value-get_value redis laws profiles key p w w' roundtrip h in
      (
        read,
        others (display seg other)
            (λ e. ne (display-injective seg separate (profile account) other tt plain e)),
      )
