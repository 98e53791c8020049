-- ===== src/Queue/Redis/Loss.antt =====
-- The Redis queue (crates/queue/src/redis.rs): a message that was received is gone from the list.
use mxfactorial.Prelude.{String, [], ◌∷◌, ◌++◌, some, ok, ◌≡◌, refl, ℕ}
use mxfactorial.Queue.Redis.{RedisList, RedisListLaws, receive, ack, send}

module _ {W : Type 0} (redis : RedisList W) (queue_key : String) (laws : RedisListLaws redis) where
  -- A message that is received has left the list, whether or not it is acknowledged: the
  -- acknowledgement changes nothing.
  pub receive-removes :
      (j text : String) (w v : W)
      → redis.brpop queue_key w ≡ (ok (some (j, text)), v)
      → (receive redis queue_key w ≡ (ok (record { body = text; handle = text }), v))
        × (laws.content w queue_key ≡ laws.content v queue_key ++ text ∷ [])
        × (ack redis queue_key (record { body = text; handle = text }) v ≡ (ok tt, v))
  unfolding receive ack
  receive-removes j text w v h = (rw h refl, laws.brpop_takes queue_key j text w v h, refl)

  -- Messages come out in the order in which they were sent: what is sent last stands first in the
  -- list, and the last of the list is received.
  pub send-content :
      (text : String) (n : ℕ) (w v : W)
      → redis.lpush queue_key text w ≡ (ok n, v)
      → (send redis queue_key text w ≡ (ok tt, v))
        × (laws.content v queue_key ≡ text ∷ laws.content w queue_key)
  unfolding send
  send-content text n w v h = (rw h refl, laws.lpush_adds queue_key text w v n h)
