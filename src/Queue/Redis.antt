-- ===== src/Queue/Redis.antt =====
-- crates/queue/src/redis.rs: the queue over a Redis list. The client's commands are arguments.
pub mod Loss
use mxfactorial.Prelude.{ℕ, String, List, [], ◌∷◌, ◌++◌, Option, none, some, ok, err, ◌≡◌}
use mxfactorial.Effect.{Action, pure, raise, map_error, ◌>>=◌, ◌>>◌}
use mxfactorial.Queue.{QueueError, Message, Queue, send_error, receive_error, no_message}

-- `LPUSH` and `BRPOP` of the `fred` client, whose errors are texts.
pub record RedisList (W : Type 0) : Type 0 where
  pub lpush : String → String → Action W String ℕ
  pub brpop : String → Action W String (Option (String × String))

-- What the commands do to the list of a key: `LPUSH` adds in front, `BRPOP` takes the last.
pub record RedisListLaws {W : Type 0} (redis : RedisList W) : Type 0 where
  pub content : W → String → List String
  pub lpush_adds :
      (k v : String) (w w' : W) (n : ℕ)
      → redis.lpush k v w ≡ (ok n, w')
      → content w' k ≡ v ∷ content w k
  pub brpop_takes :
      (k j v : String) (w w' : W)
      → redis.brpop k w ≡ (ok (some (j, v)), w')
      → content w k ≡ content w' k ++ v ∷ []

module _ {W : Type 0} (redis : RedisList W) (queue_key : String) where
  unfoldable pub send : String → Action W QueueError (Unit {0})
  send payload = map_error send_error (redis.lpush queue_key payload) >> pure tt

  unfoldable pub receive : Action W QueueError Message
  receive = do
    result ← map_error receive_error (redis.brpop queue_key)
    elim result [ none ↦ raise no_message | some p ↦ pure (record { body = p.1; handle = p.1 }) ]

  -- `BRPOP` has removed the message already.
  unfoldable pub ack : Message → Action W QueueError (Unit {0})
  ack msg = pure tt

  unfoldable pub redis_queue : Queue W
  unfolding send receive ack
  redis_queue = record { send = send; receive = receive; ack = ack }
