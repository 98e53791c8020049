-- ===== src/Queue.antt =====
-- crates/queue/src: the queue of transactions that auto-transact works off.
pub mod Redis
use mxfactorial.Prelude.{String}
use mxfactorial.Effect.{Action}

pub data QueueError : Type 0 where
  connection_error : String → QueueError
  send_error : String → QueueError
  receive_error : String → QueueError
  no_message : QueueError

-- `handle` is the receipt that an acknowledgement names.
pub record Message : Type 0 where
  pub body : String
  pub handle : String

pub record Queue (W : Type 0) : Type 0 where
  pub send : String → Action W QueueError (Unit {0})
  pub receive : Action W QueueError Message
  pub ack : Message → Action W QueueError (Unit {0})
