-- ===== src/AutoTransact/Worker.antt =====
-- services/auto-transact/src/main.rs: the HTTP handler, the SQS handler and the queue worker.
pub mod Failure
use mxfactorial.Prelude.{
  ℕ, zero, suc, ◌-◌, String, Bool, true, false, not, ◌&&◌, leb, if◌then◌else◌, List, [], ◌∷◌,
  Option, none, some, Outcome, ok, err, panic, ◌⊎◌, inl, inr, ok_or,
}
use mxfactorial.Effect.{Action, pure, lift, attempt, map_error, when, ◌>>=◌, ◌>>◌}
use Prim.Native.Nat.{min}
use Prim.Native.Char.{len_utf8}
use Prim.Native.String.{len}
use mxfactorial.Queue.{Queue, Message}
use mxfactorial.Types.Transaction.{Transaction}
use mxfactorial.Types.Messages.{IntraTransaction}
use mxfactorial.AutoTransact.Retry.{RetryConfig, retry_post}

pub data StatusCode : Type 0 where
  ok_status : StatusCode
  bad_request_status : StatusCode
  internal_server_error : StatusCode

-- Where `process_transaction` failed.
pub data ProcessError : Type 0 where
  rule_request_failed : ProcessError
  request_create_failed : ProcessError
  out_of_fuel : ProcessError

-- Whether byte `n` of a text is the start of a character, or its end.
unfoldable pub is_char_boundary : String → ℕ → Bool
is_char_boundary s zero = true
is_char_boundary String.[] (suc n) = false
is_char_boundary (String.◌∷◌ c s) (suc n) =
    let rest = is_char_boundary s (suc n - len_utf8 c) in
    if leb (len_utf8 c) (suc n) then rest else false

-- `&body[..80.min(body.len())]`, which the log line evaluates: a cut inside a character panics.
unfoldable pub log_line {ℓ} : {E : Type ℓ} → Bool → String → Outcome E (Unit {0})
unfolding is_char_boundary
log_line logging body =
    if logging && not (is_char_boundary body (min 80 (len body))) then panic else ok tt

abbrev pub posted :
    {W A : Type 0} → Option (Outcome (Unit {0}) A × W) → W → Outcome ProcessError (Unit {0}) × W
posted none w = (err out_of_fuel, w)
posted (some (ok text, w')) w = (ok tt, w')
posted (some (err e, w')) w = (err request_create_failed, w')
posted (some (panic, w')) w = (panic, w')

module _ {W Time : Type 0} (config : RetryConfig)
    (post_rule : Transaction Time → Action W (Unit {0}) (IntraTransaction Time))
    (post_create : IntraTransaction Time → Action W (Unit {0}) String) where
  -- The author's account becomes the authorized one.
  abbrev pub authorized_by_author : IntraTransaction Time → IntraTransaction Time
  authorized_by_author t = record t { auth_account = t.transaction.author }

  unfoldable pub process_transaction : Transaction Time → Action W ProcessError (Unit {0})
  process_transaction t = do
    rule_applied ← map_error (λ _. rule_request_failed) (post_rule t)
    (λ w. posted (retry_post config (post_create (authorized_by_author rule_applied)) w) w)

  unfoldable pub handle_event : Transaction Time → Action W ProcessError StatusCode
  handle_event t = do
    done ← attempt (process_transaction t)
    pure (elim done [ inl _ ↦ ok_status | inr _ ↦ internal_server_error ])

  module _ (read_json : String → Option (Transaction Time)) where
    -- A record without a body, or with one that is not a transaction, is skipped.
    unfoldable pub handle_records : List (Option String) → Action W ProcessError StatusCode
    handle_records [] = pure ok_status
    handle_records (body ∷ rest) = do
      let next = handle_records rest
      let parsed : Option (Transaction Time) = elim body [
        | none ↦ none
        | some text ↦ read_json text
      ]
      elim parsed [
        | none ↦ next
        | some t ↦ do
          done ← attempt (process_transaction t)
          elim done [ inl _ ↦ next | inr _ ↦ pure internal_server_error ]
      ]

    unfoldable pub handle_sqs_event :
        Option (List (Option String)) → Action W ProcessError StatusCode
    unfolding handle_records
    handle_sqs_event none = pure bad_request_status
    handle_sqs_event (some records) = handle_records records

    -- One round of the worker's endless loop: a message that was processed, or that cannot be read,
    -- is acknowledged; one whose processing failed is left for another round.
    unfoldable pub worker_round : Bool → Queue W → Action W ProcessError (Unit {0})
    worker_round logging queue = do
      received ← attempt queue.receive
      elim received [
        | inr _ ↦ pure tt
        | inl msg ↦ do
          lift (log_line logging msg.body)
          elim (read_json msg.body) [
            | none ↦ attempt (queue.ack msg) >> pure tt
            | some t ↦ do
              done ← attempt (process_transaction t)
              elim done [ inl _ ↦ attempt (queue.ack msg) >> pure tt | inr _ ↦ pure tt ]
          ]
      ]
