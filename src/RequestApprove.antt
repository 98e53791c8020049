-- ===== src/RequestApprove.antt =====
-- services/request-approve/src/main.rs: the approval of a stored request.
pub mod Guard
use mxfactorial.Prelude.{
  ℕ, String, Option, none, some, Outcome, ok, err, map_err, err_if, is_some, ok_or,
}
use mxfactorial.Prelude.Maps.{Map}
use mxfactorial.Prelude.Numeral.{parse_i32}
use mxfactorial.Effect.{Action, pure, lift, map_error, ◌>>=◌, ◌>>◌}
use mxfactorial.External.{DecimalOps, InstantOps}
use mxfactorial.Types.Errors.{BoxError, message, prefixed}
use mxfactorial.Types.Messages.{IntraTransaction, RequestApprove}
use mxfactorial.Service.Error.{ServiceError, internal, bad_request}
use mxfactorial.Service.Model.{Model}
use mxfactorial.Service.Lookup.{get_full_transaction_by_id}
use mxfactorial.Service.Approve.{approve}

module _ {W Time D : Type 0} (dec : DecimalOps D) (clock : InstantOps Time) (conn : Model W Time D)
    (order : Map D → Map D) (connect : Action W (BoxError Time) (Unit {0})) where
  unfoldable pub handle_approve :
      Time → (ℕ → ℕ → Time) → RequestApprove → Action W (ServiceError Time) (IntraTransaction Time)
  handle_approve started now request = do
    map_error (λ _. internal (message "failed to get db connection")) connect
    request_id ← lift (ok_or (parse_i32 request.id) (bad_request (prefixed "invalid request id")))
    transaction ← map_error internal (get_full_transaction_by_id conn request_id)
    lift (
        err_if (is_some transaction.equilibrium_time)
          (bad_request (message "transaction previously approved")))
    map_error internal (
        approve dec clock conn order started now request.auth_account request.account_role
          transaction)
