-- ===== src/Service/Approve.antt =====
-- crates/service/src/lib.rs: `Service::approve`, one account's approval of a request in one role.
pub mod Sound
pub mod Checks
pub mod Writes
use mxfactorial.Prelude.{
  ℕ, String, Option, none, some, Outcome, ok, err, panic, ok_or, is_none, is_some, ℤ,
}
use mxfactorial.Prelude.Maps.{Map}
use mxfactorial.Prelude.Numeral.{parse_i32}
use mxfactorial.Effect.{Action, pure, lift, when, ◌>>=◌, ◌>>◌}
use mxfactorial.External.{DecimalOps, InstantOps}
use mxfactorial.Types.Role.{AccountRole}
use mxfactorial.Types.Approval.{ApprovalError}
use mxfactorial.Types.Errors.{BoxError, message, prefixed, approval_error}
use mxfactorial.Types.Items.{items_unique_contra_accounts}
use mxfactorial.Types.Transaction.{Transaction, transaction_pending_role_approval}
use mxfactorial.Types.Messages.{IntraTransaction, intra_transaction}
use mxfactorial.Service.Model.{Model}
use mxfactorial.Service.Accounts.{change_account_balances}
use mxfactorial.Service.Lookup.{get_transaction_with_transaction_items_and_approvals_by_id}
use mxfactorial.Service.Funds.{test_sufficient_debitor_funds}

module _ {Time : Type 0} where
  -- An earlier approval is kept with its time; any other error ends the approval.
  unfoldable pub earlier_approval :
      Outcome (ApprovalError Time) (Unit {0}) → Outcome (BoxError Time) (Option Time)
  earlier_approval (ok _) = ok none
  earlier_approval (err (ApprovalError.previously_approved t)) = ok (some t)
  earlier_approval (err e) = err (approval_error e)
  earlier_approval panic = panic

  -- `.parse::<i32>().map_err(|e| format!("{text}: {e}"))`
  unfoldable pub parse_id : String → String → Outcome (BoxError Time) ℤ
  parse_id text id = ok_or (parse_i32 id) (prefixed text)

module _ {W Time D : Type 0} (dec : DecimalOps D) (clock : InstantOps Time) (conn : Model W Time D)
    (order : Map D → Map D) where
  pub add_approval_times_by_account_and_role :
      ℤ → String → AccountRole → Action W (BoxError Time) (Option Time)
  add_approval_times_by_account_and_role transaction_id account role =
      conn.update_approvals_by_account_and_role_query transaction_id account role

  -- What follows the tests: the approval is stored, the transaction is read back, and its items
  -- change the balances once it is at equilibrium.
  unfoldable pub approve_tested :
      String
      → AccountRole
      → Option String
      → Option Time
      → Action W (BoxError Time) (IntraTransaction Time)
  unfolding add_approval_times_by_account_and_role parse_id
  approve_tested auth_account role request_id approval_time = do
    id ← lift (ok_or request_id (message "missing transaction id"))
    transaction_id ← lift (parse_id "invalid transaction id" id)
    when (is_none approval_time)
        (add_approval_times_by_account_and_role transaction_id auth_account role >> pure tt)
    post ← get_transaction_with_transaction_items_and_approvals_by_id conn transaction_id
    when (is_some post.equilibrium_time) (change_account_balances conn post.transaction_items)
    pure (intra_transaction auth_account post)

  -- `started` and `now` are the instants that the pending tests read.
  unfoldable pub approve :
      Time
      → (ℕ → ℕ → Time)
      → String
      → AccountRole
      → Transaction Time
      → Action W (BoxError Time) (IntraTransaction Time)
  unfolding earlier_approval approve_tested
  approve started now auth_account approver_role request = do
    test_sufficient_debitor_funds dec conn order request.transaction_items
    lift (items_unique_contra_accounts request.transaction_items)
    approval_time ← lift (
        earlier_approval
          (transaction_pending_role_approval clock started now auth_account approver_role request))
    approve_tested auth_account approver_role request.id approval_time
