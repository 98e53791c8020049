-- ===== src/Service/Approve/Checks.antt =====
-- `Service::approve` (crates/service/src/lib.rs): what its tests refuse, with nothing written.
use mathlib.Core.List.{Perm}
use mxfactorial.Prelude.{
  ℕ, String, false, List, ◌∷◌, ◌++◌, Outcome, ok, err, ◌≡◌, ◌≢◌, refl, ◌∙◌, is_ok, string_eq,
}
use mxfactorial.Prelude.Maps.{Map}
use mxfactorial.Effect.{lift, IsReadOnly}
use mxfactorial.Types.Items.Contra.{items_unique_contra_accounts-self_payment}
use mxfactorial.Effect.Refusal.{>>=-world, Refused, >>=-refused, >>=-readonly}
use mxfactorial.External.{DecimalOps, InstantOps}
use mxfactorial.Types.Role.{AccountRole}
use mxfactorial.Types.Approval.{ApprovalError, previously_approved}
use mxfactorial.Types.Errors.{BoxError}
use mxfactorial.Types.Balance.{AccountBalances}
use mxfactorial.Types.Item.{TransactionItem}
use mxfactorial.Types.Items.{TransactionItems, items_unique_contra_accounts, list_unique_debitors}
use mxfactorial.Types.Items.Loops.{map_required_funds_from_debitors}
use mxfactorial.Types.Transaction.{Transaction, transaction_pending_role_approval}
use mxfactorial.Service.Model.{Model}
use mxfactorial.Service.Funds.{test_sufficient_debitor_funds}
use mxfactorial.Service.Funds.Order.{all_funded, all_funded-Perm, test_funds-all_funded}
use mxfactorial.Service.Accounts.{get_debitor_account_balances}
use mxfactorial.Service.Approve.{approve, earlier_approval}

module _ {Time : Type 0} where
  earlier_approval-refused :
      (r : Outcome (ApprovalError Time) (Unit {0})) (e : ApprovalError Time)
      → r ≡ err e
      → ((t : Time) → e ≢ previously_approved t)
      → is_ok (earlier_approval r) ≡ false
  unfolding earlier_approval
  earlier_approval-refused r (previously_approved t) p h = absurd (h t refl)
  earlier_approval-refused r (ApprovalError.zero_approvals_for_account a) p h = rw p refl
  earlier_approval-refused r ApprovalError.zero_approvals p h = rw p refl
  earlier_approval-refused r ApprovalError.expiration_time_lapsed p h = rw p refl
  earlier_approval-refused r ApprovalError.previously_rejected p h = rw p refl
  earlier_approval-refused r ApprovalError.incomplete_previous_approval p h = rw p refl
  earlier_approval-refused r ApprovalError.missing_transaction_id p h = rw p refl
  earlier_approval-refused r ApprovalError.missing_transaction_item_id p h = rw p refl

module _ {W Time D : Type 0} (dec : DecimalOps D) (clock : InstantOps Time) (conn : Model W Time D)
    (order : Map D → Map D) (started : Time) (now : ℕ → ℕ → Time) (auth_account : String)
    (role : AccountRole) (request : Transaction Time) (w : W) where
  -- A request whose required funds a debitor's balance does not cover is refused, with nothing
  -- written, in whatever order the map of the required funds is iterated.
  pub approve-underfunded :
      (required : Map D) (available : AccountBalances D)
      → map_required_funds_from_debitors dec {E = BoxError Time} request.transaction_items
        ≡ ok required
      → conn.select_account_balances_query (list_unique_debitors request.transaction_items) w
        ≡ (ok available, w)
      → Perm (order required) required
      → all_funded dec available required ≡ false
      → Refused (approve dec clock conn order started now auth_account role request w) w
  unfolding approve test_sufficient_debitor_funds get_debitor_account_balances
  approve-underfunded required available m b p u =
      >>=-refused (test_sufficient_debitor_funds dec conn order request.transaction_items) _ w (
        rw (m, b)
          (
            test_funds-all_funded Time dec available (order required)
                ∙ all_funded-Perm dec available (order required) required p
                ∙ u,
            refl,
          ))

module _ {W Time D : Type 0} (dec : DecimalOps D) (clock : InstantOps Time) (conn : Model W Time D)
    (order : Map D → Map D) (started : Time) (now : ℕ → ℕ → Time) (auth_account : String)
    (role : AccountRole) (request : Transaction Time) (w : W)
    (reads : (accounts : List String)
      → IsReadOnly (conn.select_account_balances_query accounts)) where
  funds_readonly : (test_sufficient_debitor_funds dec conn order request.transaction_items w).1 ≡ w
  unfolding test_sufficient_debitor_funds get_debitor_account_balances
  funds_readonly =
      >>=-world (lift (map_required_funds_from_debitors dec request.transaction_items)) _ w refl
        (λ required.
          >>=-world
            (conn.select_account_balances_query (list_unique_debitors request.transaction_items)) _
            w (reads _ w) (λ _. refl))

  -- A request with an item between an account and itself is refused, with nothing written, where
  -- reading balances writes nothing.
  pub approve-self_payment :
      (before after : TransactionItems Time) (ti : TransactionItem Time)
      → request.transaction_items ≡ before ++ ti ∷ after
      → ti.debitor ≡ ti.creditor
      → Refused (approve dec clock conn order started now auth_account role request w) w
  unfolding approve
  approve-self_payment before after ti e p =
      >>=-readonly (test_sufficient_debitor_funds dec conn order request.transaction_items) _ w
        funds_readonly
        (λ _ _.
          >>=-refused (lift (items_unique_contra_accounts request.transaction_items)) _ w
            ((rw e (items_unique_contra_accounts-self_payment before after ti p)), refl))

  -- A pending test that fails for another reason than an earlier approval refuses the request, with
  -- nothing written, where reading balances writes nothing.
  pub approve-not_pending :
      (e : ApprovalError Time)
      → transaction_pending_role_approval clock started now auth_account role request ≡ err e
      → ((t : Time) → e ≢ previously_approved t)
      → Refused (approve dec clock conn order started now auth_account role request w) w
  unfolding approve
  approve-not_pending e p h =
      >>=-readonly (test_sufficient_debitor_funds dec conn order request.transaction_items) _ w
        funds_readonly
        (λ _ _.
          >>=-readonly (lift (items_unique_contra_accounts request.transaction_items)) _ w refl
            (λ _ _.
              >>=-refused
                (lift (
                  earlier_approval (
                    transaction_pending_role_approval clock started now auth_account role request)))
                _ w (earlier_approval-refused _ e p h, refl)))
