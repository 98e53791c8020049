-- ===== src/Tests/Requests.antt =====
-- Examples of the theorems on request-create and request-approve.
use mxfactorial.Prelude.{ℕ, suc, String, [], ◌∷◌, none, some, ok, ◌≡◌, refl, inl, nat_eq}
use mxfactorial.Prelude.Numeral.{parse_i32}
use mxfactorial.Effect.{Action}
use mxfactorial.Effect.Refusal.{Refused}
use mxfactorial.Types.Role.{debitor}
use mxfactorial.Types.Errors.{BoxError}
use mxfactorial.Types.Items.{
  items_add_approvals, items_unique_contra_accounts, filter_by_transaction,
  remove_unauthorized_values, filter_user_added,
}
use mxfactorial.Types.Items.Loops.{
  sum_value, items_equality, items_pending_role_approval, map_required_funds_from_debitors,
}
use mxfactorial.Types.Item.{
  item_equality, add_approvals, item_pending_role_approval, price_times_quantity,
  test_unique_contra_accounts,
}
use mxfactorial.Types.Approval.{
  filter_by_transaction_and_transaction_item, approval_ids, test_pending_role_approval,
}
use mxfactorial.Types.Transaction.{
  Transaction, transaction_pending_role_approval, test_sum_value, set_author_role, build,
  add_transaction_items,
}
use mxfactorial.Types.Messages.{
  IntraTransaction, intra_transaction, RequestApprove, add_rule_tested_values,
}
use mxfactorial.Service.Model.{Model}
use mxfactorial.Service.Accounts.{get_debitor_account_balances}
use mxfactorial.Service.Funds.{test_funds, test_sufficient_debitor_funds}
use mxfactorial.Service.Approve.{approve, approve_tested, earlier_approval, parse_id}
use mxfactorial.Service.Lookup.{
  get_full_transaction_by_id, get_transaction_with_transaction_items_and_approvals_by_id,
}
use mxfactorial.RequestCreate.{test_values, client_items, rule_input, sum_tested}
use mxfactorial.RequestCreate.Accept.{test_values-incomplete}
use mxfactorial.RequestCreate.Sound.{test_values-Sound}
use mxfactorial.RequestApprove.{handle_approve}
use mxfactorial.RequestApprove.Guard.{Granted, handle_approve-Sound}
use mxfactorial.Tests.{
  clock, money, real, at_five, given, sale, transaction, request, conn, same_order,
}

-- The rule service counts its calls, and returns what it was given.
abbrev rules : Transaction ℕ → Action ℕ (BoxError ℕ) (IntraTransaction ℕ)
rules t w = (ok (record { auth_account = none; transaction = t }), suc w)

test_values-incomplete_example :
    Refused
      (test_values real money rules (record { auth_account = none; transaction = request }) 0)
      0
test_values-incomplete_example =
    test_values-incomplete real money rules (record { auth_account = none; transaction = request })
      0 (inl refl)

abbrev wanted : IntraTransaction ℕ
wanted = intra_transaction "alice" (transaction (sale ∷ []) none)

abbrev accepted : IntraTransaction ℕ
accepted =
    intra_transaction "alice"
      (record (transaction (client_items wanted.transaction) none) { author_role = some debitor })

test_values-Sound_example :
    (sum : String) × (ruled : IntraTransaction ℕ) × (sum_value real {E = BoxError ℕ}
        (client_items wanted.transaction)
      ≡ ok sum)
    × (rules (rule_input wanted.transaction sum (client_items wanted.transaction)) 0
        ≡ (ok ruled, 1))
    × (items_equality money ruled.transaction.transaction_items (sale ∷ []) ≡ ok tt)
    × (accepted.transaction.transaction_items ≡ ruled.transaction.transaction_items)
    × (accepted.transaction.sum_value ≡ ruled.transaction.sum_value)
    × (accepted.auth_account ≡ wanted.auth_account)
unfolding test_values sum_tested test_sum_value sum_value remove_unauthorized_values
    filter_user_added items_equality item_equality add_rule_tested_values set_author_role
test_values-Sound_example = test_values-Sound real money rules wanted accepted 0 1 refl

abbrev again : RequestApprove
again = record { auth_account = "alice"; id = "1"; account_name = "alice"; account_role = debitor }

-- The stored transaction is not at equilibrium; alice has approved it before.
abbrev unsettled : Model ℕ ℕ ℕ
unsettled = record conn { select_transaction_by_id_query = λ _ w. (ok (transaction [] none), w) }

handle_approve-Sound_example :
    Granted money clock unsettled same_order
      (λ w. (ok tt, w))
      5
      at_five
      again
      0
      0
      (intra_transaction "alice"
        (transaction (record sale { approvals = some (given ∷ []) } ∷ []) none))
unfolding parse_i32 get_full_transaction_by_id build items_add_approvals add_approvals
    add_transaction_items filter_by_transaction filter_by_transaction_and_transaction_item
    approval_ids handle_approve transaction_pending_role_approval items_pending_role_approval
    item_pending_role_approval test_pending_role_approval test_sufficient_debitor_funds
    map_required_funds_from_debitors price_times_quantity get_debitor_account_balances test_funds
    items_unique_contra_accounts test_unique_contra_accounts
    get_transaction_with_transaction_items_and_approvals_by_id approve approve_tested
    earlier_approval parse_id
handle_approve-Sound_example =
    handle_approve-Sound money clock unsettled same_order (λ w. (ok tt, w)) 5 at_five again 0 0
      (intra_transaction "alice"
        (transaction (record sale { approvals = some (given ∷ []) } ∷ []) none))
      refl
