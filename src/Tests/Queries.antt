-- ===== src/Tests/Queries.antt =====
-- Examples of the theorems on the query services.
use mxfactorial.Prelude.{false, [], ◌∷◌, none, some, ok, ◌≡◌, refl, All, is_none, ℕ, ℤ}
use mxfactorial.Prelude.Numeral.{parse_i32}
use mxfactorial.Effect.{Action}
use mxfactorial.Types.Approval.{Approvals, filter_by_transaction_and_transaction_item, approval_ids}
use mxfactorial.Types.Item.{add_approvals}
use mxfactorial.Types.Items.{items_add_approvals, filter_by_transaction}
use mxfactorial.Types.Errors.{BoxError}
use mxfactorial.Types.Transaction.{build, add_transaction_items}
use mxfactorial.Types.Messages.{IntraTransaction, QueryById, intra_transaction}
use mxfactorial.Service.Model.{Model}
use mxfactorial.Service.Lookup.{
  get_approvals_by_transaction_id, get_transaction_items_by_transaction_id, get_transaction_by_id,
}
use mxfactorial.Query.{handle_request_by_id, handle_transaction_by_id}
use mxfactorial.Query.Access.{Some, handle_request_by_id-Some, handle_transaction_by_id-Some}
use mxfactorial.Tests.{given, open_approval, sale, transaction, conn}

abbrev by_id : QueryById
by_id = record { auth_account = "alice"; account_name = "alice"; id = "1" }

abbrev connect : Action ℕ (BoxError ℕ) (Unit {0})
connect w = (ok tt, w)

abbrev shown : IntraTransaction ℕ
shown =
    intra_transaction "alice"
      (transaction (record sale { approvals = some (given ∷ []) } ∷ []) (some 6))

handle_transaction_by_id-Some_example :
    (id : ℤ) × (approvals : Approvals ℕ) × (parse_i32 "1" ≡ some id)
    × ((conn.select_approvals_by_transaction_id_query id 0).0 ≡ ok approvals)
    × Some (λ a. a.account_name ≡ "alice") approvals
    × All (λ a. is_none a.approval_time ≡ false) approvals
unfolding handle_transaction_by_id parse_i32 get_approvals_by_transaction_id
    get_transaction_items_by_transaction_id get_transaction_by_id build items_add_approvals
    add_approvals add_transaction_items filter_by_transaction
    filter_by_transaction_and_transaction_item approval_ids
handle_transaction_by_id-Some_example =
    handle_transaction_by_id-Some conn connect by_id 0 0 shown refl

abbrev waiting : Model ℕ ℕ ℕ
waiting = record conn {
  select_approvals_by_transaction_id_query = λ _ w. (ok (open_approval ∷ []), w);
}

abbrev asked_for : IntraTransaction ℕ
asked_for =
    intra_transaction "alice"
      (transaction (record sale { approvals = some (open_approval ∷ []) } ∷ []) (some 6))

handle_request_by_id-Some_example :
    (id : ℤ) × (approvals : Approvals ℕ) × (parse_i32 "1" ≡ some id)
    × ((waiting.select_approvals_by_transaction_id_query id 0).0 ≡ ok approvals)
    × Some (λ a. (a.account_name ≡ "alice") × (a.approval_time ≡ none)) approvals
unfolding handle_request_by_id parse_i32 get_approvals_by_transaction_id
    get_transaction_items_by_transaction_id get_transaction_by_id build items_add_approvals
    add_approvals add_transaction_items filter_by_transaction
    filter_by_transaction_and_transaction_item approval_ids
handle_request_by_id-Some_example =
    handle_request_by_id-Some waiting connect by_id 0 0 asked_for refl
