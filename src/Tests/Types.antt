-- ===== src/Tests/Types.antt =====
-- Examples of the theorems on items, approvals and transactions.
use mxfactorial.Prelude.{
  ℕ, String, contains, [], ◌∷◌, none, some, ok, ◌≡◌, ◌≢◌, refl, ◌↔◌, All, string_eq, length, nat_eq,
}
use mxfactorial.Types.Role.{debitor}
use mxfactorial.Types.Approval.{test_pending_role_approval}
use mxfactorial.Types.Approval.Pending.{mine_of, EachAt, Pending}
use mxfactorial.Types.Approval.Verdict.{test_pending_role_approval-ok_iff}
use mxfactorial.Types.Item.{price_times_quantity}
use mxfactorial.Types.Items.{list_accounts, remove_unauthorized_values, filter_user_added}
use mxfactorial.Types.Items.Accounts.{Distinct, mentions, list_accounts-exact}
use mxfactorial.Types.Items.Clean.{IsClient, filter_user_added-remove_unauthorized_values-IsClient}
use mxfactorial.Types.Items.Loops.{
  items_pending_role_approval, items_equality, map_required_funds_from_debitors,
}
use mxfactorial.Types.Items.Loops.Verdict.{EachAllOpen, items_pending_role_approval-ok_iff}
use mxfactorial.Types.Items.Loops.Struck.{Matched, Comparable}
use mxfactorial.Types.Items.Loops.Equality.{items_equality-ok_iff}
use mxfactorial.Types.Items.Loops.Funds.{owed, map_required_funds_from_debitors-owed}
use mxfactorial.Types.Errors.{BoxError}
use mxfactorial.Tests.{clock, money, at_five, open_approval, item, sale, asked}

test_pending_role_approval-ok_iff_example :
    (test_pending_role_approval clock (at_five 0) "alice" debitor (open_approval ∷ []) ≡ ok tt) ↔ (
      (mine_of "alice" debitor (open_approval ∷ []) ≢ [])
      × EachAt clock (Pending clock) (at_five 0) (mine_of "alice" debitor (open_approval ∷ [])))
test_pending_role_approval-ok_iff_example =
    test_pending_role_approval-ok_iff clock (at_five 0) "alice" debitor (open_approval ∷ [])

items_pending_role_approval-ok_iff_example :
    (items_pending_role_approval clock 5 at_five "carol" debitor (asked ∷ []) ≡ ok tt)
    ↔ EachAllOpen clock "carol" debitor at_five (asked ∷ [])
items_pending_role_approval-ok_iff_example =
    items_pending_role_approval-ok_iff clock "carol" debitor 5 at_five (asked ∷ [])

-- Two equal items of the first list, one of which the second list has.
items_equality-ok_iff_example :
    (items_equality money (sale ∷ sale ∷ []) (sale ∷ item "dan" "erin" none ∷ []) ≡ ok tt) ↔ (
      (length (sale ∷ sale ∷ []) ≡ 2)
      × All (λ x. Comparable money x (sale ∷ item "dan" "erin" none ∷ [])) (sale ∷ sale ∷ [])
      × All (λ x. Matched money x (sale ∷ item "dan" "erin" none ∷ [])) (sale ∷ sale ∷ []))
items_equality-ok_iff_example =
    items_equality-ok_iff money (sale ∷ sale ∷ []) (sale ∷ item "dan" "erin" none ∷ [])

map_required_funds_from_debitors-owed_example :
    owed {E = BoxError ℕ} money "alice" none (sale ∷ sale ∷ []) ≡ ok (some 12)
unfolding map_required_funds_from_debitors price_times_quantity
map_required_funds_from_debitors-owed_example =
    map_required_funds_from_debitors-owed money (sale ∷ sale ∷ []) {funds = ("alice", 12) ∷ []}
      "alice" refl

filter_user_added-remove_unauthorized_values-IsClient_example :
    All IsClient (filter_user_added (remove_unauthorized_values (asked ∷ [])))
filter_user_added-remove_unauthorized_values-IsClient_example =
    filter_user_added-remove_unauthorized_values-IsClient (asked ∷ [])

list_accounts-exact_example :
    Distinct (list_accounts (sale ∷ sale ∷ []))
    × ((x : String) → contains (list_accounts (sale ∷ sale ∷ [])) x ≡ mentions x (sale ∷ sale ∷ []))
list_accounts-exact_example = list_accounts-exact (sale ∷ sale ∷ [])
