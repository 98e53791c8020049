-- ===== src/Rule/Label.antt =====
-- services/rule/src/lib.rs: `label_approved_transaction_items` and `create_response`.
pub mod Latest
use mxfactorial.Prelude.{
  ℕ, ◌+◌, String, Bool, true, List, [], ◌∷◌, ◌++◌, none, some, ◌==◌, nat_eq, Outcome, ok, ◌>>=◌,
  ◌>>◌, ok_or, err_if, map_outcome, length, is_empty, if◌then◌else◌,
}
use mxfactorial.External.{FloatOps, InstantOps}
use mxfactorial.Types.Role.{AccountRole, debitor, creditor, role_eq, RoleSequence}
use mxfactorial.Types.Approval.{Approvals, get_approvals_per_role}
use mxfactorial.Types.Item.{TransactionItem}
use mxfactorial.Types.Errors.{BoxError}
use mxfactorial.Types.Items.{TransactionItems}
use mxfactorial.Types.Items.Loops.{sum_value}
use mxfactorial.Types.Transaction.{Transaction}
use mxfactorial.Types.Messages.{IntraTransaction}
use mxfactorial.Rule.ItemRules.{index}

-- `expected_values`, which tests nothing yet.
abbrev pub expected_values : {Time : Type 0} → Transaction Time → Bool
expected_values t = true

module _ {Time : Type 0} where
  -- The count of the approvals with a time, and the times, in order.
  pub collect_times : ℕ × List Time → Approvals Time → ℕ × List Time
  collect_times s [] = s
  collect_times s (a ∷ rest) =
      collect_times (elim a.approval_time [ none ↦ s | some t ↦ (s.0 + 1, s.1 ++ t ∷ []) ]) rest

  abbrev pub set_approval_time : AccountRole → Time → TransactionItem Time → TransactionItem Time
  set_approval_time debitor t ti = record ti { debitor_approval_time = some t }
  set_approval_time creditor t ti = record ti { creditor_approval_time = some t }

module _ {Time : Type 0} (clock : InstantOps Time) where
  pub latest : Time → List Time → Time
  latest t [] = t
  latest t (u ∷ rest) = latest (if clock.later u t then u else t) rest

  -- All approvals of the role have a time: the item gets the latest.
  pub label_times :
      AccountRole → ℕ → ℕ × List Time → TransactionItem Time → Outcome String (TransactionItem Time)
  unfolding latest
  label_times role n s ti =
      if n == s.0
      then (do
        first ← index s.1 0
        ok (if length s.1 == n then set_approval_time role (latest first s.1) ti else ti))
      else ok ti

  pub label_with :
      AccountRole → TransactionItem Time → Approvals Time → Outcome String (TransactionItem Time)
  unfolding collect_times label_times
  label_with role ti approvals = do
    err_if (is_empty (get_approvals_per_role role approvals)) "0 approvals per role"
    label_times role (length (get_approvals_per_role role approvals))
        (collect_times (0, []) (get_approvals_per_role role approvals)) ti

  pub label_role : AccountRole → TransactionItem Time → Outcome String (TransactionItem Time)
  unfolding label_with
  label_role role ti =
      ok_or ti.approvals "missing approvals in transaction item" >>= label_with role ti

  unfoldable pub label_approved_transaction_items :
      RoleSequence → TransactionItems Time → Outcome String (TransactionItems Time)
  unfolding label_role
  label_approved_transaction_items role_sequence =
      map_outcome (λ ti. label_role role_sequence.0 ti >>= label_role role_sequence.1)

module _ {Time F : Type 0} (float : FloatOps F) where
  unfoldable pub create_response :
      TransactionItems Time → Transaction Time → Outcome (BoxError Time) (IntraTransaction Time)
  create_response items source = do
    sum ← sum_value float items
    ok (record {
      auth_account = none;
      transaction = record {
        id = none;
        rule_instance_id = source.rule_instance_id;
        author = source.author;
        author_device_id = source.author_device_id;
        author_device_latlng = source.author_device_latlng;
        author_role = source.author_role;
        equilibrium_time = none;
        event_time = none;
        debitor_first = source.debitor_first;
        sum_value = sum;
        transaction_items = items;
      };
    })
