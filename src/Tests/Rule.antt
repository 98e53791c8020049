-- ===== src/Tests/Rule.antt =====
-- Examples of the theorems on the rule service.
use mxfactorial.Prelude.{ℕ, String, false, List, [], ◌∷◌, ◌++◌, none, some, ok, ◌≡◌, refl, All, ltb}
use mxfactorial.Types.Role.{debitor, creditor}
use mxfactorial.Types.Approval.{Approval, get_approvals_per_role}
use mxfactorial.Types.Item.{TransactionItem}
use mxfactorial.Types.Rule.{TransactionItemRuleInstance, ApprovalRuleInstance}
use mxfactorial.Rule.Label.{label_role, set_approval_time}
use mxfactorial.Rule.Label.Latest.{Among, times, label_role-latest}
use mxfactorial.Rule.ItemRules.{append_multiplied_item_value}
use mxfactorial.Rule.ItemRules.Linked.{append_multiplied_item_value-linked}
use mxfactorial.Rule.ApprovalRules.{stamped, match_approval_rule}
use mxfactorial.Service.Model.{Model}
use mxfactorial.Service.ReadThrough.{get_approval_rule_instances}
use mxfactorial.Rule.ApprovalStage.{new_approval, apply_approval_rule_list, approve_by}
use mxfactorial.Rule.ApprovalStage.Approvers.{ForEach, approve_by-ForEach}
use mxfactorial.Tests.{clock, clock_laws, real, given, approval, item, sale, conn}

abbrev twice : List (Approval ℕ)
twice = given ∷ approval "amy" debitor (some 7) ∷ []

label_role-latest_example :
    (t : ℕ) × (label_role clock debitor (item "alice" "bob" (some twice))
      ≡ ok (set_approval_time debitor t (item "alice" "bob" (some twice))))
    × Among t (times (get_approvals_per_role debitor twice))
    × All (λ u. ltb t u ≡ false) (times (get_approvals_per_role debitor twice))
unfolding get_approvals_per_role
label_role-latest_example =
    label_role-latest clock debitor (item "alice" "bob" (some twice)) twice clock_laws refl refl
      refl

abbrev tax : String → TransactionItemRuleInstance ℕ
tax name = record {
  id = some "9";
  rule_name = name;
  rule_instance_name = "tax";
  variable_values = "ANY" ∷ "state" ∷ "tax" ∷ "2" ∷ [];
  account_role = creditor;
  account_name = none;
  item_id = none;
  price = none;
  quantity = none;
  country_name = none;
  city_name = none;
  county_name = none;
  state_name = none;
  latlng = none;
  occupation_id = none;
  industry_id = none;
  disabled_time = none;
  removed_time = none;
  created_at = none;
  transaction_rule_instance_id = none;
}

abbrev marked : TransactionItem ℕ
marked = record sale { rule_exec_ids = some ("x" ∷ []) }

abbrev taxed : TransactionItem ℕ
taxed = record (item "alice" "state" none) {
  id = none;
  transaction_id = none;
  item_id = "tax";
  price = "6";
  quantity = "2";
  rule_instance_id = some "9";
  rule_exec_ids = some ("x" ∷ []);
}

append_multiplied_item_value-linked_example :
    (exec_ids : List String) × (computed : TransactionItem ℕ) × (marked ∷ taxed ∷ []
      ≡ record sale { rule_exec_ids = some (exec_ids ++ "x" ∷ []) } ∷ computed ∷ [])
    × (sale.rule_exec_ids ≡ some exec_ids)
    × (computed.rule_exec_ids ≡ some ("x" ∷ []))
    × (computed.rule_instance_id ≡ some "9")
    × (computed.id ≡ none)
    × (computed.debitor_approval_time ≡ none)
    × (computed.creditor_approval_time ≡ none)
    × (computed.approvals ≡ none)
unfolding append_multiplied_item_value
append_multiplied_item_value-linked_example =
    append_multiplied_item_value-linked real "x" (tax "multiplyItemValue") sale
      (marked ∷ taxed ∷ []) refl

abbrev approve_all : ApprovalRuleInstance ℕ
approve_all = record {
  id = some "8";
  rule_name = "approveAnyCreditItem";
  rule_instance_name = "all";
  variable_values = "bob" ∷ "creditor" ∷ "bob" ∷ [];
  account_role = creditor;
  account_name = "bob";
  disabled_time = none;
  removed_time = none;
  created_at = none;
}

abbrev with_rule : Model ℕ ℕ ℕ
with_rule = record conn {
  select_approval_rule_instances_by_role_account_query = λ _ _ w. (ok (approve_all ∷ []), w);
}

abbrev by_bob : List (Approval ℕ)
by_bob = stamped approve_all sale 5 (new_approval creditor "bob") ∷ []

approve_by-ForEach_example : ForEach 5 creditor ("bob" ∷ []) by_bob
unfolding approve_by get_approval_rule_instances apply_approval_rule_list match_approval_rule
approve_by-ForEach_example =
    approve_by-ForEach with_rule none 5 sale creditor ("bob" ∷ []) 0 0 by_bob refl
