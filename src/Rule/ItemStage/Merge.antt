-- ===== src/Rule/ItemStage/Merge.antt =====
-- `apply_transaction_item_rules` (services/rule/src/main.rs): how the results of a rule are merged.
use mxfactorial.Prelude.{String, Option, [], ◌∷◌, ◌++◌, ok, ◌≡◌, refl, string_eq, ◌∙◌}
use mxfactorial.External.{FloatOps}
use mxfactorial.Types.Role.{creditor}
use mxfactorial.Types.Item.{TransactionItem}
use mxfactorial.Types.Rule.{TransactionItemRuleInstance}
use mxfactorial.Service.Model.{Model}
use mxfactorial.Service.Cache.{Cache}
use mxfactorial.Rule.ItemRules.{match_transaction_item_rule, append_multiplied_item_value}
use mxfactorial.Rule.ItemRules.Linked.{
  multiply_item_value-computed, match_transaction_item_rule-multiply,
  match_transaction_item_rule-append,
}
use mxfactorial.Rule.ItemStage.{Applied, apply_rule}

module _ {W Time F D : Type 0} (float : FloatOps F) (conn : Model W Time D)
    (cache : Option (Cache W Time)) (fresh : W → String × W) where
  -- A rule that returns nothing leaves the item and the added items, and draws an identifier.
  pub apply_rule-empty :
      (rule : TransactionItemRuleInstance Time) (s : Applied Time) (w : W)
      → match_transaction_item_rule float (fresh w).0 rule s.current ≡ ok []
      → apply_rule float conn cache fresh rule s w ≡ (ok s, (fresh w).1)
  unfolding apply_rule
  apply_rule-empty rule s w h = rw h refl

  -- A rule of a creditor that multiplies replaces the item by the computed one: the item that the
  -- rule was applied to is no longer there, and nothing is added.
  pub apply_rule-multiply :
      (rule : TransactionItemRuleInstance Time) (s : Applied Time) (w : W)
      (original computed : TransactionItem Time)
      → rule.account_role ≡ creditor
      → rule.rule_name ≡ "multiplyItemValue"
      → append_multiplied_item_value float (fresh w).0 rule s.current
        ≡ ok (original ∷ computed ∷ [])
      → apply_rule float conn cache fresh rule s w
        ≡ (ok (record { current = computed; rule_added = s.rule_added ++ [] }), (fresh w).1)
  unfolding apply_rule
  apply_rule-multiply rule s w original computed r n h =
      rw
        (match_transaction_item_rule-multiply float (fresh w).0 rule s.current r n
          ∙ multiply_item_value-computed float (fresh w).0 rule s.current original computed h)
        refl

  -- A rule of a creditor that appends keeps the item, marked, and adds the computed one behind those
  -- that earlier rules added.
  pub apply_rule-append :
      (rule : TransactionItemRuleInstance Time) (s : Applied Time) (w : W)
      (original computed : TransactionItem Time)
      → rule.account_role ≡ creditor
      → rule.rule_name ≡ "appendMultipliedItemValue"
      → append_multiplied_item_value float (fresh w).0 rule s.current
        ≡ ok (original ∷ computed ∷ [])
      → apply_rule float conn cache fresh rule s w ≡ (
        ok (record { current = original; rule_added = s.rule_added ++ computed ∷ [] }),
        (fresh w).1,
      )
  unfolding apply_rule
  apply_rule-append rule s w original computed r n h =
      rw (match_transaction_item_rule-append float (fresh w).0 rule s.current r n ∙ h) refl
