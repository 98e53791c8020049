-- ===== src/Rule/ItemRules/Linked.antt =====
-- The item rules (services/rule/src/rules/transaction_item.rs): what a rule returns.
use mxfactorial.Prelude.{
  String, List, [], ◌∷◌, ◌++◌, Option, none, some, string_eq, ok, err, ok_or, ◌≡◌, ◌≢◌, refl,
  beq_of_ne, sym, >>=-eq-ok, ok_injective,
}
use Prim.Native.String.{◌++◌ as text_append}
use mxfactorial.External.{FloatOps}
use mxfactorial.Types.Role.{debitor, creditor}
use mxfactorial.Types.Item.{TransactionItem}
use mxfactorial.Types.Items.{TransactionItems}
use mxfactorial.Types.Rule.{TransactionItemRuleInstance}
use mxfactorial.Types.Errors.{message, prefixed}
use mxfactorial.Rule.ItemRules.{
  creditor_rule, index, append_multiplied_item_value, multiply_item_value,
  match_transaction_item_rule,
}

from_ok_or : {E A : Type 0} {a : A} (o : Option A) (e : E) → ok_or o e ≡ ok a → o ≡ some a
from_ok_or none e h = cc
from_ok_or (some b) e h = cc

module _ {Time F : Type 0} (float : FloatOps F) (exec_id : String)
    (rule_instance : TransactionItemRuleInstance Time) (item : TransactionItem Time) where
  -- An application that succeeds returns the item itself, with the new identifier behind its earlier
  -- ones, and one computed item that has the identifier alone, names the rule instance, and has no
  -- id, profile, time or approval of its own.
  pub append_multiplied_item_value-linked :
      (items : TransactionItems Time)
      → append_multiplied_item_value float exec_id rule_instance item ≡ ok items
      → (exec_ids : List String) × (computed : TransactionItem Time) × (items
          ≡ record item { rule_exec_ids = some (exec_ids ++ exec_id ∷ []) } ∷ computed ∷ [])
        × (item.rule_exec_ids ≡ some exec_ids)
        × (computed.rule_exec_ids ≡ some (exec_id ∷ []))
        × (computed.rule_instance_id ≡ rule_instance.id)
        × (computed.id ≡ none)
        × (computed.debitor_approval_time ≡ none)
        × (computed.creditor_approval_time ≡ none)
        × (computed.approvals ≡ none)
  unfolding append_multiplied_item_value
  append_multiplied_item_value-linked items h =
      let (d, ed, h1) = >>=-eq-ok (index rule_instance.variable_values 0) _ h in
      let (c, ec, h2) = >>=-eq-ok (index rule_instance.variable_values 1) _ h1 in
      let (n, en, h3) = >>=-eq-ok (index rule_instance.variable_values 2) _ h2 in
      let (ft, eft, h4) = >>=-eq-ok (index rule_instance.variable_values 3) _ h3 in
      let (fa, efa, h5) = >>=-eq-ok (ok_or (float.parse ft) (prefixed "unsupported factor")) _ h4 in
      let (p, ep, h6) =
        >>=-eq-ok (ok_or (float.parse item.price) (prefixed "unsupported price")) _ h5 in
      let (q, eq, h7) =
        >>=-eq-ok (ok_or (float.parse item.quantity) (prefixed "unsupported quantity")) _ h6 in
      let (r, er, h8) =
        >>=-eq-ok (ok_or rule_instance.id (message "missing rule_instance id")) _ h7 in
      let (x, ex, h9) =
        >>=-eq-ok (ok_or item.rule_exec_ids (message "missing rule_exec_ids")) _ h8 in
      (
        x,
        _,
        sym (ok_injective _ _ h9),
        from_ok_or _ _ ex,
        refl,
        sym (from_ok_or _ _ er),
        refl,
        refl,
        refl,
        refl,
      )

  -- The rule that multiplies returns the computed item of the rule that appends, alone: the item it
  -- was applied to is left out.
  pub multiply_item_value-computed :
      (original computed : TransactionItem Time)
      → append_multiplied_item_value float exec_id rule_instance item
        ≡ ok (original ∷ computed ∷ [])
      → multiply_item_value float exec_id rule_instance item ≡ ok (computed ∷ [])
  unfolding multiply_item_value
  multiply_item_value-computed original computed h = rw h refl

  -- Rules of a debitor return nothing, whatever their name.
  pub match_transaction_item_rule-debitor :
      rule_instance.account_role ≡ debitor
      → match_transaction_item_rule float exec_id rule_instance item ≡ ok []
  unfolding match_transaction_item_rule
  match_transaction_item_rule-debitor h = rw h refl

  pub match_transaction_item_rule-multiply :
      rule_instance.account_role ≡ creditor
      → rule_instance.rule_name ≡ "multiplyItemValue"
      → match_transaction_item_rule float exec_id rule_instance item
        ≡ multiply_item_value float exec_id rule_instance item
  unfolding match_transaction_item_rule creditor_rule
  match_transaction_item_rule-multiply r n = rw (r, n) refl

  pub match_transaction_item_rule-append :
      rule_instance.account_role ≡ creditor
      → rule_instance.rule_name ≡ "appendMultipliedItemValue"
      → match_transaction_item_rule float exec_id rule_instance item
        ≡ append_multiplied_item_value float exec_id rule_instance item
  unfolding match_transaction_item_rule creditor_rule
  match_transaction_item_rule-append r n = rw (r, n) refl

  -- Another name is an error of a creditor's rule.
  pub match_transaction_item_rule-unknown :
      rule_instance.account_role ≡ creditor
      → rule_instance.rule_name ≢ "multiplyItemValue"
      → rule_instance.rule_name ≢ "appendMultipliedItemValue"
      → match_transaction_item_rule float exec_id rule_instance item
        ≡ err (message (text_append "unknown rule: " rule_instance.rule_name))
  unfolding match_transaction_item_rule creditor_rule
  match_transaction_item_rule-unknown r n m =
      rw
        (
          r,
          beq_of_ne rule_instance.rule_name "multiplyItemValue" n,
          beq_of_ne rule_instance.rule_name "appendMultipliedItemValue" m,
        )
        refl
