-- ===== src/Rule/ItemRules.antt =====
-- services/rule/src/rules/transaction_item.rs: the rules that compute an item from an item.
pub mod Linked
use mxfactorial.Prelude.{
  ℕ, String, List, [], ◌∷◌, ◌++◌, none, some, ◌==◌, string_eq, Outcome, ok, err, ◌>>=◌, unwrap,
  ok_or, get_elem?, if◌then◌else◌,
}
use Prim.Native.String.{◌++◌ as text_append}
use mxfactorial.External.{FloatOps}
use mxfactorial.Types.Role.{debitor, creditor}
use mxfactorial.Types.Item.{TransactionItem}
use mxfactorial.Types.Errors.{BoxError, message, prefixed}
use mxfactorial.Types.Items.{TransactionItems}
use mxfactorial.Types.Rule.{TransactionItemRuleInstance}

-- `tokens::ANY`
abbrev pub any : String
any = "ANY"

-- `values[i]`
abbrev pub index {ℓ κ} : {E : Type ℓ} {A : Type κ} → List A → ℕ → Outcome E A
index values i = unwrap (get_elem? values i)

-- A token stands for the account of the item that the rule is applied to.
abbrev pub post_token : String → String → String
post_token account own = if account == any then own else account

module _ {Time F : Type 0} (float : FloatOps F) where
  -- `exec_id` is the identifier that `nanoid` makes for this application.
  unfoldable pub append_multiplied_item_value :
      String
      → TransactionItemRuleInstance Time
      → TransactionItem Time
      → Outcome (BoxError Time) (TransactionItems Time)
  append_multiplied_item_value exec_id rule_instance item = do
    debitor_name ← index rule_instance.variable_values 0
    creditor_name ← index rule_instance.variable_values 1
    item_name ← index rule_instance.variable_values 2
    factor_text ← index rule_instance.variable_values 3
    factor ← ok_or (float.parse factor_text) (prefixed "unsupported factor")
    price ← ok_or (float.parse item.price) (prefixed "unsupported price")
    quantity ← ok_or (float.parse item.quantity) (prefixed "unsupported quantity")
    rule_instance_id ← ok_or rule_instance.id (message "missing rule_instance id")
    exec_ids ← ok_or item.rule_exec_ids (message "missing rule_exec_ids")
    ok (
        record item { rule_exec_ids = some (exec_ids ++ exec_id ∷ []) }
        ∷ (record {
          id = none;
          transaction_id = none;
          item_id = item_name;
          price = float.fixed (float.mul price factor);
          quantity = float.fixed quantity;
          rule_instance_id = some rule_instance_id;
          rule_exec_ids = some (exec_id ∷ []);
          unit_of_measurement = item.unit_of_measurement;
          units_measured = item.units_measured;
          debitor = post_token debitor_name item.debitor;
          creditor = post_token creditor_name item.creditor;
          debitor_profile_id = none;
          creditor_profile_id = none;
          debitor_approval_time = none;
          creditor_approval_time = none;
          debitor_rejection_time = none;
          creditor_rejection_time = none;
          debitor_expiration_time = none;
          creditor_expiration_time = none;
          approvals = none;
        })
        ∷ [])

  -- Only the computed item.
  unfoldable pub multiply_item_value :
      String
      → TransactionItemRuleInstance Time
      → TransactionItem Time
      → Outcome (BoxError Time) (TransactionItems Time)
  unfolding append_multiplied_item_value
  multiply_item_value exec_id rule_instance item = do
    items ← append_multiplied_item_value exec_id rule_instance item
    computed ← index items 1
    ok (computed ∷ [])

  -- The rules of a creditor, by name.
  creditor_rule :
      String
      → TransactionItemRuleInstance Time
      → TransactionItem Time
      → Outcome (BoxError Time) (TransactionItems Time)
  creditor_rule exec_id rule_instance item =
      if rule_instance.rule_name == "multiplyItemValue"
      then multiply_item_value exec_id rule_instance item
      else if rule_instance.rule_name == "appendMultipliedItemValue"
      then append_multiplied_item_value exec_id rule_instance item
      else err (message (text_append "unknown rule: " rule_instance.rule_name))

  unfoldable pub match_transaction_item_rule :
      String
      → TransactionItemRuleInstance Time
      → TransactionItem Time
      → Outcome (BoxError Time) (TransactionItems Time)
  unfolding creditor_rule
  match_transaction_item_rule exec_id rule_instance item = elim rule_instance.account_role [
    | debitor ↦ ok []
    | creditor ↦ creditor_rule exec_id rule_instance item
  ]
