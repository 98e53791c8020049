-- ===== src/Rule/Handler.antt =====
-- services/rule/src/main.rs: the handler of the rule service. The connection pool and the query for
-- item templates are arguments.
use mxfactorial.Prelude.{
  String, Bool, false, not, map, List, Option, none, some, map_err, ok_or, is_empty, get_elem?,
  unwrap_or, if◌then◌else◌, ℤ,
}
use mxfactorial.Prelude.Numeral.{parse_i32}
use mxfactorial.Effect.{Action, pure, lift, raise, map_error, ◌>>=◌, ◌>>◌}
use mxfactorial.External.{FloatOps, InstantOps}
use mxfactorial.Types.Role.{RoleSequence, debitor_first, creditor_first}
use mxfactorial.Types.Item.{TransactionItem}
use mxfactorial.Types.Errors.{BoxError, message}
use mxfactorial.Types.Items.{TransactionItems, set_empty_rule_exec_ids}
use mxfactorial.Types.Transaction.{Transaction}
use mxfactorial.Types.Messages.{IntraTransaction}
use mxfactorial.Service.Error.{ServiceError, internal, bad_request}
use mxfactorial.Service.Model.{Model}
use mxfactorial.Service.Cache.{Cache}
use mxfactorial.Rule.Label.{expected_values, label_approved_transaction_items, create_response}
use mxfactorial.Rule.ItemStage.{apply_transaction_item_rules}
use mxfactorial.Rule.ApprovalStage.{apply_approval_rules}

-- A row of `transaction_item_rule_instance`.
pub record ItemTemplate : Type 0 where
  pub id : String
  pub item_id : String
  pub price : String
  pub quantity : String
  pub variable_values : List String

module _ {Time : Type 0} where
  -- The template as an item without profiles, times or approvals.
  abbrev pub from_template : ItemTemplate → TransactionItem Time
  from_template row = record {
    id = none;
    transaction_id = none;
    item_id = row.item_id;
    price = row.price;
    quantity = row.quantity;
    rule_instance_id = some row.id;
    rule_exec_ids = none;
    unit_of_measurement = none;
    units_measured = none;
    debitor = unwrap_or (get_elem? row.variable_values 0) "";
    creditor = unwrap_or (get_elem? row.variable_values 1) "";
    debitor_profile_id = none;
    creditor_profile_id = none;
    debitor_approval_time = none;
    creditor_approval_time = none;
    debitor_rejection_time = none;
    creditor_rejection_time = none;
    debitor_expiration_time = none;
    creditor_expiration_time = none;
    approvals = none;
  }

abbrev pub sequence_of : Option Bool → RoleSequence
sequence_of first = if unwrap_or first false then debitor_first else creditor_first

module _ {W Time F D : Type 0} (float : FloatOps F) (clock : InstantOps Time)
    (conn : Model W Time D) (cache : Option (Cache W Time)) (fresh : W → String × W)
    (connect : Action W (BoxError Time) (Unit {0}))
    (templates : ℤ → Action W (BoxError Time) (List ItemTemplate)) where
  build_items_from_rule_instance : String → Action W (ServiceError Time) (TransactionItems Time)
  build_items_from_rule_instance id = do
    tri_id ← lift (ok_or (parse_i32 id) (bad_request (message "invalid rule_instance_id")))
    rows ←
        map_error (λ _. internal (message "query transaction_item_rule_instance failed"))
          (templates tri_id)
    pure (map from_template rows)

  -- Templates stand in for the items of a transaction that names a rule instance and has none.
  source_items : Transaction Time → Action W (ServiceError Time) (TransactionItems Time)
  unfolding build_items_from_rule_instance
  source_items t = elim t.rule_instance_id [
    | none ↦ pure t.transaction_items
    | some id ↦
        if is_empty t.transaction_items
        then build_items_from_rule_instance id
        else pure t.transaction_items
  ]

  unfoldable pub apply_rules :
      Time → Transaction Time → Action W (ServiceError Time) (IntraTransaction Time)
  unfolding source_items
  apply_rules approval_time t =
      if not (expected_values t)
      then raise (bad_request (message "missing expected transaction values"))
      else (do
        map_error (λ _. internal (message "failed to get db connection")) connect
        items ← source_items t
        applied ←
            apply_transaction_item_rules float conn cache fresh (sequence_of t.debitor_first)
              (set_empty_rule_exec_ids items)
        approved ←
            apply_approval_rules conn cache approval_time (sequence_of t.debitor_first) applied
        labeled ← lift (
            map_err (λ text. internal (message text))
              (label_approved_transaction_items clock (sequence_of t.debitor_first) approved))
        lift (map_err internal (create_response float labeled t)))
