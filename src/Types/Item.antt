-- ===== src/Types/Item.antt =====
-- crates/types/src/transaction_item.rs: one exchanged good or service, and its methods.
pub mod Equality
use mxfactorial.Prelude.{
  ℕ, String, Bool, true, false, not, ◌&&◌, List, [], ◌∷◌, Option, none, some, ◌==◌, string_eq,
  option_eq, Outcome, ok, err, panic, ◌>>=◌, ◌>>◌, unwrap, unwrap_result, ok_or, err_if, is_empty,
  if◌then◌else◌,
}
use mxfactorial.Prelude.Numeral.{parse_i32}
use mxfactorial.External.{DecimalOps, InstantOps}
use mxfactorial.Types.Role.{AccountRole, debitor, creditor}
use mxfactorial.Types.Approval.{
  ApprovalError, Approvals, test_pending_role_approval, filter_by_transaction_and_transaction_item,
}

pub record TransactionItem (Time : Type 0) : Type 0 where
  pub id : Option String
  pub transaction_id : Option String
  pub item_id : String
  pub price : String
  pub quantity : String
  pub rule_instance_id : Option String
  pub rule_exec_ids : Option (List String)
  pub unit_of_measurement : Option String
  pub units_measured : Option String
  pub debitor : String
  pub creditor : String
  pub debitor_profile_id : Option String
  pub creditor_profile_id : Option String
  pub debitor_approval_time : Option Time
  pub creditor_approval_time : Option Time
  pub debitor_rejection_time : Option Time
  pub creditor_rejection_time : Option Time
  pub debitor_expiration_time : Option Time
  pub creditor_expiration_time : Option Time
  pub approvals : Option (Approvals Time)

pub data TransactionItemError (Time : Type 0) : Type 0 where
  self_payment : String → TransactionItemError Time
  adding_to_non_empty_approvals : TransactionItemError Time
  missing_transaction_id : TransactionItemError Time
  missing_transaction_item_id : TransactionItemError Time
  unmatched_transaction_items : List (TransactionItem Time) → TransactionItemError Time
  missing_transaction_items : List (TransactionItem Time) → TransactionItemError Time
  unequal_transaction_items_count : TransactionItemError Time
  sum_value_failure : String → String → TransactionItemError Time

module _ {Time : Type 0} where
  abbrev pub get_account_by_role : AccountRole → TransactionItem Time → String
  get_account_by_role debitor ti = ti.debitor
  get_account_by_role creditor ti = ti.creditor

  abbrev pub set_profile_id : AccountRole → String → TransactionItem Time → TransactionItem Time
  set_profile_id debitor id ti = record ti { debitor_profile_id = some id }
  set_profile_id creditor id ti = record ti { creditor_profile_id = some id }

  abbrev pub set_none_rule_exec_ids_as_empty : TransactionItem Time → TransactionItem Time
  set_none_rule_exec_ids_as_empty ti = record ti {
    rule_exec_ids = elim ti.rule_exec_ids [ none ↦ some [] | some ids ↦ some ids ];
  }

  unfoldable pub test_unique_contra_accounts :
      TransactionItem Time → Outcome (TransactionItemError Time) (Unit {0})
  test_unique_contra_accounts ti =
      if not (ti.debitor == ti.creditor) then ok tt else err (self_payment ti.debitor)

  pub list_approvals : TransactionItem Time → Outcome (ApprovalError Time) (Approvals Time)
  list_approvals ti = ok_or ti.approvals ApprovalError.zero_approvals

  unfoldable pub item_pending_role_approval :
      InstantOps Time
      → (ℕ → Time)
      → String
      → AccountRole
      → TransactionItem Time
      → Outcome (ApprovalError Time) (Unit {0})
  item_pending_role_approval clock now auth_account role ti = do
    approvals ← ok_or ti.approvals ApprovalError.zero_approvals
    test_pending_role_approval clock now auth_account role approvals

  -- `self.approvals.is_some() && !self.approvals.unwrap().is_empty()`
  abbrev pub has_approvals : TransactionItem Time → Bool
  has_approvals ti = elim ti.approvals [ none ↦ false | some l ↦ not (is_empty l) ]

  unfoldable pub add_approvals :
      Approvals Time
      → TransactionItem Time
      → Outcome (TransactionItemError Time) (TransactionItem Time)
  add_approvals approvals ti = do
    err_if (has_approvals ti) TransactionItemError.adding_to_non_empty_approvals
    id ← ok_or ti.id TransactionItemError.missing_transaction_item_id
    tr_id ← ok_or ti.transaction_id TransactionItemError.missing_transaction_id
    transaction_id ← unwrap (parse_i32 tr_id)
    transaction_item_id ← unwrap (parse_i32 id)
    filtered ←
        unwrap_result
          (filter_by_transaction_and_transaction_item transaction_id transaction_item_id approvals)
    ok (record ti { approvals = some filtered })

module _ {Time D : Type 0} (dec : DecimalOps D) where
  unfoldable pub price_times_quantity {ℓ} : {E : Type ℓ} → TransactionItem Time → Outcome E D
  price_times_quantity ti = do
    price ← unwrap (dec.parse ti.price)
    quantity ← unwrap (dec.parse ti.quantity)
    unwrap (dec.mul price quantity)

  unfoldable pub revenue {ℓ} : {E : Type ℓ} → TransactionItem Time → Outcome E D
  revenue ti = price_times_quantity ti

  unfoldable pub expense {ℓ} : {E : Type ℓ} → TransactionItem Time → Outcome E D
  expense ti = do
    value ← price_times_quantity ti
    minus_one ← unwrap dec.minus_one
    unwrap (dec.mul value minus_one)

  unfoldable pub revenue_string {ℓ} : {E : Type ℓ} → TransactionItem Time → Outcome E String
  revenue_string ti = do value ← revenue ti; ok (dec.fixed value)

  unfoldable pub expense_string {ℓ} : {E : Type ℓ} → TransactionItem Time → Outcome E String
  expense_string ti = do value ← expense ti; ok (dec.fixed value)

  -- `TransactionItem::test_equality`: prices and quantities as decimals, the ids left out.
  unfoldable pub item_equality {ℓ} :
      {E : Type ℓ} → TransactionItem Time → TransactionItem Time → Outcome E Bool
  item_equality a b = do
    self_price ← unwrap (dec.parse a.price)
    other_price ← unwrap (dec.parse b.price)
    self_quantity ← unwrap (dec.parse a.quantity)
    other_quantity ← unwrap (dec.parse b.quantity)
    ok (
        (a.item_id == b.item_id)
        && ((dec.eq self_price other_price)
            && ((dec.eq self_quantity other_quantity)
                && ((a.unit_of_measurement == b.unit_of_measurement)
                    && ((a.units_measured == b.units_measured)
                        && ((a.debitor == b.debitor) && (a.creditor == b.creditor)))))))
