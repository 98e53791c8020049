-- ===== src/Types/Transaction.antt =====
-- crates/types/src/transaction.rs: a transaction (an envelope of items) and lists of them.
pub mod Build
use mxfactorial.Prelude.{
  ℕ, String, Bool, false, not, List, [], ◌∷◌, Option, none, some, ◌==◌, string_eq, Outcome, ok,
  ◌>>=◌, ◌>>◌, unwrap, unwrap_result, map_err, err_if, ok_or, map_outcome, is_empty, if◌then◌else◌,
  ℤ,
}
use mxfactorial.Prelude.Numeral.{parse_i32}
use mxfactorial.External.{DecimalOps, FloatOps, InstantOps}
use mxfactorial.Types.Role.{AccountRole, debitor, creditor}
use mxfactorial.Types.Approval.{ApprovalError, Approvals}
use mxfactorial.Types.Item.{TransactionItemError}
use mxfactorial.Types.Errors.{
  TransactionError, BoxError, item_error, transaction_error, missing_author_in_transaction,
  missing_author_in_transaction_items, adding_to_non_empty_transaction_items,
}
use mxfactorial.Types.Items.{
  TransactionItems, items_unique_contra_accounts, items_list_approvals, filter_by_transaction,
  items_add_approvals,
}
use mxfactorial.Types.Items.Loops.{sum_value, items_pending_role_approval}

pub record Transaction (Time : Type 0) : Type 0 where
  pub id : Option String
  pub rule_instance_id : Option String
  pub author : Option String
  pub author_device_id : Option String
  pub author_device_latlng : Option String
  pub author_role : Option AccountRole
  pub equilibrium_time : Option Time
  pub event_time : Option Time
  pub debitor_first : Option Bool
  pub sum_value : String
  pub transaction_items : TransactionItems Time

abbrev pub Transactions : Type 0 → Type 0
Transactions Time = List (Transaction Time)

module _ {Time : Type 0} where
  pub from_rule_instance : String → Option String → Option AccountRole → Transaction Time
  from_rule_instance rule_instance_id author author_role = record {
    id = none;
    rule_instance_id = some rule_instance_id;
    author = author;
    author_device_id = none;
    author_device_latlng = none;
    author_role = author_role;
    equilibrium_time = none;
    event_time = none;
    debitor_first = none;
    sum_value = "0";
    transaction_items = [];
  }

  -- The role of the author in the first item that names the author.
  pub role_in_items : String → TransactionItems Time → Option AccountRole
  role_in_items author [] = none
  role_in_items author (ti ∷ rest) =
      if ti.debitor == author
      then some debitor
      else if ti.creditor == author
      then some creditor
      else role_in_items author rest

  unfoldable pub set_author_role : Transaction Time → Outcome (BoxError Time) (Transaction Time)
  unfolding role_in_items
  set_author_role t = do
    author ← ok_or t.author (transaction_error missing_author_in_transaction)
    role ←
        ok_or (role_in_items author t.transaction_items)
          (transaction_error missing_author_in_transaction_items)
    ok (record t { author_role = some role })

  pub transaction_unique_contra_accounts : Transaction Time → Outcome (BoxError Time) (Unit {0})
  transaction_unique_contra_accounts t = items_unique_contra_accounts t.transaction_items

  pub transaction_list_approvals : Transaction Time → Outcome (BoxError Time) (Approvals Time)
  transaction_list_approvals t = items_list_approvals t.transaction_items

  unfoldable pub transaction_pending_role_approval :
      InstantOps Time
      → Time
      → (ℕ → ℕ → Time)
      → String
      → AccountRole
      → Transaction Time
      → Outcome (ApprovalError Time) (Unit {0})
  transaction_pending_role_approval clock started now auth_account role t =
      items_pending_role_approval clock started now auth_account role t.transaction_items

  -- `Transaction::add_transaction_items`: the items of this transaction, into an empty envelope.
  unfoldable pub add_transaction_items :
      TransactionItems Time → Transaction Time → Outcome TransactionError (Transaction Time)
  add_transaction_items items t = do
    id ← ok_or t.id TransactionError.missing_transaction_id
    err_if (not (is_empty t.transaction_items)) adding_to_non_empty_transaction_items
    transaction_id ← unwrap (parse_i32 id)
    filtered ← unwrap_result (filter_by_transaction transaction_id items)
    ok (record t { transaction_items = filtered })

  unfoldable pub build :
      TransactionItems Time
      → Approvals Time
      → Transaction Time
      → Outcome (BoxError Time) (Transaction Time)
  build items approvals t = do
    with_approvals ← map_err item_error (items_add_approvals approvals items)
    map_err transaction_error (add_transaction_items with_approvals t)

  -- `Transactions::build`
  pub build_all :
      TransactionItems Time
      → Approvals Time
      → Transactions Time
      → Outcome (BoxError Time) (Transactions Time)
  build_all items approvals = map_outcome (λ t. unwrap_result (build items approvals t))

  pub list_ids : Transactions Time → Outcome TransactionError (List ℤ)
  list_ids =
      map_outcome
        (λ t. do id ← ok_or t.id TransactionError.missing_transaction_id; unwrap (parse_i32 id))

  -- `Transactions::add_transaction_items`
  pub add_items_to_all :
      TransactionItems Time → Transactions Time → Outcome TransactionError (Transactions Time)
  add_items_to_all items = map_outcome (add_transaction_items items)

module _ {Time F : Type 0} (float : FloatOps F) where
  -- `Transaction::new`
  pub new_transaction :
      String → Option Time → TransactionItems Time → Outcome (BoxError Time) (Transaction Time)
  new_transaction author equilibrium_time items = do
    sum ← sum_value float items
    unwrap_result (
        set_author_role (record {
          id = none;
          rule_instance_id = none;
          author = some author;
          author_device_id = none;
          author_device_latlng = none;
          author_role = none;
          equilibrium_time = equilibrium_time;
          event_time = none;
          debitor_first = some false;
          sum_value = sum;
          transaction_items = items;
        }))

  pub get_sum_value : Transaction Time → Outcome (BoxError Time) String
  get_sum_value t = sum_value float t.transaction_items

  module _ {D : Type 0} (dec : DecimalOps D) where
    -- The stated sum, as a decimal, against the one computed from the items.
    unfoldable pub test_sum_value :
        Transaction Time → Outcome (TransactionItemError Time) (Unit {0})
    test_sum_value t = do
      stated ← unwrap (dec.parse t.sum_value)
      sum ← sum_value float t.transaction_items
      computed ← unwrap (dec.parse sum)
      err_if (not (dec.eq stated computed))
          (TransactionItemError.sum_value_failure (dec.to_string stated) (dec.to_string computed))
