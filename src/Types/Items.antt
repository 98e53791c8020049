-- ===== src/Types/Items.antt =====
-- crates/types/src/transaction_item.rs: the list of items of a transaction, and its methods.
pub mod Accounts
pub mod Profiles
pub mod Clean
pub mod Contra
pub mod Loops
use mxfactorial.Prelude.{
  ℕ, suc, ◌+◌, String, Bool, true, false, not, List, [], ◌∷◌, ◌++◌, map, Option, none, some, ◌==◌,
  string_eq, nat_eq, int_eq, Eq, contains, Outcome, ok, err, panic, ◌>>=◌, ◌>>◌, unwrap, map_err,
  err_if, map_outcome, ok_or, length, is_empty, is_some, is_none, filter, if◌then◌else◌, ℤ,
}
use mxfactorial.Prelude.Maps.{Map, lookup, insert}
use mxfactorial.Prelude.Numeral.{parse_i32, show_i32}
use mxfactorial.External.{DecimalOps, FloatOps, InstantOps}
use mxfactorial.Types.Role.{AccountRole}
use mxfactorial.Types.Approval.{ApprovalError, Approvals}
use mxfactorial.Types.Account.{ProfileIds, get_id}
use mxfactorial.Types.Item.{
  TransactionItem, TransactionItemError, test_unique_contra_accounts, list_approvals,
  item_pending_role_approval, add_approvals, set_none_rule_exec_ids_as_empty, price_times_quantity,
  item_equality,
}
use mxfactorial.Types.Item.Equality.{item_eq}
use mxfactorial.Types.Errors.{BoxError, item_error, approval_error}

abbrev pub TransactionItems : Type 0 → Type 0
TransactionItems Time = List (TransactionItem Time)

-- `if !accounts.contains(account) { accounts.push(account) }`
abbrev pub push_new : String → List String → List String
push_new account accounts = if contains accounts account then accounts else accounts ++ account ∷ []

-- An id that is there stays; one that is not is looked up and must be found.
pub filled_id {ℓ} : {E : Type ℓ} → ProfileIds → String → Option String → Outcome E (Option String)
filled_id ids account (some id) = ok (some id)
filled_id ids account none = do id ← unwrap (get_id account ids); ok (some (show_i32 id))

module _ {Time : Type 0} where
  list_accounts_from : List String → TransactionItems Time → List String
  list_accounts_from accounts [] = accounts
  list_accounts_from accounts (ti ∷ rest) =
      list_accounts_from (push_new ti.debitor (push_new ti.creditor accounts)) rest

  pub list_accounts : TransactionItems Time → List String
  unfolding list_accounts_from
  list_accounts items = list_accounts_from [] items

  list_unique_debitors_from : List String → TransactionItems Time → List String
  list_unique_debitors_from accounts [] = accounts
  list_unique_debitors_from accounts (ti ∷ rest) =
      list_unique_debitors_from (push_new ti.debitor accounts) rest

  unfoldable pub list_unique_debitors : TransactionItems Time → List String
  unfolding list_unique_debitors_from
  list_unique_debitors items = list_unique_debitors_from [] items

  pub add_profile_ids {ℓ} :
      {E : Type ℓ} → ProfileIds → TransactionItems Time → Outcome E (TransactionItems Time)
  unfolding filled_id
  add_profile_ids ids [] = ok []
  add_profile_ids ids (ti ∷ rest) = do
    debitor_id ← filled_id ids ti.debitor ti.debitor_profile_id
    creditor_id ← filled_id ids ti.creditor ti.creditor_profile_id
    added ← add_profile_ids ids rest
    ok (record ti { debitor_profile_id = debitor_id; creditor_profile_id = creditor_id } ∷ added)

  pub set_empty_rule_exec_ids : TransactionItems Time → TransactionItems Time
  set_empty_rule_exec_ids = map set_none_rule_exec_ids_as_empty

  unfoldable pub items_unique_contra_accounts :
      TransactionItems Time → Outcome (BoxError Time) (Unit {0})
  items_unique_contra_accounts [] = ok tt
  items_unique_contra_accounts (ti ∷ rest) = do
    map_err item_error (test_unique_contra_accounts ti)
    items_unique_contra_accounts rest

  pub items_list_approvals : TransactionItems Time → Outcome (BoxError Time) (Approvals Time)
  items_list_approvals [] = ok []
  items_list_approvals (ti ∷ rest) = do
    first ← map_err approval_error (list_approvals ti)
    others ← items_list_approvals rest
    ok (first ++ others)

  unfoldable pub list_lengths_of_approvals {ℓ} :
      {E : Type ℓ} → TransactionItems Time → Outcome E (List ℕ)
  list_lengths_of_approvals = map_outcome (λ ti. unwrap ti.approvals >>= λ l. ok (length l))

  -- `ti.transaction_id`, read as an `i32`
  pub item_transaction_id : TransactionItem Time → Outcome (TransactionItemError Time) ℤ
  item_transaction_id ti = do
    id ← ok_or ti.transaction_id TransactionItemError.missing_transaction_id
    unwrap (parse_i32 id)

  unfoldable pub filter_by_transaction :
      ℤ → TransactionItems Time → Outcome (TransactionItemError Time) (TransactionItems Time)
  unfolding item_transaction_id
  filter_by_transaction transaction_id [] = ok []
  filter_by_transaction transaction_id (ti ∷ rest) = do
    id ← item_transaction_id ti
    filtered ← filter_by_transaction transaction_id rest
    ok (if id == transaction_id then ti ∷ filtered else filtered)

  unfoldable pub items_add_approvals :
      Approvals Time
      → TransactionItems Time
      → Outcome (TransactionItemError Time) (TransactionItems Time)
  items_add_approvals approvals = map_outcome (add_approvals approvals)

  -- What a client may state of an item; all else is dropped.
  abbrev pub authorized_values : TransactionItem Time → TransactionItem Time
  authorized_values ti = record {
    id = none;
    transaction_id = none;
    item_id = ti.item_id;
    price = ti.price;
    quantity = ti.quantity;
    rule_instance_id = ti.rule_instance_id;
    rule_exec_ids = none;
    unit_of_measurement = ti.unit_of_measurement;
    units_measured = ti.units_measured;
    debitor = ti.debitor;
    creditor = ti.creditor;
    debitor_profile_id = none;
    creditor_profile_id = none;
    debitor_approval_time = none;
    creditor_approval_time = none;
    debitor_rejection_time = none;
    creditor_rejection_time = none;
    debitor_expiration_time = none;
    creditor_expiration_time = none;
    approvals = none;
  }

  unfoldable pub remove_unauthorized_values : TransactionItems Time → TransactionItems Time
  remove_unauthorized_values = map authorized_values

  unfoldable pub filter_user_added : TransactionItems Time → TransactionItems Time
  filter_user_added = filter (λ ti. is_none ti.rule_instance_id)
