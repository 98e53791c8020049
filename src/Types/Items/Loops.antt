-- ===== src/Types/Items/Loops.antt =====
-- crates/types/src/transaction_item.rs: the loops over a list of items that carry an accumulator.
pub mod Pending
pub mod Verdict
pub mod Struck
pub mod Equality
pub mod Funds
use mxfactorial.Prelude.{
  ℕ, suc, ◌+◌, String, not, [], ◌∷◌, Option, none, some, ◌==◌, string_eq, nat_eq, Eq, Outcome, ok,
  err, panic, ◌>>=◌, ◌>>◌, unwrap, err_if, length, is_empty, is_some, filter, if◌then◌else◌,
}
use mxfactorial.Prelude.Maps.{Map, lookup, insert}
use mxfactorial.External.{DecimalOps, FloatOps, InstantOps}
use mxfactorial.Types.Role.{AccountRole}
use mxfactorial.Types.Approval.{ApprovalError}
use mxfactorial.Types.Item.{
  TransactionItem, TransactionItemError, item_pending_role_approval, price_times_quantity,
  item_equality,
}
use mxfactorial.Types.Item.Equality.{item_eq}
use mxfactorial.Types.Items.{TransactionItems}

module _ {Time F : Type 0} (float : FloatOps F) where
  sum_from {ℓ} : {E : Type ℓ} → F → TransactionItems Time → Outcome E F
  sum_from sum [] = ok sum
  sum_from sum (ti ∷ rest) = do
    item_price ← unwrap (float.parse ti.price)
    item_quantity ← unwrap (float.parse ti.quantity)
    sum_from (float.add sum (float.mul item_price item_quantity)) rest

  unfoldable pub sum_value {ℓ} : {E : Type ℓ} → TransactionItems Time → Outcome E String
  unfolding sum_from
  sum_value items = do sum ← sum_from float.zero items; ok (float.fixed sum)

-- `current_value + value`, or the value for a new debitor
pub added {ℓ} : {E : Type ℓ} {D : Type 0} → DecimalOps D → Option D → D → Outcome E D
added dec none value = ok value
added dec (some current) value = unwrap (dec.add current value)

module _ {Time D : Type 0} (dec : DecimalOps D) where
  -- One round: debitors who already paid are skipped.
  pub require_funds {ℓ} : {E : Type ℓ} → TransactionItem Time → Map D → Outcome E (Map D)
  unfolding added
  require_funds ti funds = if is_some ti.debitor_approval_time then ok funds else do
    value ← price_times_quantity dec ti
    total ← added dec (lookup ti.debitor funds) value
    ok (insert ti.debitor total funds)

  pub required_from {ℓ} : {E : Type ℓ} → Map D → TransactionItems Time → Outcome E (Map D)
  unfolding require_funds
  required_from funds [] = ok funds
  required_from funds (ti ∷ rest) = require_funds ti funds >>= λ more. required_from more rest

  unfoldable pub map_required_funds_from_debitors {ℓ} :
      {E : Type ℓ} → TransactionItems Time → Outcome E (Map D)
  unfolding required_from
  map_required_funds_from_debitors items = required_from [] items

-- The counters of `TransactionItems::test_pending_role_approval`.
pub record PendingTally (Time : Type 0) : Type 0 where
  pub previously : ℕ
  pub prev_err : ApprovalError Time
  pub zero : ℕ
  pub zero_err : ApprovalError Time

module _ {Time : Type 0} where
  pub tally_item :
      PendingTally Time
      → Outcome (ApprovalError Time) (Unit {0})
      → Outcome (ApprovalError Time) (PendingTally Time)
  tally_item s (ok _) = ok s
  tally_item s (err (ApprovalError.previously_approved t)) =
      ok
        (record s { previously = s.previously + 1; prev_err = ApprovalError.previously_approved t })
  tally_item s (err (ApprovalError.zero_approvals_for_account a)) =
      ok (record s { zero = s.zero + 1; zero_err = ApprovalError.zero_approvals_for_account a })
  tally_item s (err e) = err e
  tally_item s panic = panic

  abbrev pub tally_start : Time → PendingTally Time
  tally_start started = record {
    previously = 0;
    prev_err = ApprovalError.previously_approved started;
    zero = 0;
    zero_err = ApprovalError.zero_approvals_for_account "";
  }

  pub tally_result : ℕ → PendingTally Time → Outcome (ApprovalError Time) (Unit {0})
  tally_result len s =
      if s.previously == 0
      then ok tt
      else if s.previously == len
      then err s.prev_err
      else if s.zero == len
      then err s.zero_err
      else err ApprovalError.incomplete_previous_approval

module _ {Time : Type 0} (clock : InstantOps Time) where
  -- `now i j` is the instant read for approval `j` of item `i`.
  pub tally_items :
      (ℕ → ℕ → Time)
      → String
      → AccountRole
      → PendingTally Time
      → TransactionItems Time
      → Outcome (ApprovalError Time) (PendingTally Time)
  unfolding tally_item
  tally_items now auth_account role s [] = ok s
  tally_items now auth_account role s (ti ∷ rest) =
      tally_item s (item_pending_role_approval clock (now 0) auth_account role ti) >>= λ s'.
      tally_items (λ i. now (suc i)) auth_account role s' rest

  -- `started` is the instant read before the loop.
  unfoldable pub items_pending_role_approval :
      Time
      → (ℕ → ℕ → Time)
      → String
      → AccountRole
      → TransactionItems Time
      → Outcome (ApprovalError Time) (Unit {0})
  unfolding tally_items tally_result
  items_pending_role_approval started now auth_account role items = do
    s ← tally_items now auth_account role (tally_start started) items
    tally_result (length items) s

module _ {Time D : Type 0} ⦃e : Eq Time⦄ (dec : DecimalOps D) where
  -- `missing_items.retain(|x| x != item)`
  abbrev pub retain_others : TransactionItem Time → TransactionItems Time → TransactionItems Time
  retain_others item = filter (λ x. not (x == item))

  pub strike {ℓ} :
      {E : Type ℓ}
      → TransactionItem Time
      → TransactionItems Time
      → TransactionItems Time
      → Outcome E (TransactionItems Time)
  strike item [] missing = ok missing
  strike item (other ∷ rest) missing = do
    same ← item_equality dec item other
    strike item rest (if same then retain_others item missing else missing)

  pub strike_all {ℓ} :
      {E : Type ℓ}
      → TransactionItems Time
      → TransactionItems Time
      → TransactionItems Time
      → Outcome E (TransactionItems Time)
  unfolding strike
  strike_all [] others missing = ok missing
  strike_all (item ∷ rest) others missing =
      strike item others missing >>= λ left. strike_all rest others left

  -- `TransactionItems::test_equality`
  unfoldable pub items_equality :
      TransactionItems Time → TransactionItems Time → Outcome (TransactionItemError Time) (Unit {0})
  unfolding strike_all
  items_equality items others = do
    err_if (not (length items == length others))
        TransactionItemError.unequal_transaction_items_count
    missing ← strike_all items others items
    err_if (not (is_empty missing)) (TransactionItemError.missing_transaction_items missing)
