-- ===== src/Types/Approval.antt =====
-- crates/types/src/approval.rs: one approver's answer to one side of a transaction item.
pub mod Equality
pub mod Pending
pub mod Verdict
pub mod Filter
use mxfactorial.Prelude.{
  ℕ, suc, ◌+◌, String, Bool, true, false, ◌&&◌, ◌||◌, List, [], ◌∷◌, Option, none, some, ◌==◌,
  string_eq, Outcome, ok, err, panic, ◌>>=◌, ◌>>◌, unwrap, err_if, eqb, length, is_empty, is_none,
  filter, if◌then◌else◌, ℤ, int_eq, get_elem?, is_some, nat_eq, ok_or,
}
use mxfactorial.Prelude.Numeral.{parse_i32}
use mxfactorial.External.{InstantOps}
use mxfactorial.Types.Role.{AccountRole, role_eq}

pub data ApprovalError (Time : Type 0) : Type 0 where
  expiration_time_lapsed : ApprovalError Time
  previously_approved : Time → ApprovalError Time
  previously_rejected : ApprovalError Time
  zero_approvals : ApprovalError Time
  zero_approvals_for_account : String → ApprovalError Time
  incomplete_previous_approval : ApprovalError Time
  missing_transaction_id : ApprovalError Time
  missing_transaction_item_id : ApprovalError Time

pub record Approval (Time : Type 0) : Type 0 where
  pub id : Option String
  pub rule_instance_id : Option String
  pub transaction_id : Option String
  pub transaction_item_id : Option String
  pub account_name : String
  pub account_role : AccountRole
  pub device_id : Option String
  pub device_latlng : Option String
  pub approval_time : Option Time
  pub rejection_time : Option Time
  pub expiration_time : Option Time

-- `struct Approvals(pub Vec<Approval>)`
abbrev pub Approvals : Type 0 → Type 0
Approvals Time = List (Approval Time)

module _ {Time : Type 0} (clock : InstantOps Time) where
  -- `TZTime::not_lapsed`, at the instant that the clock reads
  pub not_lapsed : Time → Time → Bool
  not_lapsed now t = clock.later t now

  pub check_approved : Approval Time → Outcome (ApprovalError Time) (Unit {0})
  check_approved a = elim a.approval_time [
    | none ↦ ok tt
    | some time ↦ err (previously_approved time)
  ]

  pub expiration_time_not_lapsed : Time → Approval Time → Outcome (ApprovalError Time) (Unit {0})
  unfolding not_lapsed
  expiration_time_not_lapsed now a = elim a.expiration_time [
    | none ↦ ok tt
    | some t ↦ if not_lapsed now t then ok tt else err expiration_time_lapsed
  ]

  pub check_rejected : Approval Time → Outcome (ApprovalError Time) (Unit {0})
  check_rejected a = err_if (is_some a.rejection_time) previously_rejected

  pub test_pending : Time → Approval Time → Outcome (ApprovalError Time) (Unit {0})
  unfolding check_approved expiration_time_not_lapsed check_rejected
  test_pending now a = do expiration_time_not_lapsed now a; check_approved a; check_rejected a

module _ {Time : Type 0} where
  unfoldable pub get_approvals_per_role : AccountRole → Approvals Time → Approvals Time
  get_approvals_per_role role approvals = filter (λ a. a.account_role == role) approvals

  pub account_role_approvals :
      String → AccountRole → Approvals Time → Outcome (ApprovalError Time) (Approvals Time)
  account_role_approvals auth_account role approvals = do
    err_if (is_empty approvals) (zero_approvals_for_account auth_account)
    ok (filter (λ a. a.account_name == auth_account && a.account_role == role) approvals)

  -- One round of the loop over the pending tests: an earlier approval counts, any other error ends it.
  pub tally_approved : ℕ → Outcome (ApprovalError Time) (Unit {0}) → Outcome (ApprovalError Time) ℕ
  tally_approved n (ok _) = ok n
  tally_approved n (err (previously_approved _)) = ok (n + 1)
  tally_approved n (err e) = err e
  tally_approved n panic = panic

module _ {Time : Type 0} (clock : InstantOps Time) where
  -- `now i` is the instant that round `i` reads.
  pub count_approved : (ℕ → Time) → ℕ → Approvals Time → Outcome (ApprovalError Time) ℕ
  unfolding test_pending tally_approved
  count_approved now n [] = ok n
  count_approved now n (a ∷ rest) = tally_approved n (test_pending clock (now 0) a) >>= λ m.
      count_approved (λ i. now (suc i)) m rest

  -- `account_role_approvals.0[0].approval_time.unwrap()`
  pub first_approval_time : Approvals Time → Outcome (ApprovalError Time) Time
  first_approval_time [] = panic
  first_approval_time (a ∷ rest) = unwrap a.approval_time

  pub pending_result : Approvals Time → ℕ → Outcome (ApprovalError Time) (Unit {0})
  unfolding first_approval_time
  pending_result approvals n =
      if n == 0
      then ok tt
      else if n == length approvals
      then (first_approval_time approvals >>= λ t. err (previously_approved t))
      else err incomplete_previous_approval

  unfoldable pub test_pending_role_approval :
      (ℕ → Time) → String → AccountRole → Approvals Time → Outcome (ApprovalError Time) (Unit {0})
  unfolding account_role_approvals count_approved pending_result
  test_pending_role_approval now auth_account role approvals = do
    mine ← account_role_approvals auth_account role approvals
    err_if (is_empty mine) (zero_approvals_for_account auth_account)
    n ← count_approved now 0 mine
    pending_result mine n

module _ {Time : Type 0} where
  -- `a.transaction_id` and `a.transaction_item_id`, read as `i32`
  unfoldable pub approval_ids : Approval Time → Outcome (ApprovalError Time) (ℤ × ℤ)
  approval_ids a = do
    transaction_id ← ok_or a.transaction_id missing_transaction_id
    transaction_item_id ← ok_or a.transaction_item_id missing_transaction_item_id
    t ← unwrap (parse_i32 transaction_id)
    i ← unwrap (parse_i32 transaction_item_id)
    ok (t, i)

  unfoldable pub filter_by_transaction_and_transaction_item :
      ℤ → ℤ → Approvals Time → Outcome (ApprovalError Time) (Approvals Time)
  unfolding approval_ids
  filter_by_transaction_and_transaction_item transaction_id transaction_item_id [] = ok []
  filter_by_transaction_and_transaction_item transaction_id transaction_item_id (a ∷ rest) = do
    ids ← approval_ids a
    filtered ← filter_by_transaction_and_transaction_item transaction_id transaction_item_id rest
    ok (if ids.0 == transaction_id && ids.1 == transaction_item_id then a ∷ filtered else filtered)
