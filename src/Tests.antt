-- ===== src/Tests.antt =====
-- Test data: numbers for instants and for money, a world that counts writes, and a small sale.
pub mod Types
pub mod Service
pub mod Rule
pub mod Requests
pub mod Work
pub mod Queries
pub mod Events
pub mod Statements
pub mod Records
pub mod Caches
pub mod Callers
pub mod Gateway
pub mod Texts
use mxfactorial.Prelude.{
  ℕ, suc, ◌+◌, ◌*◌, String, Bool, true, false, List, [], ◌∷◌, Option, none, some, ◌==◌, string_eq,
  Outcome, ok, err, ltb, leb, eqb, ◌≡◌, refl, ◌↔◌, arith, if◌then◌else◌, pos,
}
use mxfactorial.Prelude.Maps.{Map}
use mxfactorial.External.{DecimalOps, FloatOps, InstantOps, InstantLaws}
use mxfactorial.Types.Role.{AccountRole, debitor, creditor}
use mxfactorial.Types.Approval.{Approval}
use mxfactorial.Types.Item.{TransactionItem}
use mxfactorial.Types.Transaction.{Transaction}
use mxfactorial.Types.Balance.{AccountBalance, AccountBalances}
use mxfactorial.Types.Messages.{IntraTransaction, intra_transaction}
use mxfactorial.Types.Errors.{BoxError}
use mxfactorial.Service.Model.{Model}
use mxfactorial.Service.Cache.{Cache, CacheError, cache_miss}
use mxfactorial.Effect.{Action}

-- Numbers of one digit.
abbrev pub digit : String → Option ℕ
digit s =
    if s == "1"
    then some 1
    else if s == "2"
    then some 2
    else if s == "3"
    then some 3
    else if s == "6"
    then some 6
    else none

abbrev pub money : DecimalOps ℕ
money = record {
  parse = digit;
  add = λ a b. some (a + b);
  mul = λ a b. some (a * b);
  eq = eqb;
  ge = λ a b. leb b a;
  minus_one = none;
  to_string = λ n. if eqb n 6 then "6" else "2";
  fixed = λ n. if eqb n 6 then "6" else "2";
}

abbrev pub real : FloatOps ℕ
real = record {
  parse = digit;
  add = λ a b. a + b;
  mul = λ a b. a * b;
  zero = 0;
  fixed = λ n. if eqb n 6 then "6" else "2";
}

abbrev pub clock : InstantOps ℕ
clock = record { later = λ a b. ltb b a; beq = eqb }

later_irrefl : (a : ℕ) → ¬ (ltb a a ≡ true)
later_irrefl a h = ground (arith, h)

later_trans : (a b c : ℕ) → ltb b a ≡ true → ltb c b ≡ true → ltb c a ≡ true
later_trans a b c h k = ground (arith, h, k)

clock_beq : (a b : ℕ) → (eqb a b ≡ true) ↔ (a ≡ b)
clock_beq a b = ground arith

pub clock_laws : InstantLaws clock
clock_laws = record { beq_iff = clock_beq; later_irrefl = later_irrefl; later_trans = later_trans }

abbrev pub at_five : ℕ → ℕ → ℕ
at_five i j = 5

abbrev pub approval : String → AccountRole → Option ℕ → Approval ℕ
approval name role time = record {
  id = some "1";
  rule_instance_id = none;
  transaction_id = some "1";
  transaction_item_id = some "1";
  account_name = name;
  account_role = role;
  device_id = none;
  device_latlng = none;
  approval_time = time;
  rejection_time = none;
  expiration_time = none;
}

abbrev pub given : Approval ℕ
given = approval "alice" debitor (some 4)

abbrev pub open_approval : Approval ℕ
open_approval = approval "alice" debitor none

-- Two units at three each.
abbrev pub item : String → String → Option (List (Approval ℕ)) → TransactionItem ℕ
item payer payee approvals = record {
  id = some "1";
  transaction_id = some "1";
  item_id = "bread";
  price = "3";
  quantity = "2";
  rule_instance_id = none;
  rule_exec_ids = some [];
  unit_of_measurement = none;
  units_measured = none;
  debitor = payer;
  creditor = payee;
  debitor_profile_id = none;
  creditor_profile_id = none;
  debitor_approval_time = none;
  creditor_approval_time = none;
  debitor_rejection_time = none;
  creditor_rejection_time = none;
  debitor_expiration_time = none;
  creditor_expiration_time = none;
  approvals = approvals;
}

abbrev pub sale : TransactionItem ℕ
sale = item "alice" "bob" none

abbrev pub asked : TransactionItem ℕ
asked = item "alice" "bob" (some (open_approval ∷ []))

abbrev pub transaction : List (TransactionItem ℕ) → Option ℕ → Transaction ℕ
transaction items equilibrium = record {
  id = some "1";
  rule_instance_id = none;
  author = some "alice";
  author_device_id = none;
  author_device_latlng = none;
  author_role = some debitor;
  equilibrium_time = equilibrium;
  event_time = none;
  debitor_first = some true;
  sum_value = "6";
  transaction_items = items;
}

abbrev pub stored : Transaction ℕ
stored = transaction [] (some 6)

abbrev pub request : Transaction ℕ
request = transaction (asked ∷ []) none

abbrev pub balances : AccountBalances ℕ
balances =
    record { account_name = "alice"; current_balance = 9; current_transaction_item_id = none } ∷ []

-- A query that writes counts one write.
abbrev pub conn : Model ℕ ℕ ℕ
conn = record {
  insert_account_query = λ _ w. (ok tt, suc w);
  delete_owner_account_query = λ _ w. (ok tt, suc w);
  select_account_balance_query = λ _ w. (ok "5", w);
  select_account_balances_query = λ _ w. (ok balances, w);
  update_account_balances_query = λ _ w. (ok tt, suc w);
  insert_account_balance_query = λ _ _ _ w. (ok tt, suc w);
  select_approvals_by_transaction_id_query = λ _ w. (ok (given ∷ []), w);
  select_approvals_by_transaction_ids_query = λ _ w. (ok [], w);
  update_approvals_by_account_and_role_query = λ _ _ _ w. (ok (some 7), suc w);
  insert_account_profile_query = λ _ w. (ok "1", suc w);
  select_profile_ids_by_account_names_query = λ _ w. (ok [], w);
  select_account_profiles_by_account_names_query = λ _ w. (ok [], w);
  select_transaction_items_by_transaction_id_query = λ _ w. (ok (sale ∷ []), w);
  select_transaction_items_by_transaction_ids_query = λ _ w. (ok [], w);
  select_transaction_by_id_query = λ _ w. (ok stored, w);
  insert_transaction_query = λ _ w. (ok "1", suc w);
  select_last_n_transactions_query = λ _ _ w. (ok [], w);
  select_last_n_requests_query = λ _ _ w. (ok [], w);
  select_transactions_by_ids_query = λ _ w. (ok [], w);
  select_approve_all_credit_rule_instance_exists_query = λ _ w. (ok true, w);
  insert_approve_all_credit_rule_instance_query = λ _ w. (ok tt, suc w);
  select_approvers_query = λ _ w. (ok ("alice" ∷ []), w);
  select_transaction_item_rule_instances_by_role_state_query = λ _ _ w. (ok [], w);
  select_transaction_item_rules_by_role_state_query = λ _ _ w. (ok [], w);
  select_transaction_item_rule_instances_by_role_account_query = λ _ _ w. (ok [], w);
  select_transaction_item_rules_by_role_account_query = λ _ _ w. (ok [], w);
  select_approval_rule_instances_by_role_account_query = λ _ _ w. (ok [], w);
  select_approval_rule_instance_exists_query = λ _ _ _ _ _ w. (ok true, w);
  insert_approval_rule_instance_query = λ _ _ _ _ _ w. (ok tt, suc w);
}

abbrev pub same_order : Map ℕ → Map ℕ
same_order m = m
