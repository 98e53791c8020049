-- ===== src/Tests/Service.antt =====
-- Examples of the theorems on the service crate.
use mathlib.Core.List.Perm
use mathlib.Core.Logic.Or
use mathlib.Core.List.{
  Mem, Mem-prop, mem-cons_self, eq-or-mem_of_mem-cons, Subset, mem-cons_of_mem, not-mem-nil,
}
use mxfactorial.Prelude.{
  ℕ, String, true, [], ◌∷◌, none, some, Outcome, ok, err, ◌≡◌, refl, ◌⊎◌, inl, pos, is_some, zero,
  suc, List, ◌==◌, string_eq, eq_of_beq, if◌then◌else◌, ◌≢◌, panic, Bool-cases, inr,
}
use mxfactorial.Prelude.Numeral.{parse_i32}
use mxfactorial.Effect.Refusal.{Refused}
use mxfactorial.Types.Role.{debitor}
use mxfactorial.Types.Approval.{
  previously_approved, expiration_time_lapsed, approval_ids,
  filter_by_transaction_and_transaction_item, test_pending_role_approval,
}
use mxfactorial.Types.Errors.{BoxError}
use mxfactorial.Types.Item.{
  add_approvals, test_unique_contra_accounts, item_pending_role_approval, price_times_quantity,
}
use mxfactorial.Types.Items.{
  filter_by_transaction, items_unique_contra_accounts, items_add_approvals, list_unique_debitors,
}
use mxfactorial.Types.Items.Loops.{items_pending_role_approval, map_required_funds_from_debitors}
use mxfactorial.Types.Items.Contra.{no_self_payment}
use mxfactorial.Types.Transaction.{
  Transaction, transaction_pending_role_approval, build, add_transaction_items,
}
use mxfactorial.Types.Messages.{IntraTransaction, intra_transaction}
use mxfactorial.Service.Model.{Model}
use mxfactorial.Service.Accounts.{get_debitor_account_balances, change_account_balances}
use mxfactorial.Service.Lookup.{get_transaction_with_transaction_items_and_approvals_by_id}
use mxfactorial.Cache.Key.{default_segments, display, approvers}
use mxfactorial.Cache.Redis.{RedisCommands, get_members, set_members, add_member, redis_cache}
use mxfactorial.Tests.Caches.{floats, no_codec}
use mxfactorial.Service.Funds.{test_funds, test_sufficient_debitor_funds}
use mxfactorial.Service.Funds.Covered.{test_sufficient_debitor_funds-covers}
use mxfactorial.Types.Balance.{AccountBalance, AccountBalances, get_account_balance}
use mxfactorial.Service.ReadThrough.{read_through, get_account_approvers}
use mxfactorial.Service.ReadThrough.Approvers.{SetLaws, Answered, get_account_approvers-Answered}
use mxfactorial.Service.Approve.{approve, approve_tested, earlier_approval, parse_id}
use mxfactorial.Service.Approve.Sound.{Solvent, approve-Sound}
use mxfactorial.Service.Approve.Checks.{
  approve-self_payment, approve-underfunded, approve-not_pending,
}
use mxfactorial.Service.Approve.Writes.{balanced, approve-approves, approve-previously_approved}
use mxfactorial.Tests.{
  clock, money, at_five, given, open_approval, item, sale, asked, transaction, request, balances,
  conn, same_order,
}

abbrev run : Transaction ℕ → ℕ → Outcome (BoxError ℕ) (IntraTransaction ℕ) × ℕ
run = approve money clock conn same_order 5 at_five "alice" debitor

-- The request has an item between bob and himself.
approve-self_payment_example :
    Refused (run (transaction (asked ∷ item "bob" "bob" none ∷ []) none) 0) 0
approve-self_payment_example =
    approve-self_payment money clock conn same_order 5 at_five "alice" debitor
      (transaction (asked ∷ item "bob" "bob" none ∷ []) none) 0 (λ accounts w. refl) (asked ∷ []) []
      (item "bob" "bob" none) refl refl

abbrev late : Transaction ℕ
late =
    transaction
      (item "alice" "bob" (some (record open_approval { expiration_time = some 4 } ∷ [])) ∷ []) none

approve-not_pending_example : Refused (run late 0) 0
unfolding transaction_pending_role_approval items_pending_role_approval item_pending_role_approval
    test_pending_role_approval
approve-not_pending_example =
    approve-not_pending money clock conn same_order 5 at_five "alice" debitor late 0
      (λ accounts w. refl) expiration_time_lapsed refl (λ t h. cc)

approve-underfunded_example : Refused (run (transaction (asked ∷ asked ∷ []) none) 0) 0
unfolding map_required_funds_from_debitors price_times_quantity
approve-underfunded_example =
    approve-underfunded money clock conn same_order 5 at_five "alice" debitor
      (transaction (asked ∷ asked ∷ []) none) 0 (("alice", 12) ∷ []) balances refl refl
      (Perm.refl (same_order (("alice", 12) ∷ []))) refl

test_sufficient_debitor_funds-covers_example :
    (available : AccountBalances ℕ) × (b : AccountBalance ℕ) × ((conn.select_account_balances_query
        (list_unique_debitors (asked ∷ []))
        0).0
      ≡ ok available)
    × (get_account_balance "alice" available ≡ some b)
    × (money.ge b.current_balance 6 ≡ true)
unfolding test_sufficient_debitor_funds map_required_funds_from_debitors price_times_quantity
    get_debitor_account_balances test_funds
test_sufficient_debitor_funds-covers_example =
    test_sufficient_debitor_funds-covers money conn same_order (asked ∷ []) 0 0 "alice" 6
      (λ m. Perm.refl (same_order m)) refl refl

-- A world counts the members that Redis holds; only alice can be added.
abbrev held : ℕ → List String
held zero = []
held (suc n) = "alice" ∷ []

abbrev add_alice : String → ℕ → Outcome String ℕ × ℕ
add_alice x w = if x == "alice" then (ok 1, 1) else (err "down", w)

abbrev failing : RedisCommands ℕ ℕ
failing = record {
  get = λ _ w. (ok none, w);
  set = λ _ _ w. (ok tt, w);
  sadd = λ _ x w. add_alice x w;
  smembers = λ _ w. (ok (held w), w);
  del = λ _ w. (ok 1, w);
  incr_by_float = λ _ n w. (ok n, w);
  call_incr = λ _ text w. (ok text, w);
}

abbrev two_approvers : Model ℕ ℕ ℕ
two_approvers = record conn { select_approvers_query = λ _ w. (ok ("alice" ∷ "bob" ∷ []), w) }

add_alice-ends : (x : String) (w : ℕ) → (add_alice x w).0 ≢ panic
add_alice-ends x w h = elim (Bool-cases (x == "alice")) [
  | inl same ↦ cc (rw same at h)
  | inr other ↦ cc (rw other at h)
]

add_alice-held : (x : String) (w : ℕ) → Subset (held (add_alice x w).1) (x ∷ held w)
add_alice-held x w a m = elim (Bool-cases (x == "alice")) [
  | inl same ↦
      let alice : x ≡ "alice" = eq_of_beq x "alice" same in
      let only : Mem a ("alice" ∷ []) = rw same at m in
      Or.elim (Mem-prop {a = a} {l = x ∷ held w}) (eq-or-mem_of_mem-cons only)
        (λ e. rw (e, alice) mem-cons_self) (λ n. absurd (not-mem-nil n))
  | inr other ↦ mem-cons_of_mem x (rw other at m)
]

abbrev alices : String
alices = display default_segments (approvers "alice")

abbrev failing_laws : SetLaws failing alices (two_approvers.select_approvers_query "alice")
failing_laws = record {
  held = held;
  stored = λ w. "alice" ∷ "bob" ∷ [];
  smembers_reads = λ w. inl refl;
  sadd_ends = add_alice-ends;
  sadd_held = add_alice-held;
  sadd_stored = λ x w. refl;
  fetch_reads = λ w. refl;
}

get_account_approvers-Answered_example : Answered failing_laws 0 (
    get_account_approvers two_approvers
      (some (redis_cache floats failing default_segments no_codec no_codec no_codec))
      "alice"
      0)
get_account_approvers-Answered_example =
    get_account_approvers-Answered two_approvers floats failing default_segments no_codec no_codec
      no_codec "alice" failing_laws 0 (λ a m. absurd (not-mem-nil m))

-- The set is left with one of the two approvers, and the next read answers it alone.
get_account_approvers_partly :
    (get_account_approvers two_approvers
      (some (redis_cache floats failing default_segments no_codec no_codec no_codec))
      "alice"
      0).1
    ≡ 1
unfolding get_account_approvers read_through redis_cache get_members set_members add_member
get_account_approvers_partly = refl

approve-previously_approved_example :
    run (transaction (item "alice" "bob" (some (given ∷ [])) ∷ []) none)
    ≡ approve money clock
        (record conn { update_approvals_by_account_and_role_query = λ _ _ _ w. (ok none, 99) })
        same_order
        5
        at_five
        "alice"
        debitor
        (transaction (item "alice" "bob" (some (given ∷ [])) ∷ []) none)
unfolding transaction_pending_role_approval items_pending_role_approval item_pending_role_approval
    test_pending_role_approval
approve-previously_approved_example =
    approve-previously_approved money clock conn same_order 5 at_five "alice" debitor
      (transaction (item "alice" "bob" (some (given ∷ [])) ∷ []) none) 4 (λ _ _ _ w. (ok none, 99))
      refl

abbrev answered : Transaction ℕ
answered = transaction (record sale { approvals = some (given ∷ []) } ∷ []) (some 6)

approve-approves_example : run request 0 ≡ balanced conn "alice" answered 1
unfolding transaction_pending_role_approval items_pending_role_approval item_pending_role_approval
    test_pending_role_approval test_sufficient_debitor_funds map_required_funds_from_debitors
    price_times_quantity get_debitor_account_balances test_funds items_unique_contra_accounts
    test_unique_contra_accounts parse_i32 get_transaction_with_transaction_items_and_approvals_by_id
    build items_add_approvals add_approvals add_transaction_items filter_by_transaction
    filter_by_transaction_and_transaction_item approval_ids
approve-approves_example =
    approve-approves money clock conn same_order 5 at_five "alice" debitor request "1" (pos 1)
      (some 7) answered 0 1 1 refl refl refl refl refl refl refl

approve-Sound_example :
    Solvent money conn same_order request.transaction_items 0
    × (no_self_payment request.transaction_items ≡ true)
    × ((transaction_pending_role_approval clock 5 at_five "alice" debitor request ≡ ok tt)
        ⊎ ((t : ℕ) × (transaction_pending_role_approval clock 5 at_five "alice" debitor request
              ≡ err (previously_approved t))))
    × (is_some request.id ≡ true)
unfolding transaction_pending_role_approval items_pending_role_approval item_pending_role_approval
    test_pending_role_approval test_sufficient_debitor_funds map_required_funds_from_debitors
    price_times_quantity get_debitor_account_balances test_funds items_unique_contra_accounts
    test_unique_contra_accounts parse_i32 get_transaction_with_transaction_items_and_approvals_by_id
    build items_add_approvals add_approvals add_transaction_items filter_by_transaction
    filter_by_transaction_and_transaction_item approval_ids approve approve_tested earlier_approval
    parse_id change_account_balances
approve-Sound_example =
    approve-Sound money clock conn same_order 5 at_five "alice" debitor request 0 2
      (intra_transaction "alice" answered) refl
