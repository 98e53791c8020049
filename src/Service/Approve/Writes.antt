-- ===== src/Service/Approve/Writes.antt =====
-- `Service::approve` (crates/service/src/lib.rs): which of its queries that write are run.
use mxfactorial.Prelude.{
  ℕ, String, Option, none, some, Outcome, ok, err, ◌≡◌, refl, is_some, Option-cases, ℤ, inl, inr,
}
use mxfactorial.Prelude.Maps.{Map}
use mxfactorial.Prelude.Numeral.{parse_i32}
use mxfactorial.Effect.{Action, pure, when, continue, ◌>>◌}
use mxfactorial.External.{DecimalOps, InstantOps}
use mxfactorial.Types.Role.{AccountRole}
use mxfactorial.Types.Approval.{previously_approved}
use mxfactorial.Types.Errors.{BoxError}
use mxfactorial.Types.Items.{items_unique_contra_accounts}
use mxfactorial.Types.Transaction.{Transaction, transaction_pending_role_approval}
use mxfactorial.Types.Messages.{IntraTransaction, intra_transaction}
use mxfactorial.Service.Model.{Model}
use mxfactorial.Service.Funds.{test_sufficient_debitor_funds}
use mxfactorial.Service.Lookup.{get_transaction_with_transaction_items_and_approvals_by_id}
use mxfactorial.Service.Accounts.{change_account_balances, get_debitor_account_balances}
use mxfactorial.Service.Approve.{approve, approve_tested, earlier_approval, parse_id}

module _ {W Time D : Type 0} (conn : Model W Time D) (auth_account : String) where
  -- The answer to an approval: at equilibrium, after the balances have changed.
  abbrev pub balanced : Transaction Time → W → Outcome (BoxError Time) (IntraTransaction Time) × W
  balanced post u = elim post.equilibrium_time [
    | none ↦ (ok (intra_transaction auth_account post), u)
    | some _ ↦
        continue (conn.update_account_balances_query post.transaction_items u).0
          (λ _. pure (intra_transaction auth_account post))
          (conn.update_account_balances_query post.transaction_items u).1
  ]

module _ {W Time D : Type 0} (dec : DecimalOps D) (clock : InstantOps Time) (conn : Model W Time D)
    (order : Map D → Map D) (started : Time) (now : ℕ → ℕ → Time) (auth_account : String)
    (role : AccountRole) (request : Transaction Time) where
  at_equilibrium :
      (post : Transaction Time) (u : W)
      → (when (is_some post.equilibrium_time) (change_account_balances conn post.transaction_items)
            >> pure {E = BoxError Time} (intra_transaction auth_account post))
          u
        ≡ balanced conn auth_account post u
  unfolding change_account_balances
  at_equilibrium post u = elim (Option-cases post.equilibrium_time) [
    | inl e ↦ rw e refl
    | inr (t, e) ↦ rw e refl
  ]

  -- An earlier approval is not written again: the run is the same whatever the query that would
  -- write it does.
  pub approve-previously_approved :
      (t : Time) (other : ℤ → String → AccountRole → Action W (BoxError Time) (Option Time))
      → transaction_pending_role_approval clock started now auth_account role request
        ≡ err (previously_approved t)
      → approve dec clock conn order started now auth_account role request
        ≡ approve dec clock
            (record conn { update_approvals_by_account_and_role_query = other })
            order
            started
            now
            auth_account
            role
            request
  unfolding approve approve_tested earlier_approval parse_id test_sufficient_debitor_funds
      get_debitor_account_balances get_transaction_with_transaction_items_and_approvals_by_id
      change_account_balances
  approve-previously_approved t other e = rw e refl

  -- A request that passes its tests: the approval is written, the transaction is read back, and its
  -- items, not the request's, change the balances if it is at equilibrium. The answer is the
  -- transaction that was read back, before the balances changed.
  pub approve-approves :
      (id : String) (n : ℤ) (updated : Option Time) (post : Transaction Time) (w v u : W)
      → test_sufficient_debitor_funds dec conn order request.transaction_items w ≡ (ok tt, w)
      → items_unique_contra_accounts request.transaction_items ≡ ok tt
      → transaction_pending_role_approval clock started now auth_account role request ≡ ok tt
      → request.id ≡ some id
      → parse_i32 id ≡ some n
      → conn.update_approvals_by_account_and_role_query n auth_account role w ≡ (ok updated, v)
      → get_transaction_with_transaction_items_and_approvals_by_id conn n v ≡ (ok post, u)
      → approve dec clock conn order started now auth_account role request w
        ≡ balanced conn auth_account post u
  unfolding approve approve_tested earlier_approval parse_id change_account_balances
  approve-approves id n updated post w v u f c p i q a g =
      rw (f, c, p, i, q, a, g) (at_equilibrium post u)
