-- ===== src/Service/Approve/Sound.antt =====
-- `Service::approve` (crates/service/src/lib.rs): what an approval that succeeds has been tested for.
use mxfactorial.Prelude.{
  ℕ, String, true, Option, none, some, Outcome, ok, err, panic, ◌≡◌, refl, sym, ◌∙◌, ap, is_ok, ◌⊎◌,
  inl, inr, ok_or, is_some,
}
use mxfactorial.Prelude.Maps.{Map}
use mxfactorial.Effect.{lift}
use mxfactorial.Effect.Success.{>>=-ok}
use mxfactorial.External.{DecimalOps, InstantOps}
use mxfactorial.Types.Role.{AccountRole}
use mxfactorial.Types.Approval.{ApprovalError, previously_approved}
use mxfactorial.Types.Errors.{BoxError, message}
use mxfactorial.Types.Balance.{AccountBalances}
use mxfactorial.Types.Items.{TransactionItems, items_unique_contra_accounts, list_unique_debitors}
use mxfactorial.Types.Items.Contra.{no_self_payment, items_unique_contra_accounts-no_self_payment}
use mxfactorial.Types.Items.Loops.{map_required_funds_from_debitors}
use mxfactorial.Types.Transaction.{Transaction, transaction_pending_role_approval}
use mxfactorial.Types.Messages.{IntraTransaction}
use mxfactorial.Service.Model.{Model}
use mxfactorial.Service.Funds.{test_sufficient_debitor_funds}
use mxfactorial.Service.Funds.Order.{all_funded, test_funds-all_funded}
use mxfactorial.Service.Accounts.{get_debitor_account_balances}
use mxfactorial.Service.Approve.{approve, approve_tested, earlier_approval}

module _ {Time : Type 0} where
  earlier_approval-ok :
      (r : Outcome (ApprovalError Time) (Unit {0})) (o : Option Time)
      → earlier_approval r ≡ ok o
      → (r ≡ ok tt) ⊎ ((t : Time) × (r ≡ err (previously_approved t)))
  unfolding earlier_approval
  earlier_approval-ok (ok _) o h = inl refl
  earlier_approval-ok (err (previously_approved t)) o h = inr (t, refl)
  earlier_approval-ok (err (ApprovalError.zero_approvals_for_account a)) o h = cc
  earlier_approval-ok (err ApprovalError.zero_approvals) o h = cc
  earlier_approval-ok (err ApprovalError.expiration_time_lapsed) o h = cc
  earlier_approval-ok (err ApprovalError.previously_rejected) o h = cc
  earlier_approval-ok (err ApprovalError.incomplete_previous_approval) o h = cc
  earlier_approval-ok (err ApprovalError.missing_transaction_id) o h = cc
  earlier_approval-ok (err ApprovalError.missing_transaction_item_id) o h = cc
  earlier_approval-ok panic o h = cc

ok_or-is_some : {E A : Type 0} {a : A} (o : Option A) (e : E) → ok_or o e ≡ ok a → is_some o ≡ true
ok_or-is_some none e h = cc
ok_or-is_some (some b) e h = refl

module _ {W Time D : Type 0} (dec : DecimalOps D) (conn : Model W Time D)
    (order : Map D → Map D) where
  -- The debitors' funds were required from the items and were there, in the balances that the
  -- database gave.
  abbrev pub Solvent : TransactionItems Time → W → Type 0
  Solvent items w =
      (required : Map D) × (available : AccountBalances D) × (map_required_funds_from_debitors dec
          {E = BoxError Time} items
        ≡ ok required)
      × ((conn.select_account_balances_query (list_unique_debitors items) w).0 ≡ ok available)
      × (all_funded dec available (order required) ≡ true)

  pub funds-Solvent :
      (items : TransactionItems Time) (w : W)
      → (test_sufficient_debitor_funds dec conn order items w).0 ≡ ok tt
      → Solvent items w
  unfolding test_sufficient_debitor_funds get_debitor_account_balances
  funds-Solvent items w h =
      let t : test_sufficient_debitor_funds dec conn order items w
          ≡ (ok tt, (test_sufficient_debitor_funds dec conn order items w).1) =
        ap (λ r. (r, (test_sufficient_debitor_funds dec conn order items w).1)) h in
      let (required, m, h1) =
        >>=-ok (lift (map_required_funds_from_debitors dec {E = BoxError Time} items)) _ t in
      let (available, b, h2) =
        >>=-ok (conn.select_account_balances_query (list_unique_debitors items)) _ h1 in
      (
        required,
        available,
        m,
        b,
        sym (test_funds-all_funded Time dec available (order required)) ∙ ap (λ x. is_ok x.0) h2,
      )

module _ {W Time D : Type 0} (dec : DecimalOps D) (clock : InstantOps Time) (conn : Model W Time D)
    (order : Map D → Map D) where
  -- An approval that succeeds: the debitors could pay, no item is between an account and itself, the
  -- approvals of the account in its role were pending or had been given before, the request has an
  -- id, and the answer names the account.
  pub approve-Sound :
      (started : Time) (now : ℕ → ℕ → Time) (auth_account : String) (role : AccountRole)
      (request : Transaction Time) (w v : W) (answer : IntraTransaction Time)
      → approve dec clock conn order started now auth_account role request w ≡ (ok answer, v)
      → Solvent dec conn order request.transaction_items w
        × (no_self_payment request.transaction_items ≡ true)
        × ((transaction_pending_role_approval clock started now auth_account role request ≡ ok tt)
            ⊎ ((t : Time) × (transaction_pending_role_approval clock started now auth_account role
                    request
                  ≡ err (previously_approved t))))
        × (is_some request.id ≡ true)
  unfolding approve approve_tested
  approve-Sound started now auth_account role request w v answer h =
      let (_, f, h1) =
        >>=-ok (test_sufficient_debitor_funds dec conn order request.transaction_items) _ h in
      let (_, c, h2) =
        >>=-ok (lift (items_unique_contra_accounts request.transaction_items)) _ h1 in
      let (o, p, h3) =
        >>=-ok
          (lift (
            earlier_approval
              (transaction_pending_role_approval clock started now auth_account role request)))
          _ h2 in
      let (id, i, h4) = >>=-ok (lift (ok_or request.id (message "missing transaction id"))) _ h3 in
      (
        funds-Solvent dec conn order request.transaction_items w f,
        sym (items_unique_contra_accounts-no_self_payment request.transaction_items) ∙ ap is_ok c,
        earlier_approval-ok _ o p,
        ok_or-is_some request.id _ i,
      )
