-- ===== src/RequestApprove/Guard.antt =====
-- services/request-approve/src/main.rs: what a request that is approved has been tested for.
use mxfactorial.Prelude.{
  ℕ, ℤ, true, Option, none, some, Outcome, ok, err, panic, ◌≡◌, ◌⊎◌, refl, ap, ok_or, is_some,
  err_if,
}
use mxfactorial.Prelude.Maps.{Map}
use mxfactorial.Prelude.Numeral.{parse_i32}
use mxfactorial.Effect.{Action, map_error, lift}
use mxfactorial.Effect.Success.{>>=-ok, paired}
use mxfactorial.External.{DecimalOps, InstantOps}
use mxfactorial.Types.Approval.{previously_approved}
use mxfactorial.Types.Errors.{BoxError, message, prefixed}
use mxfactorial.Types.Items.Contra.{no_self_payment}
use mxfactorial.Types.Messages.{IntraTransaction, RequestApprove}
use mxfactorial.Types.Transaction.{Transaction, transaction_pending_role_approval}
use mxfactorial.Service.Error.{bad_request, internal}
use mxfactorial.Service.Model.{Model}
use mxfactorial.Service.Lookup.{get_full_transaction_by_id}
use mxfactorial.Service.Approve.{approve}
use mxfactorial.Service.Approve.Sound.{Solvent, approve-Sound}
use mxfactorial.RequestApprove.{handle_approve}

-- An action whose errors are renamed succeeded: so did the action.
map_error-succeeded :
    {W E F A : Type 0} {a : A} (g : E → F) (m : Action W E A) (w : W)
    → (map_error g m w).0 ≡ ok a
    → (m w).0 ≡ ok a
map_error-succeeded {W} {E} {F} {A} {a} g m w h = go (m w).0 (m w).1 h
  where
    go : (r : Outcome E A) (v : W) → (map_error g (λ (_ : W). (r, v)) w).0 ≡ ok a → r ≡ ok a
    go (ok b) v k = cc
    go (err e) v k = cc
    go panic v k = cc

ok_or-some : {E A : Type 0} {a : A} (o : Option A) (e : E) → ok_or o e ≡ ok a → o ≡ some a
ok_or-some none e h = cc
ok_or-some (some b) e h = cc

none_of :
    {E A : Type 0} {u : Unit {0}} (o : Option A) (e : E) → err_if (is_some o) e ≡ ok u → o ≡ none
none_of none e h = refl
none_of (some b) e h = cc

module _ {W Time D : Type 0} (dec : DecimalOps D) (clock : InstantOps Time) (conn : Model W Time D)
    (order : Map D → Map D) (connect : Action W (BoxError Time) (Unit {0})) (started : Time)
    (now : ℕ → ℕ → Time) where
  -- The run of an approval, from one world to another, of a transaction that the database gave for
  -- the request's id: it had no equilibrium time, its debitors could pay, no item of it was between an
  -- account and itself, and the approvals of the request's account in the request's role were pending
  -- or had been given before.
  abbrev pub Granted : RequestApprove → W → W → IntraTransaction Time → Type 0
  Granted request w v answer =
      (id : ℤ) × (stored : Transaction Time) × (u : W) × (parse_i32 request.id ≡ some id)
      × ((connect w).0 ≡ ok tt)
      × (get_full_transaction_by_id conn id (connect w).1 ≡ (ok stored, u))
      × (stored.equilibrium_time ≡ none)
      × Solvent dec conn order stored.transaction_items u
      × (no_self_payment stored.transaction_items ≡ true)
      × ((transaction_pending_role_approval clock started now request.auth_account
              request.account_role stored
            ≡ ok tt)
          ⊎ ((t : Time) × (transaction_pending_role_approval clock started now request.auth_account
                  request.account_role stored
                ≡ err (previously_approved t))))
      × (approve dec clock conn order started now request.auth_account request.account_role stored u
          ≡ (ok answer, v))

  -- A request to approve that succeeds has an id that is a number, and the transaction stored under
  -- it, as the database gave it on the connection, had no equilibrium time, its debitors could pay, no
  -- item of it was between an account and itself, and the approvals of the request's account in the
  -- request's role were pending or had been given before; and the answer is that of the approval of
  -- this stored transaction.
  pub handle_approve-Sound :
      (request : RequestApprove) (w v : W) (answer : IntraTransaction Time)
      → handle_approve dec clock conn order connect started now request w ≡ (ok answer, v)
      → Granted request w v answer
  unfolding handle_approve
  handle_approve-Sound request w v answer h =
      let (_, c, h1) =
        >>=-ok (map_error (λ _. internal (message "failed to get db connection")) connect) _ h in
      let (id, p, h2) =
        >>=-ok (lift (ok_or (parse_i32 request.id) (bad_request (prefixed "invalid request id")))) _
          h1 in
      let (stored, g, h3) = >>=-ok (map_error internal (get_full_transaction_by_id conn id)) _ h2 in
      let u = (get_full_transaction_by_id conn id (connect w).1).1 in
      let (_, e, h4) =
        >>=-ok
          (lift (
            err_if (is_some stored.equilibrium_time)
              (bad_request (message "transaction previously approved"))))
          _ h3 in
      let run =
        approve dec clock conn order started now request.auth_account request.account_role stored in
      let answered =
        paired (map_error-succeeded internal run u (ap (λ r. r.0) h4)) (ap (λ r. r.1) h4) in
      let (solvent, apart, pending, _) =
        approve-Sound dec clock conn order started now request.auth_account request.account_role
          stored u v answer answered in
      (
        id,
        stored,
        u,
        ok_or-some (parse_i32 request.id) _ p,
        map_error-succeeded _ connect w c,
        paired (map_error-succeeded internal (get_full_transaction_by_id conn id) (connect w).1 g)
            refl,
        none_of stored.equilibrium_time _ e,
        solvent,
        apart,
        pending,
        answered,
      )
