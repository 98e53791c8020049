-- ===== src/RequestCreate/Sound.antt =====
-- services/request-create/src/main.rs: what a request that `test_values` accepts has been tested for.
use mxfactorial.Prelude.{
  String, Outcome, ok, err, panic, ◌≡◌, refl, is_none, Eq, err_if, map_err, sym, ok_injective,
  >>=-eq-ok, unwrap_result, ap,
}
use mxfactorial.Effect.{Action, lift}
use mxfactorial.Effect.Success.{>>=-ok, paired}
use mxfactorial.External.{FloatOps, DecimalOps}
use mxfactorial.Types.Errors.{BoxError, item_error}
use mxfactorial.Types.Items.Loops.{sum_value, items_equality}
use mxfactorial.Types.Transaction.{Transaction, test_sum_value, set_author_role}
use mxfactorial.Types.Messages.{IntraTransaction, add_rule_tested_values}
use mxfactorial.RequestCreate.{
  test_values, sum_tested, create_error, client_items, rule_input, missing_auth_account,
  missing_author, missing_author_role,
}

map_err-ok :
    {E F : Type 0} (f : E → F) (m : Outcome E (Unit {0})) {u : Unit {0}}
    → map_err f m ≡ ok u
    → m ≡ ok tt
map_err-ok f (ok tt) h = refl
map_err-ok f (err e) h = cc
map_err-ok f panic h = cc

module _ {W Time F D : Type 0} ⦃e : Eq Time⦄ (float : FloatOps F) (dec : DecimalOps D)
    (rules : Transaction Time → Action W (BoxError Time) (IntraTransaction Time)) where
  -- The rule service was given the client's own items, cleaned, with their sum; what it returned
  -- agrees with the request; and the answer has its items and its sum.
  pub test_values-Sound :
      (req out : IntraTransaction Time) (w v : W)
      → test_values float dec rules req w ≡ (ok out, v)
      → (sum : String) × (ruled : IntraTransaction Time) × (sum_value float {E = BoxError Time}
            (client_items req.transaction)
          ≡ ok sum)
        × (rules (rule_input req.transaction sum (client_items req.transaction)) w ≡ (ok ruled, v))
        × (items_equality dec ruled.transaction.transaction_items req.transaction.transaction_items
            ≡ ok tt)
        × (out.transaction.transaction_items ≡ ruled.transaction.transaction_items)
        × (out.transaction.sum_value ≡ ruled.transaction.sum_value)
        × (out.auth_account ≡ req.auth_account)
  unfolding test_values add_rule_tested_values
  test_values-Sound req out w v h =
      let (_, _, h1) =
        >>=-ok (lift (err_if (is_none req.auth_account) (create_error missing_auth_account))) _ h in
      let (_, _, h2) =
        >>=-ok (lift (err_if (is_none req.transaction.author) (create_error missing_author))) _
          h1 in
      let (_, _, h3) =
        >>=-ok
          (lift (err_if (is_none req.transaction.author_role) (create_error missing_author_role))) _
          h2 in
      let (_, _, h4) = >>=-ok (lift (sum_tested (test_sum_value float dec req.transaction))) _ h3 in
      let (sum, s, h5) = >>=-ok (lift (sum_value float (client_items req.transaction))) _ h4 in
      let (ruled, r, h6) =
        >>=-ok (rules (rule_input req.transaction sum (client_items req.transaction))) _ h5 in
      let (_, q, h7) =
        >>=-ok
          (lift (
            map_err item_error (
              items_equality dec ruled.transaction.transaction_items
                req.transaction.transaction_items)))
          _ h6 in
      let (t, _, h8) =
        >>=-eq-ok (unwrap_result (set_author_role req.transaction)) _ (ap (λ x. x.0) h7) in
      let o : _ ≡ out = ok_injective _ _ h8 in
      (
        sum,
        ruled,
        s,
        paired r (ap (λ x. x.1) h7),
        map_err-ok _ _ q,
        sym (ap (λ x. x.transaction.transaction_items) o),
        sym (ap (λ x. x.transaction.sum_value) o),
        sym (ap (λ x. x.auth_account) o),
      )
