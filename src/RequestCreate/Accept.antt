-- ===== src/RequestCreate/Accept.antt =====
-- services/request-create/src/main.rs: which requests `test_values` accepts.
use mxfactorial.Prelude.{
  Bool, true, false, Outcome, ok, err, panic, ◌≡◌, refl, is_ok, is_none, Eq, err_if, inl, inr, ◌⊎◌,
}
use mxfactorial.Effect.{Action, lift}
use mxfactorial.Effect.Refusal.{Refused, >>=-refused, >>=-readonly}
use mxfactorial.External.{FloatOps, DecimalOps}
use mxfactorial.Types.Errors.{BoxError}
use mxfactorial.Types.Item.{TransactionItemError}
use mxfactorial.Types.Transaction.{Transaction, test_sum_value}
use mxfactorial.Types.Messages.{IntraTransaction}
use mxfactorial.RequestCreate.{
  test_values, sum_tested, create_error, missing_auth_account, missing_author, missing_author_role,
}

module _ {W Time F D : Type 0} ⦃e : Eq Time⦄ (float : FloatOps F) (dec : DecimalOps D)
    (rules : Transaction Time → Action W (BoxError Time) (IntraTransaction Time))
    (req : IntraTransaction Time) (w : W) where
  abbrev account : Action W (BoxError Time) (Unit {0})
  account = lift (err_if (is_none req.auth_account) (create_error missing_auth_account))

  abbrev author : Action W (BoxError Time) (Unit {0})
  author = lift (err_if (is_none req.transaction.author) (create_error missing_author))

  abbrev role : Action W (BoxError Time) (Unit {0})
  role = lift (err_if (is_none req.transaction.author_role) (create_error missing_author_role))

  checked : (b : Bool) (x : BoxError Time) → b ≡ true → Refused (lift (err_if b x) w) w
  checked b x h = rw h (refl, refl)

  sum_refused :
      (r : Outcome (TransactionItemError Time) (Unit {0}))
      → is_ok r ≡ false
      → Refused (lift (sum_tested r) w) w
  unfolding sum_tested
  sum_refused (ok _) h = cc
  sum_refused (err _) h = (refl, refl)
  sum_refused panic h = (refl, refl)

  -- Without an account, an author or a role, or with a sum that is not that of its items, a request
  -- is refused, and the rule service is not asked.
  pub test_values-incomplete :
      (is_none req.auth_account ≡ true)
        ⊎ (is_none req.transaction.author ≡ true)
        ⊎ (is_none req.transaction.author_role ≡ true)
        ⊎ (is_ok (test_sum_value float dec req.transaction) ≡ false)
      → Refused (test_values float dec rules req w) w
  unfolding test_values
  test_values-incomplete h = elim h [
    | inl a ↦ >>=-refused account _ w (checked _ _ a)
    | inr (inl b) ↦ >>=-readonly account _ w refl (λ _ _. >>=-refused author _ w (checked _ _ b))
    | inr (inr (inl c)) ↦
        >>=-readonly account _ w refl
          (λ _ _. >>=-readonly author _ w refl (λ _ _. >>=-refused role _ w (checked _ _ c)))
    | inr (inr (inr d)) ↦ >>=-readonly account _ w refl (λ _ _. >>=-readonly author _ w refl (λ _ _.
        >>=-readonly role _ w refl (λ _ _.
          >>=-refused (lift (sum_tested (test_sum_value float dec req.transaction))) _ w
            (sum_refused _ d))))
  ]
