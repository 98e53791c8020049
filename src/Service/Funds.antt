-- ===== src/Service/Funds.antt =====
-- crates/service/src/lib.rs: whether the debitors of a request can pay.
pub mod Order
pub mod Covered
use mxfactorial.Prelude.{String, not, List, [], ◌∷◌, Outcome, ok, ◌>>=◌, ◌>>◌, ok_or, err_if}
use mxfactorial.Prelude.Maps.{Map}
use Prim.Native.String.{◌++◌ as text_append}
use mxfactorial.Effect as Effect
use mxfactorial.Effect.{Action, lift}
use mxfactorial.External.{DecimalOps}
use mxfactorial.Types.Errors.{BoxError, message}
use mxfactorial.Types.Balance.{
  AccountBalance, AccountBalances, get_account_balance, sufficient_balance,
}
use mxfactorial.Types.Items.{TransactionItems}
use mxfactorial.Types.Items.Loops.{map_required_funds_from_debitors}
use mxfactorial.Service.Model.{Model}
use mxfactorial.Service.Accounts.{get_debitor_account_balances}

module _ {Time D : Type 0} (dec : DecimalOps D) where
  missing_balance : String → BoxError Time
  missing_balance debitor = message (text_append "account balance not found for " debitor)

  low_balance : AccountBalance D → String → D → BoxError Time
  low_balance b debitor funds = message (
      text_append b.account_name (
        text_append " "
          (text_append debitor (text_append " debitor funds less than " (dec.to_string funds)))))

  -- The loop over the required funds, in the order in which the map gives them out.
  unfoldable pub test_funds :
      AccountBalances D → List (String × D) → Outcome (BoxError Time) (Unit {0})
  unfolding missing_balance low_balance
  test_funds available [] = ok tt
  test_funds available ((debitor, funds) ∷ rest) = do
    b ← ok_or (get_account_balance debitor available) (missing_balance debitor)
    err_if (not (sufficient_balance dec funds b)) (low_balance b debitor funds)
    test_funds available rest

module _ {W Time D : Type 0} (dec : DecimalOps D) (conn : Model W Time D)
    (order : Map D → Map D) where
  -- `order` is the order in which a `HashMap` is iterated.
  unfoldable pub test_sufficient_debitor_funds :
      TransactionItems Time → Action W (BoxError Time) (Unit {0})
  unfolding test_funds
  test_sufficient_debitor_funds items =
      Effect.◌>>=◌ (lift (map_required_funds_from_debitors dec items)) λ required.
        Effect.◌>>=◌ (get_debitor_account_balances conn items)
          λ available. lift (test_funds dec available (order required))
