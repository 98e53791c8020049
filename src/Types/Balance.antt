-- ===== src/Types/Balance.antt =====
-- crates/types/src/balance.rs: account balances as the database returns them.
use mxfactorial.Prelude.{String, Bool, List, Option, ◌==◌, string_eq, find}
use mxfactorial.External.{DecimalOps}

pub record AccountBalance (D : Type 0) : Type 0 where
  pub account_name : String
  pub current_balance : D
  pub current_transaction_item_id : Option String

abbrev pub AccountBalances : Type 0 → Type 0
AccountBalances D = List (AccountBalance D)

module _ {D : Type 0} where
  abbrev pub sufficient_balance : DecimalOps D → D → AccountBalance D → Bool
  sufficient_balance dec payment b = dec.ge b.current_balance payment

  abbrev pub get_account_balance : String → AccountBalances D → Option (AccountBalance D)
  get_account_balance account_name = find (λ b. b.account_name == account_name)
