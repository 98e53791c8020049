-- ===== src/Service/Funds/Covered.antt =====
-- The test of the debitors' funds (crates/service/src/lib.rs): what a debitor owes is covered.
use mathlib.Core.List.{Perm}
use mxfactorial.Prelude.{
  String, true, and_split, [], ◌∷◌, Option, none, some, ◌==◌, string_eq, eq_of_beq, ok,
  ok_injective, ◌≡◌, refl, sym, ap, ◌∙◌, Bool-cases, inl, inr,
}
use mxfactorial.Prelude.Maps.{Map, lookup}
use mxfactorial.External.{DecimalOps}
use mxfactorial.Types.Errors.{BoxError}
use mxfactorial.Types.Balance.{AccountBalance, AccountBalances, get_account_balance}
use mxfactorial.Types.Items.{TransactionItems, list_unique_debitors}
use mxfactorial.Types.Items.Loops.Funds.{owed, map_required_funds_from_debitors-owed}
use mxfactorial.Service.Model.{Model}
use mxfactorial.Service.Funds.{test_sufficient_debitor_funds}
use mxfactorial.Service.Funds.Order.{enough, funded, all_funded, all_funded-Perm}
use mxfactorial.Service.Approve.Sound.{funds-Solvent}

some_injective : {A : Type 0} {a b : A} → some a ≡ some b → a ≡ b
some_injective h = cc

module _ {D : Type 0} (dec : DecimalOps D) (available : AccountBalances D) where
  -- A debitor whose funds are in the map is among those that were tested.
  all_funded-lookup :
      (debitor : String) (required : Map D) {funds : D}
      → all_funded dec available required ≡ true
      → lookup debitor required ≡ some funds
      → enough dec available funds (get_account_balance debitor available) ≡ true
  all_funded-lookup debitor [] h k = cc
  all_funded-lookup debitor ((other, f) ∷ rest) {funds} h k =
      let (first, others) =
        and_split (funded dec available (other, f)) (all_funded dec available rest) h in
      elim (Bool-cases (other == debitor)) [
        | inl same ↦
            let owes : f ≡ funds = some_injective (rw same at k) in
            let named : other ≡ debitor = eq_of_beq other debitor same in rw (← owes, ← named) first
        | inr differs ↦ all_funded-lookup debitor rest others (rw differs at k)
      ]

  enough-balance :
      (funds : D) (o : Option (AccountBalance D))
      → enough dec available funds o ≡ true
      → (b : AccountBalance D) × (o ≡ some b) × (dec.ge b.current_balance funds ≡ true)
  enough-balance funds none h = cc
  enough-balance funds (some b) h = (b, refl, h)

module _ {W Time D : Type 0} (dec : DecimalOps D) (conn : Model W Time D)
    (order : Map D → Map D) where
  -- Where the test of the funds succeeds, a debitor who owes something for the unpaid items has a
  -- balance among those that the database gave, and it is at least what the debitor's unpaid items add
  -- up to, if the map of the funds is iterated in an order of its entries.
  pub test_sufficient_debitor_funds-covers :
      (items : TransactionItems Time) (w v : W) (debitor : String) (funds : D)
      → ((m : Map D) → Perm (order m) m)
      → test_sufficient_debitor_funds dec conn order items w ≡ (ok tt, v)
      → owed {E = BoxError Time} dec debitor none items ≡ ok (some funds)
      → (available : AccountBalances D) × (b : AccountBalance D)
        × ((conn.select_account_balances_query (list_unique_debitors items) w).0 ≡ ok available)
        × (get_account_balance debitor available ≡ some b)
        × (dec.ge b.current_balance funds ≡ true)
  test_sufficient_debitor_funds-covers items w v debitor funds perm h owes =
      let (required, available, m, q, all) =
        funds-Solvent dec conn order items w (ap (λ r. r.0) h) in
      let all_of =
        sym (all_funded-Perm dec available (order required) required (perm required)) ∙ all in
      let found =
        ok_injective {E = BoxError Time} (lookup debitor required) (some funds)
          (sym (map_required_funds_from_debitors-owed dec items debitor m) ∙ owes) in
      let (b, has, covers) =
        enough-balance dec available funds (get_account_balance debitor available)
          (all_funded-lookup dec available debitor required all_of found) in
      (available, b, q, has, covers)
