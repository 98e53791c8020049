-- ===== src/Service/Funds/Order.antt =====
-- The test of the debitors' funds (crates/service/src/lib.rs) against a Boolean description that does
-- not depend on the order in which a `HashMap` gives out its entries.
use mathlib.Core.Bool.{Bool-set}
use mathlib.Core.Logic.{∥∥₁_elim}
use mathlib.Core.List.{Perm, Permᴰ}
use mxfactorial.Prelude.{
  String, Bool, true, false, ◌&&◌, List, [], ◌∷◌, Option, none, some, ◌≡◌, refl, ◌∙◌, ap, is_ok,
  arith, Bool-cases, Option-cases, inl, inr,
}
use mxfactorial.External.{DecimalOps}
use mxfactorial.Types.Balance.{
  AccountBalance, AccountBalances, get_account_balance, sufficient_balance,
}
use mxfactorial.Service.Funds.{test_funds}

module _ {D : Type 0} (dec : DecimalOps D) (available : AccountBalances D) where
  abbrev pub enough : D → Option (AccountBalance D) → Bool
  enough funds none = false
  enough funds (some b) = sufficient_balance dec funds b

  -- The debitor has a balance, and it is at least the required funds.
  abbrev pub funded : String × D → Bool
  funded (debitor, funds) = enough funds (get_account_balance debitor available)

  abbrev pub all_funded : List (String × D) → Bool
  all_funded [] = true
  all_funded (p ∷ rest) = funded p && all_funded rest

  all_funded-Permᴰ : {l m : List (String × D)} → Permᴰ l m → all_funded l ≡ all_funded m
  all_funded-Permᴰ Permᴰ.nil = refl
  all_funded-Permᴰ (Permᴰ.cons {a} {b} {l₁} {l₂} e d) =
      ap (λ p. funded p && all_funded l₁) e ∙ ap (λ r. funded b && r) (all_funded-Permᴰ d)
  all_funded-Permᴰ (Permᴰ.swap {a} {b} {a'} {b'} {l} e f) =
      rw (e, f) (and_swap (funded b') (funded a') (all_funded l))
    where
      and_swap : (x y z : Bool) → (x && (y && z)) ≡ (y && (x && z))
      and_swap x y z = ground arith
  all_funded-Permᴰ (Permᴰ.trans d e) = all_funded-Permᴰ d ∙ all_funded-Permᴰ e

  pub all_funded-Perm : (l m : List (String × D)) → Perm l m → all_funded l ≡ all_funded m
  all_funded-Perm l m p =
      ∥∥₁_elim p (Bool-set (all_funded l) (all_funded m)) (λ d. all_funded-Permᴰ d)

module _ (Time : Type 0) {D : Type 0} (dec : DecimalOps D) (available : AccountBalances D) where
  -- The loop succeeds exactly if each debitor has a balance that covers the required funds.
  pub test_funds-all_funded :
      (required : List (String × D))
      → is_ok (test_funds {Time = Time} dec available required) ≡ all_funded dec available required
  unfolding test_funds
  test_funds-all_funded [] = refl
  test_funds-all_funded ((debitor, funds) ∷ rest) =
      elim (Option-cases (get_account_balance debitor available)) [
        | inl e ↦ rw e refl
        | inr (b, e) ↦ elim (Bool-cases (sufficient_balance dec funds b)) [
          | inl s ↦ rw (e, s) (test_funds-all_funded rest)
          | inr s ↦ rw (e, s) refl
        ]
      ]
