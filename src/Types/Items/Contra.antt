-- ===== src/Types/Items/Contra.antt =====
-- `test_unique_contra_accounts` (crates/types/src/transaction_item.rs): self-payment.
use mxfactorial.Prelude.{
  Bool, true, false, not, [], ◌∷◌, ◌++◌, ◌≡◌, refl, is_ok, ◌==◌, string_eq, beq_refl, Bool-cases,
  inl, inr, ◌&&◌,
}
use mxfactorial.Types.Item.{TransactionItem, test_unique_contra_accounts}
use mxfactorial.Types.Items.{TransactionItems, items_unique_contra_accounts}

module _ {Time : Type 0} where
  abbrev pub no_self_payment : TransactionItems Time → Bool
  no_self_payment [] = true
  no_self_payment (ti ∷ rest) = not (ti.debitor == ti.creditor) && no_self_payment rest

  -- The test succeeds exactly if no item is between an account and itself.
  pub items_unique_contra_accounts-no_self_payment :
      (items : TransactionItems Time)
      → is_ok (items_unique_contra_accounts items) ≡ no_self_payment items
  unfolding items_unique_contra_accounts test_unique_contra_accounts
  items_unique_contra_accounts-no_self_payment [] = refl
  items_unique_contra_accounts-no_self_payment (x ∷ rest) =
      elim (Bool-cases (x.debitor == x.creditor)) [
        | inl b ↦ rw b refl
        | inr b ↦ rw b (items_unique_contra_accounts-no_self_payment rest)
      ]

  -- An item between an account and itself fails the test wherever it stands.
  pub items_unique_contra_accounts-self_payment :
      (before after : TransactionItems Time) (ti : TransactionItem Time)
      → ti.debitor ≡ ti.creditor
      → is_ok (items_unique_contra_accounts (before ++ ti ∷ after)) ≡ false
  unfolding items_unique_contra_accounts test_unique_contra_accounts
  items_unique_contra_accounts-self_payment [] after ti e = rw (e, beq_refl ti.creditor) refl
  items_unique_contra_accounts-self_payment (x ∷ before) after ti e =
      elim (Bool-cases (x.debitor == x.creditor)) [
        | inl b ↦ rw b refl
        | inr b ↦ rw b (items_unique_contra_accounts-self_payment before after ti e)
      ]
