-- ===== src/Types/Approval/Filter.antt =====
-- `Approvals::filter_by_transaction_and_transaction_item` (crates/types/src/approval.rs) against a
-- plain filter.
use mxfactorial.Prelude.{
  Bool, false, ◌&&◌, [], ◌∷◌, ◌++◌, ◌==◌, int_eq, ◌≡◌, refl, Outcome, ok, err, panic, All, filter,
  ℤ,
}
use mxfactorial.Types.Approval.{
  Approval, Approvals, ApprovalError, approval_ids, filter_by_transaction_and_transaction_item,
}

module _ {Time : Type 0} where
  -- The two ids of the approval are there and are numbers.
  abbrev pub HasIds : Approval Time → Type 0
  HasIds a = (ids : ℤ × ℤ) × (approval_ids a ≡ ok ids)

  abbrev pub names : ℤ → ℤ → Outcome (ApprovalError Time) (ℤ × ℤ) → Bool
  names t i (ok ids) = ids.0 == t && ids.1 == i
  names t i (err _) = false
  names t i panic = false

  -- Where every approval has its ids, the result is the plain filter by both, in the same order.
  pub filter_by_transaction_and_transaction_item-filter :
      (t i : ℤ) (l : Approvals Time)
      → All HasIds l
      → filter_by_transaction_and_transaction_item t i l
        ≡ ok (filter (λ a. names t i (approval_ids a)) l)
  unfolding filter_by_transaction_and_transaction_item
  filter_by_transaction_and_transaction_item-filter t i [] h = refl
  filter_by_transaction_and_transaction_item-filter t i (a ∷ l) ((ids, e), h) =
      rw (e, filter_by_transaction_and_transaction_item-filter t i l h) refl

  -- The first approval without readable ids decides the outcome, whatever stands behind it.
  pub filter_by_transaction_and_transaction_item-first_bad :
      (t i : ℤ) (l rest : Approvals Time) (a : Approval Time) {x : ApprovalError Time}
      → All HasIds l
      → approval_ids a ≡ err x
      → filter_by_transaction_and_transaction_item t i (l ++ a ∷ rest) ≡ err x
  unfolding filter_by_transaction_and_transaction_item
  filter_by_transaction_and_transaction_item-first_bad t i [] rest a h e = rw e
  filter_by_transaction_and_transaction_item-first_bad t i (b ∷ l) rest a ((ids, p), h) e =
      rw (p, filter_by_transaction_and_transaction_item-first_bad t i l rest a h e) refl
