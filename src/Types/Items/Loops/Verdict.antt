-- ===== src/Types/Items/Loops/Verdict.antt =====
-- The answer of `TransactionItems::test_pending_role_approval`
-- (crates/types/src/transaction_item.rs).
use mxfactorial.Prelude.{
  ℕ, suc, ◌+◌, ◌≤◌, String, [], ◌∷◌, ◌≡◌, ◌≢◌, refl, ◌∙◌, ◌↔◌, inl, inr, Outcome, ok, err, length,
  arith, >>=-eq-ok, Outcome-cases, Option-cases, some,
}
use mxfactorial.External.{InstantOps}
use mxfactorial.Types.Role.{AccountRole}
use mxfactorial.Types.Approval.{ApprovalError, Approvals}
use mxfactorial.Types.Approval.Pending.{mine_of, Pending, EachAt}
use mxfactorial.Types.Approval.Verdict.Absent.{test_pending_role_approval-Open}
use mxfactorial.Types.Item.{TransactionItem, item_pending_role_approval}
use mxfactorial.Types.Items.{TransactionItems}
use mxfactorial.Types.Items.Loops.{
  PendingTally, tally_item, tally_start, tally_result, tally_items, items_pending_role_approval,
}
use mxfactorial.Types.Items.Loops.Pending.{
  OpenOrAbsent, EachItem, tally_says, item_test, tally_item-not_zero,
}

module _ {Time : Type 0} (clock : InstantOps Time) (account : String) (role : AccountRole) where
  tally_result-ok :
      (len : ℕ) (s : PendingTally Time) → tally_result len s ≡ ok tt → s.previously ≡ 0
  unfolding tally_result
  tally_result-ok len s h = ground arith

  tally_result-none :
      (len : ℕ) (s : PendingTally Time) → s.previously ≡ 0 → tally_result len s ≡ ok tt
  unfolding tally_result
  tally_result-none len s h = ground arith

  tally_open :
      (s : PendingTally Time) (r : Outcome (ApprovalError Time) (Unit {0}))
      → OpenOrAbsent r
      → (s' : PendingTally Time) × (tally_item s r ≡ ok s') × (s'.previously ≡ s.previously)
  unfolding tally_item
  tally_open s r (inl e) = (s, rw e, refl)
  tally_open s r (inr (a, e)) = (
    record s { zero = s.zero + 1; zero_err = ApprovalError.zero_approvals_for_account a },
    rw e,
    refl,
  )

  tally_all_open :
      (now : ℕ → ℕ → Time) (s : PendingTally Time) (l : TransactionItems Time)
      → EachItem clock account role OpenOrAbsent now l
      → (s' : PendingTally Time) × (tally_items clock now account role s l ≡ ok s')
        × (s'.previously ≡ s.previously)
  unfolding tally_items
  tally_all_open now s [] h = (s, refl, refl)
  tally_all_open now s (ti ∷ l) h =
      let (m, first, same) = tally_open s (item_test clock account role (now 0) ti) h.0 in
      let (s', rest, kept) = tally_all_open (λ i. now (suc i)) m l h.1 in
      (s', rw (first, rest) refl, kept ∙ same)

  -- The items pass exactly when the test of each of them passes or finds nothing to approve.
  items_pending_role_approval-OpenOrAbsent :
      (started : Time) (now : ℕ → ℕ → Time) (l : TransactionItems Time)
      → (items_pending_role_approval clock started now account role l ≡ ok tt)
        ↔ EachItem clock account role OpenOrAbsent now l
  unfolding items_pending_role_approval
  items_pending_role_approval-OpenOrAbsent started now l = (
    (λ h.
        let (s, tallied, result) =
          >>=-eq-ok (tally_items clock now account role (tally_start started) l) _ h in
        (tally_says clock account role now (tally_start started) l tallied).unmoved
          (tally_result-ok (length l) s result)),
    (λ h.
        let (s, tallied, same) = tally_all_open now (tally_start started) l h in
        rw tallied (tally_result-none (length l) s same)),
  )

  -- The item has a list of approvals, and each of those of the account in the role is open at the
  -- instant of its round.
  abbrev pub AllOpen : (ℕ → Time) → TransactionItem Time → Type 0
  AllOpen now ti =
      (l : Approvals Time) × (ti.approvals ≡ some l)
      × EachAt clock (Pending clock) now (mine_of account role l)

  -- Each of the items, at the instants that its round reads.
  abbrev pub EachAllOpen : (ℕ → ℕ → Time) → TransactionItems Time → Type 0
  EachAllOpen now [] = Unit
  EachAllOpen now (ti ∷ rest) = AllOpen (now 0) ti × EachAllOpen (λ i. now (suc i)) rest

  item_test-AllOpen :
      (now : ℕ → Time) (ti : TransactionItem Time)
      → OpenOrAbsent (item_test clock account role now ti) ↔ AllOpen now ti
  unfolding item_pending_role_approval
  item_test-AllOpen now ti = (
    (λ h. elim (Option-cases ti.approvals) [
      | inl e ↦ elim h [ inl passed ↦ cc (rw e at passed) | inr (a, failed) ↦ cc (rw e at failed) ]
      | inr (l, e) ↦
          (l, e, (test_pending_role_approval-Open clock now account role l).0 (rw e at h))
    ]),
    (λ h.
        let (l, e, mine) = h in
        rw e ((test_pending_role_approval-Open clock now account role l).1 mine)),
  )

  EachItem-EachAllOpen :
      (now : ℕ → ℕ → Time) (l : TransactionItems Time)
      → EachItem clock account role OpenOrAbsent now l ↔ EachAllOpen now l
  EachItem-EachAllOpen now [] = ((λ h. h), (λ h. h))
  EachItem-EachAllOpen now (ti ∷ l) =
      let (there, back) = item_test-AllOpen (now 0) ti in
      let (there_all, back_all) = EachItem-EachAllOpen (λ i. now (suc i)) l in
      ((λ h. (there h.0, there_all h.1)), (λ h. (back h.0, back_all h.1)))

  -- The items pass the pending test exactly when each of them has a list of approvals in which all
  -- approvals of the account in the role, if there are any, are neither answered nor expired at the
  -- instants of their rounds.
  pub items_pending_role_approval-ok_iff :
      (started : Time) (now : ℕ → ℕ → Time) (l : TransactionItems Time)
      → (items_pending_role_approval clock started now account role l ≡ ok tt) ↔ EachAllOpen now l
  items_pending_role_approval-ok_iff started now l =
      let (tested, passes) = items_pending_role_approval-OpenOrAbsent started now l in
      let (there, back) = EachItem-EachAllOpen now l in
      ((λ h. there (tested h)), (λ h. passes (back h)))

  tally_result-not_zero :
      (len : ℕ) (s : PendingTally Time) (t : Time) (a : String)
      → s.prev_err ≡ ApprovalError.previously_approved t
      → s.previously + s.zero ≤ len
      → tally_result len s ≢ err (ApprovalError.zero_approvals_for_account a)
  unfolding tally_result
  tally_result-not_zero len s t a p b h = ground arith

  tally_items-not_zero :
      (now : ℕ → ℕ → Time) (s : PendingTally Time) (l : TransactionItems Time) (a : String)
      → tally_items clock now account role s l ≢ err (ApprovalError.zero_approvals_for_account a)
  unfolding tally_items
  tally_items-not_zero now s [] a h = cc
  tally_items-not_zero now s (ti ∷ l) a h =
      elim (Outcome-cases (tally_item s (item_test clock account role (now 0) ti))) [
        | inl (m, e) ↦ tally_items-not_zero (λ i. now (suc i)) m l a (rw e at h)
        | inr (inl (x, e)) ↦
            tally_item-not_zero s (item_test clock account role (now 0) ti) a (e ∙ (rw e at h))
        | inr (inr e) ↦ cc (rw e at h)
      ]

  -- The branch that would report an account without approvals is never taken.
  pub items_pending_role_approval-not_zero :
      (started : Time) (now : ℕ → ℕ → Time) (l : TransactionItems Time) (a : String)
      → items_pending_role_approval clock started now account role l
        ≢ err (ApprovalError.zero_approvals_for_account a)
  unfolding items_pending_role_approval
  items_pending_role_approval-not_zero started now l a h =
      elim (Outcome-cases (tally_items clock now account role (tally_start started) l)) [
        | inl (s, e) ↦
            let said = tally_says clock account role now (tally_start started) l e in
            let (t, timed) = said.timed (started, refl) in
            tally_result-not_zero (length l) s t a timed (omega (arith, said.high)) (rw e at h)
        | inr (inl (x, e)) ↦
            let same = (rw e at h) in tally_items-not_zero now (tally_start started) l a (cc same)
        | inr (inr e) ↦ cc (rw e at h)
      ]
