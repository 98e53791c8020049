-- ===== src/Types/Approval/Verdict.antt =====
-- The answer of `Approvals::test_pending_role_approval` (crates/types/src/approval.rs).
pub mod Absent
use mxfactorial.Prelude.{
  ℕ, suc, String, [], ◌∷◌, some, ◌≡◌, ◌≢◌, refl, sym, ◌∙◌, ap, ◌↔◌, inl, inr, Outcome, ok, err,
  panic, ◌>>=◌, ◌>>◌, err_if, length, arith, Outcome-cases, >>=-eq-ok, is_empty,
}
use native.Mathlib.Decide.{ℕ_discrete}
use mxfactorial.External.{InstantOps}
use mxfactorial.Types.Role.{AccountRole}
use mxfactorial.Types.Approval.{
  ApprovalError, Approval, Approvals, previously_approved, zero_approvals_for_account, test_pending,
  tally_approved, count_approved, first_approval_time, pending_result, account_role_approvals,
  test_pending_role_approval,
}
use mxfactorial.Types.Approval.Pending.{
  mine_of, Pending, Approved, EachAt, CountSays, count_says, count-Pending, count_all-Approved,
}

module _ {Time : Type 0} (clock : InstantOps Time) where
  -- The answer from the account's own approvals in the role.
  pub verdict : (ℕ → Time) → String → Approvals Time → Outcome (ApprovalError Time) (Unit {0})
  verdict now account mine = do
    err_if (is_empty mine) (zero_approvals_for_account account)
    n ← count_approved clock now 0 mine
    pending_result clock mine n

  pub test_pending_role_approval-verdict :
      (now : ℕ → Time) (account : String) (role : AccountRole) (l : Approvals Time)
      → test_pending_role_approval clock now account role l
        ≡ verdict now account (mine_of account role l)
  unfolding test_pending_role_approval account_role_approvals verdict
  test_pending_role_approval-verdict now account role [] = refl
  test_pending_role_approval-verdict now account role (a ∷ l) = refl

  pending_result-pending : (mine : Approvals Time) → pending_result clock mine 0 ≡ ok tt
  unfolding pending_result
  pending_result-pending mine = refl

  pending_result-ok : (mine : Approvals Time) (n : ℕ) → pending_result clock mine n ≡ ok tt → n ≡ 0
  unfolding pending_result first_approval_time
  pending_result-ok [] n h = ground arith
  pending_result-ok (a ∷ l) n h = ground arith

  pending_result-ne_panic :
      (now : ℕ → Time) (a : Approval Time) (l : Approvals Time) (n : ℕ)
      → CountSays clock now 0 (a ∷ l) n
      → pending_result clock (a ∷ l) n ≢ panic
  unfolding pending_result first_approval_time
  pending_result-ne_panic now a l n said = elim (ℕ_discrete n (length (a ∷ l))) [
    | yes all ↦ let approved = (said.full (omega arith)).0 in ground arith
    | no some_left ↦ ground arith
  ]

  verdict-ok :
      (now : ℕ → Time) (account : String) (mine : Approvals Time)
      → verdict now account mine ≡ ok tt
      → (mine ≢ []) × EachAt clock (Pending clock) now mine
  unfolding verdict
  verdict-ok now account [] h = cc
  verdict-ok now account (a ∷ l) h =
      let (n, counted, result) = >>=-eq-ok (count_approved clock now 0 (a ∷ l)) _ h in
      let said = count_says clock now 0 (a ∷ l) counted in
      ((λ e. cc), said.unmoved (pending_result-ok (a ∷ l) n result))

  pub verdict-Pending :
      (now : ℕ → Time) (account : String) (mine : Approvals Time)
      → mine ≢ []
      → EachAt clock (Pending clock) now mine
      → verdict now account mine ≡ ok tt
  unfolding verdict
  verdict-Pending now account [] ne h = absurd (ne refl)
  verdict-Pending now account (a ∷ l) ne h =
      rw (count-Pending clock now 0 (a ∷ l) h) (pending_result-pending (a ∷ l))

  -- The test passes exactly when the account has an approval in the role and every such approval
  -- is unanswered and unexpired at the instant that its round reads.
  pub test_pending_role_approval-ok_iff :
      (now : ℕ → Time) (account : String) (role : AccountRole) (l : Approvals Time)
      → (test_pending_role_approval clock now account role l ≡ ok tt) ↔ (
          (mine_of account role l ≢ []) × EachAt clock (Pending clock) now (mine_of account role l))
  test_pending_role_approval-ok_iff now account role l = (
    (λ h.
        verdict-ok now account (mine_of account role l)
          (sym (test_pending_role_approval-verdict now account role l) ∙ h)),
    (λ h.
        test_pending_role_approval-verdict now account role l
        ∙ verdict-Pending now account (mine_of account role l) h.0 h.1),
  )

  verdict-Approved :
      (now : ℕ → Time) (account : String) (a : Approval Time) (l : Approvals Time) {t : Time}
      → EachAt clock (Approved clock) now (a ∷ l)
      → a.approval_time ≡ some t
      → verdict now account (a ∷ l) ≡ err (previously_approved t)
  unfolding verdict pending_result first_approval_time
  verdict-Approved now account a l h e =
      rw (count_all-Approved clock now 0 (a ∷ l) h) (ground arith)

  -- Where the account has approved all of its approvals in the role, the error carries the time
  -- of the first of them.
  pub test_pending_role_approval-Approved :
      (now : ℕ → Time) (account : String) (role : AccountRole) (l : Approvals Time)
      (a : Approval Time) (rest : Approvals Time) {t : Time}
      → mine_of account role l ≡ a ∷ rest
      → EachAt clock (Approved clock) now (a ∷ rest)
      → a.approval_time ≡ some t
      → test_pending_role_approval clock now account role l ≡ err (previously_approved t)
  test_pending_role_approval-Approved now account role l a rest m h e =
      test_pending_role_approval-verdict now account role l
      ∙ ap (verdict now account) m
      ∙ verdict-Approved now account a rest h e

  test_pending-ne_panic :
      (n : ℕ) (now : Time) (a : Approval Time) → tally_approved n (test_pending clock now a) ≢ panic
  unfolding test_pending tally_approved
  test_pending-ne_panic n now a = ground arith

  count_approved-ne_panic :
      (now : ℕ → Time) (n : ℕ) (l : Approvals Time) → count_approved clock now n l ≢ panic
  unfolding count_approved
  count_approved-ne_panic now n [] h = cc
  count_approved-ne_panic now n (a ∷ l) h =
      elim (Outcome-cases (tally_approved n (test_pending clock (now 0) a))) [
        | inl (k, e) ↦ count_approved-ne_panic (λ i. now (suc i)) k l (rw e at h)
        | inr (inl (x, e)) ↦ cc (ap (λ m. m >>= λ k. count_approved clock (λ i. now (suc i)) k l) e)
        | inr (inr e) ↦ test_pending-ne_panic n (now 0) a e
      ]

  verdict-ne_panic :
      (now : ℕ → Time) (account : String) (mine : Approvals Time) → verdict now account mine ≢ panic
  unfolding verdict
  verdict-ne_panic now account [] h = cc
  verdict-ne_panic now account (a ∷ l) h =
      elim (Outcome-cases (count_approved clock now 0 (a ∷ l))) [
        | inl (n, e) ↦
            pending_result-ne_panic now a l n (count_says clock now 0 (a ∷ l) e) (rw e at h)
        | inr (inl (x, e)) ↦ cc (rw e at h)
        | inr (inr e) ↦ count_approved-ne_panic now 0 (a ∷ l) e
      ]

  -- The `unwrap` of the first approval time is never reached without one: the test does not panic.
  pub test_pending_role_approval-ne_panic :
      (now : ℕ → Time) (account : String) (role : AccountRole) (l : Approvals Time)
      → test_pending_role_approval clock now account role l ≢ panic
  test_pending_role_approval-ne_panic now account role l h =
      verdict-ne_panic now account (mine_of account role l)
        (sym (test_pending_role_approval-verdict now account role l) ∙ h)
