-- ===== src/Types/Approval/Verdict/Absent.antt =====
-- `Approvals::test_pending_role_approval` (crates/types/src/approval.rs): what the error about an
-- account without approvals tells.
use mxfactorial.Prelude.{
  ℕ, suc, String, [], ◌∷◌, ◌≡◌, ◌≢◌, refl, sym, ◌∙◌, ◌⊎◌, ◌↔◌, inl, inr, Outcome, ok, err, arith,
  Outcome-cases,
}
use mxfactorial.External.{InstantOps}
use mxfactorial.Types.Role.{AccountRole}
use mxfactorial.Types.Approval.{
  ApprovalError, Approval, Approvals, zero_approvals_for_account, test_pending, tally_approved,
  count_approved, first_approval_time, pending_result, test_pending_role_approval,
}
use mxfactorial.Types.Approval.Pending.{mine_of, Pending, EachAt}
use mxfactorial.Types.Approval.Verdict.{
  verdict, verdict-Pending, test_pending_role_approval-verdict, test_pending_role_approval-ok_iff,
}

module _ {Time : Type 0} (clock : InstantOps Time) where
  test_pending-ne_absent :
      (n : ℕ) (now : Time) (a : Approval Time) (b : String)
      → tally_approved n (test_pending clock now a) ≢ err (zero_approvals_for_account b)
  unfolding test_pending tally_approved
  test_pending-ne_absent n now a b h = ground arith

  count_approved-ne_absent :
      (now : ℕ → Time) (n : ℕ) (l : Approvals Time) (b : String)
      → count_approved clock now n l ≢ err (zero_approvals_for_account b)
  unfolding count_approved
  count_approved-ne_absent now n [] b h = cc
  count_approved-ne_absent now n (a ∷ l) b h =
      elim (Outcome-cases (tally_approved n (test_pending clock (now 0) a))) [
        | inl (k, e) ↦ count_approved-ne_absent (λ i. now (suc i)) k l b (rw e at h)
        | inr (inl (x, e)) ↦ test_pending-ne_absent n (now 0) a b (e ∙ (rw e at h))
        | inr (inr e) ↦ cc (rw e at h)
      ]

  pending_result-ne_absent :
      (mine : Approvals Time) (n : ℕ) (b : String)
      → pending_result clock mine n ≢ err (zero_approvals_for_account b)
  unfolding pending_result first_approval_time
  pending_result-ne_absent [] n b h = ground arith
  pending_result-ne_absent (a ∷ l) n b h = ground arith

  -- Only an account that has no approval in the role is reported to have none.
  verdict-absent :
      (now : ℕ → Time) (account : String) (mine : Approvals Time) (b : String)
      → verdict clock now account mine ≡ err (zero_approvals_for_account b)
      → mine ≡ []
  unfolding verdict
  verdict-absent now account [] b h = refl
  verdict-absent now account (a ∷ l) b h =
      elim (Outcome-cases (count_approved clock now 0 (a ∷ l))) [
        | inl (n, e) ↦ absurd (pending_result-ne_absent (a ∷ l) n b (rw e at h))
        | inr (inl (x, e)) ↦
            let same = (rw e at h) in absurd (count_approved-ne_absent now 0 (a ∷ l) b (cc same))
        | inr (inr e) ↦ cc (rw e at h)
      ]

  -- The account passes the test, or it has nothing to approve.
  abbrev pub Open : Outcome (ApprovalError Time) (Unit {0}) → Type 0
  Open r = (r ≡ ok tt) ⊎ ((b : String) × (r ≡ err (zero_approvals_for_account b)))

  verdict-Open :
      (now : ℕ → Time) (account : String) (mine : Approvals Time)
      → EachAt clock (Pending clock) now mine
      → Open (verdict clock now account mine)
  unfolding verdict
  verdict-Open now account [] h = inr (account, refl)
  verdict-Open now account (a ∷ l) h = inl (verdict-Pending clock now account (a ∷ l) (λ e. cc) h)

  -- The account passes or has nothing to approve exactly when every approval of it in the role is
  -- open at the instant of its round.
  pub test_pending_role_approval-Open :
      (now : ℕ → Time) (account : String) (role : AccountRole) (l : Approvals Time)
      → Open (test_pending_role_approval clock now account role l)
        ↔ EachAt clock (Pending clock) now (mine_of account role l)
  test_pending_role_approval-Open now account role l = (
    (λ h. elim h [
      | inl passed ↦ ((test_pending_role_approval-ok_iff clock now account role l).0 passed).1
      | inr (b, e) ↦
          let none_mine =
            verdict-absent now account (mine_of account role l) b
              (sym (test_pending_role_approval-verdict clock now account role l) ∙ e) in
          rw none_mine tt
    ]),
    (λ h.
        rw (test_pending_role_approval-verdict clock now account role l)
          (verdict-Open now account (mine_of account role l) h)),
  )
