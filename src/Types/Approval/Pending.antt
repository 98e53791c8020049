-- ===== src/Types/Approval/Pending.antt =====
-- What the pending tests of crates/types/src/approval.rs decide, for one approval and for a role.
use mxfactorial.Prelude.{
  ℕ, suc, ◌+◌, ◌≤◌, String, Bool, true, ◌&&◌, [], ◌∷◌, Option, none, some, ◌==◌, string_eq, ◌≡◌,
  refl, ap, ◌∙◌, ◌⊎◌, inl, inr, ok, length, filter, arith, >>=-eq-ok, is_some, Option-cases,
}
use mxfactorial.External.{InstantOps}
use mxfactorial.Types.Role.{AccountRole, role_eq}
use mxfactorial.Types.Approval.{Approval, Approvals, test_pending, tally_approved, count_approved}

-- The approvals of one account in one role.
abbrev pub mine_of : {Time : Type 0} → String → AccountRole → Approvals Time → Approvals Time
mine_of account role = filter (λ a. a.account_name == account && a.account_role == role)

module _ {Time : Type 0} (clock : InstantOps Time) where
  abbrev pub unexpired : Time → Option Time → Bool
  unexpired now none = true
  unexpired now (some t) = clock.later t now

  -- Neither answered nor expired at `now`.
  pub record Pending (now : Time) (a : Approval Time) : Type 0 where
    pub open_yet : unexpired now a.expiration_time ≡ true
    pub unapproved : a.approval_time ≡ none
    pub unrejected : a.rejection_time ≡ none

  -- Approved, and not expired at `now`.
  pub record Approved (now : Time) (a : Approval Time) : Type 0 where
    pub open_yet : unexpired now a.expiration_time ≡ true
    pub approved : is_some a.approval_time ≡ true

  -- A predicate of each approval and of the instant that its round reads.
  abbrev pub EachAt : (Time → Approval Time → Type 0) → (ℕ → Time) → Approvals Time → Type 0
  EachAt P now [] = Unit
  EachAt P now (a ∷ rest) = P (now 0) a × EachAt P (λ i. now (suc i)) rest

  count_step :
      (n : ℕ) (now : Time) (a : Approval Time) {m : ℕ}
      → tally_approved n (test_pending clock now a) ≡ ok m
      → ((m ≡ n) × Pending now a) ⊎ ((m ≡ n + 1) × Approved now a)
  unfolding tally_approved test_pending
  count_step n now a h = elim (Option-cases a.approval_time) [
    | inl e ↦ inl (ground arith)
    | inr (t, e) ↦ inr (ground arith)
  ]

  count_step-Pending :
      (n : ℕ) (now : Time) (a : Approval Time)
      → Pending now a
      → tally_approved n (test_pending clock now a) ≡ ok n
  unfolding tally_approved test_pending
  count_step-Pending n now a h = ground arith

  count_step-Approved :
      (n : ℕ) (now : Time) (a : Approval Time)
      → Approved now a
      → tally_approved n (test_pending clock now a) ≡ ok (n + 1)
  unfolding tally_approved test_pending
  count_step-Approved n now a h = ground arith

  -- What a count says: none counted means that all are pending, all counted that all are approved.
  pub record CountSays (now : ℕ → Time) (n : ℕ) (l : Approvals Time) (m : ℕ) : Type 0 where
    pub low : n ≤ m
    pub high : m ≤ n + length l
    pub unmoved : m ≡ n → EachAt Pending now l
    pub full : m ≡ n + length l → EachAt Approved now l

  CountSays-cons :
      (now : ℕ → Time) (n k m : ℕ) (a : Approval Time) (l : Approvals Time)
      → ((k ≡ n) × Pending (now 0) a) ⊎ ((k ≡ n + 1) × Approved (now 0) a)
      → CountSays (λ i. now (suc i)) k l m
      → CountSays now n (a ∷ l) m
  CountSays-cons now n k m a l (inl (e, p)) c = record {
    low = omega arith;
    high = omega arith;
    unmoved = λ u. (p, c.unmoved (omega arith));
    full = λ u. absurd (omega arith);
  }
  CountSays-cons now n k m a l (inr (e, p)) c = record {
    low = omega arith;
    high = omega arith;
    unmoved = λ u. absurd (omega arith);
    full = λ u. (p, c.full (omega arith));
  }

  pub count_says :
      (now : ℕ → Time) (n : ℕ) (l : Approvals Time) {m : ℕ}
      → count_approved clock now n l ≡ ok m
      → CountSays now n l m
  unfolding count_approved
  count_says now n [] h = record {
    low = ground arith;
    high = ground arith;
    unmoved = λ _. tt;
    full = λ _. tt;
  }
  count_says now n (a ∷ l) {m} h =
      let (k, first, rest) = >>=-eq-ok _ _ h in
      CountSays-cons now n k m a l (count_step n (now 0) a first)
        (count_says (λ i. now (suc i)) k l rest)

  pub count-Pending :
      (now : ℕ → Time) (n : ℕ) (l : Approvals Time)
      → EachAt Pending now l
      → count_approved clock now n l ≡ ok n
  unfolding count_approved
  count-Pending now n [] h = refl
  count-Pending now n (a ∷ l) h =
      rw (count_step-Pending n (now 0) a h.0) (count-Pending (λ i. now (suc i)) n l h.1)

  pub count_all-Approved :
      (now : ℕ → Time) (n : ℕ) (l : Approvals Time)
      → EachAt Approved now l
      → count_approved clock now n l ≡ ok (n + length l)
  unfolding count_approved
  count_all-Approved now n [] h = ap ok (omega arith)
  count_all-Approved now n (a ∷ l) h =
      rw (count_step-Approved n (now 0) a h.0)
        (count_all-Approved (λ i. now (suc i)) (n + 1) l h.1 ∙ ap ok (omega arith))
