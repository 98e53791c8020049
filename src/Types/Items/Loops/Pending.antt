-- ===== src/Types/Items/Loops/Pending.antt =====
-- What `TransactionItems::test_pending_role_approval` (crates/types/src/transaction_item.rs) decides.
use mxfactorial.Prelude.{
  ℕ, suc, ◌+◌, ◌≤◌, String, [], ◌∷◌, ◌≡◌, ◌≢◌, refl, ◌∙◌, ◌⊎◌, inl, inr, Outcome, ok, err, panic,
  length, arith, >>=-eq-ok,
}
use mxfactorial.External.{InstantOps}
use mxfactorial.Types.Role.{AccountRole}
use mxfactorial.Types.Approval.{ApprovalError}
use mxfactorial.Types.Item.{TransactionItem, item_pending_role_approval}
use mxfactorial.Types.Items.{TransactionItems}
use mxfactorial.Types.Items.Loops.{PendingTally, tally_item, tally_items}

module _ {Time : Type 0} where
  -- The account's approvals of an item are open, or the item asks none of the account.
  abbrev pub OpenOrAbsent : Outcome (ApprovalError Time) (Unit {0}) → Type 0
  OpenOrAbsent r =
      (r ≡ ok tt) ⊎ ((a : String) × (r ≡ err (ApprovalError.zero_approvals_for_account a)))

  -- The account has approved the item before.
  abbrev pub Before : Outcome (ApprovalError Time) (Unit {0}) → Type 0
  Before r = (t : Time) × (r ≡ err (ApprovalError.previously_approved t))

  -- One round: the counters move by what the item's test says.
  record Open (s s' : PendingTally Time) (r : Outcome (ApprovalError Time) (Unit {0}))
      : Type 0 where
    says : OpenOrAbsent r
    same : s'.previously ≡ s.previously
    few : s'.zero ≤ s.zero + 1
    kept : s'.prev_err ≡ s.prev_err

  record Counted (s s' : PendingTally Time) (r : Outcome (ApprovalError Time) (Unit {0}))
      : Type 0 where
    says : Before r
    more : s'.previously ≡ s.previously + 1
    same : s'.zero ≡ s.zero
    time : (t : Time) × (s'.prev_err ≡ ApprovalError.previously_approved t)

  tally_step :
      (s : PendingTally Time) (r : Outcome (ApprovalError Time) (Unit {0})) {s' : PendingTally Time}
      → tally_item s r ≡ ok s'
      → Open s s' r ⊎ Counted s s' r
  unfolding tally_item
  tally_step s (ok _) h =
      inl (record { says = inl refl; same = ground arith; few = ground arith; kept = ground arith })
  tally_step s (err (ApprovalError.previously_approved t)) h = inr (record {
    says = (t, refl);
    more = ground arith;
    same = ground arith;
    time = (t, ground arith);
  })
  tally_step s (err (ApprovalError.zero_approvals_for_account a)) h = inl (record {
    says = inr (a, refl);
    same = ground arith;
    few = ground arith;
    kept = ground arith;
  })
  tally_step s (err ApprovalError.expiration_time_lapsed) h = cc
  tally_step s (err ApprovalError.previously_rejected) h = cc
  tally_step s (err ApprovalError.zero_approvals) h = cc
  tally_step s (err ApprovalError.incomplete_previous_approval) h = cc
  tally_step s (err ApprovalError.missing_transaction_id) h = cc
  tally_step s (err ApprovalError.missing_transaction_item_id) h = cc
  tally_step s panic h = cc

  pub tally_item-not_zero :
      (s : PendingTally Time) (r : Outcome (ApprovalError Time) (Unit {0})) (a : String)
      → tally_item s r ≢ err (ApprovalError.zero_approvals_for_account a)
  unfolding tally_item
  tally_item-not_zero s (ok _) a h = cc
  tally_item-not_zero s (err (ApprovalError.previously_approved t)) a h = cc
  tally_item-not_zero s (err (ApprovalError.zero_approvals_for_account b)) a h = cc
  tally_item-not_zero s (err ApprovalError.expiration_time_lapsed) a h = cc
  tally_item-not_zero s (err ApprovalError.previously_rejected) a h = cc
  tally_item-not_zero s (err ApprovalError.zero_approvals) a h = cc
  tally_item-not_zero s (err ApprovalError.incomplete_previous_approval) a h = cc
  tally_item-not_zero s (err ApprovalError.missing_transaction_id) a h = cc
  tally_item-not_zero s (err ApprovalError.missing_transaction_item_id) a h = cc
  tally_item-not_zero s panic a h = cc

module _ {Time : Type 0} (clock : InstantOps Time) (account : String) (role : AccountRole) where
  abbrev pub item_test : (ℕ → Time) → TransactionItem Time → Outcome (ApprovalError Time) (Unit {0})
  item_test now ti = item_pending_role_approval clock now account role ti

  -- A predicate of the answer for each item, at the instants that its round reads.
  abbrev pub EachItem :
      (Outcome (ApprovalError Time) (Unit {0}) → Type 0)
      → (ℕ → ℕ → Time)
      → TransactionItems Time
      → Type 0
  EachItem P now [] = Unit
  EachItem P now (ti ∷ rest) = P (item_test (now 0) ti) × EachItem P (λ i. now (suc i)) rest

  pub record TallySays (now : ℕ → ℕ → Time) (s s' : PendingTally Time) (l : TransactionItems Time)
      : Type 0 where
    pub low : s.previously ≤ s'.previously
    pub high : s'.previously + s'.zero ≤ s.previously + s.zero + length l
    pub unmoved : s'.previously ≡ s.previously → EachItem OpenOrAbsent now l
    pub timed :
        ((t : Time) × (s.prev_err ≡ ApprovalError.previously_approved t))
        → (t : Time) × (s'.prev_err ≡ ApprovalError.previously_approved t)

  TallySays-cons :
      (now : ℕ → ℕ → Time) (s m s' : PendingTally Time) (ti : TransactionItem Time)
      (l : TransactionItems Time)
      → Open s m (item_test (now 0) ti) ⊎ Counted s m (item_test (now 0) ti)
      → TallySays (λ i. now (suc i)) m s' l
      → TallySays now s s' (ti ∷ l)
  TallySays-cons now s m s' ti l (inl o) c = record {
    low = omega (arith, c.low, o.same);
    high = omega (arith, c.high, o.same, o.few);
    unmoved = λ e. (o.says, c.unmoved (omega (arith, o.same)));
    timed = λ p. c.timed (p.0, o.kept ∙ p.1);
  }
  TallySays-cons now s m s' ti l (inr o) c = record {
    low = omega (arith, c.low, o.more);
    high = omega (arith, c.high, o.same, o.more);
    unmoved = λ e. absurd (omega (arith, c.low, o.more));
    timed = λ p. c.timed o.time;
  }

  pub tally_says :
      (now : ℕ → ℕ → Time) (s : PendingTally Time) (l : TransactionItems Time)
      {s' : PendingTally Time}
      → tally_items clock now account role s l ≡ ok s'
      → TallySays now s s' l
  unfolding tally_items
  tally_says now s [] h = record {
    low = ground arith;
    high = ground arith;
    unmoved = λ _. tt;
    timed = λ p. (p.0, ground arith);
  }
  tally_says now s (ti ∷ l) {s'} h =
      let (m, first, rest) = >>=-eq-ok _ _ h in
      TallySays-cons now s m s' ti l (tally_step s (item_test (now 0) ti) first)
        (tally_says (λ i. now (suc i)) m l rest)
