-- ===== src/Rule/Label/Latest.antt =====
-- `label_approved_transaction_items` (services/rule/src/lib.rs): the time that a side of an item gets.
use mxfactorial.Prelude.{
  ℕ, ◌+◌, ◌<◌, ◌≤◌, Bool, true, false, ◌&&◌, List, [], ◌∷◌, ◌++◌, none, some, ◌==◌, nat_eq, ok, ◌≡◌,
  refl, sym, ◌∙◌, length, is_empty, is_some, All, arith, ◌⊎◌, inl, inr, Option-cases, Bool-cases,
  ◌>>=◌, ok_or, append-nil, append_assoc, subst, ap, and_split,
}
use mxfactorial.External.{InstantOps, InstantLaws}
use mxfactorial.Types.Role.{AccountRole, role_eq}
use mxfactorial.Types.Approval.{Approvals, get_approvals_per_role}
use mxfactorial.Types.Item.{TransactionItem}
use mxfactorial.Rule.Label.{
  collect_times, latest, label_times, label_role, label_with, set_approval_time,
}

module _ {Time : Type 0} where
  -- The times of the approvals that have one, in order.
  abbrev pub times : Approvals Time → List Time
  times [] = []
  times (a ∷ rest) = elim a.approval_time [ none ↦ times rest | some t ↦ t ∷ times rest ]

  abbrev pub all_approved : Approvals Time → Bool
  all_approved [] = true
  all_approved (a ∷ rest) = is_some a.approval_time && all_approved rest

  collect_times-times :
      (n : ℕ) (ts : List Time) (l : Approvals Time)
      → collect_times (n, ts) l ≡ (n + length (times l), ts ++ times l)
  unfolding collect_times
  collect_times-times n ts [] = ground (arith, append-nil ts)
  collect_times-times n ts (a ∷ l) = elim (Option-cases a.approval_time) [
    | inl e ↦ rw e (collect_times-times n ts l)
    | inr (t, e) ↦
        rw (e, collect_times-times (n + 1) (ts ++ t ∷ []) l)
          (ground (arith, append_assoc ts (t ∷ []) (times l)))
  ]

  times-all :
      (l : Approvals Time)
      → (all_approved l ≡ true → length (times l) ≡ length l)
        × (length (times l) ≤ length l)
        × (all_approved l ≡ false → length (times l) < length l)
  times-all [] = ground arith
  times-all (a ∷ l) = ground (arith, times-all l)

  times-length : (l : Approvals Time) → (length l == length (times l)) ≡ all_approved l
  times-length l = ground (arith, times-all l)

  abbrev pub Among : Time → List Time → Type 0
  Among t [] = ⊥
  Among t (u ∷ rest) = (t ≡ u) ⊎ Among t rest

module _ {Time : Type 0} (clock : InstantOps Time) where
  latest-nil : (t : Time) → latest clock t [] ≡ t
  unfolding latest
  latest-nil t = refl

  latest-later :
      (t u : Time) (rest : List Time)
      → clock.later u t ≡ true
      → latest clock t (u ∷ rest) ≡ latest clock u rest
  unfolding latest
  latest-later t u rest b = rw b refl

  latest-not :
      (t u : Time) (rest : List Time)
      → clock.later u t ≡ false
      → latest clock t (u ∷ rest) ≡ latest clock t rest
  unfolding latest
  latest-not t u rest b = rw b refl

module _ {Time : Type 0} (clock : InstantOps Time) (laws : InstantLaws clock) where
  latest-grows :
      (t : Time) (rest : List Time)
      → (latest clock t rest ≡ t) ⊎ (clock.later (latest clock t rest) t ≡ true)
  unfolding latest
  latest-grows t [] = inl refl
  latest-grows t (u ∷ rest) = elim (Bool-cases (clock.later u t)) [
    | inr b ↦ rw b (latest-grows t rest)
    | inl b ↦ rw b (elim (latest-grows u rest) [
      | inl e ↦ inr (rw e b)
      | inr l ↦ inr (laws.later_trans (latest clock u rest) u t l b)
    ])
  ]

  -- What is not later than the first is not later than the last found.
  latest-bound :
      (u t : Time) (rest : List Time)
      → clock.later u t ≡ false
      → clock.later u (latest clock t rest) ≡ false
  latest-bound u t rest h = elim (latest-grows t rest) [
    | inl e ↦ rw e h
    | inr l ↦ ground (arith, h, laws.later_trans u (latest clock t rest) t, l)
  ]

  none_later :
      (t : Time) (rest : List Time)
      → All (λ u. clock.later u (latest clock t rest) ≡ false) (t ∷ rest)
  none_later t [] = (ground (arith, laws.later_irrefl t, latest-nil clock t), tt)
  none_later t (u ∷ rest) = elim (Bool-cases (clock.later u t)) [
    | inl b ↦
        subst (λ m. All (λ x. clock.later x m ≡ false) (t ∷ u ∷ rest))
          (sym (latest-later clock t u rest b))
          (
            latest-bound t u rest (ground (arith, laws.later_trans t u t, laws.later_irrefl t, b)),
            none_later u rest,
          )
    | inr b ↦
        subst (λ m. All (λ x. clock.later x m ≡ false) (t ∷ u ∷ rest))
          (sym (latest-not clock t u rest b))
          ((none_later t rest).0, (latest-bound u t rest b, (none_later t rest).1))
  ]

module _ {Time : Type 0} (clock : InstantOps Time) where
  latest-Among : (t : Time) (rest : List Time) → Among (latest clock t rest) (t ∷ rest)
  latest-Among t [] = inl (latest-nil clock t)
  latest-Among t (u ∷ rest) = elim (Bool-cases (clock.later u t)) [
    | inl b ↦
        subst (λ m. Among m (t ∷ u ∷ rest)) (sym (latest-later clock t u rest b))
          (inr (latest-Among u rest))
    | inr b ↦
        subst (λ m. Among m (t ∷ u ∷ rest)) (sym (latest-not clock t u rest b))
          (elim (latest-Among t rest) [ inl e ↦ inl e | inr m ↦ inr (inr m) ])
  ]

module _ {Time : Type 0} (clock : InstantOps Time) (role : AccountRole)
    (ti : TransactionItem Time) where
  label_times-unapproved :
      (l : Approvals Time)
      → all_approved l ≡ false
      → label_times clock role (length l) (collect_times (0, []) l) ti ≡ ok ti
  unfolding label_times
  label_times-unapproved l h =
      let b : (length l == 0 + length (times l)) ≡ false = ground (arith, times-all l, h) in
      rw (collect_times-times 0 [] l, b) refl

  label_times-latest :
      (l : Approvals Time) (t : Time) (rest : List Time)
      → all_approved l ≡ true
      → times l ≡ t ∷ rest
      → label_times clock role (length l) (collect_times (0, []) l) ti
        ≡ ok (set_approval_time role (latest clock t (t ∷ rest)) ti)
  unfolding label_times
  label_times-latest l t rest h e =
      let b : (length l == 0 + length (t ∷ rest)) ≡ true =
        ground (arith, times-all l, h, ap length e) in
      let c : (length (t ∷ rest) == length l) ≡ true =
        ground (arith, times-all l, h, ap length e) in
      rw (collect_times-times 0 [] l, e, b, c) refl

module _ {Time : Type 0} where
  unapproved-nonempty : (l : Approvals Time) → all_approved l ≡ false → is_empty l ≡ false
  unapproved-nonempty [] h = cc
  unapproved-nonempty (a ∷ l) h = refl

  first_time :
      (l : Approvals Time)
      → is_empty l ≡ false
      → all_approved l ≡ true
      → (t : Time) × (rest : List Time) × (times l ≡ t ∷ rest)
  first_time [] n h = cc
  first_time (a ∷ l) n h = elim (Option-cases a.approval_time) [
    | inl e ↦ absurd (ground (arith, e, (and_split (is_some a.approval_time) (all_approved l) h).0))
    | inr (t, e) ↦ (t, times l, rw e refl)
  ]

module _ {Time : Type 0} (clock : InstantOps Time) (role : AccountRole) (ti : TransactionItem Time)
    (approvals : Approvals Time) where
  label_role-some :
      ti.approvals ≡ some approvals → label_role clock role ti ≡ label_with clock role ti approvals
  unfolding label_role
  label_role-some e =
      ap (λ o. ok_or o "missing approvals in transaction item" >>= label_with clock role ti) e

  -- An approval of the role that has no time leaves the item as it is.
  pub label_role-unapproved :
      ti.approvals ≡ some approvals
      → all_approved (get_approvals_per_role role approvals) ≡ false
      → label_role clock role ti ≡ ok ti
  unfolding label_with
  label_role-unapproved e h =
      label_role-some e
      ∙ rw (unapproved-nonempty (get_approvals_per_role role approvals) h)
          (label_times-unapproved clock role ti (get_approvals_per_role role approvals) h)

  -- Where all approvals of the role have a time, the side of the item gets the time of one of them,
  -- and none of them is later.
  pub label_role-latest :
      InstantLaws clock
      → ti.approvals ≡ some approvals
      → is_empty (get_approvals_per_role role approvals) ≡ false
      → all_approved (get_approvals_per_role role approvals) ≡ true
      → (t : Time) × (label_role clock role ti ≡ ok (set_approval_time role t ti))
        × Among t (times (get_approvals_per_role role approvals))
        × All (λ u. clock.later u t ≡ false) (times (get_approvals_per_role role approvals))
  unfolding label_with
  label_role-latest laws e n h =
      let (t, rest, p) = first_time (get_approvals_per_role role approvals) n h in
      (
        latest clock t (t ∷ rest),
        label_role-some e
            ∙ rw n (
                label_times-latest clock role ti (get_approvals_per_role role approvals) t rest h
                  p),
        subst (Among (latest clock t (t ∷ rest))) (sym p)
            (elim (latest-Among clock t (t ∷ rest)) [ inl q ↦ inl q | inr m ↦ m ]),
        subst (All (λ u. clock.later u (latest clock t (t ∷ rest)) ≡ false)) (sym p)
            ((none_later clock laws t (t ∷ rest)).1),
      )
