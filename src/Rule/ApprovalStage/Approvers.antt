-- ===== src/Rule/ApprovalStage/Approvers.antt =====
-- `apply_approval_rules` (services/rule/src/main.rs): whose approvals an item gets.
use mxfactorial.Prelude.{
  String, List, [], ◌∷◌, Option, none, some, Outcome, ok, err, panic, ◌≡◌, refl, sym, ap, ◌⊎◌, inl,
  inr, map_err, >>=-eq-ok, ok_injective,
}
use mxfactorial.Effect.{lift, map_error}
use mxfactorial.Effect.Success.{>>=-ok, paired}
use mxfactorial.Types.Role.{AccountRole}
use mxfactorial.Types.Approval.{Approval, Approvals}
use mxfactorial.Types.Item.{TransactionItem}
use mxfactorial.Types.Rule.{ApprovalRuleInstance, ApprovalRuleInstances}
use mxfactorial.Service.Error.{internal}
use mxfactorial.Service.Model.{Model}
use mxfactorial.Service.Cache.{Cache}
use mxfactorial.Service.ReadThrough.{get_approval_rule_instances}
use mxfactorial.Rule.ApprovalRules.{match_approval_rule}
use mxfactorial.Rule.ApprovalRules.Stamp.{Kept, match_approval_rule-Kept}
use mxfactorial.Rule.ApprovalStage.{new_approval, apply_approval_rule_list, approve_by}

module _ {E F A : Type 0} where
  map_err-inverse : (f : E → F) (m : Outcome E A) {a : A} → map_err f m ≡ ok a → m ≡ ok a
  map_err-inverse f (ok b) h = cc
  map_err-inverse f (err e) h = cc
  map_err-inverse f panic h = cc

module _ {Time : Type 0} (time : Time) (role : AccountRole) where
  -- An approval of the approver in the role, open or given at the time of the run.
  pub record IsFor (approver : String) (a : Approval Time) : Type 0 where
    pub named : a.account_name ≡ approver
    pub in_role : a.account_role ≡ role
    pub timed : (a.approval_time ≡ none) ⊎ (a.approval_time ≡ some time)

  Kept-IsFor :
      (rule : ApprovalRuleInstance Time) (item : TransactionItem Time) (approver : String)
      (a b : Approval Time)
      → IsFor approver a
      → Kept rule item time a b
      → IsFor approver b
  Kept-IsFor rule item approver a b h (inl e) = rw e h
  Kept-IsFor rule item approver a b h (inr e) =
      rw e (record { named = h.named; in_role = h.in_role; timed = inr refl })

  apply_approval_rule_list-IsFor :
      (rules : ApprovalRuleInstances Time) (item : TransactionItem Time) (approver : String)
      (a b : Approval Time)
      → IsFor approver a
      → apply_approval_rule_list rules item time a ≡ ok b
      → IsFor approver b
  unfolding apply_approval_rule_list
  apply_approval_rule_list-IsFor [] item approver a b h e = rw (sym (ok_injective a b e)) h
  apply_approval_rule_list-IsFor (rule ∷ rest) item approver a b h e =
      let (c, m, k) = >>=-eq-ok (map_err internal (match_approval_rule rule item time a)) _ e in
      apply_approval_rule_list-IsFor rest item approver c b
        (Kept-IsFor rule item approver a c h (
          match_approval_rule-Kept rule item time a c
            (map_err-inverse internal (match_approval_rule rule item time a) m)))
        k

  -- One approval for each approver, in order.
  abbrev pub ForEach : List String → Approvals Time → Type 0
  ForEach [] [] = Unit
  ForEach [] (a ∷ l) = ⊥
  ForEach (approver ∷ rest) [] = ⊥
  ForEach (approver ∷ rest) (a ∷ l) = IsFor approver a × ForEach rest l

module _ {W Time D : Type 0} (conn : Model W Time D) (cache : Option (Cache W Time)) (time : Time)
    (item : TransactionItem Time) (role : AccountRole) where
  -- The approvals that are made for the approvers of a role are one for each approver, in their
  -- order, in that role, and either open or given at the time of the run.
  pub approve_by-ForEach :
      (approvers : List String) (w v : W) (approvals : Approvals Time)
      → approve_by conn cache time item role approvers w ≡ (ok approvals, v)
      → ForEach time role approvers approvals
  unfolding approve_by
  approve_by-ForEach [] w v approvals h = rw (sym (ok_injective [] approvals (ap (λ x. x.0) h))) tt
  approve_by-ForEach (approver ∷ rest) w v approvals h =
      let (rules, _, h1) =
        >>=-ok (map_error internal (get_approval_rule_instances conn cache role approver)) _ h in
      let (a, e, h2) =
        >>=-ok (lift (apply_approval_rule_list rules item time (new_approval role approver))) _
          h1 in
      let (others, r, h3) = >>=-ok (approve_by conn cache time item role rest) _ h2 in
      let s : a ∷ others ≡ approvals = ok_injective _ _ (ap (λ x. x.0) h3) in
      rw (sym s) (
        apply_approval_rule_list-IsFor time role rules item approver (new_approval role approver) a
            (record { named = refl; in_role = refl; timed = inl refl }) e,
        approve_by-ForEach rest _ _ others (paired r refl),
      )
