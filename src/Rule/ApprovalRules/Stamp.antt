-- ===== src/Rule/ApprovalRules/Stamp.antt =====
-- The approval rules (services/rule/src/rules/approval.rs): what they can change of an approval.
use mxfactorial.Prelude.{
  String, Bool, true, false, ◌==◌, string_eq, ok, err, ok_or, if◌then◌else◌, ◌≡◌, refl, sym, ◌⊎◌,
  inl, inr, >>=-eq-ok, ok_injective, Bool-cases, and_split, eq_of_beq, ◌∙◌,
}
use mxfactorial.Types.Role.{AccountRole, role_eq, parse}
use mxfactorial.Types.Approval.{Approval}
use mxfactorial.Types.Item.{TransactionItem}
use mxfactorial.Types.Errors.{BoxError, prefixed}
use mxfactorial.Types.Rule.{ApprovalRuleInstance}
use mxfactorial.Rule.ItemRules.{index}
use mxfactorial.Rule.ApprovalRules.{
  stamped, approve_item_between_accounts, approve_any_credit_item, match_approval_rule,
}

module _ {Time : Type 0} (rule_instance : ApprovalRuleInstance Time) (item : TransactionItem Time)
    (approval_time : Time) (approval : Approval Time) where
  -- The approval as it was, or stamped.
  abbrev pub Kept : Approval Time → Type 0
  Kept a = (a ≡ approval) ⊎ (a ≡ stamped rule_instance item approval_time approval)

  choice :
      (b : Bool) (a : Approval Time)
      → (if b then stamped rule_instance item approval_time approval else approval) ≡ a
      → Kept a
  choice true a h = inr (sym h)
  choice false a h = inl (sym h)

  on_true :
      (b : Bool) (x : Approval Time) (e : BoxError Time) (a : Approval Time)
      → (if b then ok x else err e) ≡ ok a
      → (b ≡ true) × (a ≡ x)
  on_true true x e a h = (refl, sym (ok_injective _ _ h))
  on_true false x e a h = cc

  renamed :
      (r : AccountRole) (n : String)
      → approval.account_role ≡ r
      → approval.account_name ≡ n
      → record (stamped rule_instance item approval_time approval) {
        account_name = n;
        account_role = r;
      }
        ≡ stamped rule_instance item approval_time approval
  renamed r n er en = rw (sym er, sym en) refl

  between-Kept :
      (a : Approval Time)
      → approve_item_between_accounts rule_instance item approval_time approval ≡ ok a
      → Kept a
  unfolding approve_item_between_accounts
  between-Kept a h =
      let (d, _, h1) = >>=-eq-ok (index rule_instance.variable_values 0) _ h in
      let (c, _, h2) = >>=-eq-ok (index rule_instance.variable_values 1) _ h1 in
      let (i, _, h3) = >>=-eq-ok (index rule_instance.variable_values 2) _ h2 in
      let (t, _, h4) = >>=-eq-ok (index rule_instance.variable_values 3) _ h3 in
      let (r, _, h5) = >>=-eq-ok (ok_or (parse t) (prefixed "unsupported approver role")) _ h4 in
      let (n, _, h6) = >>=-eq-ok (index rule_instance.variable_values 4) _ h5 in
      choice _ a (ok_injective _ _ h6)

  any_credit-Kept :
      (a : Approval Time)
      → approve_any_credit_item rule_instance item approval_time approval ≡ ok a
      → Kept a
  unfolding approve_any_credit_item
  any_credit-Kept a h =
      let (c, _, h1) = >>=-eq-ok (index rule_instance.variable_values 0) _ h in
      let (t, _, h2) = >>=-eq-ok (index rule_instance.variable_values 1) _ h1 in
      let (r, _, h3) = >>=-eq-ok (ok_or (parse t) (prefixed "unsupported approver role")) _ h2 in
      let (n, _, h4) = >>=-eq-ok (index rule_instance.variable_values 2) _ h3 in
      let (b, p) = on_true _ _ _ a h4 in
      let (er, en) = and_split (approval.account_role == r) (approval.account_name == n) b in
      inr (
        p
        ∙ renamed r n (eq_of_beq approval.account_role r er) (eq_of_beq approval.account_name n en))

  -- A rule that succeeds returns the approval as it was, or stamped with the rule, the item and the
  -- given time: its account and its role stay, and no other time gets into it.
  pub match_approval_rule-Kept :
      (a : Approval Time)
      → match_approval_rule rule_instance item approval_time approval ≡ ok a
      → Kept a
  unfolding match_approval_rule
  match_approval_rule-Kept a h =
      elim (Bool-cases (rule_instance.rule_name == "approveAnyCreditItem")) [
        | inl b ↦ any_credit-Kept a (rw b at h)
        | inr b ↦ elim (Bool-cases (rule_instance.rule_name == "approveItemBetweenAccounts")) [
          | inl c ↦ between-Kept a (rw (b, c) at h)
          | inr c ↦ inl (sym (ok_injective _ _ (rw (b, c) at h)))
        ]
      ]

  pub Kept-account :
      (a : Approval Time)
      → Kept a
      → (a.account_name ≡ approval.account_name) × (a.account_role ≡ approval.account_role)
  Kept-account a (inl e) = rw e (refl, refl)
  Kept-account a (inr e) = rw e (refl, refl)
