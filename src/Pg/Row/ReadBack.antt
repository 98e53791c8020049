-- ===== src/Pg/Row/ReadBack.antt =====
-- What is stored under the names of a record's fields is read back as the record, through the
-- columns that the statements select and the positions that `From<Row>` reads.
use mxfactorial.Prelude.{String, List, [], Option, none, some, ok, ◌≡◌, refl, Bool}
use mxfactorial.Types.Role.{AccountRole, debitor, creditor}
use mxfactorial.Types.Errors.{BoxError}
use mxfactorial.Types.Approval.{Approval}
use mxfactorial.Types.Account.{AccountProfile}
use mxfactorial.Types.Balance.{AccountBalance}
use mxfactorial.Types.Rule.{
  TransactionRuleInstance, TransactionItemRuleInstance, ApprovalRuleInstance,
}
use mxfactorial.Types.Item.{TransactionItem}
use mxfactorial.Types.Transaction.{Transaction}
use mxfactorial.Pg.Value.{text, bool, timestamp, texts, optional, role_value}
use mxfactorial.Pg.Row.{optionally, as_text, as_texts, as_time, as_bool, as_role}
use mxfactorial.Pg.Row.Accounts.{approval_from, profile_from, balance_from}
use mxfactorial.Pg.Row.Rules.{transaction_rule_from, item_rule_from, approval_rule_from}
use mxfactorial.Pg.Row.Transactions.{item_from, transaction_from}
use mxfactorial.Pg.Sqls.Approval
use mxfactorial.Pg.Sqls.Profile
use mxfactorial.Pg.Sqls.Balance
use mxfactorial.Pg.Sqls.Transaction
use mxfactorial.Pg.Sqls.TransactionItem
use mxfactorial.Pg.Sqls.RuleInstance.Transaction as TransactionRules
use mxfactorial.Pg.Sqls.RuleInstance.Item as ItemRules
use mxfactorial.Pg.Sqls.RuleInstance.Approval as ApprovalRules
use mxfactorial.Pg.Row.Selected.{
  read_back, approval_stored, profile_stored, balance_stored, transaction_rule_stored,
  item_rule_stored, approval_rule_stored, item_stored, transaction_stored,
}

module _ (Time D F : Type 0) where
  read_text :
      (o : Option String)
      → optionally as_text (optional {Time = Time} {D = D} {F = F} (λ x. text x) o) ≡ some o
  read_text none = refl
  read_text (some s) = refl

  read_texts :
      (o : Option (List String))
      → optionally as_texts (optional {Time = Time} {D = D} {F = F} (λ x. texts x) o) ≡ some o
  read_texts none = refl
  read_texts (some s) = refl

  read_time :
      (o : Option Time)
      → optionally as_time (optional {Time = Time} {D = D} {F = F} (λ x. timestamp x) o) ≡ some o
  read_time none = refl
  read_time (some s) = refl

  read_bool :
      (o : Option Bool)
      → optionally as_bool (optional {Time = Time} {D = D} {F = F} (λ x. bool x) o) ≡ some o
  read_bool none = refl
  read_bool (some s) = refl

  read_role : (r : AccountRole) → as_role (role_value {Time = Time} {D = D} {F = F} r) ≡ some r
  read_role debitor = refl
  read_role creditor = refl

  read_optional_role :
      (o : Option AccountRole)
      → optionally as_role (optional {Time = Time} {D = D} {F = F} role_value o) ≡ some o
  read_optional_role none = refl
  read_optional_role (some debitor) = refl
  read_optional_role (some creditor) = refl

  ruleset read_cells = (read_text, read_texts, read_time, read_bool, read_role, read_optional_role)

  approval-read_back :
      (r : Approval Time)
      → read_back {E = BoxError Time} Approval.select_all_with_casting
          (approval_from {Time = Time} {D = D} {F = F})
          (approval_stored r)
        ≡ ok r
  unfolding Approval.select_all_with_casting approval_from
  approval-read_back r = simp read_cells

  profile-read_back :
      (r : AccountProfile Time)
      → read_back {E = BoxError Time} Profile.select_all_with_text_casting
          (profile_from {Time = Time} {D = D} {F = F})
          (profile_stored r)
        ≡ ok r
  unfolding Profile.select_all_with_text_casting profile_from
  profile-read_back r = simp read_cells

  balance-read_back :
      (r : AccountBalance D)
      → read_back {E = BoxError Time} Balance.select_columns_with_casting
          (balance_from {Time = Time} {D = D} {F = F})
          (balance_stored r)
        ≡ ok r
  unfolding Balance.select_columns_with_casting balance_from
  balance-read_back r = simp read_cells

  transaction_rule-read_back :
      (r : TransactionRuleInstance Time)
      → read_back {E = BoxError Time} TransactionRules.select_all_with_text_casting
          (transaction_rule_from {Time = Time} {D = D} {F = F})
          (transaction_rule_stored r)
        ≡ ok r
  unfolding TransactionRules.select_all_with_text_casting transaction_rule_from
  transaction_rule-read_back r = simp read_cells

  item_rule-read_back :
      (r : TransactionItemRuleInstance Time)
      → read_back {E = BoxError Time} ItemRules.select_all_with_text_casting
          (item_rule_from {Time = Time} {D = D} {F = F})
          (item_rule_stored r)
        ≡ ok r
  unfolding ItemRules.select_all_with_text_casting item_rule_from
  item_rule-read_back r = simp read_cells

  approval_rule-read_back :
      (r : ApprovalRuleInstance Time)
      → read_back {E = BoxError Time} ApprovalRules.select_all_with_text_casting
          (approval_rule_from {Time = Time} {D = D} {F = F})
          (approval_rule_stored r)
        ≡ ok r
  unfolding ApprovalRules.select_all_with_text_casting approval_rule_from
  approval_rule-read_back r = simp read_cells

  item-read_back :
      (r : TransactionItem Time)
      → read_back {E = BoxError Time} TransactionItem.select_all_with_casting
          (item_from {Time = Time} {D = D} {F = F})
          (item_stored r)
        ≡ ok (record r { approvals = some [] })
  unfolding TransactionItem.select_all_with_casting item_from
  item-read_back r = simp read_cells

  transaction-read_back :
      (r : Transaction Time)
      → read_back {E = BoxError Time} Transaction.select_all_with_casting
          (transaction_from {Time = Time} {D = D} {F = F})
          (transaction_stored r)
        ≡ ok (record r { transaction_items = [] })
  unfolding Transaction.select_all_with_casting transaction_from
  transaction-read_back r = simp read_cells

  -- The columns that are selected and the cells that are read stand in the same order: whatever is
  -- stored under the names of a record's fields is read back as that record, for each of the eight
  -- tables; an item comes with no approvals yet, and a transaction with no items.
  pub records-read_back :
      (a : Approval Time) (p : AccountProfile Time) (b : AccountBalance D)
      (tr : TransactionRuleInstance Time) (ir : TransactionItemRuleInstance Time)
      (ar : ApprovalRuleInstance Time) (i : TransactionItem Time) (t : Transaction Time)
      → (read_back {E = BoxError Time} Approval.select_all_with_casting
            (approval_from {Time = Time} {D = D} {F = F})
            (approval_stored a)
          ≡ ok a)
        × (read_back {E = BoxError Time} Profile.select_all_with_text_casting
              (profile_from {Time = Time} {D = D} {F = F})
              (profile_stored p)
            ≡ ok p)
        × (read_back {E = BoxError Time} Balance.select_columns_with_casting
              (balance_from {Time = Time} {D = D} {F = F})
              (balance_stored b)
            ≡ ok b)
        × (read_back {E = BoxError Time} TransactionRules.select_all_with_text_casting
              (transaction_rule_from {Time = Time} {D = D} {F = F})
              (transaction_rule_stored tr)
            ≡ ok tr)
        × (read_back {E = BoxError Time} ItemRules.select_all_with_text_casting
              (item_rule_from {Time = Time} {D = D} {F = F})
              (item_rule_stored ir)
            ≡ ok ir)
        × (read_back {E = BoxError Time} ApprovalRules.select_all_with_text_casting
              (approval_rule_from {Time = Time} {D = D} {F = F})
              (approval_rule_stored ar)
            ≡ ok ar)
        × (read_back {E = BoxError Time} TransactionItem.select_all_with_casting
              (item_from {Time = Time} {D = D} {F = F})
              (item_stored i)
            ≡ ok (record i { approvals = some [] }))
        × (read_back {E = BoxError Time} Transaction.select_all_with_casting
              (transaction_from {Time = Time} {D = D} {F = F})
              (transaction_stored t)
            ≡ ok (record t { transaction_items = [] }))
  records-read_back a p b tr ir ar i t = (
    approval-read_back a,
    profile-read_back p,
    balance-read_back b,
    transaction_rule-read_back tr,
    item_rule-read_back ir,
    approval_rule-read_back ar,
    item-read_back i,
    transaction-read_back t,
  )
