-- ===== src/Types/Items/Clean.antt =====
-- `remove_unauthorized_values` and `filter_user_added` (crates/types/src/transaction_item.rs): what a
-- client can make the rule service see.
use mxfactorial.Prelude.{true, [], ◌∷◌, ◌≡◌, refl, none, is_none, All, arith, Bool-cases, inl, inr}
use mxfactorial.Types.Item.{TransactionItem}
use mxfactorial.Types.Items.{
  TransactionItems, authorized_values, remove_unauthorized_values, filter_user_added,
}

module _ {Time : Type 0} where
  -- Nothing that the services set is left: ids, profiles, times, approvals and rule executions.
  abbrev pub IsClient : TransactionItem Time → Type 0
  IsClient ti =
      (ti.id ≡ none)
      × (ti.transaction_id ≡ none)
      × (ti.rule_instance_id ≡ none)
      × (ti.rule_exec_ids ≡ none)
      × (ti.debitor_profile_id ≡ none)
      × (ti.creditor_profile_id ≡ none)
      × (ti.debitor_approval_time ≡ none)
      × (ti.creditor_approval_time ≡ none)
      × (ti.debitor_rejection_time ≡ none)
      × (ti.creditor_rejection_time ≡ none)
      × (ti.debitor_expiration_time ≡ none)
      × (ti.creditor_expiration_time ≡ none)
      × (ti.approvals ≡ none)

  IsClient-item :
      (ti : TransactionItem Time)
      → is_none ti.rule_instance_id ≡ true
      → IsClient (authorized_values ti)
  IsClient-item ti h = ground arith

  -- The two passes leave client items only.
  pub filter_user_added-remove_unauthorized_values-IsClient :
      (items : TransactionItems Time)
      → All IsClient (filter_user_added (remove_unauthorized_values items))
  unfolding filter_user_added remove_unauthorized_values
  filter_user_added-remove_unauthorized_values-IsClient [] = tt
  filter_user_added-remove_unauthorized_values-IsClient (ti ∷ rest) =
      elim (Bool-cases (is_none ti.rule_instance_id)) [
        | inl h ↦
            rw h (IsClient-item ti h, filter_user_added-remove_unauthorized_values-IsClient rest)
        | inr h ↦ rw h (filter_user_added-remove_unauthorized_values-IsClient rest)
      ]

  -- Cleaning an item twice is cleaning it once, and it commutes with dropping the rules' items.
  pub remove_unauthorized_values-filter_user_added :
      (items : TransactionItems Time)
      → filter_user_added (remove_unauthorized_values items)
        ≡ remove_unauthorized_values (filter_user_added items)
  unfolding filter_user_added remove_unauthorized_values
  remove_unauthorized_values-filter_user_added [] = refl
  remove_unauthorized_values-filter_user_added (ti ∷ rest) =
      ground (arith, remove_unauthorized_values-filter_user_added rest)
