-- ===== src/Service/ReadThrough.antt =====
-- crates/service/src/lib.rs: reads that try the cache, then the database, and write the cache.
pub mod Approvers
use mxfactorial.Prelude.{
  String, List, [], ◌∷◌, ◌++◌, Option, none, some, inl, inr, is_empty, if◌then◌else◌, ℤ, is_some,
}
use mxfactorial.Prelude.Maps.{insert}
use mxfactorial.Prelude.Numeral.{parse_i32}
use mxfactorial.Effect.{Action, pure, lift, attempt, for_each, ◌>>=◌, ◌>>◌}
use mxfactorial.Types.Role.{AccountRole}
use mxfactorial.Types.Errors.{BoxError}
use mxfactorial.Types.Account.{AccountProfile, AccountProfiles, ProfileIds, from_pairs}
use mxfactorial.Types.Rule.{TransactionItemRuleInstances, ApprovalRuleInstances}
use mxfactorial.Service.Model.{Model}
use mxfactorial.Service.Cache.{Cache, CacheError}

module _ {W E A : Type 0} where
  -- A hit is the answer; a miss reads the database and writes the cache, whose errors are dropped.
  unfoldable pub read_through :
      Action W CacheError A → (A → Action W CacheError (Unit {0})) → Action W E A → Action W E A
  read_through hit store fetch = do
    cached ← attempt hit
    elim cached [ inl a ↦ pure a | inr _ ↦ do a ← fetch; _ ← attempt (store a); pure a ]

module _ {W Time D : Type 0} (conn : Model W Time D) (cache : Option (Cache W Time)) where
  unfoldable pub get_account_approvers : String → Action W (BoxError Time) (List String)
  unfolding read_through
  get_account_approvers account = elim cache [
    | none ↦ conn.select_approvers_query account
    | some c ↦
        read_through (c.get_account_approvers account) (c.set_account_approvers account)
          (conn.select_approvers_query account)
  ]

  unfoldable pub get_tr_item_rule_instances_by_role_account :
      AccountRole → String → Action W (BoxError Time) (TransactionItemRuleInstances Time)
  unfolding read_through
  get_tr_item_rule_instances_by_role_account role account = elim cache [
    | none ↦ conn.select_transaction_item_rules_by_role_account_query role account
    | some c ↦
        read_through (c.get_account_rules role account) (c.set_account_rules role account)
          (conn.select_transaction_item_rules_by_role_account_query role account)
  ]

  unfoldable pub get_state_tr_item_rule_instances :
      AccountRole → String → Action W (BoxError Time) (TransactionItemRuleInstances Time)
  unfolding read_through
  get_state_tr_item_rule_instances role state = elim cache [
    | none ↦ conn.select_transaction_item_rules_by_role_state_query role state
    | some c ↦
        read_through (c.get_transaction_item_rules role state)
          (c.set_transaction_item_rules role state)
          (conn.select_transaction_item_rules_by_role_state_query role state)
  ]

  unfoldable pub get_approval_rule_instances :
      AccountRole → String → Action W (BoxError Time) (ApprovalRuleInstances Time)
  unfolding read_through
  get_approval_rule_instances role account = elim cache [
    | none ↦ conn.select_approval_rule_instances_by_role_account_query role account
    | some c ↦
        read_through (c.get_approval_rules role account) (c.set_approval_rules role account)
          (conn.select_approval_rule_instances_by_role_account_query role account)
  ]

module _ {W Time : Type 0} (c : Cache W Time) where
  -- The profiles that the cache has, and the accounts that it lacks, both in order.
  unfoldable pub cached_profiles :
      List String → Action W (BoxError Time) (AccountProfiles Time × List String)
  cached_profiles [] = pure ([], [])
  cached_profiles (account ∷ rest) = do
    found ← attempt (c.get_account_profile account)
    others ← cached_profiles rest
    pure (elim found [
      | inl profile ↦ (profile ∷ others.0, others.1)
      | inr _ ↦ (others.0, account ∷ others.1)
    ])

  store_profile : AccountProfile Time → Action W (BoxError Time) (Unit {0})
  store_profile profile = attempt (c.set_account_profile profile.account_name profile) >> pure tt

  -- The ids that the cache has, added to `ids`, and the accounts that it lacks.
  unfoldable pub cached_profile_ids :
      ProfileIds → List String → Action W (BoxError Time) (ProfileIds × List String)
  cached_profile_ids ids [] = pure (ids, [])
  cached_profile_ids ids (account ∷ rest) = do
    found ← attempt (c.get_profile_id account)
    let known : Option ℤ = elim found [ inl text ↦ parse_i32 text | inr _ ↦ none ]
    others ← cached_profile_ids (elim known [ none ↦ ids | some id ↦ insert account id ids ]) rest
    pure (others.0, (if is_some known then others.1 else account ∷ others.1))

  -- A row of the database is written to the cache, and to the ids if it reads as a number.
  store_profile_ids : ProfileIds → List (String × String) → Action W (BoxError Time) ProfileIds
  store_profile_ids ids [] = pure ids
  store_profile_ids ids ((text, account) ∷ rest) = do
    _ ← attempt (c.set_profile_id account text)
    store_profile_ids (elim (parse_i32 text) [ none ↦ ids | some id ↦ insert account id ids ]) rest

module _ {W Time D : Type 0} (conn : Model W Time D) (cache : Option (Cache W Time)) where
  unfoldable pub get_account_profiles :
      List String → Action W (BoxError Time) (AccountProfiles Time)
  unfolding cached_profiles store_profile
  get_account_profiles account_names = elim cache [
    | none ↦ conn.select_account_profiles_by_account_names_query account_names
    | some c ↦ do
      found ← cached_profiles c account_names
      let fetch = do
        rows ← conn.select_account_profiles_by_account_names_query found.1
        for_each (store_profile c) rows
        pure (found.0 ++ rows)
      if is_empty found.1 then pure found.0 else fetch
  ]

  unfoldable pub get_profile_ids_by_account_names :
      List String → Action W (BoxError Time) ProfileIds
  unfolding cached_profile_ids store_profile_ids
  get_profile_ids_by_account_names account_names = elim cache [
    | none ↦ do
      pairs ← conn.select_profile_ids_by_account_names_query account_names
      lift (from_pairs [] pairs)
    | some c ↦ do
      found ← cached_profile_ids c [] account_names
      let fetch = do
        rows ← conn.select_profile_ids_by_account_names_query found.1
        store_profile_ids c found.0 rows
      if is_empty found.1 then pure found.0 else fetch
  ]
