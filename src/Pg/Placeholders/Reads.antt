-- ===== src/Pg/Placeholders/Reads.antt =====
-- The statements that read by a list of ids or of accounts (crates/pg/src/model.rs): one parameter
-- for each.
use mxfactorial.Prelude.{suc, ◌≤◌, ◌<◌, String, List, [], ◌∷◌, ◌≡◌, refl, arith, length, ℤ}
use mxfactorial.Prelude.Numeral.{i32_max}
use mxfactorial.Pg.Sqls.Approval
use mxfactorial.Pg.Sqls.Balance
use mxfactorial.Pg.Sqls.Profile
use mxfactorial.Pg.Sqls.Transaction
use mxfactorial.Pg.Sqls.TransactionItem
use mxfactorial.Pg.Statements.Accounts
use mxfactorial.Pg.Statements.Accounts.{sorted_into, sort, dedup}
use mxfactorial.Pg.Statements.Transactions
use mxfactorial.Pg.Placeholders.Words.{Numbered, selected, in_statement}

length-sorted_into : (s : String) (l : List String) → length (sorted_into s l) ≡ suc (length l)
unfolding sorted_into
length-sorted_into s [] = refl
length-sorted_into s (t ∷ l) = ground (arith, length-sorted_into s l)

length-sort : (l : List String) → length (sort l) ≡ length l
unfolding sort
length-sort [] = refl
length-sort (s ∷ l) = omega (arith, length-sorted_into s (sort l), length-sort l)

length-dedup-le : (l : List String) → length (dedup l) ≤ length l
unfolding dedup
length-dedup-le [] = omega arith
length-dedup-le (s ∷ []) = omega arith
length-dedup-le (s ∷ t ∷ l) = ground (arith, length-dedup-le (t ∷ l))

module _ (Time D F : Type 0) where
  select_approvals_by_transaction_ids-Numbered :
      (ids : List ℤ)
      → length ids < i32_max
      → Numbered
          (Transactions.select_approvals_by_transaction_ids {Time = Time} {D = D} {F = F} ids)
  unfolding Transactions.select_approvals_by_transaction_ids
      Approval.select_approvals_by_transaction_ids_sql
  select_approvals_by_transaction_ids-Numbered ids h = record {
    sql = _;
    values = _;
    is_built = refl;
    numbered =
        in_statement (selected Approval.select_all_with_casting) "approval" "transaction_id" [] _
          ids refl refl h;
  }

  select_transaction_items_by_transaction_ids-Numbered :
      (ids : List ℤ)
      → length ids < i32_max
      → Numbered (
          Transactions.select_transaction_items_by_transaction_ids {Time = Time} {D = D} {F = F}
            ids)
  unfolding Transactions.select_transaction_items_by_transaction_ids
      TransactionItem.select_transaction_items_by_transaction_ids_sql
  select_transaction_items_by_transaction_ids-Numbered ids h = record {
    sql = _;
    values = _;
    is_built = refl;
    numbered =
        in_statement (selected TransactionItem.select_all_with_casting) "transaction_item"
          "transaction_id" ("ORDER BY" ∷ "id" ∷ []) _ ids refl refl h;
  }

  select_transactions_by_ids-Numbered :
      (ids : List ℤ)
      → length ids < i32_max
      → Numbered (Transactions.select_transactions_by_ids {Time = Time} {D = D} {F = F} ids)
  unfolding Transactions.select_transactions_by_ids Transaction.select_transactions_by_ids_sql
  select_transactions_by_ids-Numbered ids h = record {
    sql = _;
    values = _;
    is_built = refl;
    numbered =
        in_statement (selected Transaction.select_all_with_casting) "transaction" "id" [] _ ids refl
          refl h;
  }

  select_account_balances-Numbered :
      (accounts : List String)
      → length accounts < i32_max
      → Numbered (Accounts.select_account_balances {Time = Time} {D = D} {F = F} accounts)
  unfolding Accounts.select_account_balances Balance.select_account_balances_sql
  select_account_balances-Numbered accounts h = record {
    sql = _;
    values = _;
    is_built = refl;
    numbered =
        in_statement (selected Balance.select_columns_with_casting) "account_balance" "account_name"
          [] _ accounts refl refl h;
  }

  select_profile_ids_by_account_names-Numbered :
      (accounts : List String)
      → length accounts < i32_max
      → Numbered
          (Accounts.select_profile_ids_by_account_names {Time = Time} {D = D} {F = F} accounts)
  unfolding Accounts.select_profile_ids_by_account_names
      Profile.select_profile_ids_by_account_names_sql
  select_profile_ids_by_account_names-Numbered accounts h = record {
    sql = _;
    values = _;
    is_built = refl;
    numbered =
        in_statement (selected Profile.select_in_with_casting) "account_profile" "account_name"
          ("AND" ∷ "removal_time" ∷ "IS" ∷ "NULL" ∷ []) _ accounts refl refl h;
  }

  select_account_profiles_by_account_names-Numbered :
      (accounts : List String)
      → length accounts < i32_max
      → Numbered
          (Accounts.select_account_profiles_by_account_names {Time = Time} {D = D} {F = F} accounts)
  unfolding Accounts.select_account_profiles_by_account_names
      Profile.select_profiles_by_account_names_sql
  select_account_profiles_by_account_names-Numbered accounts h = record {
    sql = _;
    values = _;
    is_built = refl;
    numbered =
        in_statement (selected Profile.select_all_with_text_casting) "account_profile"
          "account_name" ("AND" ∷ "removal_time" ∷ "IS" ∷ "NULL" ∷ []) _ (dedup (sort accounts))
          refl refl (omega (arith, length-dedup-le (sort accounts), length-sort accounts));
  }

  -- Every statement that reads by a list of ids or of accounts is built without a panic, numbers its
  -- parameters from 1 on in order and is given one value for each, as long as the list is shorter
  -- than the counter can count.
  pub reads_by_list-Numbered :
      (ids : List ℤ) (accounts : List String)
      → length ids < i32_max
      → length accounts < i32_max
      → Numbered
          (Transactions.select_approvals_by_transaction_ids {Time = Time} {D = D} {F = F} ids)
        × Numbered (
            Transactions.select_transaction_items_by_transaction_ids {Time = Time} {D = D} {F = F}
              ids)
        × Numbered (Transactions.select_transactions_by_ids {Time = Time} {D = D} {F = F} ids)
        × Numbered (Accounts.select_account_balances {Time = Time} {D = D} {F = F} accounts)
        × Numbered
            (Accounts.select_profile_ids_by_account_names {Time = Time} {D = D} {F = F} accounts)
        × Numbered (
            Accounts.select_account_profiles_by_account_names {Time = Time} {D = D} {F = F}
              accounts)
  reads_by_list-Numbered ids accounts h k = (
    select_approvals_by_transaction_ids-Numbered ids h,
    select_transaction_items_by_transaction_ids-Numbered ids h,
    select_transactions_by_ids-Numbered ids h,
    select_account_balances-Numbered accounts k,
    select_profile_ids_by_account_names-Numbered accounts k,
    select_account_profiles_by_account_names-Numbered accounts k,
  )
