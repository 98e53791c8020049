-- ===== src/Pg/Queries.antt =====
-- crates/pg/src/model.rs: the queries of `DatabaseConnection`, an implementation of Service.Model.
-- A statement is built, sent with its values, and what comes back is read.
use mxfactorial.Prelude.{ℕ, List, [], ◌∷◌, Outcome, ok, panic, map_outcome}
use mxfactorial.Prelude.Numeral.{show_i32}
use mxfactorial.Prelude.{◌>>=◌ as bind}
use mxfactorial.External.{DecimalOps}
use mxfactorial.Effect.{Action, pure, lift, ◌>>=◌}
use mxfactorial.Types.Errors.{BoxError}
use mxfactorial.Service.Model.{Model}
use mxfactorial.Pg.Value.{Value, PgOps}
use mxfactorial.Pg.Row.{Row, get, as_text, as_int, as_bool, as_numeric, as_time, optionally}
use mxfactorial.Pg.Row.Accounts.{approval_from, profile_from, balance_from}
use mxfactorial.Pg.Row.Rules.{item_rule_from, approval_rule_from}
use mxfactorial.Pg.Row.Transactions.{item_from, transaction_from}
use mxfactorial.Pg.Statements.{Statement}
use mxfactorial.Pg.Statements.Accounts
use mxfactorial.Pg.Statements.Transactions
use mxfactorial.Pg.Statements.Rules
use mxfactorial.Pg.Statements.Insert

-- crates/pg/src/postgres.rs: the rows of a statement, and the count of the rows that it changed.
pub record Connection (W Time D F : Type 0) : Type 0 where
  pub query : Statement (Value Time D F) → Action W (BoxError Time) (List (Row (Value Time D F)))
  pub execute : Statement (Value Time D F) → Action W (BoxError Time) ℕ

module _ {W Time D F : Type 0} (db : Connection W Time D F) where
  -- `rows[0].get(0)`
  abbrev first {ℓ} :
      {E : Type ℓ} {A V : Type 0} → (Row V → Outcome E A) → List (Row V) → Outcome E A
  first read [] = panic
  first read (row ∷ rest) = read row

  unfoldable pub execute_statement :
      Outcome (BoxError Time) (Statement (Value Time D F)) → Action W (BoxError Time) (Unit {0})
  execute_statement statement = do s ← lift statement; _ ← db.execute s; pure tt

  unfoldable pub query_rows :
      {A : Type 0}
      → Outcome (BoxError Time) (Statement (Value Time D F))
      → (List (Row (Value Time D F)) → Outcome (BoxError Time) A)
      → Action W (BoxError Time) A
  query_rows statement read = do s ← lift statement; rows ← db.query s; lift (read rows)

  module _ (ops : PgOps D F) (dec : DecimalOps D) where
    unfoldable pub database : Model W Time D
    database = record {
      insert_account_query = λ account. execute_statement (ok (Accounts.insert_account account));
      delete_owner_account_query =
          λ account. execute_statement (ok (Accounts.delete_owner_account account));
      select_account_balance_query = λ account.
          query_rows (Accounts.select_account_balance account)
            (first (λ row. bind (get as_numeric 0 row) (λ d. ok (dec.fixed d))));
      select_account_balances_query = λ accounts.
          query_rows (Accounts.select_account_balances accounts) (map_outcome balance_from);
      update_account_balances_query =
          λ items. execute_statement (Insert.update_account_balances dec items);
      insert_account_balance_query = λ account balance curr_tr_item_id.
          execute_statement (Accounts.insert_account_balance account balance curr_tr_item_id);
      select_approvals_by_transaction_id_query = λ id.
          query_rows (Transactions.select_approvals_by_transaction_id id)
            (map_outcome approval_from);
      select_approvals_by_transaction_ids_query = λ ids.
          query_rows (Transactions.select_approvals_by_transaction_ids ids)
            (map_outcome approval_from);
      update_approvals_by_account_and_role_query = λ id account role.
          query_rows (ok (Transactions.update_approvals_by_account_and_role id account role))
            (first (get (optionally as_time) 0));
      insert_account_profile_query = λ profile.
          query_rows (Accounts.insert_account_profile ops profile) (first (get as_text 0));
      select_profile_ids_by_account_names_query = λ accounts.
          query_rows (Accounts.select_profile_ids_by_account_names accounts) (
            map_outcome (λ row.
              bind (get as_text 0 row) (λ id. bind (get as_text 1 row) (λ name. ok (id, name)))));
      select_account_profiles_by_account_names_query = λ accounts.
          query_rows (Accounts.select_account_profiles_by_account_names accounts)
            (map_outcome profile_from);
      select_transaction_items_by_transaction_id_query = λ id.
          query_rows (Transactions.select_transaction_items_by_transaction_id id)
            (map_outcome item_from);
      select_transaction_items_by_transaction_ids_query = λ ids.
          query_rows (Transactions.select_transaction_items_by_transaction_ids ids)
            (map_outcome item_from);
      select_transaction_by_id_query =
          λ id. query_rows (Transactions.select_transaction_by_id id) (first transaction_from);
      insert_transaction_query = λ t.
          query_rows (Insert.insert_transaction ops t)
            (first (λ row. bind (get as_int 0 row) (λ id. ok (show_i32 id))));
      select_last_n_transactions_query = λ account n.
          query_rows (Transactions.select_last_n_transactions account n)
            (map_outcome transaction_from);
      select_last_n_requests_query = λ account n.
          query_rows (Transactions.select_last_n_requests account n) (map_outcome transaction_from);
      select_transactions_by_ids_query = λ ids.
          query_rows (Transactions.select_transactions_by_ids ids) (map_outcome transaction_from);
      select_approve_all_credit_rule_instance_exists_query = λ account_name.
          query_rows (Rules.select_approve_all_credit_rule_instance_exists account_name)
            (first (get as_bool 0));
      insert_approve_all_credit_rule_instance_query = λ account_name.
          execute_statement (Rules.insert_approve_all_credit_rule_instance account_name);
      select_approvers_query =
          λ account. query_rows (Accounts.select_approvers account) (map_outcome (get as_text 0));
      select_transaction_item_rule_instances_by_role_state_query = λ role state.
          query_rows (Rules.select_transaction_item_rule_instances_by_role_state role state)
            (map_outcome item_rule_from);
      select_transaction_item_rules_by_role_state_query = λ role state.
          query_rows (Rules.select_transaction_item_rules_by_role_state role state)
            (map_outcome item_rule_from);
      select_transaction_item_rule_instances_by_role_account_query = λ role account.
          query_rows (Rules.select_transaction_item_rule_instances_by_role_account role account)
            (map_outcome item_rule_from);
      select_transaction_item_rules_by_role_account_query = λ role account.
          query_rows (Rules.select_transaction_item_rules_by_role_account role account)
            (map_outcome item_rule_from);
      select_approval_rule_instances_by_role_account_query = λ role account.
          query_rows (Rules.select_approval_rule_instances_by_role_account role account)
            (map_outcome approval_rule_from);
      select_approval_rule_instance_exists_query =
          λ rule_name rule_instance_name role account values.
            query_rows
              (Rules.select_approval_rule_instance_exists rule_name rule_instance_name role account
                values)
              (first (get as_bool 0));
      insert_approval_rule_instance_query = λ rule_name rule_instance_name role account values.
          execute_statement
            (Rules.insert_approval_rule_instance rule_name rule_instance_name role account values);
    }
