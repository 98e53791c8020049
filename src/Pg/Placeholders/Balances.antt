-- ===== src/Pg/Placeholders/Balances.antt =====
-- The statement that changes balances (crates/pg/src/sqls/balance.rs and model.rs): six parameters
-- for each item, and as many values.
use mxfactorial.Prelude.{
  ℕ, zero, suc, ◌+◌, ◌*◌, ◌≤◌, ◌<◌, String, List, [], ◌∷◌, ok, >>=-eq-ok, ok_injective, ◌≡◌, refl,
  sym, ap, ◌∙◌, subst, arith, length, ok_or, append-nil,
}
use mxfactorial.Prelude.Numeral.{i32_max, parse_i32}
use mxfactorial.External.{DecimalOps}
use mxfactorial.Types.Errors.{message, external}
use mxfactorial.Types.Item.{TransactionItem, revenue_string, expense_string}
use mxfactorial.Types.Items.{TransactionItems}
use mxfactorial.Pg.Value.{Value}
use mxfactorial.Pg.Sqls.Balance.{balance_row, balance_rows, update_account_balances_sql}
use mxfactorial.Pg.Statements.Insert.{balance_values, balances_values, update_account_balances}
use mxfactorial.Pg.Placeholders.{
  Names, names_two, names_last, names_plain, names_param, placeholders, placeholders-Names,
}
use mxfactorial.Pg.Placeholders.Params.{from, from-add, names_comma}
use mxfactorial.Pg.Placeholders.Stored.{HasLength, length_step, length_ok, length_two}

balance_row-Names : (p : ℕ) → p + 2 ≤ i32_max → Names (balance_row p) (from p 3)
unfolding balance_row
balance_row-Names p h =
    subst (λ q. Names (balance_row p) (p ∷ (p + 1) ∷ q ∷ [])) (omega arith)
      (names_two (names_plain "ROW(" refl) (
        names_two (names_param p (omega arith)) (
          names_two (names_plain ", " refl) (
            names_two (names_param (p + 1) (omega arith)) (
              names_two (names_plain "::text" refl) (
                names_two (names_plain ", " refl) (
                  names_two (names_param (p + 2) h) (
                    names_two (names_plain ", NULL, NULL" refl) (
                      names_two (names_plain ")::" refl)
                        (names_last (names_plain "account_balance" refl)))))))))))

balance_rows-Names : (k p : ℕ) → p + k * 3 ≤ i32_max → Names (balance_rows k p) (from p (k * 3))
unfolding balance_rows
balance_rows-Names zero p h = names_plain "" refl
balance_rows-Names (suc k) p h =
    let e : 3 + k * 3 ≡ suc k * 3 = omega arith in
    subst (Names (balance_rows (suc k) p)) (sym (from-add p 3 (k * 3)) ∙ ap (from p) e) (
      names_two (balance_row-Names p (omega arith))
        (names_two (names_comma k) (names_last (balance_rows-Names k (p + 3) (omega arith)))))

module _ {Time D F : Type 0} (dec : DecimalOps D) where
  balance_values-length : (ti : TransactionItem Time) → HasLength (balance_values {F = F} dec ti) 6
  unfolding balance_values
  balance_values-length ti = length_step (revenue_string dec ti) λ _.
      length_step (ok_or ti.id (message "missing id in transaction item")) λ id.
        length_step (ok_or (parse_i32 id) (external "ParseIntError"))
          λ _. length_step (expense_string dec ti) λ _. length_ok _

  balances_values-length :
      (items : TransactionItems Time)
      → HasLength (balances_values {F = F} dec items) (length items * 6)
  unfolding balances_values
  balances_values-length [] = length_ok []
  balances_values-length (ti ∷ items) =
      let e : 6 + length items * 6 ≡ suc (length items) * 6 = omega arith in
      subst (HasLength (balances_values dec (ti ∷ items))) e
        (length_two (balance_values-length ti) (balances_values-length items))

  -- The statement that changes the balances of the two accounts of each item: its parameters are
  -- numbered from 1 on in order, and there are as many values, six for each item, as
  -- long as the counter does not overflow.
  pub update_account_balances-numbered :
      (items : TransactionItems Time) (sql : String) (values : List (Value Time D F))
      → update_account_balances dec items ≡ ok (sql, values)
      → length values < i32_max
      → (placeholders sql ≡ from 1 (length values)) × (length values ≡ length items * 6)
  unfolding update_account_balances update_account_balances_sql
  update_account_balances-numbered items sql values h small =
      let (all, a, b) = >>=-eq-ok (balances_values dec items) _ h in
      let same = ok_injective (update_account_balances_sql (length items), all) (sql, values) b in
      let count : length values ≡ length items * 6 =
        ap (λ s. length s.1) (sym same) ∙ (balances_values-length items).counts all a in
      (
        ap (λ s. placeholders s.0) (sym same)
            ∙ placeholders-Names _ _ (
                names_two (names_plain "SELECT change_balances(" refl) (
                  names_two (balance_rows-Names (length items * 2) 1 (omega (arith, count)))
                    (names_last (names_plain ")" refl))))
            ∙ append-nil (from 1 (length items * 2 * 3))
            ∙ ap (from 1) (omega (arith, count)),
        count,
      )
