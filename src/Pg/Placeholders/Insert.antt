-- ===== src/Pg/Placeholders/Insert.antt =====
-- The call that stores a transaction (crates/pg/src/sqls/transaction.rs) names one parameter for
-- each column of each row, in order.
use mxfactorial.Prelude.{
  ℕ, ◌+◌, ◌*◌, ◌≤◌, String, List, [], ◌∷◌, ◌≡◌, refl, ap, ◌∙◌, subst, arith, append-nil, Outcome,
  ok, ◌>>=◌,
}
use mxfactorial.Prelude.Numeral.{i32_max}
use mxfactorial.Prelude.Text.{format}
use mxfactorial.Pg.Sqls.Transaction
use mxfactorial.Pg.Sqls.TransactionItem
use mxfactorial.Pg.Sqls.Approval
use mxfactorial.Pg.Sqls.Insert.{
  pg_row_array, transaction_row, transaction_item_row, approval_array, entire_transaction_item_row,
  entire_transaction_item_rows, entire_transaction_item_array, entire_transaction_row,
  fn_select_insert_transaction_sql,
}
use mxfactorial.Pg.Placeholders.{
  Names, names_two, names_last, names_plain, placeholders, placeholders-Names,
}
use mxfactorial.Pg.Placeholders.Params.{from, names_separator}
use mxfactorial.Pg.Placeholders.Rows.{
  Takes, pg_row-Takes, pg_rows-Takes, Takes-two, Takes-between, Takes-row, Takes-none,
}

-- A text that is built without a panic, and takes `k` positions.
pub record Built {ℓ} {E : Type ℓ} (m : Outcome E (String × ℕ)) (p k : ℕ) : Type ℓ where
  pub built : String × ℕ
  pub is_built : m ≡ ok built
  pub takes : Takes built p k

-- A transaction has eleven columns, an item nineteen, and an approval eleven.
abbrev pub item_size : ℕ → ℕ
item_size approvals = 19 + approvals * 11

abbrev pub items_size : List ℕ → ℕ
items_size [] = 0
items_size (n ∷ lengths) = item_size n + items_size lengths

module _ {ℓ} {E : Type ℓ} where
  pub transaction_row-Built : (p : ℕ) → p + 11 ≤ i32_max → Built {E = E} (transaction_row p) p 11
  unfolding transaction_row Transaction.fn_insert_columns_with_casting
  transaction_row-Built p h = record { built = _; is_built = refl; takes = pg_row-Takes _ p h }

  pub transaction_item_row-Built :
      (p : ℕ) → p + 19 ≤ i32_max → Built {E = E} (transaction_item_row p) p 19
  unfolding transaction_item_row TransactionItem.fn_insert_columns_with_casting
  transaction_item_row-Built p h = record { built = _; is_built = refl; takes = pg_row-Takes _ p h }

  pub approval_array-Built :
      (n p : ℕ) → p + n * 11 ≤ i32_max → Built {E = E} (approval_array n p) p (n * 11)
  unfolding approval_array Approval.fn_insert_columns_with_casting pg_row_array
  approval_array-Built n p h = record {
    built = _;
    is_built = refl;
    takes =
        Takes-between (pg_rows-Takes _ n p h) (names_plain "ARRAY [" refl)
          (names_plain "]::approval[]" refl);
  }

  -- A step on what was built.
  pub Built-step :
      {m : Outcome E (String × ℕ)} {p k q l : ℕ} {f : String × ℕ → Outcome E (String × ℕ)}
      → Built m p k
      → ((r : String × ℕ) → Takes r p k → Built (f r) q l)
      → Built (m >>= f) q l
  Built-step {f} a step =
      let b = step a.built a.takes in
      record {
        built = b.built;
        is_built = ap (λ x. x >>= f) a.is_built ∙ b.is_built;
        takes = b.takes;
      }

  pub Built-pure : {r : String × ℕ} {p k : ℕ} → Takes r p k → Built {E = E} (ok r) p k
  Built-pure {r} t = record { built = r; is_built = refl; takes = t }

module _ {ℓ} {E : Type ℓ} where
  pub entire_transaction_item_row-Built :
      (n p : ℕ)
      → p + item_size n ≤ i32_max
      → Built {E = E} (entire_transaction_item_row n p) p (item_size n)
  unfolding entire_transaction_item_row
  entire_transaction_item_row-Built n p h =
      Built-step (transaction_item_row-Built p (omega arith)) λ row t.
        Built-step (approval_array-Built n row.1 (omega (arith, t.next))) λ approvals u.
          Built-pure
            (Takes-row t u (names_plain "ROW(" refl) (names_plain ", " refl) (names_plain ")" refl))

  pub entire_transaction_item_rows-Built :
      (lengths : List ℕ) (p : ℕ)
      → p + items_size lengths ≤ i32_max
      → Built {E = E} (entire_transaction_item_rows lengths p) p (items_size lengths)
  unfolding entire_transaction_item_rows
  entire_transaction_item_rows-Built [] p h = Built-pure (Takes-none p)
  entire_transaction_item_rows-Built (n ∷ lengths) p h =
      Built-step (entire_transaction_item_row-Built n p (omega arith)) λ row t.
        Built-step (entire_transaction_item_rows-Built lengths row.1 (omega (arith, t.next)))
          λ rest u. Built-pure (Takes-two t (names_separator lengths) u)

  pub entire_transaction_row-Built :
      (lengths : List ℕ) (p : ℕ)
      → p + (11 + items_size lengths) ≤ i32_max
      → Built {E = E} (entire_transaction_row lengths p) p (11 + items_size lengths)
  unfolding entire_transaction_row entire_transaction_item_array
  entire_transaction_row-Built lengths p h =
      Built-step (transaction_row-Built p (omega arith)) λ row t.
        Built-step
          (Built-step (entire_transaction_item_rows-Built lengths row.1 (omega (arith, t.next)))
            λ rows u. Built-pure (
              Takes-between u (names_plain "ARRAY [" refl)
                (names_plain "]::entire_transaction_item[]" refl)))
          λ items u. Built-pure (
            Takes-row t u (names_plain "ROW(" refl) (names_plain ", " refl)
              (names_plain ")::entire_transaction" refl))

  -- The call names the parameters from 1 on in order: eleven for the transaction, nineteen for each
  -- item, and eleven for each approval of an item, as long as the counter does not overflow.
  pub fn_select_insert_transaction_sql-placeholders :
      (lengths : List ℕ)
      → 12 + items_size lengths ≤ i32_max
      → (sql : String) × (fn_select_insert_transaction_sql {E = E} lengths ≡ ok sql)
        × (placeholders sql ≡ from 1 (11 + items_size lengths))
  unfolding fn_select_insert_transaction_sql
  fn_select_insert_transaction_sql-placeholders lengths h =
      let b = entire_transaction_row-Built lengths 1 (omega arith) in
      (
        format ("SELECT insert_transaction" ∷ "(" ∷ b.built.0 ∷ ")" ∷ []),
        ap (λ m. m >>= λ a. ok (format ("SELECT insert_transaction" ∷ "(" ∷ a.0 ∷ ")" ∷ [])))
            b.is_built,
        placeholders-Names _ _ (
            subst (Names (format ("SELECT insert_transaction" ∷ "(" ∷ b.built.0 ∷ ")" ∷ [])))
              (append-nil (from 1 (11 + items_size lengths)))
              (names_two (names_plain "SELECT insert_transaction" refl) (
                names_two (names_plain "(" refl)
                  (names_two b.takes.named (names_last (names_plain ")" refl)))))),
      )
