-- ===== src/Pg/Placeholders/Stored.antt =====
-- The statements that store a transaction and change balances (crates/pg/src/model.rs): as many
-- values as the text names parameters.
use mxfactorial.Prelude.{
  ℕ, suc, ◌+◌, ◌*◌, ◌<◌, String, List, [], ◌∷◌, ◌++◌, Option, none, some, Outcome, ok, ◌>>=◌,
  >>=-eq-ok, ok_injective, ◌≡◌, sym, ap, ◌∙◌, subst, arith, length, length-append, unwrap, ok_or,
}
use mxfactorial.Prelude.Numeral.{i32_max}
use mxfactorial.Types.Approval.{Approval, Approvals}
use mxfactorial.Types.Errors.{BoxError, message}
use mxfactorial.Types.Item.{TransactionItem}
use mxfactorial.Types.Items.{TransactionItems, list_lengths_of_approvals}
use mxfactorial.Types.Transaction.{Transaction}
use mxfactorial.Pg.Value.{
  Value, PgOps, parse_pg_int4, parse_pg_point, parse_pg_timestamp, parse_pg_numeric,
}
use mxfactorial.Pg.Sqls.Insert.{fn_select_insert_transaction_sql}
use mxfactorial.Pg.Statements.Insert.{
  approval_values, approvals_values, item_row_values, item_values, items_values, transaction_values,
  insert_transaction,
}
use mxfactorial.Pg.Placeholders.{placeholders}
use mxfactorial.Pg.Placeholders.Params.{from}
use mxfactorial.Pg.Placeholders.Insert.{
  item_size, items_size, fn_select_insert_transaction_sql-placeholders,
}

-- Where a list results, it has `n` members.
pub record HasLength {ℓ κ} {E : Type ℓ} {V : Type κ} (m : Outcome E (List V)) (n : ℕ)
    : Type (ℓ ⊔ κ) where
  pub counts : (values : List V) → m ≡ ok values → length values ≡ n

module _ {ℓ κ μ} {E : Type ℓ} {V : Type κ} {A : Type μ} where
  pub length_step :
      (m : Outcome E A) {f : A → Outcome E (List V)} {n : ℕ}
      → ((a : A) → HasLength (f a) n)
      → HasLength (m >>= f) n
  length_step m {f} h = record {
    counts = λ values e. let (a, p, q) = >>=-eq-ok m f e in (h a).counts values q;
  }

module _ {ℓ κ} {E : Type ℓ} {V : Type κ} where
  pub length_ok : (values : List V) → HasLength {E = E} (ok values) (length values)
  length_ok values = record { counts = λ other e. ap length (sym (ok_injective values other e)) }

  -- The values of a first part before those of the rest.
  pub length_two :
      {m k : Outcome E (List V)} {a b : ℕ}
      → HasLength m a
      → HasLength k b
      → HasLength (m >>= λ values. k >>= λ more. ok (values ++ more)) (a + b)
  length_two {m} {k} {a} {b} h j = record {
    counts = λ values e.
        let (first, p, q) = >>=-eq-ok m (λ first. k >>= λ more. ok (first ++ more)) e in
        let (more, r, s) = >>=-eq-ok k (λ more. ok (first ++ more)) q in
        ap length (sym (ok_injective (first ++ more) values s))
        ∙ omega (arith, length-append first more, h.counts first p, j.counts more r);
  }

module _ {Time D F : Type 0} (ops : PgOps D F) where
  approval_values-length : (a : Approval Time) → HasLength (approval_values ops a) 11
  unfolding approval_values
  approval_values-length a = length_step (parse_pg_int4 a.rule_instance_id) λ _.
      length_step (parse_pg_point ops a.device_latlng) λ _.
        length_step (parse_pg_timestamp a.approval_time) λ _.
          length_step (parse_pg_timestamp a.rejection_time)
            λ _. length_step (parse_pg_timestamp a.expiration_time) λ _. length_ok _

  approvals_values-length :
      (l : Approvals Time) → HasLength (approvals_values ops l) (length l * 11)
  unfolding approvals_values
  approvals_values-length [] = length_ok []
  approvals_values-length (a ∷ l) =
      let e : 11 + length l * 11 ≡ suc (length l) * 11 = omega arith in
      subst (HasLength (approvals_values ops (a ∷ l))) e
        (length_two (approval_values-length a) (approvals_values-length l))

  item_row_values-length : (ti : TransactionItem Time) → HasLength (item_row_values ops ti) 19
  unfolding item_row_values
  item_row_values-length ti = length_step (parse_pg_numeric ops (some ti.price)) λ _.
      length_step (parse_pg_numeric ops (some ti.quantity)) λ _.
        length_step (parse_pg_int4 ti.rule_instance_id) λ _.
          length_step (parse_pg_numeric ops ti.units_measured) λ _.
            length_step (parse_pg_int4 ti.debitor_profile_id) λ _.
              length_step (parse_pg_int4 ti.creditor_profile_id) λ _.
                length_step (parse_pg_timestamp ti.debitor_approval_time) λ _.
                  length_step (parse_pg_timestamp ti.creditor_approval_time) λ _.
                    length_step (parse_pg_timestamp ti.debitor_expiration_time) λ _.
                      length_step (parse_pg_timestamp ti.creditor_expiration_time) λ _.
                        length_step (parse_pg_timestamp ti.creditor_rejection_time) λ _.
                          length_step (parse_pg_timestamp ti.debitor_rejection_time)
                            λ _. length_ok _

  -- The values of an item, as many as its row and those of its approvals take.
  item_values-length :
      (ti : TransactionItem Time) (l : Approvals Time)
      → ti.approvals ≡ some l
      → HasLength (item_values ops ti) (item_size (length l))
  unfolding item_values
  item_values-length ti l e =
      subst
        (λ o.
          HasLength
            (item_row_values ops ti >>= λ row.
              ok_or o (message "missing approvals in transaction item") >>= λ approvals.
              approvals_values ops approvals >>= λ rows. ok (row ++ rows))
            (item_size (length l)))
        (sym e) (length_two (item_row_values-length ti) (approvals_values-length l))

  -- Where the approvals of every item are there, their lengths are those of the values.
  items_values-length :
      (items : TransactionItems Time) (lengths : List ℕ)
      → list_lengths_of_approvals {E = BoxError Time} items ≡ ok lengths
      → HasLength (items_values ops items) (items_size lengths)
  unfolding items_values list_lengths_of_approvals
  items_values-length [] lengths h =
      subst (λ l. HasLength (items_values {Time = Time} ops []) (items_size l))
        (ok_injective [] lengths h) (length_ok [])
  items_values-length (ti ∷ items) lengths h =
      let (n, p, q) =
        >>=-eq-ok (unwrap ti.approvals >>= λ l. ok (length l)) (lengths_behind items) h in
      let (l, a, b) = >>=-eq-ok (unwrap ti.approvals) (λ l. ok (length l)) p in
      let (rest, c, d) = >>=-eq-ok (list_lengths_of_approvals items) (λ ns. ok (n ∷ ns)) q in
      subst (λ x. HasLength (items_values ops (ti ∷ items)) (items_size x))
        (ap (λ m. m ∷ rest) (ok_injective (length l) n b) ∙ ok_injective (n ∷ rest) lengths d)
        (length_two (item_values-length ti l (unwrap_some ti.approvals l a))
          (items_values-length items rest c))
    where
      lengths_behind : TransactionItems Time → ℕ → Outcome (BoxError Time) (List ℕ)
      lengths_behind items n = list_lengths_of_approvals items >>= λ ns. ok (n ∷ ns)

      unwrap_some :
          (o : Option (Approvals Time)) (l : Approvals Time)
          → unwrap {E = BoxError Time} o ≡ ok l
          → o ≡ some l
      unwrap_some none l e = cc
      unwrap_some (some k) l e = ap (λ x. some x) (ok_injective k l e)

  transaction_values-length : (t : Transaction Time) → HasLength (transaction_values ops t) 11
  unfolding transaction_values
  transaction_values-length t = length_step (parse_pg_int4 t.rule_instance_id) λ _.
      length_step (parse_pg_point ops t.author_device_latlng) λ _.
        length_step (parse_pg_timestamp t.equilibrium_time)
          λ _. length_step (parse_pg_numeric ops (some t.sum_value)) λ _. length_ok _

  -- The statement that stores a transaction: its parameters are numbered from 1 on in the order of
  -- the text, without a gap, and there are as many values, as long as the counter does not overflow.
  pub insert_transaction-numbered :
      (t : Transaction Time) (sql : String) (values : List (Value Time D F))
      → insert_transaction ops t ≡ ok (sql, values)
      → length values < i32_max
      → placeholders sql ≡ from 1 (length values)
  unfolding insert_transaction
  insert_transaction-numbered t sql values h small =
      let (lengths, a, b) = >>=-eq-ok (list_lengths_of_approvals t.transaction_items) _ h in
      let (text, c, d) = >>=-eq-ok (fn_select_insert_transaction_sql lengths) _ b in
      let (front, e, f) = >>=-eq-ok (transaction_values ops t) _ d in
      let (rows, g, i) = >>=-eq-ok (items_values ops t.transaction_items) _ f in
      let same = ok_injective (text, front ++ rows) (sql, values) i in
      let count : length values ≡ 11 + items_size lengths =
        ap (λ s. length s.1) (sym same)
        ∙ omega (
          arith,
          length-append front rows,
          (transaction_values-length t).counts front e,
          (items_values-length t.transaction_items lengths a).counts rows g,
        ) in
      let (written, j, k) =
        fn_select_insert_transaction_sql-placeholders {E = BoxError Time} lengths (omega arith) in
      ap placeholders (sym (ap (λ s. s.0) same) ∙ sym (ok_injective written text (sym j ∙ c)))
      ∙ k
      ∙ ap (from 1) (sym count)
