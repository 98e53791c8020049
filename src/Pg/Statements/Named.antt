-- ===== src/Pg/Statements/Named.antt =====
-- The values of an item under the names of the columns of its row (crates/pg/src/model.rs against
-- fn_insert_columns_with_casting of crates/pg/src/sqls/transaction_item.rs).
use mxfactorial.Prelude.{
  List, [], ◌∷◌, some, Outcome, ok, err, panic, ◌>>=◌, >>=-eq-ok, ok_injective, ◌≡◌, refl, subst,
}
use mxfactorial.Prelude.Maps.{Map, lookup}
use mxfactorial.Types.Item.{TransactionItem}
use mxfactorial.Pg.Value.{
  Value, PgOps, text, timestamp, optional, parse_pg_int4, parse_pg_numeric, parse_pg_timestamp,
}
use mxfactorial.Pg.Sqls.Column.{Columns}
use mxfactorial.Pg.Sqls.TransactionItem
use mxfactorial.Pg.Statements.Insert.{item_row_values}

module _ {V : Type 0} where
  abbrev pub pair_up : Columns → List V → Map V
  pair_up [] values = []
  pair_up (c ∷ columns) [] = []
  pair_up (c ∷ columns) (v ∷ values) = (c.name, v) ∷ pair_up columns values

  -- Each value under the name of its column.
  abbrev pub named : Outcome (Unit {0}) Columns → List V → Map V
  named (ok columns) values = pair_up columns values
  named (err e) values = []
  named panic values = []

-- Every result has the property.
pub record Yields {ℓ κ μ} {E : Type ℓ} {A : Type κ} (m : Outcome E A) (P : A → Type μ)
    : Type (ℓ ⊔ κ ⊔ μ) where
  pub holds : (a : A) → m ≡ ok a → P a

module _ {ℓ κ μ ν} {E : Type ℓ} {A : Type κ} {B : Type ν} (P : B → Type μ) where
  yields_step :
      (m : Outcome E A) {f : A → Outcome E B} → ((a : A) → Yields (f a) P) → Yields (m >>= f) P
  yields_step m {f} h = record { holds = λ b e. let (a, p, q) = >>=-eq-ok m f e in (h a).holds b q }

module _ {ℓ κ μ} {E : Type ℓ} {A : Type κ} (P : A → Type μ) where
  yields_ok : (a : A) → P a → Yields {E = E} (ok a) P
  yields_ok a p = record { holds = λ b e. subst P (ok_injective a b e) p }

module _ {Time D F : Type 0} where
  -- The values of an item stand under these columns.
  abbrev pub Stands : TransactionItem Time → List (Value Time D F) → Type 0
  Stands ti values =
      let stored = named TransactionItem.fn_insert_columns_with_casting values in
      (lookup "debitor" stored ≡ some (text ti.debitor))
      × (lookup "creditor" stored ≡ some (text ti.creditor))
      × (lookup "debitor_approval_time" stored ≡ some (optional timestamp ti.debitor_approval_time))
      × (lookup "creditor_approval_time" stored
          ≡ some (optional timestamp ti.creditor_approval_time))
      × (lookup "debitor_expiration_time" stored
          ≡ some (optional timestamp ti.debitor_expiration_time))
      × (lookup "creditor_expiration_time" stored
          ≡ some (optional timestamp ti.creditor_expiration_time))
      × (lookup "debitor_rejection_time" stored
          ≡ some (optional timestamp ti.creditor_rejection_time))
      × (lookup "creditor_rejection_time" stored
          ≡ some (optional timestamp ti.debitor_rejection_time))

module _ {Time D F : Type 0} (ops : PgOps D F) where
  -- The accounts, the times of approval and the times of expiration of an item are stored in the
  -- columns of their names; the two times of rejection are stored in each other's column.
  pub item_row_values-rejections :
      (ti : TransactionItem Time) (values : List (Value Time D F))
      → item_row_values ops ti ≡ ok values
      → Stands ti values
  unfolding item_row_values parse_pg_timestamp TransactionItem.fn_insert_columns_with_casting
  item_row_values-rejections ti values h =
      (yields_step (Stands ti) (parse_pg_numeric ops (some ti.price)) λ _.
          yields_step (Stands ti) (parse_pg_numeric ops (some ti.quantity)) λ _.
            yields_step (Stands ti) (parse_pg_int4 ti.rule_instance_id) λ _.
              yields_step (Stands ti) (parse_pg_numeric ops ti.units_measured) λ _.
                yields_step (Stands ti) (parse_pg_int4 ti.debitor_profile_id) λ _.
                  yields_step (Stands ti) (parse_pg_int4 ti.creditor_profile_id) λ _.
                    yields_ok (Stands ti) _ (refl, refl, refl, refl, refl, refl, refl, refl)).holds
        values h
