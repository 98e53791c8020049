-- ===== src/Pg/Placeholders/Rows.antt =====
-- The row constructors of crates/pg/src/sqls/transaction.rs: which positions a text takes.
use mxfactorial.Prelude.{
  ℕ, zero, suc, ◌+◌, ◌*◌, ◌≤◌, String, [], ◌∷◌, ◌++◌, none, ◌≡◌, refl, sym, ap, ◌∙◌, subst, arith,
  append-nil, length,
}
use mxfactorial.Prelude.Numeral.{i32_max}
use mxfactorial.Prelude.Text.{format}
use mxfactorial.Pg.Sqls.Column.{Columns}
use mxfactorial.Pg.Sqls.Insert.{pg_row, pg_rows}
use mxfactorial.Pg.Placeholders.{Names, names_two, names_last, names_plain}
use mxfactorial.Pg.Placeholders.Params.{
  from, from-add, names_comma, value_cells-Names, value_cells-position,
}

-- The text begins at position `p`, and its parameters are `k` positions.
pub record Takes (r : String × ℕ) (p k : ℕ) : Type 0 where
  pub next : r.1 ≡ p + k
  pub named : Names r.0 (from p k)

pub pg_row-Takes :
    (columns : Columns) (p : ℕ)
    → p + length columns ≤ i32_max
    → Takes (pg_row columns none p) p (length columns)
unfolding pg_row
pg_row-Takes columns p h = record {
  next = value_cells-position columns p;
  named = subst (Names (pg_row columns none p).0) (append-nil (from p (length columns))) (
      names_two (names_plain "ROW(" refl) (
        names_two (value_cells-Names columns p h)
          (names_two (names_plain ")" refl) (names_last (names_plain "" refl)))));
}

-- Two texts one after the other, with a text between them that names nothing.
pub Takes-two :
    {r t : String × ℕ} {p k l : ℕ} {s : String}
    → Takes r p k
    → Names s []
    → Takes t r.1 l
    → Takes (format (r.0 ∷ s ∷ t.0 ∷ []), t.1) p (k + l)
Takes-two {r} {t} {p} {k} {l} {s} a b c = record {
  next = omega (arith, a.next, c.next);
  named =
      subst (Names (format (r.0 ∷ s ∷ t.0 ∷ [])))
        (ap (λ q. from p k ++ from q l) a.next ∙ sym (from-add p k l))
        (names_two a.named (names_two b (names_last c.named)));
}

-- A text between two that name nothing.
pub Takes-between :
    {r : String × ℕ} {p k : ℕ} {s t : String}
    → Takes r p k
    → Names s []
    → Names t []
    → Takes (format (s ∷ r.0 ∷ t ∷ []), r.1) p k
Takes-between {r} {p} {k} {s} {t} a b c = record {
  next = a.next;
  named =
      subst (Names (format (s ∷ r.0 ∷ t ∷ []))) (append-nil (from p k))
        (names_two b (names_two a.named (names_last c)));
}

pub Takes-none : (p : ℕ) → Takes ("", p) p 0
Takes-none p = record { next = omega arith; named = names_plain "" refl }

pub pg_rows-Takes :
    (columns : Columns) (k p : ℕ)
    → p + k * length columns ≤ i32_max
    → Takes (pg_rows columns k p) p (k * length columns)
unfolding pg_rows
pg_rows-Takes columns zero p h =
    let e : 0 ≡ 0 * length columns = grind arith in subst (Takes ("", p) p) e (Takes-none p)
pg_rows-Takes columns (suc k) p h =
    let a = pg_row-Takes columns p (grind arith) in
    let e : length columns + k * length columns ≡ suc k * length columns = grind arith in
    subst (Takes (pg_rows columns (suc k) p) p) e (
      Takes-two a (names_comma k)
        (pg_rows-Takes columns k (pg_row columns none p).1 (rw a.next (grind arith))))

-- A row of two texts, between texts that name nothing.
pub Takes-row :
    {r t : String × ℕ} {p k l : ℕ} {s u v : String}
    → Takes r p k
    → Takes t r.1 l
    → Names s []
    → Names u []
    → Names v []
    → Takes (format (s ∷ r.0 ∷ u ∷ t.0 ∷ v ∷ []), t.1) p (k + l)
Takes-row {r} {t} {p} {k} {l} {s} {u} {v} a c b d e = record {
  next = omega (arith, a.next, c.next);
  named =
      subst (Names (format (s ∷ r.0 ∷ u ∷ t.0 ∷ v ∷ [])))
        (ap (λ x. from p k ++ x) (append-nil (from r.1 l))
          ∙ ap (λ q. from p k ++ from q l) a.next
          ∙ sym (from-add p k l))
        (names_two b (names_two a.named (names_two d (names_two c.named (names_last e)))));
}
