-- ===== src/Pg/Placeholders/Params.antt =====
-- The positional parameters of crates/pg/src/sqls/common.rs: a list of them names consecutive
-- positions, each once.
use mxfactorial.Prelude.{
  ℕ, zero, suc, ◌+◌, ◌*◌, ◌≤◌, List, [], ◌∷◌, ◌++◌, Option, none, some, ◌≡◌, refl, sym, ap, ◌∙◌,
  subst, arith, length,
}
use mxfactorial.Prelude.Numeral.{i32_max}
use mxfactorial.Pg.Sqls.Column.{PgType, text, point, numeric, Columns, cast_text}
use mxfactorial.Pg.Sqls.Params.{separator, comma, create_params, value_cells, create_value_params}
use mxfactorial.Pg.Placeholders.{Names, names_two, names_last, names_plain, names_param}

-- `k` positions from `p` on.
abbrev pub from : ℕ → ℕ → List ℕ
from p zero = []
from p (suc k) = p ∷ from (p + 1) k

pub from_eq : {p q k l : ℕ} → p ≡ q → k ≡ l → from p k ≡ from q l
from_eq e f = cc

pub from-add : (p a b : ℕ) → from p (a + b) ≡ from p a ++ from (p + a) b
from-add p zero b = from_eq {k = 0 + b} (omega arith) (omega arith)
from-add p (suc a) b =
    let e : suc a + b ≡ suc (a + b) = omega arith in
    let f : p + 1 + a ≡ p + suc a = omega arith in
    ap (from p) e ∙ ap (λ l. p ∷ l) (from-add (p + 1) a b ∙ ap (λ q. from (p + 1) a ++ from q b) f)

pub length-from : (p k : ℕ) → length (from p k) ≡ k
length-from p zero = refl
length-from p (suc k) = omega (arith, length-from (p + 1) k)

pub names_cast : (t : Option PgType) → Names (cast_text t) []
names_cast none = names_plain "" refl
names_cast (some text) = names_plain (cast_text (some text)) refl
names_cast (some point) = names_plain (cast_text (some point)) refl
names_cast (some numeric) = names_plain (cast_text (some numeric)) refl

pub names_comma : (k : ℕ) → Names (comma k) []
names_comma zero = names_plain "" refl
names_comma (suc k) = names_plain ", " refl

pub names_separator : {A : Type 0} (l : List A) → Names (separator l) []
names_separator [] = names_plain "" refl
names_separator (x ∷ l) = names_plain ", " refl

pub create_params-position : (k p : ℕ) → (create_params k p).1 ≡ p + k
unfolding create_params
create_params-position zero p = omega arith
create_params-position (suc k) p = omega (arith, create_params-position k (p + 1))

pub create_params-Names : (k p : ℕ) → p + k ≤ i32_max → Names (create_params k p).0 (from p k)
unfolding create_params
create_params-Names zero p h = names_plain "" refl
create_params-Names (suc k) p h =
    names_two (names_param p (omega arith))
      (names_two (names_comma k) (names_last (create_params-Names k (p + 1) (omega arith))))

pub value_cells-position :
    (columns : Columns) (p : ℕ) → (value_cells columns p).1 ≡ p + length columns
unfolding value_cells
value_cells-position [] p = omega arith
value_cells-position (c ∷ columns) p = omega (arith, value_cells-position columns (p + 1))

pub value_cells-Names :
    (columns : Columns) (p : ℕ)
    → p + length columns ≤ i32_max
    → Names (value_cells columns p).0 (from p (length columns))
unfolding value_cells
value_cells-Names [] p h = names_plain "" refl
value_cells-Names (c ∷ columns) p h = names_two (names_param p (omega arith)) (
    names_two (names_cast c.cast_value_as) (
      names_two (names_separator columns)
        (names_last (value_cells-Names columns (p + 1) (omega arith)))))

pub create_value_params-position :
    (columns : Columns) (rows p : ℕ)
    → (create_value_params columns rows p).1 ≡ p + rows * length columns
unfolding create_value_params
create_value_params-position columns zero p = omega arith
create_value_params-position columns (suc rows) p =
    create_value_params-position columns rows (value_cells columns p).1
    ∙ ap (λ q. q + rows * length columns) (value_cells-position columns p)
    ∙ grind arith

-- The rows of an insertion name `rows * columns` positions from the first on, in order.
pub create_value_params-Names :
    (columns : Columns) (rows p : ℕ)
    → p + rows * length columns ≤ i32_max
    → Names (create_value_params columns rows p).0 (from p (rows * length columns))
unfolding create_value_params
create_value_params-Names columns zero p h =
    let e : 0 ≡ 0 * length columns = grind arith in
    subst (λ k. Names "" (from p k)) e (names_plain "" refl)
create_value_params-Names columns (suc rows) p h =
    let q = (value_cells columns p).1 in
    let e = value_cells-position columns p in
    subst (λ l. Names (create_value_params columns (suc rows) p).0 l)
      (ap (λ r. from p (length columns) ++ from r (rows * length columns)) e
        ∙ sym (from-add p (length columns) (rows * length columns))
        ∙ ap (λ k. from p k) (grind arith))
      (names_two (names_plain "(" refl) (
        names_two (value_cells-Names columns p (grind arith)) (
          names_two (names_plain ")" refl) (
            names_two (names_comma rows)
              (names_last (create_value_params-Names columns rows q (rw e (grind arith))))))))
