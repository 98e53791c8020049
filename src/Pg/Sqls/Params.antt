-- ===== src/Pg/Sqls/Params.antt =====
-- crates/pg/src/sqls/common.rs: positional parameters. A function takes the next position and
-- returns its text with the position behind it; the source's counter is an `i32`.
use mxfactorial.Prelude.{String, ℕ, zero, suc, ◌+◌, List, [], ◌∷◌, pos}
use mxfactorial.Prelude.Numeral.{show_i32}
use mxfactorial.Prelude.Text.{format}
use mxfactorial.Pg.Sqls.Column.{Columns, cast_text}

abbrev pub param : ℕ → String
param p = format ("$" ∷ show_i32 (pos p) ∷ [])

-- `if i < count - 1`: a separator where more are to come.
abbrev pub separator : {A : Type 0} → List A → String
separator [] = ""
separator (x ∷ rest) = ", "

abbrev pub comma : ℕ → String
comma zero = ""
comma (suc k) = ", "

unfoldable pub create_params : ℕ → ℕ → String × ℕ
create_params zero p = ("", p)
create_params (suc k) p =
    let (rest, q) = create_params k (p + 1) in (format (param p ∷ comma k ∷ rest ∷ []), q)

-- The parameters of one row, each with its cast.
unfoldable pub value_cells : Columns → ℕ → String × ℕ
value_cells [] p = ("", p)
value_cells (c ∷ columns) p =
    let (rest, q) = value_cells columns (p + 1) in
    (format (param p ∷ cast_text c.cast_value_as ∷ separator columns ∷ rest ∷ []), q)

unfoldable pub create_value_params : Columns → ℕ → ℕ → String × ℕ
unfolding value_cells
create_value_params columns zero p = ("", p)
create_value_params columns (suc rows) p =
    let (row, q) = value_cells columns p in
    let (rest, r) = create_value_params columns rows q in
    (format ("(" ∷ row ∷ ")" ∷ comma rows ∷ rest ∷ []), r)
