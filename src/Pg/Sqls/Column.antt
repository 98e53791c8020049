-- ===== src/Pg/Sqls/Column.antt =====
-- crates/pg/src/sqls/common.rs: columns, with the casts of what is read from them and written to
-- them, and tables, which have the columns that their struct has fields.
use mxfactorial.Prelude.{
  String, List, [], ◌∷◌, ◌++◌, map, Option, none, some, Outcome, ok, panic, ◌>>=◌, if◌then◌else◌,
  contains, string_eq, length, ℕ,
}
use mxfactorial.Prelude.Text.{format, join}

-- The constants of `tokio_postgres::types::Type` that the statements use, and their texts.
pub data PgType : Type 0 where
  text point numeric : PgType

abbrev pub type_name : PgType → String
type_name text = "text"
type_name point = "point"
type_name numeric = "numeric"

pub record Column : Type 0 where
  pub name : String
  pub cast_column_as : Option PgType
  pub cast_value_as : Option PgType

abbrev pub new_column : String → Column
new_column name = record { name = name; cast_column_as = none; cast_value_as = none }

abbrev pub column_as : PgType → Column → Column
column_as t c = record c { cast_column_as = some t }

abbrev pub value_as : PgType → Column → Column
value_as t c = record c { cast_value_as = some t }

-- The cast behind a name or a parameter.
abbrev pub cast_text : Option PgType → String
cast_text none = ""
cast_text (some t) = format ("::" ∷ type_name t ∷ [])

abbrev pub name_with_casting : Column → String
name_with_casting c = format (c.name ∷ cast_text c.cast_column_as ∷ [])

abbrev pub Columns : Type 0
Columns = List Column

abbrev pub join_columns : Columns → String
join_columns columns = join ", " (map (λ c. c.name) columns)

abbrev pub join_with_casting : Columns → String
join_with_casting columns = join ", " (map name_with_casting columns)

pub record Table : Type 0 where
  pub name : String
  pub columns : List String

-- `Table::new`: one column for each field of the struct, as serde names it.
abbrev pub new_table : String → List String → Table
new_table name fields = record { name = name; columns = fields }

module _ {ℓ} {E : Type ℓ} where
  abbrev pub get_column : String → Table → Outcome E Column
  get_column name table = if contains table.columns name then ok (new_column name) else panic

  abbrev pub get_column_name : String → Table → Outcome E String
  get_column_name name table = do c ← get_column name table; ok c.name

abbrev pub column_count : Table → ℕ
column_count table = length table.columns

-- `TransactionTable::add_column`
abbrev pub add_column : String → Table → Table
add_column name table = record table {
  columns = if contains table.columns name then table.columns else table.columns ++ (name ∷ []);
}

module _ {ℓ} {E : Type ℓ} where
  -- A list of columns that are taken from a table one by one.
  abbrev pub columns_of : Table → List (Table → Outcome E Column) → Outcome E Columns
  columns_of table [] = ok []
  columns_of table (f ∷ fs) = do c ← f table; cs ← columns_of table fs; ok (c ∷ cs)

  -- `self.get_column(name)`, alone or followed by a cast.
  abbrev pub plain : String → Table → Outcome E Column
  plain = get_column

  abbrev pub cast_column : PgType → String → Table → Outcome E Column
  cast_column t name table = do c ← get_column name table; ok (column_as t c)

  abbrev pub cast_value : PgType → String → Table → Outcome E Column
  cast_value t name table = do c ← get_column name table; ok (value_as t c)
