-- ===== src/Pg/Value.antt =====
-- crates/pg/src/model.rs: the values of a statement's parameters, and the conversions that make
-- them from the texts of the types crate.
use mxfactorial.Prelude.{
  String, ℕ, Bool, ◌||◌, List, [], ◌∷◌, Option, none, some, ◌==◌, string_eq, Outcome, ok, panic,
  ◌>>=◌, eqb, ℤ, if◌then◌else◌, ok_or,
}
use mxfactorial.Prelude.Numeral.{parse_i32}
use Prim.Native.Char.{code}
use mxfactorial.Types.Role.{AccountRole, to_sql}
use mxfactorial.Types.Errors.{BoxError, external}

-- What `ToSql` writes: an absent value is a null, and a role is its text.
pub data Value (Time D F : Type 0) : Type 0 where
  null : Value Time D F
  text : String → Value Time D F
  int : ℤ → Value Time D F
  bool : Bool → Value Time D F
  numeric : D → Value Time D F
  timestamp : Time → Value Time D F
  texts : List String → Value Time D F
  point : F → F → Value Time D F

-- `Decimal::from_str_exact`, `rescale`, and `trim` with `parse::<f64>`.
pub record PgOps (D F : Type 0) : Type 0 where
  pub from_str_exact : String → Option D
  pub rescale : ℕ → D → D
  pub parse_coordinate : String → Option F

module _ {Time D F : Type 0} where
  -- `Option<T>`
  abbrev pub optional {ℓ} : {A : Type ℓ} → (A → Value Time D F) → Option A → Value Time D F
  optional f none = null
  optional f (some a) = f a

  abbrev pub role_value : AccountRole → Value Time D F
  role_value role = text (to_sql role)

-- `replace(['(', ')'], "")`
unfoldable pub strip_parens : String → String
strip_parens String.[] = ""
strip_parens (String.◌∷◌ c s) =
    let rest = strip_parens s in
    if eqb (code c) b'(' || eqb (code c) b')' then rest else String.◌∷◌ c rest

abbrev on_head : (String → String) → List String → List String
on_head f [] = []
on_head f (s ∷ rest) = f s ∷ rest

-- `split(',')`
unfoldable pub split_comma : String → List String
split_comma String.[] = "" ∷ []
split_comma (String.◌∷◌ c s) =
    let parts = split_comma s in
    if eqb (code c) b',' then "" ∷ parts else on_head (λ part. String.◌∷◌ c part) parts

-- A text that is there and not empty.
abbrev pub given : Option String → Option String
given none = none
given (some v) = if v == "" then none else some v

abbrev pub traverse {ℓ κ} :
    {E A : Type ℓ} {B : Type κ} → (A → Outcome E B) → Option A → Outcome E (Option B)
traverse f none = ok none
traverse f (some a) = do b ← f a; ok (some b)

module _ {Time : Type 0} where
  unfoldable pub parse_pg_int4 : Option String → Outcome (BoxError Time) (Option ℤ)
  parse_pg_int4 s = traverse (λ v. ok_or (parse_i32 v) (external "ParseIntError")) (given s)

  unfoldable pub parse_pg_timestamp : Option Time → Outcome (BoxError Time) (Option Time)
  parse_pg_timestamp time = ok time

module _ {Time D F : Type 0} where
  -- A text with no comma panics.
  unfoldable pub coordinates : PgOps D F → List String → Outcome (BoxError Time) (F × F)
  coordinates ops [] = panic
  coordinates ops (lat ∷ []) = do
    _ ← ok_or (ops.parse_coordinate lat) (external "ParseFloatError")
    panic
  coordinates ops (lat ∷ lng ∷ rest) = do
    x ← ok_or (ops.parse_coordinate lat) (external "ParseFloatError")
    y ← ok_or (ops.parse_coordinate lng) (external "ParseFloatError")
    ok (x, y)

  unfoldable pub parse_pg_point :
      PgOps D F → Option String → Outcome (BoxError Time) (Option (F × F))
  unfolding coordinates
  parse_pg_point ops s = traverse (λ v. coordinates ops (split_comma (strip_parens v))) (given s)

  -- Three decimal places.
  unfoldable pub parse_pg_numeric : PgOps D F → Option String → Outcome (BoxError Time) (Option D)
  parse_pg_numeric ops s =
      traverse
        (λ v. do
          d ← ok_or (ops.from_str_exact v) (external "rust_decimal::Error")
          ok (ops.rescale 3 d))
        (given s)
