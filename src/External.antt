-- ===== src/External.antt =====
-- Code that the repository calls and does not hold: `rust_decimal` numbers, 32-bit floats and
-- `chrono` instants. Each is a type with its operations, an argument of what uses it.
use mxfactorial.Prelude.{String, Bool, Option, ◌≡◌, ◌↔◌, true}

-- `rust_decimal::Decimal`: the sum and the product panic on overflow (`none`).
pub record DecimalOps (D : Type 0) : Type 0 where
  -- `str::parse::<Decimal>`
  pub parse : String → Option D
  pub add : D → D → Option D
  pub mul : D → D → Option D
  -- `==` and `>=`
  pub eq : D → D → Bool
  pub ge : D → D → Bool
  -- `Decimal::from_f32(-1.0)`
  pub minus_one : Option D
  -- `{}` and `{:.3}`
  pub to_string : D → String
  pub fixed : D → String

-- Equality of decimals compares values, so it is symmetric and transitive.
pub record DecimalEq {D : Type 0} (d : DecimalOps D) : Type 0 where
  pub eq_sym : (a b : D) → d.eq a b ≡ true → d.eq b a ≡ true
  pub eq_trans : (a b c : D) → d.eq a b ≡ true → d.eq b c ≡ true → d.eq a c ≡ true

-- `f32`: products and sums round and never fail; `fixed` is `{:.3}`.
pub record FloatOps (F : Type 0) : Type 0 where
  pub parse : String → Option F
  pub add : F → F → F
  pub mul : F → F → F
  pub zero : F
  pub fixed : F → String

-- The order of `chrono::DateTime<Utc>`: `later a b` is `a > b`, and `beq` is `a == b`.
pub record InstantOps (Time : Type 0) : Type 0 where
  pub later : Time → Time → Bool
  pub beq : Time → Time → Bool

pub record InstantLaws {Time : Type 0} (t : InstantOps Time) : Type 0 where
  pub beq_iff : (a b : Time) → (t.beq a b ≡ true) ↔ (a ≡ b)
  pub later_irrefl : (a : Time) → ¬ (t.later a a ≡ true)
  pub later_trans : (a b c : Time) → t.later a b ≡ true → t.later b c ≡ true → t.later a c ≡ true
