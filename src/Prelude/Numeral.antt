-- ===== src/Prelude/Numeral.antt =====
-- Decimal numerals of the standard library: `str::parse::<i32>` and the `Display` of an `i32`.
pub mod Printed
use Prim.Native.Char.{Char, code}
use Prim.Native.Nat.{ℕ, zero, suc, ◌+◌, ◌-◌, ◌*◌, ◌/◌, ◌%◌, ◌≤◌, ◌<◌}
use Prim.Native.String.{String}
use mathlib.Core.Bool.{◌||◌}
use mathlib.Core.Option.{Option, none, some}
use mathlib.Core.List.{List, [], ◌∷◌}
use mxfactorial.Prelude.Tests.{ltb, leb, eqb, if◌then◌else◌}
use mxfactorial.Prelude.Int.{ℤ, pos, negsuc}

-- The code points of a text.
abbrev pub codes : String → List ℕ
codes String.[] = []
codes (String.◌∷◌ c s) = code c ∷ codes s

pub read_digits : List ℕ → ℕ → Option ℕ
read_digits [] n = some n
read_digits (c ∷ s) n =
    let rest = read_digits s (n * 10 + (c - b'0')) in
    if ltb c b'0' || ltb b'9' c then none else rest

-- The checked arithmetic fails exactly on a value that is out of range.
abbrev in_range : ℕ → (ℕ → ℤ) → ℕ → Option ℤ
in_range limit sign n = if leb n limit then some (sign n) else none

abbrev pub negate : ℕ → ℤ
negate zero = pos 0
negate (suc n) = negsuc n

abbrev checked : ℕ → (ℕ → ℤ) → Option ℕ → Option ℤ
checked limit sign none = none
checked limit sign (some n) = in_range limit sign n

-- A sign with no digit behind it is an error, as is an empty text.
pub parse_magnitude : ℕ → (ℕ → ℤ) → List ℕ → Option ℤ
parse_magnitude limit sign [] = none
parse_magnitude limit sign (c ∷ s) = checked limit sign (read_digits (c ∷ s) 0)

abbrev pub i32_max : ℕ
i32_max = 2147483647

pub parse_codes : List ℕ → Option ℤ
parse_codes [] = none
parse_codes (c ∷ s) =
    if eqb c b'-'
    then parse_magnitude (i32_max + 1) negate s
    else if eqb c b'+'
    then parse_magnitude i32_max pos s
    else parse_magnitude i32_max pos (c ∷ s)

unfoldable pub parse_i32 : String → Option ℤ
unfolding parse_codes parse_magnitude read_digits
parse_i32 s = parse_codes (codes s)

pub digit_char : ℕ → Char
digit_char zero = "0"
digit_char (suc zero) = "1"
digit_char (suc (suc zero)) = "2"
digit_char (suc (suc (suc zero))) = "3"
digit_char (suc (suc (suc (suc zero)))) = "4"
digit_char (suc (suc (suc (suc (suc zero))))) = "5"
digit_char (suc (suc (suc (suc (suc (suc zero)))))) = "6"
digit_char (suc (suc (suc (suc (suc (suc (suc zero))))))) = "7"
digit_char (suc (suc (suc (suc (suc (suc (suc (suc zero)))))))) = "8"
digit_char (suc (suc (suc (suc (suc (suc (suc (suc (suc n))))))))) = "9"

-- The digits of `n` before `out`; ten rounds write any 32-bit value.
pub emit : ℕ → ℕ → String → String
emit zero n out = out
emit (suc f) n out =
    let more = emit f (n / 10) (String.◌∷◌ (digit_char (n % 10)) out) in
    if ltb n 10 then String.◌∷◌ (digit_char n) out else more

unfoldable pub show_i32 : ℤ → String
unfolding emit digit_char
show_i32 (pos n) = emit 10 n ""
show_i32 (negsuc n) = String.◌∷◌ "-" (emit 10 (suc n) "")

-- The values of an `i32`.
abbrev pub IsI32 : ℤ → Type 0
IsI32 (pos n) = n ≤ i32_max
IsI32 (negsuc n) = n ≤ i32_max
