-- ===== src/Prelude/Numeral/Printed.antt =====
-- A printed `i32` is read back: the digits that `Display` writes are those that `parse` reads.
use Prim.Native.Char.{code}
use Prim.Native.Nat.{ℕ, zero, suc, ◌+◌, ◌-◌, ◌*◌, ◌/◌, ◌%◌, ◌^◌, ◌≤◌, ◌<◌}
use Prim.Native.String.{String}
use mathlib.Core.Path.{◌≡◌, refl, ◌∙◌, ap, sym, subst}
use mathlib.Core.Logic.{inl, inr}
use mathlib.Core.Bool.{◌||◌}
use mathlib.Core.Option.{Option, none, some}
use mathlib.Core.List.{List, [], ◌∷◌}
use native.Mathlib.Nat.{pow-suc}
use native.Mathlib.Omega.{arith}
use mxfactorial.Prelude.Tests.{ltb, if◌then◌else◌, Bool-cases}
use mxfactorial.Prelude.Int.{ℤ, pos, negsuc}
use mxfactorial.Prelude.Numeral.{
  codes, read_digits, negate, parse_magnitude, i32_max, parse_codes, parse_i32, digit_char, emit,
  show_i32, IsI32,
}

code-digit_char : (d : ℕ) → d < 10 → code (digit_char d) ≡ b'0' + d
unfolding digit_char
code-digit_char zero h = refl
code-digit_char (suc zero) h = refl
code-digit_char (suc (suc zero)) h = refl
code-digit_char (suc (suc (suc zero))) h = refl
code-digit_char (suc (suc (suc (suc zero)))) h = refl
code-digit_char (suc (suc (suc (suc (suc zero))))) h = refl
code-digit_char (suc (suc (suc (suc (suc (suc zero)))))) h = refl
code-digit_char (suc (suc (suc (suc (suc (suc (suc zero))))))) h = refl
code-digit_char (suc (suc (suc (suc (suc (suc (suc (suc zero)))))))) h = refl
code-digit_char (suc (suc (suc (suc (suc (suc (suc (suc (suc n))))))))) h = omega arith

read_digits-digit :
    (d n : ℕ) (s : List ℕ) → d < 10 → read_digits ((b'0' + d) ∷ s) n ≡ read_digits s (n * 10 + d)
unfolding read_digits
read_digits-digit d n s h = ground arith

-- Reading what `emit` writes gives back the number, before any further digits.
read_digits-emit :
    (f n : ℕ) (out : String)
    → n < 10 ^ f
    → read_digits (codes (emit f n out)) 0 ≡ read_digits (codes out) n
unfolding emit
read_digits-emit zero n out h = ap (read_digits (codes out)) (omega arith)
read_digits-emit (suc f) n out h = elim (Bool-cases (ltb n 10)) [
  | inl small ↦
      rw (small, code-digit_char n (ground arith))
        (read_digits-digit n 0 (codes out) (ground arith)
          ∙ ap (read_digits (codes out)) (omega arith))
  | inr large ↦ rw large (
      read_digits-emit f (n / 10) (String.◌∷◌ (digit_char (n % 10)) out)
        (omega (arith, pow-suc 10 f))
      ∙ rw (code-digit_char (n % 10) (omega arith)) (
          read_digits-digit (n % 10) (n / 10) (codes out) (omega arith)
          ∙ ap (read_digits (codes out)) (omega arith)))
]

-- A text that begins with a digit, as the reader sees it.
abbrev StartsDigit : List ℕ → Type 0
StartsDigit [] = ⊥
StartsDigit (c ∷ s) = (b'0' ≤ c) × (c ≤ b'9')

digit_char-digit : (d : ℕ) → d < 10 → (b'0' ≤ code (digit_char d)) × (code (digit_char d) ≤ b'9')
digit_char-digit d h = omega (arith, code-digit_char d h)

emit-StartsDigit :
    (f n : ℕ) (out : String) → StartsDigit (codes out) → StartsDigit (codes (emit f n out))
unfolding emit
emit-StartsDigit zero n out h = h
emit-StartsDigit (suc f) n out h = elim (Bool-cases (ltb n 10)) [
  | inl small ↦ rw small (digit_char-digit n (ground arith))
  | inr large ↦ rw large (
      emit-StartsDigit f (n / 10) (String.◌∷◌ (digit_char (n % 10)) out)
        (digit_char-digit (n % 10) (omega arith)))
]

emit_first-StartsDigit : (n : ℕ) → StartsDigit (codes (emit 10 n ""))
unfolding emit
emit_first-StartsDigit n = elim (Bool-cases (ltb n 10)) [
  | inl small ↦ rw small (digit_char-digit n (ground arith))
  | inr large ↦ rw large (
      emit-StartsDigit 9 (n / 10) (String.◌∷◌ (digit_char (n % 10)) "")
        (digit_char-digit (n % 10) (omega arith)))
]

read_digits-emit_all : (n : ℕ) → n ≤ 2147483648 → read_digits (codes (emit 10 n "")) 0 ≡ some n
unfolding read_digits
read_digits-emit_all n h = read_digits-emit 10 n "" (omega arith)

none-ne-some : (r : ℕ) → ◌≡◌ {A = Option ℕ} none (some r) → ⊥
none-ne-some r h = cc

-- The digits of a printed number.
pub read_digits-show_i32 : (n : ℕ) → n ≤ i32_max → read_digits (codes (show_i32 (pos n))) 0 ≡ some n
unfolding show_i32
read_digits-show_i32 n h = read_digits-emit_all n (omega arith)

-- A reader of numbers that goes on digit by digit ends with what `read_digits` reads.
pub read_digits-induction {ℓ} :
    (P : ℕ → List ℕ → Type ℓ) (r : ℕ)
    → P r []
    → ((n c : ℕ) (s : List ℕ) → b'0' ≤ c → c ≤ b'9' → P (n * 10 + (c - b'0')) s → P n (c ∷ s))
    → (n : ℕ) (s : List ℕ) → read_digits s n ≡ some r
    → P n s
unfolding read_digits
read_digits-induction P r base step n [] h = subst (λ m. P m []) (cc) base
read_digits-induction P r base step n (c ∷ s) h = elim (Bool-cases (ltb c b'0' || ltb b'9' c)) [
  | inl bad ↦ absurd (
      none-ne-some r
        (sym (ap (λ b. if b then none else read_digits s (n * 10 + (c - b'0'))) bad) ∙ h))
  | inr good ↦ step n c s (ground arith) (ground arith) (
      read_digits-induction P r base step (n * 10 + (c - b'0')) s
        (sym (ap (λ b. if b then none else read_digits s (n * 10 + (c - b'0'))) good) ∙ h))
]

parse_magnitude-unsigned :
    (s : List ℕ) (n : ℕ)
    → StartsDigit s
    → read_digits s 0 ≡ some n
    → n ≤ i32_max
    → parse_magnitude i32_max pos s ≡ some (pos n)
unfolding parse_magnitude
parse_magnitude-unsigned [] n d h b = absurd d
parse_magnitude-unsigned (c ∷ s) n d h b = rw h (ground arith)

-- With a digit in front the sign tests fail.
parse_codes-unsigned :
    (s : List ℕ) (n : ℕ)
    → StartsDigit s
    → read_digits s 0 ≡ some n
    → n ≤ i32_max
    → parse_codes s ≡ some (pos n)
unfolding parse_codes
parse_codes-unsigned [] n d h b = absurd d
parse_codes-unsigned (c ∷ s) n d h b = ground (arith, parse_magnitude-unsigned (c ∷ s) n d h b)

parse_magnitude-signed :
    (s : List ℕ) (n : ℕ)
    → StartsDigit s
    → read_digits s 0 ≡ some (suc n)
    → n ≤ i32_max
    → parse_magnitude (i32_max + 1) negate s ≡ some (negsuc n)
unfolding parse_magnitude
parse_magnitude-signed [] n d h b = absurd d
parse_magnitude-signed (c ∷ s) n d h b = rw h (ground arith)

-- What is printed is read back, for every value of the type.
pub parse_i32-show_i32 : (z : ℤ) → IsI32 z → parse_i32 (show_i32 z) ≡ some z
unfolding parse_i32 show_i32
parse_i32-show_i32 (pos n) h =
    parse_codes-unsigned (codes (emit 10 n "")) n (emit_first-StartsDigit n)
      (read_digits-emit_all n (omega arith)) h
parse_i32-show_i32 (negsuc n) h =
    parse_magnitude-signed (codes (emit 10 (suc n) "")) n (emit_first-StartsDigit (suc n))
      (read_digits-emit_all (suc n) (omega arith)) h
