-- ===== src/Prelude/Fallible.antt =====
-- Fallible code: a value, an error that the caller sees, or a panic (`unwrap` of a missing value).
use mathlib.Core.Path.{◌≡◌, refl}
use mathlib.Core.Bool.{Bool, true, false}
use mathlib.Core.Option.{Option, none, some}
use mathlib.Core.List.{List, [], ◌∷◌}
use mathlib.Core.Logic.{◌⊎◌, inl, inr}

pub data Outcome {ℓ κ} (E : Type ℓ) (A : Type κ) : Type (ℓ ⊔ κ) where
  ok : A → Outcome E A
  err : E → Outcome E A
  panic : Outcome E A

infixl 5 ◌>>=◌ ◌>>◌
abbrev pub ◌>>=◌ {ℓ κ μ} :
    {E : Type ℓ} {A : Type κ} {B : Type μ} → Outcome E A → (A → Outcome E B) → Outcome E B
ok a >>= f = f a
err e >>= f = err e
panic >>= f = panic

abbrev pub ◌>>◌ {ℓ κ μ} :
    {E : Type ℓ} {A : Type κ} {B : Type μ} → Outcome E A → Outcome E B → Outcome E B
m >> k = m >>= λ _. k

-- `Option::unwrap`
abbrev pub unwrap {ℓ κ} : {E : Type ℓ} {A : Type κ} → Option A → Outcome E A
unwrap none = panic
unwrap (some a) = ok a

-- `Option::ok_or`
abbrev pub ok_or {ℓ κ} : {E : Type ℓ} {A : Type κ} → Option A → E → Outcome E A
ok_or none e = err e
ok_or (some a) e = ok a

-- `Result::map_err`
abbrev pub map_err {ℓ κ μ} :
    {E : Type ℓ} {F : Type μ} {A : Type κ} → (E → F) → Outcome E A → Outcome F A
map_err f (ok a) = ok a
map_err f (err e) = err (f e)
map_err f panic = panic

-- `Result::unwrap`
abbrev pub unwrap_result {ℓ κ μ} :
    {E : Type ℓ} {F : Type μ} {A : Type κ} → Outcome E A → Outcome F A
unwrap_result (ok a) = ok a
unwrap_result (err e) = panic
unwrap_result panic = panic

-- `if b { return Err(e) }`
abbrev pub err_if {ℓ} : {E : Type ℓ} → Bool → E → Outcome E (Unit {0})
err_if true e = err e
err_if false e = ok tt

abbrev pub is_ok {ℓ κ} : {E : Type ℓ} {A : Type κ} → Outcome E A → Bool
is_ok (ok a) = true
is_ok (err e) = false
is_ok panic = false

-- A loop that rebuilds a list and stops at the first failure.
abbrev pub map_outcome {ℓ κ μ} :
    {E : Type ℓ} {A : Type κ} {B : Type μ} → (A → Outcome E B) → List A → Outcome E (List B)
map_outcome f [] = ok []
map_outcome f (x ∷ xs) = do y ← f x; ys ← map_outcome f xs; ok (y ∷ ys)

pub Outcome-cases {ℓ κ} :
    {E : Type ℓ} {A : Type κ} (m : Outcome E A)
    → ((a : A) × (m ≡ ok a)) ⊎ ((e : E) × (m ≡ err e)) ⊎ (m ≡ panic)
Outcome-cases (ok a) = inl (a, refl)
Outcome-cases (err e) = inr (inl (e, refl))
Outcome-cases panic = inr (inr refl)

-- Inversion of a successful step.
pub >>=-eq-ok {ℓ κ μ} :
    {E : Type ℓ} {A : Type κ} {B : Type μ} (first : Outcome E A) (next : A → Outcome E B) {y : B}
    → (first >>= next) ≡ ok y
    → (x : A) × (first ≡ ok x) × (next x ≡ ok y)
>>=-eq-ok (ok x) next h = (x, refl, h)
>>=-eq-ok (err e) next h = cc
>>=-eq-ok panic next h = cc

pub ok_injective {ℓ κ} :
    {E : Type ℓ} {A : Type κ} (a b : A) → ◌≡◌ {A = Outcome E A} (ok a) (ok b) → a ≡ b
ok_injective a b h = cc

pub err_injective {ℓ κ} :
    {E : Type ℓ} {A : Type κ} (a b : E) → ◌≡◌ {A = Outcome E A} (err a) (err b) → a ≡ b
err_injective a b h = cc
