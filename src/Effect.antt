-- ===== src/Effect.antt =====
-- Asynchronous code that may fail: it runs on a world `W` (the database, the cache, the network)
-- and leaves a world behind, also when it fails.
pub mod Success
pub mod Refusal
use mxfactorial.Prelude.{
  Outcome, ok, err, panic, ◌≡◌, ◌⊎◌, inl, inr, List, [], ◌∷◌, Bool, if◌then◌else◌,
}

abbrev pub Action : Type 0 → Type 0 → Type 0 → Type 0
Action W E A = W → Outcome E A × W

module _ {W E A : Type 0} where
  abbrev pub pure : A → Action W E A
  pure a w = (ok a, w)

  -- A computation that leaves the world alone.
  abbrev pub lift : Outcome E A → Action W E A
  lift m w = (m, w)

  abbrev pub raise : E → Action W E A
  raise e w = (err e, w)

module _ {W E A B : Type 0} where
  abbrev pub continue : Outcome E A → (A → Action W E B) → Action W E B
  continue (ok a) f w = f a w
  continue (err e) f w = (err e, w)
  continue panic f w = (panic, w)

  infixl 5 ◌>>=◌ ◌>>◌
  abbrev pub ◌>>=◌ : Action W E A → (A → Action W E B) → Action W E B
  ◌>>=◌ m f w = let (r, w') = m w in continue r f w'

  abbrev pub ◌>>◌ : Action W E A → Action W E B → Action W E B
  m >> k = m >>= λ _. k

-- The result is looked at and an error does not end the block, as in `match f().await` or `.ok()`;
-- a panic does.
abbrev pub attempt : {W E F A : Type 0} → Action W F A → Action W E (A ⊎ F)
attempt m w =
    let (r, w') = m w in (elim r [ ok a ↦ ok (inl a) | err e ↦ ok (inr e) | panic ↦ panic ], w')

abbrev pub map_error : {W E F A : Type 0} → (E → F) → Action W E A → Action W F A
map_error f m w =
    let (r, w') = m w in (elim r [ ok a ↦ ok a | err e ↦ err (f e) | panic ↦ panic ], w')

-- A loop over a list, for its effects.
abbrev pub for_each :
    {W E A : Type 0} → (A → Action W E (Unit {0})) → List A → Action W E (Unit {0})
for_each f [] = pure tt
for_each f (x ∷ xs) = f x >> for_each f xs

-- `if b { m }`
abbrev pub when : {W E : Type 0} → Bool → Action W E (Unit {0}) → Action W E (Unit {0})
when b m = if b then m else pure tt

-- The action leaves every world as it is.
abbrev pub IsReadOnly : {W E A : Type 0} → Action W E A → Type 0
IsReadOnly {W} m = (w : W) → (m w).1 ≡ w
