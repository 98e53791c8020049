-- ===== src/Effect/Refusal.antt =====
-- Steps of a run: those that succeed, and those that fail and leave the world as it was.
use mxfactorial.Prelude.{Outcome, ok, err, panic, false, ◌≡◌, refl, is_ok}
use mxfactorial.Effect.{Action, map_error, continue, ◌>>=◌}

-- The run gave no value, and nothing was written.
abbrev pub Refused : {W E A : Type 0} → Outcome E A × W → W → Type 0
Refused (r, w') w = (is_ok r ≡ false) × (w' ≡ w)

module _ {W E A B : Type 0} where
  pub continue-refused :
      (r : Outcome E A) (f : A → Action W E B) (v w : W)
      → Refused (r, v) w
      → Refused (continue r f v) w
  continue-refused (ok a) f v w (h, k) = cc
  continue-refused (err e) f v w (h, k) = (refl, k)
  continue-refused panic f v w (h, k) = (refl, k)

  -- What comes first refuses.
  pub >>=-refused :
      (m : Action W E A) (f : A → Action W E B) (w : W) → Refused (m w) w → Refused ((m >>= f) w) w
  >>=-refused m f w h = continue-refused (m w).0 f (m w).1 w h

  continue-readonly :
      (r : Outcome E A) (f : A → Action W E B) (v w : W)
      → v ≡ w
      → ((a : A) → r ≡ ok a → Refused (f a w) w)
      → Refused (continue r f v) w
  continue-readonly (ok a) f v w e h = rw e (h a refl)
  continue-readonly (err x) f v w e h = (refl, e)
  continue-readonly panic f v w e h = (refl, e)

  -- What comes first writes nothing, and what follows refuses.
  pub >>=-readonly :
      (m : Action W E A) (f : A → Action W E B) (w : W)
      → (m w).1 ≡ w
      → ((a : A) → (m w).0 ≡ ok a → Refused (f a w) w)
      → Refused ((m >>= f) w) w
  >>=-readonly m f w e h = continue-readonly (m w).0 f (m w).1 w e h

module _ {W E A B : Type 0} where
  -- Neither writes.
  pub >>=-world :
      (m : Action W E A) (f : A → Action W E B) (w : W)
      → (m w).1 ≡ w
      → ((a : A) → (f a w).1 ≡ w)
      → ((m >>= f) w).1 ≡ w
  >>=-world m f w e h = go (m w).0 (m w).1 e
    where
      go : (r : Outcome E A) (v : W) → v ≡ w → (continue r f v).1 ≡ w
      go (ok a) v k = rw k (h a)
      go (err x) v k = k
      go panic v k = k

module _ {W E F A : Type 0} where
  pub map_error-refused :
      (g : E → F) (m : Action W E A) (w : W) → Refused (m w) w → Refused (map_error g m w) w
  map_error-refused g m w h = go (m w).0 (m w).1 h
    where
      go : (r : Outcome E A) (v : W) → Refused (r, v) w → Refused (map_error g (λ _. (r, v)) w) w
      go (ok a) v (h, k) = cc
      go (err e) v (h, k) = (refl, k)
      go panic v (h, k) = (refl, k)

  pub map_error-ok :
      (g : E → F) (m : Action W E A) (w v : W) (a : A)
      → m w ≡ (ok a, v)
      → map_error g m w ≡ (ok a, v)
  map_error-ok g m w v a h = rw h refl
