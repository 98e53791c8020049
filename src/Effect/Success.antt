-- ===== src/Effect/Success.antt =====
-- Runs that succeed, read backwards.
use mxfactorial.Prelude.{Outcome, ok, err, panic, ◌≡◌, refl, sym}
use mxfactorial.Effect.{Action, continue, ◌>>=◌}

pub paired : {A B : Type 0} {p : A × B} {a : A} {b : B} → p.0 ≡ a → p.1 ≡ b → p ≡ (a, b)
paired e f = rw (sym e, sym f) refl

module _ {W E A B : Type 0} where
  continue-ok :
      (r : Outcome E A) (f : A → Action W E B) (u v : W) (b : B)
      → continue r f u ≡ (ok b, v)
      → (a : A) × (r ≡ ok a) × (f a u ≡ (ok b, v))
  continue-ok (ok a) f u v b h = (a, refl, h)
  continue-ok (err e) f u v b h = cc
  continue-ok panic f u v b h = cc

  -- Both steps succeeded.
  pub >>=-ok :
      (m : Action W E A) (f : A → Action W E B) {w v : W} {b : B}
      → (m >>= f) w ≡ (ok b, v)
      → (a : A) × ((m w).0 ≡ ok a) × (f a (m w).1 ≡ (ok b, v))
  >>=-ok m f {w} {v} {b} h = continue-ok (m w).0 f (m w).1 v b h
