-- ===== src/Event/Pending.antt =====
-- `process_pending` (services/event/src/main.rs): transactions at equilibrium that no one has handled
-- are claimed, and each is given to both handlers.
use mxfactorial.Prelude.{
  String, List, [], ◌∷◌, Option, none, some, inl, inr, Outcome, ok, err, panic, ◌≡◌, ◌≢◌, refl, ℤ,
}
use mxfactorial.Prelude.Numeral.{show_i32}
use mxfactorial.Effect.{Action, pure, attempt, for_each, ◌>>=◌, ◌>>◌}

-- An error of a handler is logged, and the next goes on.
abbrev pub logged : {W E F : Type 0} → Action W F (Unit {0}) → Action W E (Unit {0})
logged m = attempt m >> pure tt

module _ {W : Type 0} (gdp : String → Action W String (Unit {0}))
    (threshold : Option (String → Action W String (Unit {0}))) where
  -- The threshold handler is run where there is a queue.
  unfoldable pub process_one : ℤ → Action W String (Unit {0})
  process_one id =
      logged (gdp (show_i32 id))
      >> elim threshold [ none ↦ pure tt | some handle ↦ logged (handle (show_i32 id)) ]

  -- `claim` marks the rows and returns their ids; a claim that fails is logged.
  unfoldable pub process_pending :
      Action W String (Unit {0}) → Action W String (List ℤ) → Action W String (Unit {0})
  unfolding process_one
  process_pending connect claim = do
    connected ← attempt connect
    let work = do
      claimed ← attempt claim
      elim claimed [ inl ids ↦ for_each process_one ids | inr _ ↦ pure tt ]
    elim connected [ inl _ ↦ work | inr _ ↦ (λ w. (panic, w)) ]

module _ {W F : Type 0} where
  logged-ends :
      (m : Action W F (Unit {0})) (w : W)
      → (m w).0 ≢ panic
      → logged {E = String} m w ≡ (ok tt, (m w).1)
  logged-ends m w h = go (m w).0 (m w).1 h
    where
      go :
          (r : Outcome F (Unit {0})) (v : W)
          → r ≢ panic
          → logged {E = String} (λ _. (r, v)) w ≡ (ok tt, v)
      go (ok _) v k = refl
      go (err _) v k = refl
      go panic v k = absurd (k refl)

module _ {W : Type 0} (gdp handle : String → Action W String (Unit {0})) where
  -- The world after both handlers of a transaction.
  abbrev pub handled : ℤ → W → W
  handled id w = (handle (show_i32 id) (gdp (show_i32 id) w).1).1

  abbrev pub all_handled : List ℤ → W → W
  all_handled [] w = w
  all_handled (id ∷ rest) w = all_handled rest (handled id w)

  -- Handlers that do not panic are both run on every claimed transaction, in order: the error of one
  -- keeps no other from being run.
  pub for_each-all_handled :
      (ids : List ℤ) (w : W)
      → ((text : String) (v : W) → (gdp text v).0 ≢ panic)
      → ((text : String) (v : W) → (handle text v).0 ≢ panic)
      → for_each (process_one gdp (some handle)) ids w ≡ (ok tt, all_handled ids w)
  unfolding process_one
  for_each-all_handled [] w g h = refl
  for_each-all_handled (id ∷ rest) w g h =
      rw
        (
          logged-ends (gdp (show_i32 id)) w (g (show_i32 id) w),
          logged-ends (handle (show_i32 id)) (gdp (show_i32 id) w).1
              (h (show_i32 id) (gdp (show_i32 id) w).1),
        )
        (for_each-all_handled rest (handled id w) g h)
