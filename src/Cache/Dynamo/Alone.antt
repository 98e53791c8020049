-- ===== src/Cache/Dynamo/Alone.antt =====
-- A call of `incr_and_check_threshold` (crates/cache/src/ddb.rs) that no other caller interrupts makes
-- the two requests of Callers one after the other.
use mxfactorial.Prelude.{
  String, ℕ, ◌+◌, ◌-◌, Bool, true, false, some, ok, err, ltb, if◌then◌else◌, Bool-cases, inl, inr,
  ◌≡◌, refl, sym, ap, ◌∙◌, not, arith,
}
use mxfactorial.Effect.{Action, pure}
use mxfactorial.Service.Cache.{CacheError}
use mxfactorial.Cache.Redis.{Doubles}
use mxfactorial.Cache.Dynamo.{
  DynamoRequests, condition_failed, take_threshold, incr_and_check_threshold, number,
}
use mxfactorial.Cache.Dynamo.Callers.{Caller, starting, finished, respond}

-- Requests on one accumulator whose number is a count of units.
pub record CounterLaws {W F : Type 0} (doubles : Doubles F) (dynamo : DynamoRequests W)
    (key : String) : Type 0 where
  pub units : ℕ → F
  pub value : W → ℕ
  pub reads : (n : ℕ) → doubles.parse (doubles.to_string (units n)) ≡ some (units n)
  pub compares : (a b : ℕ) → doubles.less (units a) (units b) ≡ ltb a b
  -- the world after an addition, and after a subtraction
  pub added : ℕ → W → W
  pub added_value : (n : ℕ) (w : W) → value (added n w) ≡ value w + n
  pub adds :
      (n : ℕ) (w : W)
      → dynamo.add key (doubles.to_string (units n)) w
        ≡ (ok (some (doubles.to_string (units (value w + n)))), added n w)
  pub taken : ℕ → W → W
  pub taken_value : (n : ℕ) (w : W) → value (taken n w) ≡ value w - n
  pub takes :
      (n : ℕ) (w : W)
      → dynamo.add_if_reached key
          (doubles.to_string (doubles.negate (units n)))
          (doubles.to_string (units n))
          w
        ≡ (if ltb (value w) n then (err condition_failed, w) else (ok tt, taken n w))

module _ {W F : Type 0} (doubles : Doubles F) (dynamo : DynamoRequests W) (key : String)
    (laws : CounterLaws doubles dynamo key) where
  open laws use {units, value, added, taken}

  -- Both requests of a caller, with nothing between them.
  abbrev alone : ℕ → ℕ → ℕ → Caller × ℕ
  alone threshold amount before =
      let (c, after) = respond threshold (starting amount) before in respond threshold c after

  -- The world behind both.
  abbrev behind : ℕ → ℕ → W → W
  behind threshold amount w =
      if ltb (value w + amount) threshold then added amount w else taken threshold (added amount w)

  number-units : (n : ℕ) → number dynamo doubles (doubles.to_string (units n)) ≡ units n
  number-units n = rw (laws.reads n) refl

  -- The second request of a call that has seen the new value.
  take_threshold-units :
      (seen threshold : ℕ) (w : W)
      → ltb (value w) threshold ≡ false
      → take_threshold dynamo doubles key (doubles.to_string (units threshold)) (units seen) w
        ≡ (ok (doubles.to_string (units seen), true), taken threshold w)
  unfolding take_threshold
  take_threshold-units seen threshold w h =
      rw (number-units threshold, laws.takes threshold w, h) refl

  -- What the call does with the new value and the threshold as numbers.
  abbrev compared : String → F → F → Action W CacheError (String × Bool)
  compared bound new_val limit =
      if doubles.less new_val limit
      then pure (doubles.to_string new_val, false)
      else take_threshold dynamo doubles key bound new_val

  compared-units :
      (seen threshold : ℕ) (w : W)
      → ltb (value w) threshold ≡ ltb seen threshold
      → compared (doubles.to_string (units threshold)) (units seen) (units threshold) w ≡ (
        ok (doubles.to_string (units seen), not (ltb seen threshold)),
        if ltb seen threshold then w else taken threshold w,
      )
  compared-units seen threshold w h = elim (Bool-cases (ltb seen threshold)) [
    | inl below ↦ rw (laws.compares seen threshold, below) refl
    | inr reached ↦
        rw (laws.compares seen threshold, reached)
          (take_threshold-units seen threshold w (h ∙ reached))
  ]

  compared-read :
      (seen threshold : ℕ) (w : W)
      → ltb (value w) threshold ≡ ltb seen threshold
      → compared
          (doubles.to_string (units threshold))
          (number dynamo doubles (doubles.to_string (units seen)))
          (number dynamo doubles (doubles.to_string (units threshold)))
          w
        ≡ (
          ok (doubles.to_string (units seen), not (ltb seen threshold)),
          if ltb seen threshold then w else taken threshold w,
        )
  compared-read seen threshold w h =
      rw (number-units seen, number-units threshold) (compared-units seen threshold w h)

  value-behind :
      (threshold amount : ℕ) (w : W)
      → value (behind threshold amount w) ≡ (
          if ltb (value w + amount) threshold
          then value w + amount
          else value w + amount - threshold)
  value-behind threshold amount w = elim (Bool-cases (ltb (value w + amount) threshold)) [
    | inl below ↦ rw below (laws.added_value amount w)
    | inr reached ↦ rw reached (
        laws.taken_value threshold (added amount w)
        ∙ ap (λ n. n - threshold) (laws.added_value amount w))
  ]

  respond-alone :
      (amount threshold before : ℕ)
      → alone threshold amount before ≡ (
        finished amount (not (ltb (before + amount) threshold)),
        if ltb (before + amount) threshold then before + amount else before + amount - threshold,
      )
  unfolding respond
  respond-alone amount threshold before = ground arith

  -- A call whose two requests no other caller comes between answers the new value and whether the
  -- threshold was met, and the value that it leaves in the table and its answer are those of the two
  -- turns of one caller, on requests that count whole units.
  pub incr_and_check_threshold-alone :
      (amount threshold : ℕ) (w : W)
      → (incr_and_check_threshold dynamo doubles key
            (doubles.to_string (units amount))
            (doubles.to_string (units threshold))
            w
          ≡ (
            ok (
              doubles.to_string (units (value w + amount)),
              not (ltb (value w + amount) threshold),
            ),
            behind threshold amount w,
          ))
        × (alone threshold amount (value w) ≡ (
          finished amount (not (ltb (value w + amount) threshold)),
          value (behind threshold amount w),
        ))
  unfolding incr_and_check_threshold
  incr_and_check_threshold-alone amount threshold w = (
    rw (number-units amount, laws.adds amount w)
        (compared-read (value w + amount) threshold (added amount w)
          (ap (λ n. ltb n threshold) (laws.added_value amount w))),
    respond-alone amount threshold (value w)
        ∙ ap (λ n. (finished amount (not (ltb (value w + amount) threshold)), n))
            (sym (value-behind threshold amount w)),
  )
