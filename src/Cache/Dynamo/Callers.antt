-- ===== src/Cache/Dynamo/Callers.antt =====
-- Several callers of `incr_and_check_threshold` on one accumulator in DynamoDB
-- (crates/cache/src/ddb.rs): each makes up to two requests, and those of different callers come in
-- any order. Amounts are counted in whole units.
use mxfactorial.Prelude.{
  ℕ, zero, suc, ◌+◌, ◌-◌, ◌*◌, Bool, true, false, List, [], ◌∷◌, ltb, if◌then◌else◌, ◌≡◌, refl,
  arith,
}

pub data Caller : Type 0 where
  -- about to add its amount
  starting : ℕ → Caller
  -- has added the amount and seen the new value
  counted : ℕ → ℕ → Caller
  -- has its answer
  finished : ℕ → Bool → Caller

-- The next request of a caller, on the value in the table: the increment; then nothing if the value
-- that it saw is below the threshold; else the subtraction, whose condition is on the value of then.
unfoldable pub respond : ℕ → Caller → ℕ → Caller × ℕ
respond threshold (starting amount) value = (counted amount (value + amount), value + amount)
respond threshold (counted amount seen) value =
    if ltb seen threshold
    then (finished amount false, value)
    else if ltb value threshold
    then (finished amount false, value)
    else (finished amount true, value - threshold)
respond threshold (finished amount fired) value = (finished amount fired, value)

-- The turn of the caller at a position; no one is at a position behind the last.
unfoldable pub turn : ℕ → ℕ → List Caller → ℕ → List Caller × ℕ
turn threshold i [] value = ([], value)
turn threshold zero (c ∷ callers) value =
    let (d, after) = respond threshold c value in (d ∷ callers, after)
turn threshold (suc i) (c ∷ callers) value =
    let (rest, after) = turn threshold i callers value in (c ∷ rest, after)

-- A sequence of turns.
unfoldable pub run : ℕ → List ℕ → List Caller → ℕ → List Caller × ℕ
run threshold [] callers value = (callers, value)
run threshold (i ∷ turns) callers value =
    let (rest, after) = turn threshold i callers value in run threshold turns rest after

-- What the callers have added so far, and how many of them were told that the threshold was met.
abbrev added_by : Caller → ℕ
added_by (starting amount) = 0
added_by (counted amount seen) = amount
added_by (finished amount fired) = amount

abbrev pub added : List Caller → ℕ
added [] = 0
added (c ∷ callers) = added_by c + added callers

abbrev fired_by : Caller → ℕ
fired_by (starting amount) = 0
fired_by (counted amount seen) = 0
fired_by (finished amount true) = 1
fired_by (finished amount false) = 0

abbrev pub fired : List Caller → ℕ
fired [] = 0
fired (c ∷ callers) = fired_by c + fired callers

respond-conserves :
    (threshold : ℕ) (c : Caller) (value : ℕ)
    → (respond threshold c value).1
        + fired_by (respond threshold c value).0 * threshold
        + added_by c
      ≡ value + fired_by c * threshold + added_by (respond threshold c value).0
unfolding respond
respond-conserves threshold (starting amount) value = omega arith
respond-conserves threshold (counted amount seen) value = ground arith
respond-conserves threshold (finished amount b) value = refl

turn-conserves :
    (threshold i : ℕ) (callers : List Caller) (value : ℕ)
    → (turn threshold i callers value).1
        + fired (turn threshold i callers value).0 * threshold
        + added callers
      ≡ value + fired callers * threshold + added (turn threshold i callers value).0
unfolding turn
turn-conserves threshold i [] value = refl
turn-conserves threshold zero (c ∷ callers) value =
    grind (arith, respond-conserves threshold c value)
turn-conserves threshold (suc i) (c ∷ callers) value =
    grind (arith, turn-conserves threshold i callers value)

-- In every order of the requests, what is in the table and what was taken for the callers that were
-- told so is what was there and what was added: nothing is taken twice or lost.
pub run-conserves :
    (threshold : ℕ) (turns : List ℕ) (callers : List Caller) (value : ℕ)
    → (run threshold turns callers value).1
        + fired (run threshold turns callers value).0 * threshold
        + added callers
      ≡ value + fired callers * threshold + added (run threshold turns callers value).0
unfolding run
run-conserves threshold [] callers value = refl
run-conserves threshold (i ∷ turns) callers value = omega (
  arith,
  turn-conserves threshold i callers value,
  run-conserves threshold turns (turn threshold i callers value).0
      (turn threshold i callers value).1,
)
