-- ===== src/Cache/Dynamo/Met.antt =====
-- The threshold of an accumulator in DynamoDB (crates/cache/src/ddb.rs): once every caller has its
-- answer, a threshold that was reached was told to one of them, in every order of the requests.
use mxfactorial.Prelude.{
  ℕ, zero, suc, ◌+◌, ◌*◌, ◌≤◌, ◌<◌, true, false, List, [], ◌∷◌, ltb, if◌then◌else◌, ◌≡◌, refl, ◌∙◌,
  arith, ◌⊎◌, inl, inr, All,
}
use mxfactorial.Cache.Dynamo.Callers.{
  Caller, starting, counted, finished, respond, turn, run, added, fired, run-conserves,
}

-- The callers that begin with these amounts.
abbrev pub fresh : List ℕ → List Caller
fresh [] = []
fresh (amount ∷ amounts) = starting amount ∷ fresh amounts

abbrev pub total : List ℕ → ℕ
total [] = 0
total (amount ∷ amounts) = amount + total amounts

abbrev pub IsFinished : Caller → Type 0
IsFinished (starting amount) = ⊥
IsFinished (counted amount seen) = ⊥
IsFinished (finished amount b) = Unit

abbrev amount_of : Caller → ℕ
amount_of (starting amount) = amount
amount_of (counted amount seen) = amount
amount_of (finished amount b) = amount

abbrev amounts_of : List Caller → ℕ
amounts_of [] = 0
amounts_of (c ∷ callers) = amount_of c + amounts_of callers

-- One for a caller that was told so, or has seen a value from the threshold on.
abbrev weight_by : ℕ → Caller → ℕ
weight_by threshold (starting amount) = 0
weight_by threshold (counted amount seen) = if ltb seen threshold then 0 else 1
weight_by threshold (finished amount b) = if b then 1 else 0

abbrev weight : ℕ → List Caller → ℕ
weight threshold [] = 0
weight threshold (c ∷ callers) = weight_by threshold c + weight threshold callers

respond-weight :
    (threshold : ℕ) (c : Caller) (value : ℕ)
    → (value < threshold) ⊎ (0 < weight_by threshold c)
    → ((respond threshold c value).1 < threshold)
      ⊎ (0 < weight_by threshold (respond threshold c value).0)
unfolding respond
respond-weight threshold (starting amount) value h = ground arith
respond-weight threshold (counted amount seen) value h = ground arith
respond-weight threshold (finished amount b) value h = h

respond-amount :
    (threshold : ℕ) (c : Caller) (value : ℕ) → amount_of (respond threshold c value).0 ≡ amount_of c
unfolding respond
respond-amount threshold (starting amount) value = refl
respond-amount threshold (counted amount seen) value = ground arith
respond-amount threshold (finished amount b) value = refl

turn-weight :
    (threshold i : ℕ) (callers : List Caller) (value : ℕ)
    → (value < threshold) ⊎ (0 < weight threshold callers)
    → ((turn threshold i callers value).1 < threshold)
      ⊎ (0 < weight threshold (turn threshold i callers value).0)
unfolding turn
turn-weight threshold i [] value h = h
turn-weight threshold zero (c ∷ callers) value h = ground (arith, respond-weight threshold c value)
turn-weight threshold (suc i) (c ∷ callers) value h =
    ground (arith, turn-weight threshold i callers value)

turn-amounts :
    (threshold i : ℕ) (callers : List Caller) (value : ℕ)
    → amounts_of (turn threshold i callers value).0 ≡ amounts_of callers
unfolding turn
turn-amounts threshold i [] value = refl
turn-amounts threshold zero (c ∷ callers) value = omega (arith, respond-amount threshold c value)
turn-amounts threshold (suc i) (c ∷ callers) value =
    omega (arith, turn-amounts threshold i callers value)

run-weight :
    (threshold : ℕ) (turns : List ℕ) (callers : List Caller) (value : ℕ)
    → (value < threshold) ⊎ (0 < weight threshold callers)
    → ((run threshold turns callers value).1 < threshold)
      ⊎ (0 < weight threshold (run threshold turns callers value).0)
unfolding run
run-weight threshold [] callers value h = h
run-weight threshold (i ∷ turns) callers value h =
    run-weight threshold turns (turn threshold i callers value).0 (turn threshold i callers value).1
      (turn-weight threshold i callers value h)

run-amounts :
    (threshold : ℕ) (turns : List ℕ) (callers : List Caller) (value : ℕ)
    → amounts_of (run threshold turns callers value).0 ≡ amounts_of callers
unfolding run
run-amounts threshold [] callers value = refl
run-amounts threshold (i ∷ turns) callers value =
    run-amounts threshold turns (turn threshold i callers value).0
      (turn threshold i callers value).1
    ∙ turn-amounts threshold i callers value

finished-weight :
    (threshold : ℕ) (callers : List Caller)
    → All IsFinished callers
    → (weight threshold callers ≡ fired callers) × (added callers ≡ amounts_of callers)
finished-weight threshold [] h = (refl, refl)
finished-weight threshold (starting a ∷ callers) h = absurd h.0
finished-weight threshold (counted a n ∷ callers) h = absurd h.0
finished-weight threshold (finished a true ∷ callers) h =
    let (p, q) = finished-weight threshold callers h.1 in (omega arith, omega arith)
finished-weight threshold (finished a false ∷ callers) h =
    let (p, q) = finished-weight threshold callers h.1 in (omega arith, omega arith)

fresh-counts :
    (amounts : List ℕ)
    → (fired (fresh amounts) ≡ 0)
      × (added (fresh amounts) ≡ 0)
      × (amounts_of (fresh amounts) ≡ total amounts)
fresh-counts [] = (refl, refl, refl)
fresh-counts (a ∷ amounts) =
    let (p, q, r) = fresh-counts amounts in (omega arith, omega arith, omega arith)

module _ (threshold value : ℕ) (amounts turns : List ℕ) where
  abbrev end : List Caller × ℕ
  end = run threshold turns (fresh amounts) value

  -- When each caller has its answer, the value left and the threshold times the callers that were
  -- told that it was met are the first value and all amounts.
  finished_balance : All IsFinished end.0 → end.1 + fired end.0 * threshold ≡ value + total amounts
  finished_balance done =
      let (a, b, c) = fresh-counts amounts in
      let (d, e) = finished-weight threshold end.0 done in
      let f = run-amounts threshold turns (fresh amounts) value in
      grind (arith, run-conserves threshold turns (fresh amounts) value)

  -- Callers add amounts to an accumulator below its threshold, in any order of their requests: when
  -- each has its answer and the amounts have reached the threshold, at least one was told so.
  pub threshold_is_told :
      value < threshold
      → All IsFinished (run threshold turns (fresh amounts) value).0
      → threshold ≤ value + total amounts
      → 0 < fired (run threshold turns (fresh amounts) value).0
  threshold_is_told below done reached =
      met (run-weight threshold turns (fresh amounts) value (inl below))
        (finished-weight threshold end.0 done).0 (finished_balance done)
    where
      met :
          (end.1 < threshold) ⊎ (0 < weight threshold end.0)
          → weight threshold end.0 ≡ fired end.0
          → end.1 + fired end.0 * threshold ≡ value + total amounts
          → 0 < fired end.0
      met (inr h) d balance = omega arith
      met (inl h) d balance = grind arith
