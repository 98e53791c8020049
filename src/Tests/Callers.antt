-- ===== src/Tests/Callers.antt =====
-- Examples of the theorems on the callers of the DynamoDB cache.
use mxfactorial.Prelude.{
  ℕ, zero, suc, ◌+◌, ◌-◌, ◌*◌, ◌<◌, String, true, List, [], ◌∷◌, none, some, ok, err, string_eq,
  ltb, if◌then◌else◌, ◌≡◌, refl, ap, arith,
}
use mxfactorial.Cache.Redis.{Doubles}
use mxfactorial.Cache.Dynamo.{DynamoRequests, condition_failed}
use mxfactorial.Cache.Dynamo as Ddb
use mxfactorial.Cache.Dynamo.Callers.{Caller, starting, finished, respond, turn, run, run-conserves}
use mxfactorial.Cache.Dynamo.Met.{threshold_is_told}
use mxfactorial.Cache.Dynamo.Alone.{CounterLaws, incr_and_check_threshold-alone}

abbrev two_callers : List Caller
two_callers = starting 3 ∷ starting 4 ∷ []

abbrev in_turn : List ℕ
in_turn = 0 ∷ 1 ∷ 0 ∷ 1 ∷ []

run-conserves_example : 2 + 1 * 5 + 0 ≡ 0 + 0 * 5 + 7
unfolding run turn respond
run-conserves_example = run-conserves 5 in_turn two_callers 0

threshold_is_told_example : 0 < 1
unfolding run turn respond
threshold_is_told_example =
    threshold_is_told 5 0 (3 ∷ 4 ∷ []) in_turn (omega arith) (tt, (tt, tt)) (omega arith)

-- Numbers as so many ones.
unfoldable ones : ℕ → String
ones zero = ""
ones (suc n) = String.◌∷◌ "1" (ones n)

unfoldable count : String → ℕ
count String.[] = 0
count (String.◌∷◌ c s) = suc (count s)

count-ones : (n : ℕ) → count (ones n) ≡ n
unfolding ones count
count-ones zero = refl
count-ones (suc n) = ap suc (count-ones n)

abbrev unary : Doubles ℕ
unary = record {
  parse = λ s. some (count s);
  zero = 0;
  add = λ a b. a + b;
  negate = λ a. a;
  less = ltb;
  to_string = ones;
}

abbrev table : DynamoRequests ℕ
table = record {
  get = λ _ _ w. (ok none, w);
  put = λ _ _ _ w. (ok tt, w);
  query = λ _ w. (ok [], w);
  add = λ _ text w. (ok (some (ones (w + count text))), w + count text);
  add_if_reached = λ _ _ bound w.
      if ltb w (count bound) then (err condition_failed, w) else (ok tt, w - count bound);
  delete = λ _ _ w. (ok tt, w);
}

abbrev counter_laws : CounterLaws unary table "key"
counter_laws = record {
  units = λ n. n;
  value = λ w. w;
  reads = λ n. ap some (count-ones n);
  compares = λ a b. refl;
  added = λ n w. w + n;
  added_value = λ n w. refl;
  adds = λ n w. ap (λ m. (ok (some (ones (w + m))), w + m)) (count-ones n);
  taken = λ n w. w - n;
  taken_value = λ n w. refl;
  takes =
      λ n w. ap (λ m. if ltb w m then (err condition_failed, w) else (ok tt, w - m)) (count-ones n);
}

-- Three are added to four, and the threshold is five.
incr_and_check_threshold-alone_example :
    (Ddb.incr_and_check_threshold table unary "key" (ones 3) (ones 5) 4 ≡ (ok (ones 7, true), 2))
    × (respond 5 (respond 5 (starting 3) 4).0 7 ≡ (finished 3 true, 2))
unfolding respond
incr_and_check_threshold-alone_example =
    incr_and_check_threshold-alone unary table "key" counter_laws 3 5 4
