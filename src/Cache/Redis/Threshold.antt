-- ===== src/Cache/Redis/Threshold.antt =====
-- The accumulator of a threshold rule in Redis (crates/cache/src/redis.rs): the answer of the script
-- comes back as one text, a value and a flag.
use mxfactorial.Prelude.{
  String, Bool, true, false, [], ◌∷◌, some, Outcome, ok, string_eq, ◌≡◌, refl, ap, ◌∙◌,
  if◌then◌else◌, Bool-cases, inl, inr,
}
use mxfactorial.Prelude.Text.{format}
use Prim.Native.String.append
use Prim.Native.String.{◌++◌ as text_append}
use mxfactorial.Effect.{pure, ◌>>=◌}
use mxfactorial.Service.Cache.{CacheError}
use mxfactorial.Cache.Redis.{
  Doubles, RedisCommands, rsplit_once, read_flag, threshold_script, incr_and_check_threshold,
  command,
}

-- Whatever the value is, the last colon is the one in front of the flag.
rsplit_once-flag :
    (value : String) (flag : Bool)
    → rsplit_once (text_append value (if flag then ":1" else ":0"))
      ≡ some (value, if flag then "1" else "0")
unfolding rsplit_once
rsplit_once-flag String.[] true = ap rsplit_once (append.nil ":1")
rsplit_once-flag String.[] false = ap rsplit_once (append.nil ":0")
rsplit_once-flag (String.◌∷◌ c value) flag =
    ap rsplit_once (append.cons c value (if flag then ":1" else ":0"))
    ∙ rw (rsplit_once-flag value flag) refl

read_flag-format :
    (value : String) (flag : Bool)
    → read_flag (format (value ∷ (if flag then ":1" else ":0") ∷ [])) ≡ (value, flag)
unfolding read_flag
read_flag-format value true = rw (rsplit_once-flag value true, read_flag) refl
read_flag-format value false = rw (rsplit_once-flag value false, read_flag) refl

module _ {W F : Type 0} (redis : RedisCommands W F) (doubles : Doubles F) where
  threshold_script-below :
      (key amount threshold new : String) (value bound : F) (w w1 : W)
      → redis.call_incr key amount w ≡ (ok new, w1)
      → doubles.parse threshold ≡ some bound
      → doubles.parse new ≡ some value
      → doubles.less value bound ≡ true
      → threshold_script redis doubles key amount threshold w ≡ (ok (format (new ∷ ":0" ∷ [])), w1)
  unfolding threshold_script
  threshold_script-below key amount threshold new value bound w w1 a b c e = rw (a, b, c, e) refl

  threshold_script-reached :
      (key amount threshold new left : String) (value bound : F) (w w1 w2 : W)
      → redis.call_incr key amount w ≡ (ok new, w1)
      → doubles.parse threshold ≡ some bound
      → doubles.parse new ≡ some value
      → doubles.less value bound ≡ false
      → redis.call_incr key (doubles.to_string (doubles.negate bound)) w1 ≡ (ok left, w2)
      → threshold_script redis doubles key amount threshold w ≡ (ok (format (new ∷ ":1" ∷ [])), w2)
  unfolding threshold_script
  threshold_script-reached key amount threshold new left value bound w w1 w2 a b c e d =
      rw (a, b, c, e, d) refl

  -- What the client makes of the answer of the script.
  abbrev answered : W → Outcome String String × W → Outcome CacheError (String × Bool) × W
  answered w r = (command redis (λ _. r) >>= λ result. pure (read_flag result)) w

  answered-flag :
      (value : String) (flag : Bool) (w v : W)
      → answered w (ok (format (value ∷ (if flag then ":1" else ":0") ∷ [])), v)
        ≡ (ok (value, flag), v)
  answered-flag value flag w v = ap (λ r. (ok r, v)) (read_flag-format value flag)

  -- Below the threshold the answer is the new value and that the threshold was not met, and nothing
  -- is taken; from it on the threshold is taken once, and the answer is the new value, as it was
  -- before that, and that the threshold was met. Both increments answer, and the threshold and the
  -- new value are numbers.
  pub incr_and_check_threshold-answers :
      (key amount threshold new left : String) (value bound : F) (w w1 w2 : W)
      → redis.call_incr key amount w ≡ (ok new, w1)
      → doubles.parse threshold ≡ some bound
      → doubles.parse new ≡ some value
      → redis.call_incr key (doubles.to_string (doubles.negate bound)) w1 ≡ (ok left, w2)
      → incr_and_check_threshold redis doubles key amount threshold w
        ≡ (if doubles.less value bound then (ok (new, false), w1) else (ok (new, true), w2))
  unfolding incr_and_check_threshold
  incr_and_check_threshold-answers key amount threshold new left value bound w w1 w2 a b c d =
      elim (Bool-cases (doubles.less value bound)) [
        | inl below ↦ rw below (
            ap (answered w)
              (threshold_script-below key amount threshold new value bound w w1 a b c below)
            ∙ answered-flag new false w w1)
        | inr reached ↦ rw reached (
            ap (answered w) (
              threshold_script-reached key amount threshold new left value bound w w1 w2 a b c
                reached d)
            ∙ answered-flag new true w w2)
      ]
