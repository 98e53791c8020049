-- ===== src/AutoTransact/Retry.antt =====
-- services/auto-transact/src/lib.rs: `retry_post`. A sleep changes nothing that the loop reads.
pub mod Rounds
use mxfactorial.Prelude.{
  ℕ, zero, suc, ◌+◌, ◌-◌, ◌<◌, ◌≤◌, String, Option, none, some, Outcome, ok, err, panic, ◌≡◌, refl,
  ltb, if◌then◌else◌, arith,
}
use mxfactorial.Effect.{Action}

pub record RetryConfig : Type 0 where
  pub max_retries : ℕ
  pub delay : ℕ
  pub service_name : String

module _ {W E : Type 0} (max_retries : ℕ) where
  -- What a round makes of its post; `again` is the rest of the loop.
  abbrev pub after_post :
      ℕ → Outcome E String → W → Option (Outcome E String × W) → Option (Outcome E String × W)
  after_post attempt (ok response) w' again = some (ok response, w')
  after_post attempt (err e) w' again =
      if ltb (attempt + 1) max_retries then again else some (err e, w')
  after_post attempt panic w' again = some (panic, w')

  -- The loop on fuel; `attempt` counts the posts made before the round.
  pub retry_loop : Action W E String → ℕ → ℕ → W → Option (Outcome E String × W)
  retry_loop post zero attempt w = none
  retry_loop post (suc fuel) attempt w =
      after_post attempt (post w).0 (post w).1 (retry_loop post fuel (attempt + 1) (post w).1)

module _ {W E : Type 0} where
  unfoldable pub retry_post : RetryConfig → Action W E String → W → Option (Outcome E String × W)
  unfolding retry_loop
  retry_post config post w = retry_loop config.max_retries post (config.max_retries + 1) 0 w

  -- `n` posts in a row that fail, from one world to another.
  pub data Fails (post : Action W E String) : ℕ → W → W → Type 0 where
    none_yet : (w : W) → Fails post zero w w
    one_more :
        {n : ℕ} {w v u : W} (e : E)
        → post w ≡ (err e, v)
        → Fails post n v u
        → Fails post (suc n) w u
