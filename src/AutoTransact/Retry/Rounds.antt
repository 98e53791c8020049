-- ===== src/AutoTransact/Retry/Rounds.antt =====
-- `retry_post` (services/auto-transact/src/lib.rs): it ends, and how many posts it makes.
use mxfactorial.Prelude.{
  ℕ, zero, suc, ◌+◌, ◌-◌, ◌<◌, ◌≤◌, String, true, false, Option, some, Outcome, ok, err, panic, ◌≡◌,
  ◌≢◌, Bool-cases, inl, inr, refl, ltb, arith, ◌⊎◌, ap, ◌∙◌,
}
use mxfactorial.Effect.{Action}
use mxfactorial.AutoTransact.Retry.{RetryConfig, retry_loop, retry_post, Fails, none_yet, one_more}

module _ {W E : Type 0} (max_retries : ℕ) (post : Action W E String) where
  round_fails :
      (fuel attempt : ℕ) (w v : W) (e : E)
      → post w ≡ (err e, v)
      → attempt + 1 < max_retries
      → retry_loop max_retries post (suc fuel) attempt w
        ≡ retry_loop max_retries post fuel (attempt + 1) v
  unfolding retry_loop
  round_fails fuel attempt w v e p h =
      let b : ltb (attempt + 1) max_retries ≡ true = ground arith in rw (p, b) refl

  -- Failed posts that leave retries are passed over.
  retry_loop-Fails :
      {n : ℕ} {w v : W} (fuel attempt : ℕ)
      → Fails post n w v
      → (n ≡ 0) ⊎ (attempt + n < max_retries)
      → retry_loop max_retries post (n + fuel) attempt w
        ≡ retry_loop max_retries post fuel (attempt + n) v
  retry_loop-Fails fuel attempt (none_yet w) h = ground arith
  retry_loop-Fails fuel attempt (one_more {n} {w} {v} {u} e p f) h =
      let k : suc n + fuel ≡ suc (n + fuel) = omega arith in
      ap (λ i. retry_loop max_retries post i attempt w) k
      ∙ round_fails (n + fuel) attempt w v e p (ground (arith, h))
      ∙ retry_loop-Fails fuel (attempt + 1) f (ground (arith, h))
      ∙ ap (λ a. retry_loop max_retries post fuel a u) (omega arith)

  round_succeeds :
      (fuel attempt : ℕ) (w v : W) (text : String)
      → post w ≡ (ok text, v)
      → retry_loop max_retries post (suc fuel) attempt w ≡ some (ok text, v)
  unfolding retry_loop
  round_succeeds fuel attempt w v text p = rw p refl

  round_gives_up :
      (fuel attempt : ℕ) (w v : W) (e : E)
      → post w ≡ (err e, v)
      → max_retries ≤ attempt + 1
      → retry_loop max_retries post (suc fuel) attempt w ≡ some (err e, v)
  unfolding retry_loop
  round_gives_up fuel attempt w v e p h =
      let b : ltb (attempt + 1) max_retries ≡ false = ground arith in rw (p, b) refl

  -- The loop ends in a post whose result is the answer, behind posts that failed.
  abbrev Ended : ℕ → W → Option (Outcome E String × W) → Type 0
  Ended attempt w answer =
      (n : ℕ) × (v : W) × (u : W) × (r : Outcome E String) × Fails post n w v
      × (post v ≡ (r, u))
      × (answer ≡ some (r, u))
      × (attempt + n ≤ max_retries - 1)
      × (((e : E) → r ≢ err e) ⊎ (attempt + n ≡ max_retries - 1))

  round_panics :
      (fuel attempt : ℕ) (w v : W)
      → post w ≡ (panic, v)
      → retry_loop max_retries post (suc fuel) attempt w ≡ some (panic, v)
  unfolding retry_loop
  round_panics fuel attempt w v p = rw p refl

  -- A round ends the loop, or the loop behind it ends.
  round_Ended :
      (fuel attempt : ℕ) (w v : W) (r : Outcome E String)
      → post w ≡ (r, v)
      → attempt ≤ max_retries - 1
      → (attempt + 1 < max_retries
          → Ended (attempt + 1) v (retry_loop max_retries post fuel (attempt + 1) v))
      → Ended attempt w (retry_loop max_retries post (suc fuel) attempt w)
  round_Ended fuel attempt w v (ok text) p h rest = (
    0,
    w,
    v,
    ok text,
    none_yet w,
    p,
    round_succeeds fuel attempt w v text p,
    omega (arith, h),
    inl (λ e q. cc),
  )
  round_Ended fuel attempt w v panic p h rest = (
    0,
    w,
    v,
    panic,
    none_yet w,
    p,
    round_panics fuel attempt w v p,
    omega (arith, h),
    inl (λ e q. cc),
  )
  round_Ended fuel attempt w v (err e) p h rest =
      elim (Bool-cases (ltb (attempt + 1) max_retries)) [
        | inl left ↦
            let more : attempt + 1 < max_retries = ground (arith, left) in
            let (n, x, u, r, f, q, again, low, last) = rest more in
            (
              suc n,
              x,
              u,
              r,
              one_more e p f,
              q,
              round_fails fuel attempt w v e p more ∙ again,
              omega (arith, low),
              at_last n r last,
            )
        | inr none_left ↦ (
          0,
          w,
          v,
          err e,
          none_yet w,
          p,
          round_gives_up fuel attempt w v e p (ground (arith, none_left)),
          omega (arith, h),
          inr (ground (arith, h, none_left)),
        )
      ]
    where
      at_last :
          (n : ℕ) (r : Outcome E String)
          → ((e : E) → r ≢ err e) ⊎ (attempt + 1 + n ≡ max_retries - 1)
          → ((e : E) → r ≢ err e) ⊎ (attempt + suc n ≡ max_retries - 1)
      at_last n r (inl good) = inl good
      at_last n r (inr k) = inr (omega (arith, k))

  retry_loop-Ended :
      (fuel attempt : ℕ) (w : W)
      → attempt ≤ max_retries - 1
      → max_retries ≤ attempt + fuel
      → 1 ≤ fuel
      → Ended attempt w (retry_loop max_retries post fuel attempt w)
  retry_loop-Ended zero attempt w h k l = absurd (omega (arith, l))
  retry_loop-Ended (suc fuel) attempt w h k l =
      round_Ended fuel attempt w (post w).1 (post w).0 refl h λ more.
        retry_loop-Ended fuel (attempt + 1) (post w).1 (omega (arith, more)) (omega (arith, k))
          (omega (arith, more, k))

counted : {A : Type 0} {k : ℕ} (n : ℕ) → A ⊎ (0 + n ≡ k) → A ⊎ (n ≡ k)
counted n (inl a) = inl a
counted n (inr h) = inr (omega (arith, h))

module _ {W E : Type 0} (config : RetryConfig) (post : Action W E String) where
  -- Whatever the posts return, the loop ends: some posts fail, and the answer is that of the post
  -- after them, the last. There are never more posts than `max_retries`, or one if that is zero, and
  -- an error is the answer only when there were as many.
  pub retry_post-rounds :
      (w : W)
      → (n : ℕ) × (v : W) × (u : W) × (r : Outcome E String) × Fails post n w v
        × (post v ≡ (r, u))
        × (retry_post config post w ≡ some (r, u))
        × (n ≤ config.max_retries - 1)
        × (((e : E) → r ≢ err e) ⊎ (n ≡ config.max_retries - 1))
  unfolding retry_post
  retry_post-rounds w =
      let (n, v, u, r, f, q, answer, low, last) =
        retry_loop-Ended config.max_retries post (config.max_retries + 1) 0 w (omega arith)
          (omega arith) (omega arith) in
      (n, v, u, r, f, q, answer, omega (arith, low), counted n last)

  -- After `n` failed posts, `n` less than `max_retries` or none, a post that succeeds is the answer,
  -- and its world is the last: no post follows it.
  pub retry_post-success :
      (n : ℕ) (w v u : W) (text : String)
      → Fails post n w v
      → (n ≡ 0) ⊎ (n < config.max_retries)
      → post v ≡ (ok text, u)
      → retry_post config post w ≡ some (ok text, u)
  unfolding retry_post
  retry_post-success n w v u text f h p =
      let k : config.max_retries + 1 ≡ n + suc (config.max_retries - n) = ground (arith, h) in
      ap (λ i. retry_loop config.max_retries post i 0 w) k
      ∙ retry_loop-Fails config.max_retries post (suc (config.max_retries - n)) 0 f
          (ground (arith, h))
      ∙ round_succeeds config.max_retries post (config.max_retries - n) (0 + n) v u text p

  -- `max_retries` posts that all fail, or one post if there are to be no retries, are all that is
  -- tried: the last error is the answer.
  pub retry_post-gives_up :
      (n : ℕ) (w v u : W) (e : E)
      → Fails post n w v
      → post v ≡ (err e, u)
      → n ≡ config.max_retries - 1
      → retry_post config post w ≡ some (err e, u)
  unfolding retry_post
  retry_post-gives_up n w v u e f p h =
      let k : config.max_retries + 1 ≡ n + suc (config.max_retries - n) = ground (arith, h) in
      let b : (n ≡ 0) ⊎ (n < config.max_retries) = ground (arith, h) in
      ap (λ i. retry_loop config.max_retries post i 0 w) k
      ∙ retry_loop-Fails config.max_retries post (suc (config.max_retries - n)) 0 f
          (ground (arith, b))
      ∙ round_gives_up config.max_retries post (config.max_retries - n) (0 + n) v u e p
          (ground (arith, h))
