-- ===== src/Tests/Work.antt =====
-- Examples of the theorems on auto-transact.
use mxfactorial.Prelude.{
  ℕ, suc, ◌-◌, ◌≤◌, String, [], ◌∷◌, Option, none, some, Outcome, ok, err, ◌≡◌, ◌≢◌, ◌⊎◌, ◌↔◌, refl,
}
use mxfactorial.Effect.{Action}
use mxfactorial.Types.Transaction.{Transaction}
use mxfactorial.Types.Messages.{IntraTransaction}
use mxfactorial.AutoTransact.Retry.{RetryConfig, retry_post, Fails}
use mxfactorial.AutoTransact.Retry.Rounds.{retry_post-rounds}
use mxfactorial.AutoTransact.Worker.{ok_status, handle_records, process_transaction}
use mxfactorial.AutoTransact.Worker.Failure.{Processed, handle_records-ok_iff}
use mxfactorial.Tests.{request}

abbrev config : RetryConfig
config = record { max_retries = 2; delay = 1; service_name = "request-create" }

abbrev never : Action ℕ (Unit {0}) String
never n = (err tt, suc n)

retry_post-rounds_example :
    (n : ℕ) × (v : ℕ) × (u : ℕ) × (r : Outcome (Unit {0}) String) × Fails never n 0 v
    × (never v ≡ (r, u))
    × (retry_post config never 0 ≡ some (r, u))
    × (n ≤ config.max_retries - 1)
    × (((e : Unit {0}) → r ≢ err e) ⊎ (n ≡ config.max_retries - 1))
retry_post-rounds_example = retry_post-rounds config never 0

-- The rule service answers with the transaction it was given.
abbrev rules : Transaction ℕ → Action ℕ (Unit {0}) (IntraTransaction ℕ)
rules t w = (ok (record { auth_account = none; transaction = t }), suc w)

abbrev create : IntraTransaction ℕ → Action ℕ (Unit {0}) String
create t w = (ok "1", suc w)

abbrev read : String → Option (Transaction ℕ)
read text = some request

-- A record without a body, and one whose transaction goes through two posts.
handle_records-ok_iff_example :
    (handle_records config rules create read (none ∷ some "{}" ∷ []) 0 ≡ (ok ok_status, 2))
    ↔ Processed config rules create read (none ∷ some "{}" ∷ []) 0 2
handle_records-ok_iff_example =
    handle_records-ok_iff config rules create read (none ∷ some "{}" ∷ []) 0 2

-- The batch is answered with success.
handle_records_both :
    handle_records config rules create read (none ∷ some "{}" ∷ []) 0 ≡ (ok ok_status, 2)
unfolding handle_records process_transaction retry_post
handle_records_both = refl
