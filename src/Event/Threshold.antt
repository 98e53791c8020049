-- ===== src/Event/Threshold.antt =====
-- services/event/src/events/threshold_profit.rs: profits that reach a threshold start a transaction.
pub mod Rules
use mxfactorial.Prelude.{
  ℕ, String, Bool, List, [], ◌∷◌, Option, none, some, inl, inr, is_empty, unwrap, ◌>>=◌ as bind, ok,
  if◌then◌else◌, ok_or, map, ℤ,
}
use mxfactorial.Prelude.Numeral.{parse_i32}
use Prim.Native.String.{◌++◌ as text_append}
use mxfactorial.Effect.{Action, pure, lift, attempt, map_error, for_each, ◌>>=◌, ◌>>◌}
use mxfactorial.External.{DecimalOps}
use mxfactorial.Types.Role.{AccountRole, from_string}
use mxfactorial.Types.Transaction.{Transaction, from_rule_instance}
use mxfactorial.Service.Cache.{Cache}
use mxfactorial.Queue.{Queue}
use mxfactorial.Event.Gdp.{split_bar}

module _ {D : Type 0} (dec : DecimalOps D) where
  -- "id|threshold"; any other form is left out.
  unfoldable pub parse_rule : List String → Option (String × D)
  parse_rule (id ∷ threshold ∷ []) = elim (dec.parse threshold) [
    | none ↦ none
    | some t ↦ some (id, t)
  ]
  parse_rule parts = none

  unfoldable pub parse_rules : List String → List (String × D)
  unfolding parse_rule
  parse_rules [] = []
  parse_rules (member ∷ rest) = elim (parse_rule (split_bar member)) [
    | none ↦ parse_rules rest
    | some rule ↦ rule ∷ parse_rules rest
  ]

abbrev pub threshold_key : String → String
threshold_key account = text_append "transaction_rule_instance:threshold:profit:" account

abbrev pub accumulator_key : String → String
accumulator_key id = text_append "transaction_rule_instance:" (text_append id ":accumulator")

module _ {W Time D : Type 0} (dec : DecimalOps D) (zero : D) (cache : Cache W Time)
    (queue : Queue W) (contribution_of : ℤ → String → Action W String D)
    (author_of : ℤ → Action W String (Option (Option String × Option String)))
    (write_json : Transaction Time → String) where
  unfoldable pub get_threshold_rules : String → Action W String (List (String × D))
  get_threshold_rules account = do
    found ← attempt (cache.smembers (threshold_key account))
    pure (elim found [ inl members ↦ parse_rules dec members | inr _ ↦ [] ])

  -- The envelope of the rule's transaction is queued, if the rule is there.
  pub fire : String → Action W String (Unit {0})
  fire rule_instance_id = do
    id ← lift (ok_or (parse_i32 rule_instance_id) "invalid rule instance id")
    row ← author_of id
    elim row [
      | none ↦ pure tt
      | some p ↦ do
        role ←
            lift
              (elim p.1 [ none ↦ ok none | some text ↦ bind (from_string text) (λ r. ok (some r)) ])
        map_error (λ _. "queue")
            (queue.send (write_json (from_rule_instance rule_instance_id p.0 role)))
    ]

  pub apply_rule : D → String × D → Action W String (Unit {0})
  unfolding fire
  apply_rule contribution (id, threshold) = do
    result ←
        map_error (λ _. "cache")
          (cache.incr_and_check_threshold (accumulator_key id) (dec.to_string contribution)
            (dec.to_string threshold))
    if result.1 then fire id else pure tt

  -- An account without rules, or that gained nothing, is passed over.
  unfoldable pub apply_account : ℤ → String → Action W String (Unit {0})
  unfolding apply_rule
  apply_account tx_id account = do
    rules ← get_threshold_rules account
    let counted = do
      contribution ← contribution_of tx_id account
      if dec.ge zero contribution then pure tt else for_each (apply_rule contribution) rules
    if is_empty rules then pure tt else counted

  -- `accounts` is the query of the accounts, each once, in the order in which a `HashSet` is
  -- iterated.
  pub handle_threshold_profit :
      Action W String (Unit {0})
      → (ℤ → Action W String (List String))
      → String
      → Action W String (Unit {0})
  unfolding apply_account
  handle_threshold_profit connect accounts transaction_id = do
    connect
    tx_id ← lift (ok_or (parse_i32 transaction_id) "invalid transaction id")
    names ← accounts tx_id
    for_each (apply_account tx_id) names
