-- ===== src/Cache/Key.antt =====
-- crates/cache/src/lib.rs: the keys of the cache's entries.
pub mod Recognize
pub mod Distinct
use mxfactorial.Prelude.{String, List, [], ◌∷◌}
use mxfactorial.Prelude.Text.{join}
use mxfactorial.Types.Role.{AccountRole, to_string}

-- The segments that the environment may set.
pub record Segments : Type 0 where
  pub rules : String
  pub state : String
  pub account : String
  pub approval : String
  pub profile : String
  pub profile_id : String
  pub approvers : String

-- The segments where the environment sets none.
abbrev pub default_segments : Segments
default_segments = record {
  rules = "rules";
  state = "state";
  account = "account";
  approval = "approval";
  profile = "profile";
  profile_id = "profile_id";
  approvers = "approvers";
}

pub data CacheKey : Type 0 where
  rules_state : AccountRole → String → CacheKey
  rules_account : AccountRole → String → CacheKey
  rules_approval : AccountRole → String → CacheKey
  profile : String → CacheKey
  profile_id : String → CacheKey
  approvers : String → CacheKey
  threshold_profit : String → CacheKey
  accumulator : String → CacheKey

-- `Display`. The text of a role is in lower case as it stands.
unfoldable pub display : Segments → CacheKey → String
display seg (rules_state role state) =
    join ":" (seg.rules ∷ seg.state ∷ to_string role ∷ state ∷ [])
display seg (rules_account role account) =
    join ":" (seg.rules ∷ seg.account ∷ to_string role ∷ account ∷ [])
display seg (rules_approval role account) =
    join ":" (seg.rules ∷ seg.approval ∷ to_string role ∷ account ∷ [])
display seg (profile account) = join ":" (seg.profile ∷ account ∷ [])
display seg (profile_id account) = join ":" (seg.profile_id ∷ account ∷ [])
display seg (approvers account) = join ":" (seg.approvers ∷ account ∷ [])
display seg (threshold_profit account) =
    join ":" ("transaction_rule_instance" ∷ "threshold" ∷ "profit" ∷ account ∷ [])
display seg (accumulator id) = join ":" ("transaction_rule_instance" ∷ id ∷ "accumulator" ∷ [])
