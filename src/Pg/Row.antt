-- ===== src/Pg/Row.antt =====
-- The rows that the database returns, and the conversions of rows to records (`From<Row>` in
-- crates/types/src). `row.get(i)` panics on a missing cell and on one of another type.
pub mod Accounts
pub mod Rules
pub mod Transactions
pub mod Selected
pub mod ReadBack
use mxfactorial.Prelude.{
  String, ℕ, Bool, List, [], Option, none, some, Outcome, ok, err, panic, ◌>>=◌, get_elem?, unwrap,
  ℤ, map_outcome,
}
use mxfactorial.Types.Role.{AccountRole, from_sql}
use mxfactorial.Types.Approval.{Approval}
use mxfactorial.Types.Account.{AccountProfile}
use mxfactorial.Types.Balance.{AccountBalance}
use mxfactorial.Types.Rule.{
  TransactionRuleInstance, TransactionItemRuleInstance, ApprovalRuleInstance,
}
use mxfactorial.Types.Item.{TransactionItem}
use mxfactorial.Types.Transaction.{Transaction}
use mxfactorial.Pg.Value.{Value, null, text, int, bool, numeric, timestamp, texts, point}

-- The cells of a row.
abbrev pub Row : Type 0 → Type 0
Row V = List V

-- `FromSql`: what a cell holds, read as a Rust type.
abbrev pub Reader : Type 0 → Type 0 → Type 0
Reader V A = V → Option A

abbrev role_of : Option String → Option AccountRole
role_of none = none
role_of (some s) = elim (from_sql s) [ ok r ↦ some r | err _ ↦ none | panic ↦ none ]

abbrev present : {A : Type 0} → Option A → Option (Option A)
present none = none
present (some a) = some (some a)

-- `row.get(i)`
abbrev pub get {ℓ} : {V : Type 0} {E : Type ℓ} {A : Type 0} → Reader V A → ℕ → Row V → Outcome E A
get reader i row = do v ← unwrap (get_elem? row i); unwrap (reader v)

module _ {Time D F : Type 0} where
  abbrev pub as_text : Reader (Value Time D F) String
  as_text (text s) = some s
  as_text _ = none

  abbrev pub as_int : Reader (Value Time D F) ℤ
  as_int (int z) = some z
  as_int _ = none

  abbrev pub as_bool : Reader (Value Time D F) Bool
  as_bool (bool b) = some b
  as_bool _ = none

  abbrev pub as_numeric : Reader (Value Time D F) D
  as_numeric (numeric d) = some d
  as_numeric _ = none

  abbrev pub as_time : Reader (Value Time D F) Time
  as_time (timestamp t) = some t
  as_time _ = none

  abbrev pub as_texts : Reader (Value Time D F) (List String)
  as_texts (texts l) = some l
  as_texts _ = none

  abbrev pub as_role : Reader (Value Time D F) AccountRole
  as_role v = role_of (as_text v)

  -- `Option<T>`: a null is read as an absent value.
  abbrev pub optionally :
      {A : Type 0} → Reader (Value Time D F) A → Reader (Value Time D F) (Option A)
  optionally reader null = some none
  optionally reader v = present (reader v)
