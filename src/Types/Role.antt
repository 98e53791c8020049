-- ===== src/Types/Role.antt =====
-- crates/types/src/account_role.rs: the two sides of a transaction item.
use mxfactorial.Prelude.{
  String, Bool, true, false, List, [], ◌∷◌, Option, none, some, ◌≡◌, refl, ◌↔◌, arith, Eq, ◌==◌,
  string_eq, Outcome, ok, err, panic, if◌then◌else◌,
}

pub data AccountRole : Type 0 where
  debitor creditor : AccountRole

abbrev pub role_beq : AccountRole → AccountRole → Bool
role_beq debitor debitor = true
role_beq debitor creditor = false
role_beq creditor debitor = false
role_beq creditor creditor = true

pub role_beq_iff : (a b : AccountRole) → (role_beq a b ≡ true) ↔ (a ≡ b)
role_beq_iff debitor debitor = ground arith
role_beq_iff debitor creditor = ground arith
role_beq_iff creditor debitor = ground arith
role_beq_iff creditor creditor = ground arith

instance abbrev pub role_eq : Eq AccountRole
role_eq = record { beq = role_beq; beq_iff = role_beq_iff }

-- `Display`, in lower case.
abbrev pub to_string : AccountRole → String
to_string debitor = "debitor"
to_string creditor = "creditor"

-- `EnumString`, in lower case.
abbrev pub parse : String → Option AccountRole
parse s = if s == "debitor" then some debitor else if s == "creditor" then some creditor else none

-- The text that `to_sql` writes.
abbrev pub to_sql : AccountRole → String
to_sql debitor = "debitor"
to_sql creditor = "creditor"

pub data SqlError : Type 0 where
  neither_debitor_or_creditor : SqlError

-- The value that `from_sql` reads from a TEXT column.
abbrev pub from_sql : String → Outcome SqlError AccountRole
from_sql s =
    if s == "debitor"
    then ok debitor
    else if s == "creditor"
    then ok creditor
    else err neither_debitor_or_creditor

-- `From<String>` panics on any other text.
abbrev pub from_string {ℓ} : {E : Type ℓ} → String → Outcome E AccountRole
from_string s =
    if s == "debitor" then ok debitor else if s == "creditor" then ok creditor else panic

-- `[AccountRole; 2]`
abbrev pub RoleSequence : Type 0
RoleSequence = AccountRole × AccountRole

abbrev pub debitor_first : RoleSequence
debitor_first = (debitor, creditor)

abbrev pub creditor_first : RoleSequence
creditor_first = (creditor, debitor)

-- The iteration over the array.
abbrev pub roles : RoleSequence → List AccountRole
roles (a, b) = a ∷ b ∷ []

-- What is stored or printed is read back as the same role, by each of the three readers.
pub role_roundtrip :
    (r : AccountRole)
    → (from_sql (to_sql r) ≡ ok r)
      × (parse (to_string r) ≡ some r)
      × (from_string {E = SqlError} (to_string r) ≡ ok r)
role_roundtrip debitor = (refl, refl, refl)
role_roundtrip creditor = (refl, refl, refl)
