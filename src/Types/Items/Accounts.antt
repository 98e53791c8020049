-- ===== src/Types/Items/Accounts.antt =====
-- `list_accounts` and `list_unique_debitors` (crates/types/src/transaction_item.rs): every account
-- of the items, once.
use mxfactorial.Prelude.{
  String, Bool, false, ◌||◌, List, [], ◌∷◌, ◌++◌, ◌≡◌, refl, sym, ◌∙◌, ap, ◌==◌, string_eq,
  contains, arith, Bool-cases, inl, inr, eq_of_beq,
}
use text.Mathlib.TextEquality.{eq_iff}
use mxfactorial.Types.Items.{
  TransactionItems, push_new, list_accounts_from, list_accounts, list_unique_debitors_from,
  list_unique_debitors,
}

-- No account stands twice.
abbrev pub Distinct : List String → Type 0
Distinct [] = Unit
Distinct (x ∷ xs) = (contains xs x ≡ false) × Distinct xs

contains-append :
    (l : List String) (a x : String) → contains (l ++ a ∷ []) x ≡ (contains l x || (a == x))
contains-append [] a x = ground arith
contains-append (y ∷ l) a x = ground (arith, contains-append l a x)

contains-push_new :
    (l : List String) (a x : String) → contains (push_new a l) x ≡ (contains l x || (a == x))
contains-push_new l a x = elim (Bool-cases (contains l a)) [
  | inl there ↦ elim (Bool-cases (a == x)) [
    | inl same ↦
        rw (there, same) (ap (contains l) (sym (eq_of_beq a x same)) ∙ there ∙ ground arith)
    | inr other ↦ rw (there, other) (ground arith)
  ]
  | inr new ↦ rw new (contains-append l a x)
]

Distinct-append :
    (l : List String) (a : String) → Distinct l → contains l a ≡ false → Distinct (l ++ a ∷ [])
Distinct-append [] a d h = (refl, tt)
Distinct-append (x ∷ l) a d h = elim (Bool-cases (x == a)) [
  | inl same ↦ absurd (ground (arith, rw same at h))
  | inr other ↦ (
    contains-append l a x ∙ ground (arith, d.0, eq_iff x a, eq_iff a x),
    Distinct-append l a d.1 (rw other at h),
  )
]

Distinct-push_new : (l : List String) (a : String) → Distinct l → Distinct (push_new a l)
Distinct-push_new l a d = elim (Bool-cases (contains l a)) [
  | inl there ↦ rw there d
  | inr new ↦ rw new (Distinct-append l a d new)
]

module _ {Time : Type 0} where
  -- Whether an item names the account.
  abbrev pub mentions : String → TransactionItems Time → Bool
  mentions x [] = false
  mentions x (ti ∷ rest) = (ti.creditor == x) || ((ti.debitor == x) || mentions x rest)

  abbrev pub owes : String → TransactionItems Time → Bool
  owes x [] = false
  owes x (ti ∷ rest) = (ti.debitor == x) || owes x rest

  contains-list_accounts_from :
      (l : List String) (items : TransactionItems Time) (x : String)
      → contains (list_accounts_from l items) x ≡ (contains l x || mentions x items)
  unfolding list_accounts_from
  contains-list_accounts_from l [] x = ground arith
  contains-list_accounts_from l (ti ∷ rest) x = ground (
    arith,
    contains-list_accounts_from (push_new ti.debitor (push_new ti.creditor l)) rest x,
    contains-push_new (push_new ti.creditor l) ti.debitor x,
    contains-push_new l ti.creditor x,
  )

  contains-list_unique_debitors_from :
      (l : List String) (items : TransactionItems Time) (x : String)
      → contains (list_unique_debitors_from l items) x ≡ (contains l x || owes x items)
  unfolding list_unique_debitors_from
  contains-list_unique_debitors_from l [] x = ground arith
  contains-list_unique_debitors_from l (ti ∷ rest) x = ground (
    arith,
    contains-list_unique_debitors_from (push_new ti.debitor l) rest x,
    contains-push_new l ti.debitor x,
  )

  list_accounts_from-Distinct :
      (l : List String) (items : TransactionItems Time)
      → Distinct l
      → Distinct (list_accounts_from l items)
  unfolding list_accounts_from
  list_accounts_from-Distinct l [] d = d
  list_accounts_from-Distinct l (ti ∷ rest) d =
      list_accounts_from-Distinct (push_new ti.debitor (push_new ti.creditor l)) rest
        (Distinct-push_new (push_new ti.creditor l) ti.debitor (Distinct-push_new l ti.creditor d))

  list_unique_debitors_from-Distinct :
      (l : List String) (items : TransactionItems Time)
      → Distinct l
      → Distinct (list_unique_debitors_from l items)
  unfolding list_unique_debitors_from
  list_unique_debitors_from-Distinct l [] d = d
  list_unique_debitors_from-Distinct l (ti ∷ rest) d =
      list_unique_debitors_from-Distinct (push_new ti.debitor l) rest
        (Distinct-push_new l ti.debitor d)

  -- The list names exactly the creditors and debitors of the items, each once.
  pub list_accounts-exact :
      (items : TransactionItems Time)
      → Distinct (list_accounts items)
        × ((x : String) → contains (list_accounts items) x ≡ mentions x items)
  unfolding list_accounts
  list_accounts-exact items =
      (list_accounts_from-Distinct [] items tt, contains-list_accounts_from [] items)

  -- The list names exactly the debitors of the items, each once.
  pub list_unique_debitors-exact :
      (items : TransactionItems Time)
      → Distinct (list_unique_debitors items)
        × ((x : String) → contains (list_unique_debitors items) x ≡ owes x items)
  unfolding list_unique_debitors
  list_unique_debitors-exact items =
      (list_unique_debitors_from-Distinct [] items tt, contains-list_unique_debitors_from [] items)
