-- ===== src/Types/Transaction/Build.antt =====
-- `Transaction::build` and `set_author_role` (crates/types/src/transaction.rs).
use mxfactorial.Prelude.{
  String, [], ◌∷◌, ◌++◌, none, some, ◌==◌, string_eq, ◌≡◌, refl, ◌⊎◌, inl, inr, All, Bool-cases,
  eq_of_beq, ne_of_beq,
}
use mxfactorial.Types.Role.{AccountRole, debitor, creditor}
use mxfactorial.Types.Item.{TransactionItem, get_account_by_role}
use mxfactorial.Types.Items.{TransactionItems}
use mxfactorial.Types.Transaction.{role_in_items}

module _ {Time : Type 0} where
  abbrev pub Names : String → TransactionItem Time → Type 0
  Names author ti = (ti.debitor ≡ author) ⊎ (ti.creditor ≡ author)

  -- The role that is found is one that the author has in the first item that names the author.
  pub role_in_items-first :
      (author : String) (before after : TransactionItems Time) (ti : TransactionItem Time)
      → All (λ x. ¬ (Names author x)) before
      → Names author ti
      → (role : AccountRole) × (role_in_items author (before ++ ti ∷ after) ≡ some role)
        × (get_account_by_role role ti ≡ author)
  unfolding role_in_items
  role_in_items-first author [] after ti h n = elim (Bool-cases (ti.debitor == author)) [
    | inl b ↦ (debitor, rw b refl, eq_of_beq ti.debitor author b)
    | inr b ↦ elim (Bool-cases (ti.creditor == author)) [
      | inl c ↦ (creditor, rw (b, c) refl, eq_of_beq ti.creditor author c)
      | inr c ↦ absurd (elim n [
        | inl p ↦ ne_of_beq ti.debitor author b p
        | inr p ↦ ne_of_beq ti.creditor author c p
      ])
    ]
  ]
  role_in_items-first author (x ∷ before) after ti (k, h) n =
      elim (Bool-cases (x.debitor == author)) [
        | inl b ↦ absurd (k (inl (eq_of_beq x.debitor author b)))
        | inr b ↦ elim (Bool-cases (x.creditor == author)) [
          | inl c ↦ absurd (k (inr (eq_of_beq x.creditor author c)))
          | inr c ↦ rw (b, c) (role_in_items-first author before after ti h n)
        ]
      ]

  -- An author that no item names has no role.
  pub role_in_items-none :
      (author : String) (items : TransactionItems Time)
      → All (λ x. ¬ (Names author x)) items
      → role_in_items author items ≡ none
  unfolding role_in_items
  role_in_items-none author [] h = refl
  role_in_items-none author (x ∷ rest) (k, h) = elim (Bool-cases (x.debitor == author)) [
    | inl b ↦ absurd (k (inl (eq_of_beq x.debitor author b)))
    | inr b ↦ elim (Bool-cases (x.creditor == author)) [
      | inl c ↦ absurd (k (inr (eq_of_beq x.creditor author c)))
      | inr c ↦ rw (b, c) (role_in_items-none author rest h)
    ]
  ]
