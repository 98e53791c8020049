-- ===== src/Types/Items/Loops/Funds.antt =====
-- `map_required_funds_from_debitors` (crates/types/src/transaction_item.rs) against a sum for each
-- debitor.
use mxfactorial.Prelude.{
  String, true, false, not, ◌&&◌, [], ◌∷◌, ◌≡◌, refl, sym, ◌∙◌, ap, Option, none, some, Outcome, ok,
  ◌>>=◌, is_some, >>=-eq-ok, ok_injective, Bool-cases, ◌==◌, string_eq, ◌⊎◌, inl, inr,
  if◌then◌else◌, eq_of_beq,
}
use mxfactorial.Prelude.Maps.{Map, lookup, insert, lookup-insert}
use mxfactorial.External.{DecimalOps}
use mxfactorial.Types.Item.{TransactionItem, price_times_quantity}
use mxfactorial.Types.Items.{TransactionItems}
use mxfactorial.Types.Items.Loops.{
  added, require_funds, required_from, map_required_funds_from_debitors,
}

module _ {Time D E : Type 0} (dec : DecimalOps D) where
  -- What `debitor` owes beyond `sum`: the values of the items that it has not paid, added in order.
  abbrev pub owed : String → Option D → TransactionItems Time → Outcome E (Option D)
  owed debitor sum [] = ok sum
  owed debitor sum (ti ∷ rest) =
      let others = owed debitor sum rest in
      let more = (do
        value ← price_times_quantity dec ti
        total ← added dec sum value
        owed debitor (some total) rest) in
      if not (is_some ti.debitor_approval_time) && (ti.debitor == debitor) then more else others

  owed_paid :
      (debitor : String) (sum : Option D) (ti : TransactionItem Time) (rest : TransactionItems Time)
      → (is_some ti.debitor_approval_time ≡ true) ⊎ ((ti.debitor == debitor) ≡ false)
      → owed debitor sum (ti ∷ rest) ≡ owed debitor sum rest
  owed_paid debitor sum ti rest (inl paid) = rw paid refl
  owed_paid debitor sum ti rest (inr other) = elim (Bool-cases (is_some ti.debitor_approval_time)) [
    | inl paid ↦ rw paid refl
    | inr unpaid ↦ rw (unpaid, other) refl
  ]

  owed_unpaid :
      (debitor : String) (sum : Option D) (ti : TransactionItem Time) (rest : TransactionItems Time)
      {value total : D}
      → is_some ti.debitor_approval_time ≡ false
      → (ti.debitor == debitor) ≡ true
      → price_times_quantity dec {E = E} ti ≡ ok value
      → added {E = E} dec sum value ≡ ok total
      → owed debitor sum (ti ∷ rest) ≡ owed debitor (some total) rest
  owed_unpaid debitor sum ti rest unpaid same p q = rw (unpaid, same, p, q) refl

  require_unpaid :
      (debitor : String) (ti : TransactionItem Time) (rest : TransactionItems Time) (funds : Map D)
      (value total : D)
      → is_some ti.debitor_approval_time ≡ false
      → price_times_quantity dec {E = E} ti ≡ ok value
      → added {E = E} dec (lookup ti.debitor funds) value ≡ ok total
      → owed debitor (lookup debitor funds) (ti ∷ rest)
        ≡ owed debitor (lookup debitor (insert ti.debitor total funds)) rest
  require_unpaid debitor ti rest funds value total unpaid p q =
      elim (Bool-cases (ti.debitor == debitor)) [
        | inl same ↦
            owed_unpaid debitor (lookup debitor funds) ti rest unpaid same p (
              ap (λ k. added {E = E} dec (lookup k funds) value)
                (sym (eq_of_beq ti.debitor debitor same))
              ∙ q)
            ∙ ap (λ o. owed debitor o rest)
                (sym (lookup-insert ti.debitor debitor total funds ∙ (rw same refl)))
        | inr other ↦
            owed_paid debitor (lookup debitor funds) ti rest (inr other)
            ∙ ap (λ o. owed debitor o rest)
                (sym (lookup-insert ti.debitor debitor total funds ∙ (rw other refl)))
      ]

  require_step :
      (debitor : String) (ti : TransactionItem Time) (rest : TransactionItems Time) (funds : Map D)
      {m : Map D}
      → require_funds dec {E = E} ti funds ≡ ok m
      → owed debitor (lookup debitor funds) (ti ∷ rest) ≡ owed debitor (lookup debitor m) rest
  unfolding require_funds
  require_step debitor ti rest funds {m} h = elim (Bool-cases (is_some ti.debitor_approval_time)) [
    | inl paid ↦
        owed_paid debitor (lookup debitor funds) ti rest (inl paid)
        ∙ ap (λ l. owed debitor (lookup debitor l) rest)
            (ok_injective {E = E} funds m (rw paid at h))
    | inr unpaid ↦
        let (value, p, h1) = >>=-eq-ok (price_times_quantity dec {E = E} ti) _ (rw unpaid at h) in
        let (total, q, h2) = >>=-eq-ok (added {E = E} dec (lookup ti.debitor funds) value) _ h1 in
        require_unpaid debitor ti rest funds value total unpaid p q
        ∙ ap (λ l. owed debitor (lookup debitor l) rest)
            (ok_injective {E = E} (insert ti.debitor total funds) m h2)
  ]

  required_from-owed :
      (debitor : String) (items : TransactionItems Time) (funds : Map D) {m : Map D}
      → required_from dec {E = E} funds items ≡ ok m
      → owed debitor (lookup debitor funds) items ≡ ok (lookup debitor m)
  unfolding required_from
  required_from-owed debitor [] funds {m} h =
      ap (λ l. ok (lookup debitor l)) (ok_injective {E = E} funds m h)
  required_from-owed debitor (ti ∷ rest) funds h =
      let (more, first, next) = >>=-eq-ok (require_funds dec {E = E} ti funds) _ h in
      require_step debitor ti rest funds first ∙ required_from-owed debitor rest more next

  -- The map has, for every debitor, what the debitor's unpaid items add up to, and nothing for a
  -- debitor without one.
  pub map_required_funds_from_debitors-owed :
      (items : TransactionItems Time) {funds : Map D} (debitor : String)
      → map_required_funds_from_debitors dec {E = E} items ≡ ok funds
      → owed debitor none items ≡ ok (lookup debitor funds)
  unfolding map_required_funds_from_debitors
  map_required_funds_from_debitors-owed items debitor h = required_from-owed debitor items [] h
