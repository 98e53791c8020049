-- ===== src/Types/Items/Loops/Equality.antt =====
-- What `TransactionItems::test_equality` (crates/types/src/transaction_item.rs) decides.
use mxfactorial.Prelude.{
  ℕ, true, not, [], ◌∷◌, ◌≡◌, refl, ◌↔◌, Eq, ◌==◌, ok, length, is_empty, err_if, All, All-imp,
  eqb_iff, nat_eq, arith, >>=-eq-ok,
}
use mxfactorial.External.{DecimalOps}
use mxfactorial.Types.Item.{TransactionItem, TransactionItemError}
use mxfactorial.Types.Item.Equality.{item_eq}
use mxfactorial.Types.Items.{TransactionItems}
use mxfactorial.Types.Items.Loops.{strike_all, items_equality}
use mxfactorial.Types.Items.Loops.Struck.{
  Matched, Comparable, Accounted, Accounted-self, strike_all-Accounted, strike_all-Comparable,
  strike_all-clears,
}

module _ {Time D : Type 0} ⦃e : Eq Time⦄ (dec : DecimalOps D) where
  Accounted-none :
      (P : TransactionItem Time → Type 0) (y : TransactionItem Time) (m : TransactionItems Time)
      → is_empty m ≡ true
      → Accounted dec P m y
      → P y
  Accounted-none P y [] h k = k
  Accounted-none P y (x ∷ m) h k = cc

  -- What a passing test has computed.
  record Passed (items others : TransactionItems Time) : Type 0 where
    equal : length items ≡ length others
    missing : TransactionItems Time
    struck : strike_all dec {E = TransactionItemError Time} items others items ≡ ok missing
    empty : is_empty missing ≡ true

  passed_count :
      (items others missing : TransactionItems Time)
      → err_if (not (is_empty missing)) (TransactionItemError.missing_transaction_items missing)
        ≡ ok tt
      → is_empty missing ≡ true
  passed_count items others [] h = refl
  passed_count items others (x ∷ m) h = cc

  counted_equal :
      (a b : ℕ)
      → err_if {E = TransactionItemError Time}
          (not (a == b))
          TransactionItemError.unequal_transaction_items_count
        ≡ ok tt
      → a ≡ b
  counted_equal a b h = ground arith

  passed :
      (items others : TransactionItems Time)
      → items_equality dec items others ≡ ok tt
      → Passed items others
  unfolding items_equality
  passed items others h =
      let (_, counted, rest) =
        >>=-eq-ok
          (err_if {E = TransactionItemError Time} (not (length items == length others))
            TransactionItemError.unequal_transaction_items_count)
          _ h in
      let (missing, struck, none_left) =
        >>=-eq-ok (strike_all dec {E = TransactionItemError Time} items others items) _ rest in
      record {
        equal = counted_equal (length items) (length others) counted;
        missing = missing;
        struck = struck;
        empty = passed_count items others missing none_left;
      }

  pass :
      (items others : TransactionItems Time)
      → length items ≡ length others
      → strike_all dec {E = TransactionItemError Time} items others items ≡ ok []
      → items_equality dec items others ≡ ok tt
  unfolding items_equality
  pass items others h k = rw ((eqb_iff (length items) (length others)).1 h, k) refl

  -- The two lists pass exactly when they are equally long, every comparison reads its numbers, and
  -- each item of the first has an equal one in the second. Which of several equal items is matched
  -- is not counted, so the second list may hold items that the first lacks.
  pub items_equality-ok_iff :
      (items others : TransactionItems Time)
      → (items_equality dec items others ≡ ok tt) ↔ (
          (length items ≡ length others)
          × All (λ x. Comparable dec x others) items
          × All (λ x. Matched dec x others) items)
  items_equality-ok_iff items others = (
    (λ h.
        let p = passed items others h in
        (
          p.equal,
          strike_all-Comparable dec items others items p.struck,
          All-imp (Accounted dec (λ x. Matched dec x others) items) (λ x. Matched dec x others)
              items
              (λ y k.
                Accounted-none (λ x. Matched dec x others) y p.missing p.empty
                  (strike_all-Accounted dec items others items y p.struck k))
              (Accounted-self dec (λ x. Matched dec x others) items),
        )),
    (λ h.
        pass items others h.0
          (strike_all-clears dec items others items h.1 h.2 (Accounted-self dec (λ _. ⊥) items))),
  )
