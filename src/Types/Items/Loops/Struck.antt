-- ===== src/Types/Items/Loops/Struck.antt =====
-- How `TransactionItems::test_equality` (crates/types/src/transaction_item.rs) strikes off the items
-- that it finds.
use mxfactorial.Prelude.{
  Bool, true, false, [], ◌∷◌, ◌≡◌, ◌≢◌, refl, sym, ◌∙◌, ap, ◌⊎◌, inl, inr, subst, Eq, ◌==◌, ok, All,
  All-imp, ne_of_beq, nat_eq, arith, >>=-eq-ok, Bool-cases, eq_of_beq,
}
use mxfactorial.External.{DecimalOps}
use mxfactorial.Types.Item.{TransactionItem, TransactionItemError, item_equality}
use mxfactorial.Types.Item.Equality.{item_eq}
use mxfactorial.Types.Items.{TransactionItems}
use mxfactorial.Types.Items.Loops.{retain_others, strike, strike_all}

module _ {Time D : Type 0} ⦃e : Eq Time⦄ (dec : DecimalOps D) where
  -- Some item of the list equals `item` in what the test compares.
  abbrev pub Matched : TransactionItem Time → TransactionItems Time → Type 0
  Matched item [] = ⊥
  Matched item (other ∷ rest) =
      (item_equality dec {E = TransactionItemError Time} item other ≡ ok true) ⊎ Matched item rest

  -- No comparison with an item of the list panics on an unreadable number.
  abbrev pub Comparable : TransactionItem Time → TransactionItems Time → Type 0
  Comparable item [] = Unit
  Comparable item (other ∷ rest) =
      ((b : Bool) × (item_equality dec {E = TransactionItemError Time} item other ≡ ok b))
      × Comparable item rest

  -- `y` is in `m`, or was struck off by an equal item that is matched.
  abbrev pub Accounted :
      (TransactionItem Time → Type 0) → TransactionItems Time → TransactionItem Time → Type 0
  Accounted P [] y = P y
  Accounted P (x ∷ m) y = (y ≡ x) ⊎ Accounted P m y

  Accounted-base :
      (P : TransactionItem Time → Type 0) (m : TransactionItems Time) (y : TransactionItem Time)
      → P y
      → Accounted P m y
  Accounted-base P [] y p = p
  Accounted-base P (x ∷ m) y p = inr (Accounted-base P m y p)

  retain_others-Accounted :
      (P : TransactionItem Time → Type 0) (item : TransactionItem Time) (m : TransactionItems Time)
      (y : TransactionItem Time)
      → P item
      → Accounted P m y
      → Accounted P (retain_others dec item m) y
  retain_others-Accounted P item [] y p h = h
  retain_others-Accounted P item (x ∷ m) y p (inl same) = elim (Bool-cases (x == item)) [
    | inl struck ↦ rw struck (
        Accounted-base P (retain_others dec item m) y
          (subst P (sym (same ∙ eq_of_beq x item struck)) p))
    | inr kept ↦ rw kept (inl same)
  ]
  retain_others-Accounted P item (x ∷ m) y p (inr h) = elim (Bool-cases (x == item)) [
    | inl struck ↦ rw struck (retain_others-Accounted P item m y p h)
    | inr kept ↦ rw kept (inr (retain_others-Accounted P item m y p h))
  ]

  pub Accounted-self :
      (P : TransactionItem Time → Type 0) (l : TransactionItems Time) → All (Accounted P l) l
  Accounted-self P [] = tt
  Accounted-self P (x ∷ l) = (
    inl refl,
    All-imp (Accounted P l) (Accounted P (x ∷ l)) l (λ y k. inr k) (Accounted-self P l),
  )

  -- Striking the matches of one item keeps every item accounted for.
  strike-Accounted :
      (all others m : TransactionItems Time) (item y : TransactionItem Time)
      {m' : TransactionItems Time}
      → (Matched item others → Matched item all)
      → strike dec {E = TransactionItemError Time} item others m ≡ ok m'
      → Accounted (λ x. Matched x all) m y
      → Accounted (λ x. Matched x all) m' y
  unfolding strike
  strike-Accounted all [] m item y sub h acc =
      subst (λ l. Accounted (λ x. Matched x all) l y) (ground (arith, h)) acc
  strike-Accounted all (o ∷ others) m item y {m'} sub h acc =
      let (same, tested, rest) =
        >>=-eq-ok (item_equality dec {E = TransactionItemError Time} item o) _ h in
      elim (Bool-cases same) [
        | inl e ↦
            strike-Accounted all others (retain_others dec item m) item y (λ k. sub (inr k))
              (rw e at rest)
              (retain_others-Accounted (λ x. Matched x all) item m y (sub (inl (tested ∙ ap ok e)))
                acc)
        | inr e ↦ strike-Accounted all others m item y (λ k. sub (inr k)) (rw e at rest) acc
      ]

  pub strike_all-Accounted :
      (l all m : TransactionItems Time) (y : TransactionItem Time) {m' : TransactionItems Time}
      → strike_all dec {E = TransactionItemError Time} l all m ≡ ok m'
      → Accounted (λ x. Matched x all) m y
      → Accounted (λ x. Matched x all) m' y
  unfolding strike_all
  strike_all-Accounted [] all m y h acc =
      subst (λ l. Accounted (λ x. Matched x all) l y) (ground (arith, h)) acc
  strike_all-Accounted (item ∷ l) all m y {m'} h acc =
      let (left, first, rest) =
        >>=-eq-ok (strike dec {E = TransactionItemError Time} item all m) _ h in
      strike_all-Accounted l all left y rest (strike-Accounted all all m item y (λ k. k) first acc)

  strike-Comparable :
      (others m : TransactionItems Time) (item : TransactionItem Time) {m' : TransactionItems Time}
      → strike dec {E = TransactionItemError Time} item others m ≡ ok m'
      → Comparable item others
  unfolding strike
  strike-Comparable [] m item h = tt
  strike-Comparable (o ∷ others) m item h =
      let (same, tested, rest) =
        >>=-eq-ok (item_equality dec {E = TransactionItemError Time} item o) _ h in
      ((same, tested), strike-Comparable others _ item rest)

  pub strike_all-Comparable :
      (l others m : TransactionItems Time) {m' : TransactionItems Time}
      → strike_all dec {E = TransactionItemError Time} l others m ≡ ok m'
      → All (λ x. Comparable x others) l
  unfolding strike_all
  strike_all-Comparable [] others m h = tt
  strike_all-Comparable (item ∷ l) others m h =
      let (left, first, rest) =
        >>=-eq-ok (strike dec {E = TransactionItemError Time} item others m) _ h in
      (strike-Comparable others m item first, strike_all-Comparable l others left rest)

  -- What stays after `retain` is what was there and differs from the item.
  retain_others-ne :
      (Q : TransactionItem Time → Type 0) (item : TransactionItem Time) (m : TransactionItems Time)
      → All Q m
      → All (λ y. Q y × (y ≢ item)) (retain_others dec item m)
  retain_others-ne Q item [] h = tt
  retain_others-ne Q item (x ∷ m) h = elim (Bool-cases (x == item)) [
    | inl struck ↦ rw struck (retain_others-ne Q item m h.1)
    | inr kept ↦ rw kept ((h.0, ne_of_beq x item kept), retain_others-ne Q item m h.1)
  ]

  strike-keeps :
      (Q : TransactionItem Time → Type 0) (others m : TransactionItems Time)
      (item : TransactionItem Time)
      → Comparable item others
      → All Q m
      → (m' : TransactionItems Time) × (strike dec {E = TransactionItemError Time} item others m
          ≡ ok m')
        × All Q m'
  unfolding strike
  strike-keeps Q [] m item c h = (m, refl, h)
  strike-keeps Q (o ∷ others) m item ((true, tested), c) h =
      let kept =
        All-imp (λ y. Q y × (y ≢ item)) Q (retain_others dec item m) (λ y k. k.0)
          (retain_others-ne Q item m h) in
      rw tested (strike-keeps Q others (retain_others dec item m) item c kept)
  strike-keeps Q (o ∷ others) m item ((false, tested), c) h =
      rw tested (strike-keeps Q others m item c h)

  strike-clears :
      (Q : TransactionItem Time → Type 0) (others m : TransactionItems Time)
      (item : TransactionItem Time)
      → Comparable item others
      → Matched item others
      → All Q m
      → (m' : TransactionItems Time) × (strike dec {E = TransactionItemError Time} item others m
          ≡ ok m')
        × All (λ y. Q y × (y ≢ item)) m'
  unfolding strike
  strike-clears Q [] m item c k h = absurd k
  strike-clears Q (o ∷ others) m item ((true, tested), c) k h = rw tested (
      strike-keeps (λ y. Q y × (y ≢ item)) others (retain_others dec item m) item c
        (retain_others-ne Q item m h))
  strike-clears Q (o ∷ others) m item ((false, tested), c) (inl k) h = absurd (cc)
  strike-clears Q (o ∷ others) m item ((false, tested), c) (inr k) h =
      rw tested (strike-clears Q others m item c k h)

  -- The items that are still to be looked for.
  abbrev pub In : TransactionItem Time → TransactionItems Time → Type 0
  In y l = Accounted (λ _. ⊥) l y

  In-ne : (x y : TransactionItem Time) (l : TransactionItems Time) → In y (x ∷ l) × (y ≢ x) → In y l
  In-ne x y l (inl same, ne) = absurd (ne same)
  In-ne x y l (inr k, ne) = k

  pub strike_all-clears :
      (l others m : TransactionItems Time)
      → All (λ x. Comparable x others) l
      → All (λ x. Matched x others) l
      → All (λ y. In y l) m
      → strike_all dec {E = TransactionItemError Time} l others m ≡ ok []
  unfolding strike_all
  strike_all-clears [] others [] c k h = refl
  strike_all-clears [] others (y ∷ m) c k h = absurd h.0
  strike_all-clears (x ∷ l) others m c k h =
      let (m', first, kept) = strike-clears (λ y. In y (x ∷ l)) others m x c.0 k.0 h in
      rw first (
        strike_all-clears l others m' c.1 k.1
          (All-imp (λ y. In y (x ∷ l) × (y ≢ x)) (λ y. In y l) m' (λ y. In-ne x y l) kept))
