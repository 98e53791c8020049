-- ===== src/Types/Items/Profiles.antt =====
-- `add_profile_ids` (crates/types/src/transaction_item.rs): when it succeeds and what it changes.
use mxfactorial.Prelude.{
  String, true, false, [], ◌∷◌, ◌++◌, map, ◌≡◌, refl, Option, none, some, ok, panic, is_some, All,
  arith,
}
use mxfactorial.Prelude.Numeral.{show_i32}
use mxfactorial.Types.Account.{ProfileIds, get_id}
use mxfactorial.Types.Item.{TransactionItem}
use mxfactorial.Types.Items.{TransactionItems, filled_id, add_profile_ids}

-- The id that a side of an item ends with: its own, or the one of the map.
abbrev pub side_id : ProfileIds → String → Option String → Option String
side_id ids account (some id) = some id
side_id ids account none = elim (get_id account ids) [ none ↦ none | some id ↦ some (show_i32 id) ]

module _ {Time : Type 0} (ids : ProfileIds) where
  abbrev pub with_ids : TransactionItem Time → TransactionItem Time
  with_ids ti = record ti {
    debitor_profile_id = side_id ids ti.debitor ti.debitor_profile_id;
    creditor_profile_id = side_id ids ti.creditor ti.creditor_profile_id;
  }

  -- Both sides of the item have an id, of their own or in the map.
  abbrev pub Known : TransactionItem Time → Type 0
  Known ti =
      (is_some (side_id ids ti.debitor ti.debitor_profile_id) ≡ true)
      × (is_some (side_id ids ti.creditor ti.creditor_profile_id) ≡ true)

module _ {E : Type 0} (ids : ProfileIds) where
  filled_id-side_id :
      (account : String) (own : Option String)
      → is_some (side_id ids account own) ≡ true
      → filled_id {E = E} ids account own ≡ ok (side_id ids account own)
  unfolding filled_id
  filled_id-side_id account (some id) h = refl
  filled_id-side_id account none h = ground arith

  filled_id-missing :
      (account : String) (own : Option String)
      → is_some (side_id ids account own) ≡ false
      → filled_id {E = E} ids account own ≡ panic
  unfolding filled_id
  filled_id-missing account (some id) h = cc
  filled_id-missing account none h = ground arith

module _ {Time E : Type 0} (ids : ProfileIds) where
  -- Where every account has an id, each item gets the ids of its two accounts, those that it had
  -- kept, and nothing else of it changes.
  pub add_profile_ids-Known :
      (items : TransactionItems Time)
      → All (Known ids) items
      → add_profile_ids {E = E} ids items ≡ ok (map (with_ids ids) items)
  unfolding add_profile_ids
  add_profile_ids-Known [] h = refl
  add_profile_ids-Known (ti ∷ rest) ((hd, hc), h) =
      rw
        (
          filled_id-side_id {E = E} ids ti.debitor ti.debitor_profile_id hd,
          filled_id-side_id {E = E} ids ti.creditor ti.creditor_profile_id hc,
          add_profile_ids-Known rest h,
        )
        refl

  -- The first debitor without an id is a panic, whatever stands behind it.
  pub add_profile_ids-unknown :
      (known rest : TransactionItems Time) (ti : TransactionItem Time)
      → All (Known ids) known
      → is_some (side_id ids ti.debitor ti.debitor_profile_id) ≡ false
      → add_profile_ids {E = E} ids (known ++ ti ∷ rest) ≡ panic
  unfolding add_profile_ids
  add_profile_ids-unknown [] rest ti h n =
      rw (filled_id-missing {E = E} ids ti.debitor ti.debitor_profile_id n) refl
  add_profile_ids-unknown (k ∷ known) rest ti ((hd, hc), h) n =
      rw
        (
          filled_id-side_id {E = E} ids k.debitor k.debitor_profile_id hd,
          filled_id-side_id {E = E} ids k.creditor k.creditor_profile_id hc,
          add_profile_ids-unknown known rest ti h n,
        )
        refl
