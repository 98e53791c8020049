-- ===== src/Event/Gdp.antt =====
-- services/event/src/events/gdp.rs: the value of a transaction, added to the product of its places.
pub mod Keys
use mxfactorial.Prelude.{
  String, List, [], ◌∷◌, Option, none, some, Outcome, ok, err, panic, ◌>>=◌ as bind, unwrap,
  unwrap_or, eqb, if◌then◌else◌, is_empty, inl, inr, ok_or, ℤ,
}
use mxfactorial.Prelude.Maps.{Map, lookup, insert}
use mxfactorial.Prelude.Numeral.{parse_i32}
use Prim.Native.Char.{code}
use Prim.Native.String.{◌++◌ as text_append}
use mxfactorial.Effect.{Action, pure, lift, attempt, map_error, for_each, ◌>>=◌, ◌>>◌}
use mxfactorial.External.{DecimalOps}
use mxfactorial.Service.Cache.{Cache, CacheError}

-- `split('|')`
abbrev pub on_head : (String → String) → List String → List String
on_head f [] = f "" ∷ []
on_head f (part ∷ rest) = f part ∷ rest

unfoldable pub split_bar : String → List String
split_bar String.[] = "" ∷ []
split_bar (String.◌∷◌ c s) =
    let parts = split_bar s in
    if eqb (code c) b'|' then "" ∷ parts else on_head (λ part. String.◌∷◌ c part) parts

abbrev pub country_key : String → String → String
country_key date c = text_append date (text_append ":gdp:" c)

-- The key of a place within the one of `key`.
abbrev pub below : String → String → String
below key name = text_append key (text_append ":" name)

module _ {D : Type 0} (dec : DecimalOps D) (zero : D) where
  -- `*totals.entry(key).or_insert(Decimal::ZERO) += value`
  unfoldable pub add_to : String → D → Map D → Outcome String (Map D)
  add_to key value totals =
      bind (unwrap (dec.add (unwrap_or (lookup key totals) zero) value))
        λ total. ok (insert key total totals)

  incr_municipality : String → D → Option String → Map D → Outcome String (Map D)
  incr_municipality region value none totals = ok totals
  incr_municipality region value (some m) totals = add_to (below region m) value totals

  incr_region : String → D → Option String → Option String → Map D → Outcome String (Map D)
  incr_region country value none municipality totals = ok totals
  incr_region country value (some r) municipality totals =
      bind (add_to (below country r) value totals)
        (incr_municipality (below country r) value municipality)

  -- Each level of the place that is known, from the country down, gets the value.
  unfoldable pub incr_gdp_keys :
      String → D → Option String → Option String → Option String → Map D → Outcome String (Map D)
  unfolding incr_region incr_municipality
  incr_gdp_keys date value none region municipality totals = ok totals
  incr_gdp_keys date value (some c) region municipality totals =
      bind (add_to (country_key date c) value totals)
        (incr_region (country_key date c) value region municipality)

  -- The values of the items, summed for each place; an item without a place is left out.
  unfoldable pub group_by_latlng : List (D × Option String) → Map D → Outcome String (Map D)
  group_by_latlng [] by_latlng = ok by_latlng
  group_by_latlng ((value, none) ∷ rest) by_latlng = group_by_latlng rest by_latlng
  group_by_latlng ((value, some latlng) ∷ rest) by_latlng =
      bind (add_to latlng value by_latlng) (group_by_latlng rest)

  module _ {W Time : Type 0} (cache : Cache W Time) where
    -- `cache.get(&key).await.ok().flatten()`
    pub get_abbrev_name : String → Action W String (Option String)
    get_abbrev_name name = do
      found ← attempt (cache.get (text_append "redis_name:" name))
      pure (elim found [ inl name ↦ name | inr _ ↦ none ])

    add_place : String → D → List String → Map D → Action W String (Map D)
    unfolding get_abbrev_name
    add_place date value (country ∷ region ∷ municipality ∷ []) totals = do
      c ← get_abbrev_name country
      r ← get_abbrev_name region
      m ← get_abbrev_name municipality
      lift (incr_gdp_keys date value c r m totals)
    add_place date value parts totals = pure totals

    -- A place that the cache does not know, or knows in another form, is left out.
    pub add_places : String → List (String × D) → Map D → Action W String (Map D)
    unfolding add_place
    add_places date [] totals = pure totals
    add_places date ((latlng, value) ∷ rest) totals = do
      found ← attempt (cache.get (text_append "geocode:" latlng))
      let place : Option String = elim found [ inl geocode ↦ geocode | inr _ ↦ none ]
      more ← elim place [
        | none ↦ pure totals
        | some geocode ↦ add_place date value (split_bar geocode) totals
      ]
      add_places date rest more

    module _ (order : Map D → Map D) (round3 : D → String) (connect : Action W String (Unit {0}))
        (rows : ℤ → Action W String (List (D × Option String)))
        (publish : String → String → Action W String (Unit {0})) where
      incr_and_publish : String × D → Action W String (Unit {0})
      incr_and_publish (key, value) = do
        new_value ← map_error (λ _. "cache") (cache.incr_float key (round3 value))
        publish key new_value

      -- `rows` is the query of the items, `date` the day that the clock reads, and `order` the order
      -- in which a `HashMap` is iterated.
      pub handle_gdp : String → String → Action W String (Unit {0})
      unfolding add_places incr_and_publish
      handle_gdp date transaction_id = do
        connect
        tx_id ← lift (ok_or (parse_i32 transaction_id) "invalid transaction id")
        items ← rows tx_id
        let counted = do
          by_latlng ← lift (group_by_latlng items [])
          totals ← add_places date (order by_latlng) []
          for_each incr_and_publish (order totals)
        if is_empty items then pure tt else counted
