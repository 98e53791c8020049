-- ===== src/Event/Gdp/Keys.antt =====
-- `incr_gdp_keys` (services/event/src/events/gdp.rs): which totals grow, and by how much.
use mxfactorial.Prelude.{
  ◌<◌, String, Option, none, some, ok, ◌≡◌, ◌≢◌, refl, sym, ◌∙◌, ap, unwrap, unwrap_or, arith,
  string_eq, beq_refl, beq_of_ne, >>=-eq-ok, ok_injective,
}
use mxfactorial.Prelude.Maps.{Map, lookup, insert, lookup-insert}
use text.Mathlib.TextPositions.{len-append}
use Prim.Native.String.{◌++◌ as text_append, len}
use mxfactorial.External.{DecimalOps}
use mxfactorial.Event.Gdp.{
  add_to, country_key, below, incr_gdp_keys, incr_region, incr_municipality,
}

-- A key is shorter than one of a level below it.
below-longer : (key name : String) → len key < len (below key name)
below-longer key name =
    omega (arith, len-append key (text_append ":" name), len-append ":" name, one)
  where
    one : len ":" ≡ 1
    one = refl

ne_of_len : (a b : String) → len a < len b → a ≢ b
ne_of_len a b h e = absurd (ground (arith, h, ap len e))

module _ {D : Type 0} (dec : DecimalOps D) (zero : D) where
  -- The total of a key before, with the value added.
  abbrev pub grown : String → D → Map D → Option D
  grown key value totals = dec.add (unwrap_or (lookup key totals) zero) value

  unwrap-some : (o : Option D) {x : D} → unwrap {E = String} o ≡ ok x → o ≡ some x
  unwrap-some none h = cc
  unwrap-some (some y) h = cc

  add_to-lookup :
      (key : String) (value : D) (totals after : Map D)
      → add_to dec zero key value totals ≡ ok after
      → (lookup key after ≡ grown key value totals)
        × ((k : String) → key ≢ k → lookup k after ≡ lookup k totals)
  unfolding add_to
  add_to-lookup key value totals after h =
      let (total, s, i) = >>=-eq-ok (unwrap (grown key value totals)) _ h in
      let e : after ≡ insert key total totals = sym (ok_injective _ _ i) in
      (
        rw (e, lookup-insert key key total totals, beq_refl key) (sym (unwrap-some _ s)),
        λ k n. rw (e, lookup-insert key k total totals, beq_of_ne key k n) refl,
      )

  -- Each of the three levels of a place grows by the value once, and no other total changes.
  pub incr_gdp_keys-levels :
      (date : String) (value : D) (c r m : String) (totals after : Map D)
      → incr_gdp_keys dec zero date value (some c) (some r) (some m) totals ≡ ok after
      → (lookup (country_key date c) after ≡ grown (country_key date c) value totals)
        × (lookup (below (country_key date c) r) after
            ≡ grown (below (country_key date c) r) value totals)
        × (lookup (below (below (country_key date c) r) m) after
            ≡ grown (below (below (country_key date c) r) m) value totals)
        × ((k : String)
            → country_key date c ≢ k
            → below (country_key date c) r ≢ k
            → below (below (country_key date c) r) m ≢ k
            → lookup k after ≡ lookup k totals)
  unfolding incr_gdp_keys incr_region incr_municipality
  incr_gdp_keys-levels date value c r m totals after h =
      let (t1, a1, h1) = >>=-eq-ok (add_to dec zero (country_key date c) value totals) _ h in
      let (t2, a2, a3) = >>=-eq-ok (add_to dec zero (below (country_key date c) r) value t1) _ h1 in
      levels (country_key date c) (below (country_key date c) r)
        (below (below (country_key date c) r) m) (below-longer (country_key date c) r)
        (below-longer (below (country_key date c) r) m) t1 t2 a1 a2 a3
    where
      levels :
          (k1 k2 k3 : String)
          → len k1 < len k2
          → len k2 < len k3
          → (t1 t2 : Map D) → add_to dec zero k1 value totals ≡ ok t1
          → add_to dec zero k2 value t1 ≡ ok t2
          → add_to dec zero k3 value t2 ≡ ok after
          → (lookup k1 after ≡ grown k1 value totals)
            × (lookup k2 after ≡ grown k2 value totals)
            × (lookup k3 after ≡ grown k3 value totals)
            × ((k : String) → k1 ≢ k → k2 ≢ k → k3 ≢ k → lookup k after ≡ lookup k totals)
      levels k1 k2 k3 l l' t1 t2 a1 a2 a3 =
          let (g1, o1) = add_to-lookup k1 value totals t1 a1 in
          let (g2, o2) = add_to-lookup k2 value t1 t2 a2 in
          let (g3, o3) = add_to-lookup k3 value t2 after a3 in
          let n12 : k1 ≢ k2 = ne_of_len k1 k2 l in
          let n23 : k2 ≢ k3 = ne_of_len k2 k3 l' in
          let n13 : k1 ≢ k3 = ne_of_len k1 k3 (omega (arith, l, l')) in
          (
            o3 k1 (λ e. n13 (sym e)) ∙ o2 k1 (λ e. n12 (sym e)) ∙ g1,
            o3 k2 (λ e. n23 (sym e)) ∙ g2 ∙ ap (λ o. dec.add (unwrap_or o zero) value) (o1 k2 n12),
            g3 ∙ ap (λ o. dec.add (unwrap_or o zero) value) (o2 k3 n23 ∙ o1 k3 n13),
            λ k n1 n2 n3. o3 k n3 ∙ o2 k n2 ∙ o1 k n1,
          )
