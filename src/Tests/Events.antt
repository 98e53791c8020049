-- ===== src/Tests/Events.antt =====
-- Examples of the theorems on the event service.
use mxfactorial.Prelude.{ℕ, String, [], ◌∷◌, ◌≡◌, ◌≢◌, refl}
use mxfactorial.Prelude.Maps.{Map, lookup}
use mxfactorial.Event.Gdp.{incr_gdp_keys, add_to, country_key, below}
use mxfactorial.Event.Gdp.Keys.{grown, incr_gdp_keys-levels}
use mxfactorial.Tests.{money}

abbrev totals : Map ℕ
totals = ("d:gdp:usa", 4) ∷ []

abbrev after : Map ℕ
after = ("d:gdp:usa", 10) ∷ ("d:gdp:usa:cal", 6) ∷ ("d:gdp:usa:cal:sac", 6) ∷ []

incr_gdp_keys-levels_example :
    (lookup (country_key "d" "usa") after ≡ grown money 0 (country_key "d" "usa") 6 totals)
    × (lookup (below (country_key "d" "usa") "cal") after
        ≡ grown money 0 (below (country_key "d" "usa") "cal") 6 totals)
    × (lookup (below (below (country_key "d" "usa") "cal") "sac") after
        ≡ grown money 0 (below (below (country_key "d" "usa") "cal") "sac") 6 totals)
    × ((k : String)
        → country_key "d" "usa" ≢ k
        → below (country_key "d" "usa") "cal" ≢ k
        → below (below (country_key "d" "usa") "cal") "sac" ≢ k
        → lookup k after ≡ lookup k totals)
unfolding incr_gdp_keys add_to
incr_gdp_keys-levels_example =
    incr_gdp_keys-levels money 0 "d" 6 "usa" "cal" "sac" totals after refl
