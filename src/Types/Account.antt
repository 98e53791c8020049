-- ===== src/Types/Account.antt =====
-- crates/types/src/account.rs: account profiles and the map of their ids.
use mxfactorial.Prelude.{
  String, List, [], ◌∷◌, Option, none, some, ◌==◌, string_eq, Outcome, ok, ◌>>=◌, unwrap,
  if◌then◌else◌, ℤ,
}
use mxfactorial.Prelude.Maps.{Map, lookup, insert}
use mxfactorial.Prelude.Numeral.{parse_i32}

pub record AccountProfile (Time : Type 0) : Type 0 where
  pub id : Option String
  pub account_name : String
  pub description : Option String
  pub first_name : Option String
  pub middle_name : Option String
  pub last_name : Option String
  pub country_name : String
  pub street_number : Option String
  pub street_name : Option String
  pub floor_number : Option String
  pub unit_number : Option String
  pub city_name : String
  pub county_name : Option String
  pub region_name : Option String
  pub state_name : String
  pub postal_code : String
  pub latlng : Option String
  pub email_address : String
  pub telephone_country_code : Option String
  pub telephone_area_code : Option String
  pub telephone_number : Option String
  pub occupation_id : Option String
  pub industry_id : Option String
  pub removal_time : Option Time

abbrev pub AccountProfiles : Type 0 → Type 0
AccountProfiles Time = List (AccountProfile Time)

-- The first profile of that name.
pub match_profile_by_account :
    {Time : Type 0} → String → AccountProfiles Time → Option (AccountProfile Time)
match_profile_by_account account_name [] = none
match_profile_by_account account_name (ap ∷ rest) =
    if ap.account_name == account_name then some ap else match_profile_by_account account_name rest

-- `ProfileIds(HashMap<String, i32>)`
abbrev pub ProfileIds : Type 0
ProfileIds = Map ℤ

unfoldable pub get_id : String → ProfileIds → Option ℤ
get_id account ids = lookup account ids

-- `From<Vec<(String, String)>>`: pairs of an id and an account, as the database returns them.
pub from_pairs {ℓ} : {E : Type ℓ} → ProfileIds → List (String × String) → Outcome E ProfileIds
from_pairs ids [] = ok ids
from_pairs ids ((k, v) ∷ rest) = do id ← unwrap (parse_i32 k); from_pairs (insert v id ids) rest
