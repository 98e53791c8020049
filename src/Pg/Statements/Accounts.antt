-- ===== src/Pg/Statements/Accounts.antt =====
-- crates/pg/src/model.rs: the statements of the queries of accounts, profiles and balances.
use mxfactorial.Prelude.{
  String, List, [], ◌∷◌, map, Option, Outcome, ok, ◌>>=◌, ℤ, length, unwrap, unwrap_result,
  if◌then◌else◌, ◌==◌, string_eq,
}
use mxfactorial.Prelude.Numeral.{parse_i32}
use package.text.Mathlib.Text.{is_lt}
use Prim.Native.String.{compare}
use mxfactorial.Types.Account.{AccountProfile}
use mxfactorial.Types.Errors.{BoxError}
use mxfactorial.Pg.Value.{Value, text, int, numeric, point, PgOps, optional, parse_pg_point}
use mxfactorial.Pg.Sqls.Account
use mxfactorial.Pg.Sqls.Balance
use mxfactorial.Pg.Sqls.Profile
use mxfactorial.Pg.Statements.{Statement}

-- `sort_unstable`: equal texts are the same text, so one order is left.
unfoldable pub sorted_into : String → List String → List String
sorted_into s [] = s ∷ []
sorted_into s (t ∷ rest) = if is_lt (compare t s) then t ∷ sorted_into s rest else s ∷ t ∷ rest

unfoldable pub sort : List String → List String
sort [] = []
sort (s ∷ rest) = sorted_into s (sort rest)

-- `dedup`: of neighbours that are equal the first is kept.
unfoldable pub dedup : List String → List String
dedup [] = []
dedup (s ∷ []) = s ∷ []
dedup (s ∷ t ∷ rest) = let more = dedup (t ∷ rest) in if s == t then more else s ∷ more

-- `.unwrap().parse::<i32>().unwrap()`
unfoldable pub required_int {ℓ} : {E : Type ℓ} → Option String → Outcome E ℤ
required_int s = do v ← unwrap s; unwrap (parse_i32 v)

module _ {Time D F : Type 0} where
  abbrev pub insert_account : String → Statement (Value Time D F)
  insert_account account = (Account.insert_account_sql, text account ∷ [])

  abbrev pub delete_owner_account : String → Statement (Value Time D F)
  delete_owner_account account = (Account.delete_owner_account_sql, text account ∷ [])

  unfoldable pub select_account_balance :
      String → Outcome (BoxError Time) (Statement (Value Time D F))
  select_account_balance account = do
    sql ← Balance.select_current_account_balance_by_account_name_sql
    ok (sql, text account ∷ [])

  unfoldable pub select_account_balances :
      List String → Outcome (BoxError Time) (Statement (Value Time D F))
  select_account_balances accounts = do
    sql ← Balance.select_account_balances_sql (length accounts)
    ok (sql, map (λ a. text a) accounts)

  unfoldable pub insert_account_balance :
      String → D → ℤ → Outcome (BoxError Time) (Statement (Value Time D F))
  insert_account_balance account balance curr_tr_item_id = do
    sql ← Balance.insert_account_balance_sql
    ok (sql, text account ∷ numeric balance ∷ int curr_tr_item_id ∷ [])

  unfoldable pub insert_account_profile :
      PgOps D F → AccountProfile Time → Outcome (BoxError Time) (Statement (Value Time D F))
  unfolding required_int
  insert_account_profile ops profile = do
    sql ← Profile.insert_account_profile_sql
    latlng ← unwrap_result {E = BoxError Time} (parse_pg_point ops profile.latlng)
    telephone_country_code ← required_int profile.telephone_country_code
    telephone_area_code ← required_int profile.telephone_area_code
    telephone_number ← required_int profile.telephone_number
    occupation_id ← required_int profile.occupation_id
    industry_id ← required_int profile.industry_id
    ok (
      sql,
      text profile.account_name
          ∷ optional text profile.description
          ∷ optional text profile.first_name
          ∷ optional text profile.middle_name
          ∷ optional text profile.last_name
          ∷ text profile.country_name
          ∷ optional text profile.street_number
          ∷ optional text profile.street_name
          ∷ optional text profile.floor_number
          ∷ optional text profile.unit_number
          ∷ text profile.city_name
          ∷ optional text profile.county_name
          ∷ optional text profile.region_name
          ∷ text profile.state_name
          ∷ text profile.postal_code
          ∷ optional (λ p. point p.0 p.1) latlng
          ∷ text profile.email_address
          ∷ int telephone_country_code
          ∷ int telephone_area_code
          ∷ int telephone_number
          ∷ int occupation_id
          ∷ int industry_id
          ∷ [],
    )

  unfoldable pub select_profile_ids_by_account_names :
      List String → Outcome (BoxError Time) (Statement (Value Time D F))
  select_profile_ids_by_account_names accounts = do
    sql ← Profile.select_profile_ids_by_account_names_sql (length accounts)
    ok (sql, map (λ a. text a) accounts)

  unfoldable pub select_account_profiles_by_account_names :
      List String → Outcome (BoxError Time) (Statement (Value Time D F))
  unfolding sort dedup
  select_account_profiles_by_account_names accounts = do
    let deduped = dedup (sort accounts)
    sql ← Profile.select_profiles_by_account_names_sql (length deduped)
    ok (sql, map (λ a. text a) deduped)

  unfoldable pub select_approvers : String → Outcome (BoxError Time) (Statement (Value Time D F))
  select_approvers account = do sql ← Account.select_approvers_sql; ok (sql, text account ∷ [])
