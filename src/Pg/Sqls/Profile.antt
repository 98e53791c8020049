-- ===== src/Pg/Sqls/Profile.antt =====
-- crates/pg/src/sqls/profile.rs: account profiles.
use mxfactorial.Prelude.{String, ℕ, [], ◌∷◌, Outcome, ok, ◌>>=◌}
use mxfactorial.Prelude.Text.{format, join}
use mxfactorial.Pg.Sqls.Column.{
  Columns, Table, text, point, new_table, get_column_name, columns_of, plain, cast_column,
  cast_value, join_with_casting, name_with_casting,
}
use mxfactorial.Pg.Sqls.Params.{create_params, create_value_params}

abbrev pub account_profile_table : Table
account_profile_table = new_table "account_profile" (
    "id" ∷ "account_name" ∷ "description" ∷ "first_name" ∷ "middle_name" ∷ "last_name"
    ∷ "country_name" ∷ "street_number" ∷ "street_name" ∷ "floor_number" ∷ "unit_number"
    ∷ "city_name" ∷ "county_name" ∷ "region_name" ∷ "state_name" ∷ "postal_code" ∷ "latlng"
    ∷ "email_address" ∷ "telephone_country_code" ∷ "telephone_area_code" ∷ "telephone_number"
    ∷ "occupation_id" ∷ "industry_id" ∷ "removal_time" ∷ [])

module _ {ℓ} {E : Type ℓ} where
  unfoldable pub select_all_with_text_casting : Outcome E Columns
  select_all_with_text_casting = columns_of account_profile_table (
      cast_column text "id"
      ∷ plain "account_name"
      ∷ plain "description"
      ∷ plain "first_name"
      ∷ plain "middle_name"
      ∷ plain "last_name"
      ∷ plain "country_name"
      ∷ plain "street_number"
      ∷ plain "street_name"
      ∷ plain "floor_number"
      ∷ plain "unit_number"
      ∷ plain "city_name"
      ∷ plain "county_name"
      ∷ plain "region_name"
      ∷ plain "state_name"
      ∷ plain "postal_code"
      ∷ cast_column text "latlng"
      ∷ plain "email_address"
      ∷ cast_column text "telephone_country_code"
      ∷ cast_column text "telephone_area_code"
      ∷ cast_column text "telephone_number"
      ∷ cast_column text "occupation_id"
      ∷ cast_column text "industry_id"
      ∷ plain "removal_time"
      ∷ [])

  unfoldable pub select_in_with_casting : Outcome E Columns
  select_in_with_casting =
      columns_of account_profile_table (cast_column text "id" ∷ plain "account_name" ∷ [])

  unfoldable pub insert_with_casting : Outcome E Columns
  insert_with_casting = columns_of account_profile_table (
      plain "account_name"
      ∷ plain "description"
      ∷ plain "first_name"
      ∷ plain "middle_name"
      ∷ plain "last_name"
      ∷ plain "country_name"
      ∷ plain "street_number"
      ∷ plain "street_name"
      ∷ plain "floor_number"
      ∷ plain "unit_number"
      ∷ plain "city_name"
      ∷ plain "county_name"
      ∷ plain "region_name"
      ∷ plain "state_name"
      ∷ plain "postal_code"
      ∷ cast_value point "latlng"
      ∷ plain "email_address"
      ∷ plain "telephone_country_code"
      ∷ plain "telephone_area_code"
      ∷ plain "telephone_number"
      ∷ plain "occupation_id"
      ∷ plain "industry_id"
      ∷ [])

  unfoldable pub insert_account_profile_sql : Outcome E String
  unfolding create_value_params insert_with_casting
  insert_account_profile_sql = do
    columns ← insert_with_casting
    id ← cast_column text "id" account_profile_table
    ok (
        join " " (
          "INSERT INTO"
          ∷ account_profile_table.name
          ∷ format ("(" ∷ join_with_casting columns ∷ ")" ∷ [])
          ∷ "VALUES"
          ∷ (create_value_params columns 1 1).0
          ∷ "RETURNING"
          ∷ name_with_casting id
          ∷ []))

  unfoldable pub select_profile_ids_by_account_names_sql : ℕ → Outcome E String
  unfolding select_in_with_casting
  select_profile_ids_by_account_names_sql account_name_count = do
    columns ← select_in_with_casting
    account_name ← get_column_name "account_name" account_profile_table
    removal_time ← get_column_name "removal_time" account_profile_table
    ok (
        join " " (
          "SELECT"
          ∷ join_with_casting columns
          ∷ "FROM"
          ∷ account_profile_table.name
          ∷ "WHERE"
          ∷ account_name
          ∷ "IN"
          ∷ format ("(" ∷ (create_params account_name_count 1).0 ∷ ")" ∷ [])
          ∷ "AND"
          ∷ removal_time
          ∷ "IS"
          ∷ "NULL"
          ∷ []))

  unfoldable pub select_profiles_by_account_names_sql : ℕ → Outcome E String
  unfolding select_all_with_text_casting
  select_profiles_by_account_names_sql account_name_count = do
    columns ← select_all_with_text_casting
    account_name ← get_column_name "account_name" account_profile_table
    removal_time ← get_column_name "removal_time" account_profile_table
    ok (
        join " " (
          "SELECT"
          ∷ join_with_casting columns
          ∷ "FROM"
          ∷ account_profile_table.name
          ∷ "WHERE"
          ∷ account_name
          ∷ "IN"
          ∷ format ("(" ∷ (create_params account_name_count 1).0 ∷ ")" ∷ [])
          ∷ "AND"
          ∷ removal_time
          ∷ "IS"
          ∷ "NULL"
          ∷ []))

  unfoldable pub select_account_profile_by_account_sql : Outcome E String
  unfolding select_all_with_text_casting
  select_account_profile_by_account_sql = do
    columns ← select_all_with_text_casting
    account_name ← get_column_name "account_name" account_profile_table
    ok (
        join " " (
          "SELECT"
          ∷ join_with_casting columns
          ∷ "FROM"
          ∷ account_profile_table.name
          ∷ "WHERE"
          ∷ account_name
          ∷ "="
          ∷ "$1;"
          ∷ []))

  unfoldable pub select_account_profiles_by_db_cr_accounts_sql : Outcome E String
  unfolding select_all_with_text_casting
  select_account_profiles_by_db_cr_accounts_sql = do
    columns ← select_all_with_text_casting
    account_name ← get_column_name "account_name" account_profile_table
    ok (
        join " " (
          "SELECT"
          ∷ join_with_casting columns
          ∷ "FROM"
          ∷ account_profile_table.name
          ∷ "WHERE"
          ∷ account_name
          ∷ "="
          ∷ "$1"
          ∷ "OR"
          ∷ account_name
          ∷ "="
          ∷ "$2;"
          ∷ []))
