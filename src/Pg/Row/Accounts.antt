-- ===== src/Pg/Row/Accounts.antt =====
-- `From<Row>` in crates/types/src/account.rs, balance.rs and approval.rs.
use mxfactorial.Prelude.{Outcome, ok, ◌>>=◌}
use mxfactorial.Types.Approval.{Approval}
use mxfactorial.Types.Account.{AccountProfile}
use mxfactorial.Types.Balance.{AccountBalance}
use mxfactorial.Pg.Value.{Value}
use mxfactorial.Pg.Row.{Row, get, as_text, as_numeric, as_time, as_role, optionally}

module _ {Time D F : Type 0} where
  unfoldable pub approval_from {ℓ} : {E : Type ℓ} → Row (Value Time D F) → Outcome E (Approval Time)
  approval_from row = do
    id ← get (optionally as_text) 0 row
    rule_instance_id ← get (optionally as_text) 1 row
    transaction_id ← get (optionally as_text) 2 row
    transaction_item_id ← get (optionally as_text) 3 row
    account_name ← get as_text 4 row
    account_role ← get as_role 5 row
    device_id ← get (optionally as_text) 6 row
    device_latlng ← get (optionally as_text) 7 row
    approval_time ← get (optionally as_time) 8 row
    rejection_time ← get (optionally as_time) 9 row
    expiration_time ← get (optionally as_time) 10 row
    ok (record {
      id = id;
      rule_instance_id = rule_instance_id;
      transaction_id = transaction_id;
      transaction_item_id = transaction_item_id;
      account_name = account_name;
      account_role = account_role;
      device_id = device_id;
      device_latlng = device_latlng;
      approval_time = approval_time;
      rejection_time = rejection_time;
      expiration_time = expiration_time;
    })

  unfoldable pub profile_from {ℓ} :
      {E : Type ℓ} → Row (Value Time D F) → Outcome E (AccountProfile Time)
  profile_from row = do
    id ← get (optionally as_text) 0 row
    account_name ← get as_text 1 row
    description ← get (optionally as_text) 2 row
    first_name ← get (optionally as_text) 3 row
    middle_name ← get (optionally as_text) 4 row
    last_name ← get (optionally as_text) 5 row
    country_name ← get as_text 6 row
    street_number ← get (optionally as_text) 7 row
    street_name ← get (optionally as_text) 8 row
    floor_number ← get (optionally as_text) 9 row
    unit_number ← get (optionally as_text) 10 row
    city_name ← get as_text 11 row
    county_name ← get (optionally as_text) 12 row
    region_name ← get (optionally as_text) 13 row
    state_name ← get as_text 14 row
    postal_code ← get as_text 15 row
    latlng ← get (optionally as_text) 16 row
    email_address ← get as_text 17 row
    telephone_country_code ← get (optionally as_text) 18 row
    telephone_area_code ← get (optionally as_text) 19 row
    telephone_number ← get (optionally as_text) 20 row
    occupation_id ← get (optionally as_text) 21 row
    industry_id ← get (optionally as_text) 22 row
    removal_time ← get (optionally as_time) 23 row
    ok (record {
      id = id;
      account_name = account_name;
      description = description;
      first_name = first_name;
      middle_name = middle_name;
      last_name = last_name;
      country_name = country_name;
      street_number = street_number;
      street_name = street_name;
      floor_number = floor_number;
      unit_number = unit_number;
      city_name = city_name;
      county_name = county_name;
      region_name = region_name;
      state_name = state_name;
      postal_code = postal_code;
      latlng = latlng;
      email_address = email_address;
      telephone_country_code = telephone_country_code;
      telephone_area_code = telephone_area_code;
      telephone_number = telephone_number;
      occupation_id = occupation_id;
      industry_id = industry_id;
      removal_time = removal_time;
    })

  unfoldable pub balance_from {ℓ} :
      {E : Type ℓ} → Row (Value Time D F) → Outcome E (AccountBalance D)
  balance_from row = do
    account_name ← get as_text 0 row
    current_balance ← get as_numeric 1 row
    current_transaction_item_id ← get (optionally as_text) 2 row
    ok (record {
      account_name = account_name;
      current_balance = current_balance;
      current_transaction_item_id = current_transaction_item_id;
    })
