-- ===== src/AutoConfirm.antt =====
-- services/auto-confirm/src/main.rs: the trigger of Cognito's sign-up, which confirms every user and
-- gives a test user a made-up profile and an account. What is drawn at random is an argument.
pub mod Names
pub mod Confirmed
use mxfactorial.Prelude.{
  ℕ, zero, suc, ◌+◌, ◌-◌, ◌/◌, String, Bool, true, false, List, [], ◌∷◌, Option, none, some,
  Outcome, ok, err, panic, ◌==◌, string_eq, eqb, leb, ◌&&◌, unwrap, unwrap_result, if◌then◌else◌, ℤ,
  pos,
}
use mxfactorial.Prelude.{◌>>=◌ as bind}
use mxfactorial.Prelude.Maps.{Map, lookup}
use mxfactorial.Prelude.Text.{format}
use Prim.Native.Char.{Char, code, len_utf8}
use Prim.Native.String.{len}
use mxfactorial.Effect.{Action, pure, lift, attempt, for_each, ◌>>=◌, ◌>>◌}
use mxfactorial.Types.Account.{AccountProfile}
use mxfactorial.Types.Errors.{BoxError}
use mxfactorial.Service.Model.{Model}
use mxfactorial.Service.Accounts.{create_account_from_cognito_trigger}
use mxfactorial.Uri.{Environment, required}

-- `&s[..n]` and `&s[n..]`: the bytes before a position and those from it on. A position inside a
-- character or behind the end panics.
unfoldable pub split_at {ℓ} : {E : Type ℓ} → String → ℕ → Outcome E (String × String)
split_at s zero = ok ("", s)
split_at String.[] (suc n) = panic
split_at (String.◌∷◌ c s) (suc n) =
    let rest = split_at s (suc n - len_utf8 c) in
    if leb (len_utf8 c) (suc n)
    then bind rest (λ parts. ok (String.◌∷◌ c parts.0, parts.1))
    else panic

-- `graphemes`, `is_uppercase` and `to_lowercase`
pub record Unicode : Type 0 where
  pub graphemes : String → List String
  pub is_uppercase : Char → Bool
  pub to_lowercase : String → String

module _ (unicode : Unicode) where
  abbrev pub begins_upper {ℓ} : {E : Type ℓ} → String → Outcome E Bool
  begins_upper String.[] = panic
  begins_upper (String.◌∷◌ c s) = ok (unicode.is_uppercase c)

  -- The count of the graphemes up to the first that begins with a capital letter, which is left out;
  -- zero where none does.
  unfoldable pub next_capital {ℓ} : {E : Type ℓ} → List String → ℕ → Outcome E ℕ
  next_capital [] i = ok 0
  next_capital (v ∷ rest) i =
      let found = next_capital rest (suc i) in
      bind (begins_upper v) (λ upper. if upper then ok (i + 1) else found)

  unfoldable pub guess_first_and_last_names {ℓ} :
      {E : Type ℓ} → String → Outcome E (String × String)
  unfolding split_at next_capital
  guess_first_and_last_names account = bind (split_at account 1) λ parts.
      bind (next_capital (unicode.graphemes parts.1) 0)
        λ index. split_at account (if eqb index 0 then len account / 2 else index)

-- What `fakeit` and the random numbers gave, as texts.
pub record Fakes : Type 0 where
  pub sentence : String
  pub last : String
  pub street_number : String
  pub street_name : String
  pub floor_number : String
  pub unit_number : String
  pub city : String
  pub zip : String
  pub latitude : String
  pub longitude : String
  pub area_code : String
  pub number : String
  pub occupation_id : String
  pub industry_id : String

pub record CognitoEvent : Type 0 where
  pub client_metadata : Map String
  pub user_name : Option String
  pub auto_confirm_user : Bool

-- The deletions, each for the user's name.
abbrev pub deletions : List String
deletions =
    "DELETE FROM account_balance WHERE account_name = $1;"
    ∷ "DELETE FROM rule_instance WHERE account_name = $1;"
    ∷ "DELETE FROM account_profile WHERE account_name = $1;"
    ∷ "DELETE FROM account_owner WHERE owner_account = $1;"
    ∷ "DELETE FROM subaccount WHERE name = $1;" ∷ "DELETE FROM account WHERE name = $1;" ∷ []

-- `expect`: an error panics.
abbrev pub expect : {W E F A : Type 0} → Action W F A → Action W E A
expect m w = let (r, w') = m w in (elim r [ ok a ↦ ok a | err e ↦ panic | panic ↦ panic ], w')

abbrev pub skips : CognitoEvent → Bool
skips event = elim (lookup "skip" event.client_metadata) [
  | none ↦ false
  | some skip ↦ skip == "true"
]

-- `trim_end_matches('.')`
unfoldable pub trim_dots : String → String
trim_dots String.[] = ""
trim_dots (String.◌∷◌ c s) =
    let rest = trim_dots s in if eqb (code c) b'.' && rest == "" then "" else String.◌∷◌ c rest

module _ {Time : Type 0} (unicode : Unicode) (fakes : Fakes) where
  unfoldable pub create_fake_profile {ℓ} : {E : Type ℓ} → String → Outcome E (AccountProfile Time)
  unfolding guess_first_and_last_names trim_dots
  create_fake_profile account_name = bind (guess_first_and_last_names unicode account_name) λ names.
      ok record {
        id = none;
        account_name = account_name;
        description = some (trim_dots fakes.sentence);
        first_name = some names.0;
        middle_name = some fakes.last;
        last_name = some names.1;
        country_name = "United States of America";
        street_number = some fakes.street_number;
        street_name = some fakes.street_name;
        floor_number = some fakes.floor_number;
        unit_number = some fakes.unit_number;
        city_name = fakes.city;
        county_name = some (format (fakes.city ∷ " County" ∷ []));
        region_name = none;
        state_name = "California";
        postal_code = fakes.zip;
        latlng = some (format ("(" ∷ fakes.latitude ∷ ", " ∷ fakes.longitude ∷ ")" ∷ []));
        email_address = format (unicode.to_lowercase account_name ∷ "@address.xz" ∷ []);
        telephone_country_code = some "1";
        telephone_area_code = some fakes.area_code;
        telephone_number = some fakes.number;
        occupation_id = some fakes.occupation_id;
        industry_id = some fakes.industry_id;
        removal_time = none;
      }

module _ {W Time D : Type 0} (unicode : Unicode) (fakes : Fakes) (env : Environment)
    (parse_decimal : String → Option D) (get_conn : Action W String (Model W Time D))
    (execute : String → String → Action W String (Unit {0})) where
  -- The account is made anew; an error in that is only logged.
  unfoldable pub remake_account : String → Action W String (Unit {0})
  unfolding create_fake_profile required
  remake_account cognito_user = do
    fake_profile ← lift (create_fake_profile unicode fakes cognito_user)
    initial ← lift (unwrap_result (required env "INITIAL_ACCOUNT_BALANCE"))
    decimal_balance ← lift (unwrap (parse_decimal initial))
    conn ← expect get_conn
    for_each (λ sql. execute sql cognito_user) deletions
    _ ← attempt (create_account_from_cognito_trigger conn fake_profile decimal_balance (pos 0))
    pure tt

  unfoldable pub confirm : CognitoEvent → Action W String CognitoEvent
  unfolding remake_account
  confirm event =
      let answer = pure (record event { auto_confirm_user = true }) in
      let remade = lift (unwrap event.user_name) >>= λ user. remake_account user >> answer in
      if skips event then answer else remade
