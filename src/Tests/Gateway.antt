-- ===== src/Tests/Gateway.antt =====
-- Examples of the theorems on the GraphQL service and on the trigger of the sign-up.
use mxfactorial.Prelude.{
  ℕ, suc, ◌/◌, String, true, false, ◌&&◌, leb, [], ◌∷◌, none, some, Outcome, ok, ◌==◌, string_eq,
  if◌then◌else◌, ◌⊎◌, ◌≡◌, refl, arith,
}
use Prim.Native.Char.{code}
use Prim.Native.String.{len, ◌++◌ as text_append}
use mxfactorial.Effect.{Action}
use mxfactorial.Types.Role.{debitor}
use mxfactorial.Uri.{UrlOps, Environment}
use mxfactorial.Graphql.{
  Json, HeaderMap, balance, transactions_by_account, transaction_by_id, requests_by_account,
  request_by_id, create_request, approve_request,
}
use mxfactorial.Graphql.Auth.{resolvers-ignore_auth_account, resolvers-no_header, refused}
use mxfactorial.AutoConfirm.{Unicode, Fakes, CognitoEvent, guess_first_and_last_names, confirm}
use mxfactorial.AutoConfirm.Names.{
  singles, NoCapital, IsCut, GraphemeLaws, guess_first_and_last_names-capital,
}
use mxfactorial.AutoConfirm.Confirmed.{Remade, confirm-answers}
use mxfactorial.Service.Model.{Model}
use mxfactorial.Service.Accounts.{create_account_from_cognito_trigger}
use mxfactorial.Tests.{request, conn}

abbrev json : Json ℕ
json = record {
  object = λ fields. "{}";
  transaction = λ t. t.sum_value;
  intra_transaction = λ t. t.transaction.sum_value;
  request_approve = λ r. r.id;
  parse_context = λ text. ok (record {
    authorizer = some (record { jwt = some (record { claims = ("cognito:username", text) ∷ [] }) });
  });
  parse_intra_transaction = λ text. ok (record { auth_account = none; transaction = request });
  parse_intra_transactions =
      λ text. ok (record { auth_account = none; transactions = request ∷ [] });
}

abbrev url : UrlOps String
url = record {
  parse = λ s. some s;
  set_scheme = λ scheme u. some u;
  set_path = λ path u. u;
  text = λ u. u;
}

abbrev env : Environment
env var = if var == "ENABLE_API_AUTH" then some "true" else some "service:10000"

-- The world counts the posts.
abbrev post : String → String → Action ℕ String String
post uri body w = (ok "6", suc w)

-- The gateway names alice as the user.
abbrev by_alice : Outcome String HeaderMap
by_alice = ok (("x-amzn-request-context", ok "alice") ∷ [])

resolvers-ignore_auth_account_example :
    (balance json url env post by_alice "bob" "bob"
      ≡ balance json url env post by_alice "bob" "eve")
    × (transactions_by_account json url env post by_alice "bob" "bob"
        ≡ transactions_by_account json url env post by_alice "bob" "eve")
    × (transaction_by_id json url env post by_alice "1" "bob" "bob"
        ≡ transaction_by_id json url env post by_alice "1" "bob" "eve")
    × (requests_by_account json url env post by_alice "bob" "bob"
        ≡ requests_by_account json url env post by_alice "bob" "eve")
    × (request_by_id json url env post by_alice "1" "bob" "bob"
        ≡ request_by_id json url env post by_alice "1" "bob" "eve")
    × (create_request json url env post by_alice request "bob"
        ≡ create_request json url env post by_alice request "eve")
    × (approve_request json url env post by_alice "1" "bob" debitor "bob"
        ≡ approve_request json url env post by_alice "1" "bob" debitor "eve")
resolvers-ignore_auth_account_example =
    resolvers-ignore_auth_account json url env post by_alice "bob" "eve" "bob" "1" debitor request
      refl

resolvers-no_header_example :
    (balance json url env post (ok []) "bob" "bob" 0 ≡ refused json url env post [] 0)
    × (transactions_by_account json url env post (ok []) "bob" "bob" 0
        ≡ refused json url env post [] 0)
    × (transaction_by_id json url env post (ok []) "1" "bob" "bob" 0
        ≡ refused json url env post [] 0)
    × (requests_by_account json url env post (ok []) "bob" "bob" 0 ≡ refused json url env post [] 0)
    × (request_by_id json url env post (ok []) "1" "bob" "bob" 0 ≡ refused json url env post [] 0)
    × (create_request json url env post (ok []) request "bob" 0 ≡ refused json url env post [] 0)
    × (approve_request json url env post (ok []) "1" "bob" debitor "bob" 0
        ≡ refused json url env post [] 0)
resolvers-no_header_example =
    resolvers-no_header json url env post [] "bob" "bob" "1" debitor request 0 refl refl

abbrev unicode : Unicode
unicode = record {
  graphemes = singles;
  is_uppercase = λ c. leb b'A' (code c) && leb (code c) b'Z';
  to_lowercase = λ s. s;
}

grapheme_laws : GraphemeLaws unicode
grapheme_laws = record { single = λ s h. refl }

guess_first_and_last_names-capital_example :
    (first : String) × (last : String) × (guess_first_and_last_names unicode {E = Unit {0}}
        "JoeCarol"
      ≡ ok (first, last))
    × (text_append first last ≡ "JoeCarol")
    × (((f : String) × (first ≡ String.◌∷◌ "J" f) × IsCut unicode "oeCarol" f last)
        ⊎ (NoCapital unicode "oeCarol" × (len first ≡ len "JoeCarol" / 2)))
guess_first_and_last_names-capital_example =
    guess_first_and_last_names-capital unicode grapheme_laws "J" "oeCarol" (
      refl,
      omega arith,
      (
        refl,
        omega arith,
        (
          refl,
          omega arith,
          (
            refl,
            omega arith,
            (refl, omega arith, (refl, omega arith, (refl, omega arith, (refl, omega arith, tt)))),
          ),
        ),
      ),
    )

-- The guess is the capital letter's.
guess_carol : guess_first_and_last_names unicode {E = Unit {0}} "JoeCarol" ≡ ok ("Joe", "Carol")
unfolding guess_first_and_last_names
guess_carol = refl

abbrev fakes : Fakes
fakes = record {
  sentence = "One two.";
  last = "Lee";
  street_number = "1";
  street_name = "Main";
  floor_number = "2";
  unit_number = "101";
  city = "Sacramento";
  zip = "95814";
  latitude = "38";
  longitude = "-121";
  area_code = "916";
  number = "5550100";
  occupation_id = "3";
  industry_id = "4";
}

abbrev signed_up : CognitoEvent
signed_up = record {
  client_metadata = ("skip", "true") ∷ [];
  user_name = some "JoeCarol";
  auto_confirm_user = false;
}

abbrev get_conn : Action ℕ String (Model ℕ ℕ ℕ)
get_conn w = (ok conn, w)

abbrev execute : String → String → Action ℕ String (Unit {0})
execute sql account w = (ok tt, suc w)

abbrev joined : CognitoEvent
joined = record signed_up { client_metadata = []; auto_confirm_user = true }

-- Six deletions and three writes.
confirm-answers_example :
    (joined ≡ joined)
    × (((false ≡ true) × (◌≡◌ {A = ℕ} 9 0))
        ⊎ ((user : String) × (some "JoeCarol" ≡ some user)
            × Remade unicode fakes env (λ _. some 9) get_conn execute user 0 9))
unfolding confirm create_account_from_cognito_trigger
confirm-answers_example =
    confirm-answers unicode fakes env (λ _. some 9) get_conn execute
      (record joined { auto_confirm_user = false }) joined 0 9 refl
