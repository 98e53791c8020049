-- ===== src/Graphql.antt =====
-- services/graphql/src/main.rs: the resolvers of the queries and mutations. Each takes the account
-- that the caller acts for, from the token or from the request, and posts to one service.
pub mod Auth
use mxfactorial.Prelude.{
  String, Bool, List, [], ◌∷◌, Option, none, some, Outcome, ok, err, map_err, ok_or, ◌==◌,
  string_eq, if◌then◌else◌,
}
use mxfactorial.Prelude.{◌>>=◌ as bind}
use mxfactorial.Prelude.Maps.{Map, lookup}
use mxfactorial.Prelude.Text.{format}
use mxfactorial.Effect.{Action, pure, lift, map_error, ◌>>=◌}
use mxfactorial.Types.Role.{AccountRole}
use mxfactorial.Types.Transaction.{Transaction, Transactions}
use mxfactorial.Types.Messages.{
  IntraTransaction, intra_transaction, IntraTransactions, RequestApprove,
}
use mxfactorial.Uri.{UrlOps, Environment, new_from_env_var}

-- The part of API Gateway's context of a request that is read.
pub record Jwt : Type 0 where
  pub claims : Map String

pub record Authorizer : Type 0 where
  pub jwt : Option Jwt

pub record AmznContext : Type 0 where
  pub authorizer : Option Authorizer

-- A header's value, where it is a text.
abbrev pub HeaderMap : Type 0
HeaderMap = Map (Outcome String String)

-- `serde_json` on what is sent and received.
pub record Json (Time : Type 0) : Type 0 where
  pub object : Map String → String
  pub transaction : Transaction Time → String
  pub intra_transaction : IntraTransaction Time → String
  pub request_approve : RequestApprove → String
  pub parse_context : String → Outcome String AmznContext
  pub parse_intra_transaction : String → Outcome String (IntraTransaction Time)
  pub parse_intra_transactions : String → Outcome String (IntraTransactions Time)

module _ {Time : Type 0} (json : Json Time) where
  unfoldable pub account_auth : String → String → String
  account_auth account_name auth_account =
      json.object (("account_name", account_name) ∷ ("auth_account", auth_account) ∷ [])

  unfoldable pub id_account_auth : String → String → String → String
  id_account_auth id account_name auth_account =
      json.object
        (("id", id) ∷ ("account_name", account_name) ∷ ("auth_account", auth_account) ∷ [])

  unfoldable pub get_amzn_ctx_from_headers : HeaderMap → Outcome String AmznContext
  get_amzn_ctx_from_headers headers =
      bind (ok_or (lookup "x-amzn-request-context" headers) "missing x-amzn-request-context header")
        λ value.
          bind (map_err (λ e. format ("invalid x-amzn-request-context header: " ∷ e ∷ [])) value)
            λ value_str.
              map_err (λ e. format ("failed to parse x-amzn-request-context: " ∷ e ∷ []))
                (json.parse_context value_str)

  -- The user's name that the token claims.
  unfoldable pub claimed_username : AmznContext → Outcome String String
  claimed_username amzn_ctx = bind (ok_or amzn_ctx.authorizer "missing authorizer") λ authorizer.
      bind (ok_or authorizer.jwt "missing jwt in authorizer")
        λ jwt. ok_or (lookup "cognito:username" jwt.claims) "missing cognito:username claim"

  -- The headers are the data of the request, if they were attached.
  unfoldable pub get_auth_account :
      Option String → Outcome String HeaderMap → String → Outcome String String
  unfolding get_amzn_ctx_from_headers claimed_username
  get_auth_account enable_api_auth ctx account_from_request = elim enable_api_auth [
    | none ↦ ok account_from_request
    | some v ↦
        if v == "true"
        then bind ctx (λ headers. bind (get_amzn_ctx_from_headers headers) claimed_username)
        else ok account_from_request
  ]

abbrev parsed : {A : Type 0} → Outcome String A → Outcome String A
parsed = map_err (λ e. format ("failed to parse response: " ∷ e ∷ []))

module _ {W Time U : Type 0} (json : Json Time) (url : UrlOps U) (env : Environment)
    (post : String → String → Action W String String) where
  -- A post to the service whose address a variable holds.
  unfoldable pub post_to : String → String → Action W String String
  post_to var body = do uri ← lift (new_from_env_var url env var); post (url.text uri) body

  unfoldable pub post_for_transaction : String → String → Action W String (Transaction Time)
  unfolding post_to
  post_for_transaction var body = do
    response_body ← post_to var body
    intra ← lift (parsed (json.parse_intra_transaction response_body))
    pure intra.transaction

  unfoldable pub post_for_transactions : String → String → Action W String (Transactions Time)
  unfolding post_to
  post_for_transactions var body = do
    response_body ← post_to var body
    intra ← lift (parsed (json.parse_intra_transactions response_body))
    pure intra.transactions

  unfoldable pub rules : Transaction Time → Action W String (Transaction Time)
  rules t = post_for_transaction "RULE_URL" (json.transaction t)

  module _ (ctx : Outcome String HeaderMap) where
    -- `get_auth_account(ctx, auth_account)?`
    abbrev pub account_from_token : String → Action W String String
    account_from_token auth_account =
        lift (get_auth_account json (env "ENABLE_API_AUTH") ctx auth_account)

    unfoldable pub balance : String → String → Action W String String
    balance account_name auth_account = do
      account ← account_from_token auth_account
      post_to "BALANCE_BY_ACCOUNT_URL" (account_auth json account_name account)

    unfoldable pub transactions_by_account : String → String → Action W String (Transactions Time)
    transactions_by_account account_name auth_account = do
      account ← account_from_token auth_account
      post_for_transactions "TRANSACTIONS_BY_ACCOUNT_URL" (account_auth json account_name account)

    unfoldable pub transaction_by_id : String → String → String → Action W String (Transaction Time)
    transaction_by_id id account_name auth_account = do
      account ← account_from_token auth_account
      post_for_transaction "TRANSACTION_BY_ID_URL" (id_account_auth json id account_name account)

    unfoldable pub requests_by_account : String → String → Action W String (Transactions Time)
    requests_by_account account_name auth_account = do
      account ← account_from_token auth_account
      post_for_transactions "REQUESTS_BY_ACCOUNT_URL" (account_auth json account_name account)

    unfoldable pub request_by_id : String → String → String → Action W String (Transaction Time)
    request_by_id id account_name auth_account = do
      account ← account_from_token auth_account
      post_for_transaction "REQUEST_BY_ID_URL" (id_account_auth json id account_name account)

    unfoldable pub create_request : Transaction Time → String → Action W String (Transaction Time)
    create_request t auth_account = do
      account ← account_from_token auth_account
      post_for_transaction "REQUEST_CREATE_URL"
          (json.intra_transaction (intra_transaction account t))

    unfoldable pub approve_request :
        String → String → AccountRole → String → Action W String (Transaction Time)
    approve_request transaction_id account_name account_role auth_account = do
      account ← account_from_token auth_account
      post_for_transaction "REQUEST_APPROVE_URL" (
          json.request_approve record {
            auth_account = account;
            id = transaction_id;
            account_name = account_name;
            account_role = account_role;
          })
