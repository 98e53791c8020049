-- ===== src/Graphql/Auth.antt =====
-- Whom the resolvers of the GraphQL service (services/graphql/src/main.rs) act for.
use mxfactorial.Prelude.{String, Option, none, some, Outcome, ok, err, ◌≡◌, refl}
use mxfactorial.Prelude.Maps.{lookup}
use mxfactorial.Effect.{Action}
use mxfactorial.Types.Role.{AccountRole}
use mxfactorial.Types.Transaction.{Transaction}
use mxfactorial.Uri.{UrlOps, Environment}
use mxfactorial.Graphql.{
  Json, HeaderMap, get_amzn_ctx_from_headers, get_auth_account, balance, transactions_by_account,
  transaction_by_id, requests_by_account, request_by_id, create_request, approve_request,
}

module _ {Time : Type 0} (json : Json Time) where
  get_auth_account-ignores :
      (enabled : Option String) (ctx : Outcome String HeaderMap) (a b : String)
      → enabled ≡ some "true"
      → get_auth_account json enabled ctx a ≡ get_auth_account json enabled ctx b
  unfolding get_auth_account
  get_auth_account-ignores enabled ctx a b h = rw h refl

  get_auth_account-no_header :
      (enabled : Option String) (headers : HeaderMap) (a : String)
      → enabled ≡ some "true"
      → lookup "x-amzn-request-context" headers ≡ none
      → get_auth_account json enabled (ok headers) a ≡ err "missing x-amzn-request-context header"
  unfolding get_auth_account get_amzn_ctx_from_headers
  get_auth_account-no_header enabled headers a h k = rw (h, k) refl

module _ {W Time U : Type 0} (json : Json Time) (url : UrlOps U) (env : Environment)
    (post : String → String → Action W String String) (ctx : Outcome String HeaderMap) where
  -- With authentication on, none of the seven resolvers that take the caller's account depends on
  -- the one that the request names: two requests that differ in it alone have the same answer and the
  -- same effects.
  pub resolvers-ignore_auth_account :
      (a b account id : String) (role : AccountRole) (t : Transaction Time)
      → env "ENABLE_API_AUTH" ≡ some "true"
      → (balance json url env post ctx account a ≡ balance json url env post ctx account b)
        × (transactions_by_account json url env post ctx account a
            ≡ transactions_by_account json url env post ctx account b)
        × (transaction_by_id json url env post ctx id account a
            ≡ transaction_by_id json url env post ctx id account b)
        × (requests_by_account json url env post ctx account a
            ≡ requests_by_account json url env post ctx account b)
        × (request_by_id json url env post ctx id account a
            ≡ request_by_id json url env post ctx id account b)
        × (create_request json url env post ctx t a ≡ create_request json url env post ctx t b)
        × (approve_request json url env post ctx id account role a
            ≡ approve_request json url env post ctx id account role b)
  unfolding balance transactions_by_account transaction_by_id requests_by_account request_by_id
      create_request approve_request
  resolvers-ignore_auth_account a b account id role t h =
      rw (get_auth_account-ignores json (env "ENABLE_API_AUTH") ctx a b h)
        (refl, refl, refl, refl, refl, refl, refl)

module _ {W Time U : Type 0} (json : Json Time) (url : UrlOps U) (env : Environment)
    (post : String → String → Action W String String) (headers : HeaderMap) where
  abbrev pub refused : {A : Type 0} → W → Outcome String A × W
  refused w = (err "missing x-amzn-request-context header", w)

  -- With authentication on, a request that comes without the gateway's header is refused by each of
  -- the seven resolvers that take the caller's account, and no service is asked.
  pub resolvers-no_header :
      (a account id : String) (role : AccountRole) (t : Transaction Time) (w : W)
      → env "ENABLE_API_AUTH" ≡ some "true"
      → lookup "x-amzn-request-context" headers ≡ none
      → (balance json url env post (ok headers) account a w ≡ refused w)
        × (transactions_by_account json url env post (ok headers) account a w ≡ refused w)
        × (transaction_by_id json url env post (ok headers) id account a w ≡ refused w)
        × (requests_by_account json url env post (ok headers) account a w ≡ refused w)
        × (request_by_id json url env post (ok headers) id account a w ≡ refused w)
        × (create_request json url env post (ok headers) t a w ≡ refused w)
        × (approve_request json url env post (ok headers) id account role a w ≡ refused w)
  unfolding balance transactions_by_account transaction_by_id requests_by_account request_by_id
      create_request approve_request
  resolvers-no_header a account id role t w h k =
      rw (get_auth_account-no_header json (env "ENABLE_API_AUTH") headers a h k)
        (refl, refl, refl, refl, refl, refl, refl)
