-- ===== src/Uri.antt =====
-- crates/uribuilder/src/lib.rs and crates/envvar/src/lib.rs: addresses of services, which come from
-- the environment. The parser of URLs is an argument.
use mxfactorial.Prelude.{
  String, Bool, true, false, ◌||◌, ◌&&◌, List, [], ◌∷◌, Option, none, some, Outcome, ok, ◌>>=◌,
  ◌==◌, string_eq, eqb, unwrap, ok_or, if◌then◌else◌, ℕ, unwrap_result,
}
use mxfactorial.Prelude.Numeral.{codes}
use mxfactorial.Prelude.Text.{format}

pub data Protocol : Type 0 where
  http https ws : Protocol

abbrev pub protocol_text : Protocol → String
protocol_text http = "http"
protocol_text https = "https"
protocol_text ws = "ws"

-- `url::Url`
pub record UrlOps (U : Type 0) : Type 0 where
  pub parse : String → Option U
  pub set_scheme : String → U → Option U
  pub set_path : String → U → U
  pub text : U → String

-- A variable that is set to a text.
abbrev pub Environment : Type 0
Environment = String → Option String

-- `envvar::required`, whose error ends in the reason that the system gives.
unfoldable pub required : Environment → String → Outcome String String
required env var = ok_or (env var) (format (var ∷ " not set: environment variable not found" ∷ []))

abbrev is_true : Option String → Bool
is_true none = false
is_true (some v) = v == "true"

abbrev begins : List ℕ → List ℕ → Bool
begins [] s = true
begins (c ∷ p) [] = false
begins (c ∷ p) (d ∷ s) = eqb c d && begins p s

-- `contains` on texts
abbrev contains_text : List ℕ → List ℕ → Bool
contains_text p [] = begins p []
contains_text p (c ∷ s) = begins p (c ∷ s) || contains_text p s

module _ {U : Type 0} (url : UrlOps U) (env : Environment) where
  -- `Uri::new`: a text without a protocol gets one, and the environment may ask for TLS.
  unfoldable pub new_uri {ℓ} : {E : Type ℓ} → String → Outcome E U
  new_uri uri = do
    let given =
        if contains_text (codes "://") (codes uri)
        then uri
        else format (protocol_text http ∷ "://" ∷ uri ∷ [])
    parsed ← unwrap (url.parse given)
    if is_true (env "ENABLE_TLS")
        then unwrap (url.set_scheme (protocol_text https) parsed)
        else ok parsed

  unfoldable pub new_from_env_var {ℓ} : {E : Type ℓ} → String → Outcome E U
  unfolding new_uri required
  new_from_env_var env_var = do uri ← unwrap_result (required env env_var); new_uri uri

  unfoldable pub with_ws {ℓ} : {E : Type ℓ} → U → Outcome E U
  with_ws uri = unwrap (url.set_scheme (protocol_text ws) uri)

  unfoldable pub with_path : String → U → U
  with_path path uri = url.set_path path uri
