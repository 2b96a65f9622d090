-- ===== src/Browser.antt =====
-- What the pages of the browser flows answer (pkg/authorize, pkg/login, pkg/mfa, pkg/consent), and
-- the functions of pkg/utils that they share. A handler ends with a redirect that carries an
-- authorization code; every other answer is an early return.
use autentico.Prelude.{
  ℕ, String, Bool, false, not, Option, none, some, List, [], ◌∷◌, ◌&&◌, is_empty, if◌then◌else◌,
}
use autentico.Env.{Env, FlowParams}

pub record AuthorizeRequest : Type 0 where
  pub response_type : String
  pub client_id : String
  pub redirect_uri : String
  pub scope : String
  pub state : String
  pub nonce : String
  pub code_challenge : String
  pub code_challenge_method : String
  pub prompt : String
  pub max_age : String

-- A redirect keeps its target and the parameters that are put behind it, before they are encoded.
-- A page keeps what it is about; `signed_in` is an answer that also sets the cookie of a single
-- sign-on session.
pub data Answer : Type 0 where
  http_error : ℕ → String → Answer
  error_page : ℕ → Answer
  redirect : String → List (String × String) → Answer
  -- The request, its signature, and the error that is shown.
  login_page signup_page : AuthorizeRequest → String → String → Answer
  -- The parameters, the described scopes and the signature.
  consent_page : FlowParams → List (String × String) → String → Answer
  -- The challenge, its method and the error; or the challenge, the secret and the error.
  verify_page enroll_page : String → String → String → Answer
  -- The name of the user and the request; or the user and the request.
  verify_email_page change_password_page : String → FlowParams → Answer
  signed_in : String → Answer → Answer

-- The redirect to a client with `code` and, if there is one, `state`; and the cookies that it sets.
pub record Granted : Type 0 where
  pub redirect_uri : String
  pub code : String
  pub state : String
  -- Whether the parameters are percent-encoded.
  pub encoded : Bool
  pub sso_cookie : Option String
  pub device_cookie : Option String

-- utils.IsValidRedirectURI.
unfoldable pub is_redirect_uri : Env → String → Bool
is_redirect_uri env uri = elim (env.parse_url uri) [
  | none ↦ false
  | some (scheme, host) ↦ not (is_empty scheme) && not (is_empty host)
]

abbrev pub state_param : String → List (String × String)
state_param s = if is_empty s then [] else ("state", s) ∷ []
