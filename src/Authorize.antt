-- ===== src/Authorize.antt =====
-- The authorization endpoint: pkg/authorize (model.go, handler.go).
pub mod MaxAge
pub mod Issue
pub mod Authorized
pub mod Answers
pub mod Redeem
pub mod SignedOut
use Prim.Native.Char.{code}
use autentico.Prelude.{
  ℕ, ◌+◌, String, Bool, true, false, not, Option, none, some, List, [], ◌∷◌, ◌==◌, ◌&&◌, ◌||◌, all,
  member, is_empty, leb, ltb, nat_eq, if◌then◌else◌,
}
use autentico.Schema.{Client, IdpSession}
use autentico.Env.{Env, FlowParams}
use autentico.Exec.{Exec, pure, raise, require, on_error, attempt, recover, ◌>>=◌, ◌>>◌}
use autentico.Text.{fields, append}
use autentico.Web.{Request}
use autentico.Browser.{
  AuthorizeRequest, Answer, error_page, redirect, login_page, signup_page, Granted, is_redirect_uri,
  state_param,
}
use autentico.Authzsig.{sign}
use autentico.Client.{
  client_by_client_id, is_valid_redirect_uri, is_response_type_allowed, validate_scopes,
}
use autentico.IdpSession.{idp_session_by_id, update_last_activity}
use autentico.Consent.{needs_consent, redirect_to_consent, grant_code}
use autentico.Authorize.MaxAge.{exceeds_max_age}

abbrev pub is_scope_char : ℕ → Bool
is_scope_char c = leb 0x21 c && leb c 0x7e && not (nat_eq c 0x22) && not (nat_eq c 0x5c)

-- `validateScopeToken(token) == nil`.
unfoldable pub validate_scope_token : String → Bool
validate_scope_token String.[] = true
validate_scope_token (String.◌∷◌ c s) = is_scope_char (code c) && validate_scope_token s

unfoldable pub validate_scope_syntax : String → Bool
unfolding validate_scope_token
validate_scope_syntax scope = all validate_scope_token (fields scope)

-- `ValidateAuthorizeRequest(request) == nil`.
unfoldable pub validate_authorize_request : Env → AuthorizeRequest → Bool
unfolding validate_scope_syntax
validate_authorize_request env r =
    not (is_empty r.response_type)
    && not (is_empty r.redirect_uri)
    && env.is_url r.redirect_uri
    && validate_scope_syntax r.scope

unfoldable pub authorize_signature : Env → AuthorizeRequest → String
authorize_signature env r = sign env (record {
  client_id = r.client_id;
  redirect_uri = r.redirect_uri;
  scope = r.scope;
  nonce = r.nonce;
  code_challenge = r.code_challenge;
  code_challenge_method = r.code_challenge_method;
  state = r.state;
})

-- A parameter of the form of a POST, or of the query of any other request.
abbrev pub parameter : Request → String → String
parameter req name = if req.method == "POST" then req.form name else req.query name

unfoldable pub authorize_request : Request → AuthorizeRequest
authorize_request req = record {
  response_type = parameter req "response_type";
  client_id = parameter req "client_id";
  redirect_uri = parameter req "redirect_uri";
  scope = parameter req "scope";
  state = parameter req "state";
  nonce = parameter req "nonce";
  code_challenge = parameter req "code_challenge";
  code_challenge_method = parameter req "code_challenge_method";
  prompt = parameter req "prompt";
  max_age = parameter req "max_age";
}

abbrev pub flow_of : AuthorizeRequest → FlowParams
flow_of r = record {
  redirect_uri = r.redirect_uri;
  state = r.state;
  client_id = r.client_id;
  scope = r.scope;
  nonce = r.nonce;
  code_challenge = r.code_challenge;
  code_challenge_method = r.code_challenge_method;
  prompt = r.prompt;
}

-- redirectWithError, without the description.
abbrev pub redirect_with_error : AuthorizeRequest → String → Answer
redirect_with_error r error = redirect r.redirect_uri (("error", error) ∷ state_param r.state)

-- The tests that answer with a redirect to the client.
unfoldable pub check_request : Env → Request → AuthorizeRequest → Client → Exec Answer (Unit {0})
unfolding validate_authorize_request
check_request env req r c = do
  require (is_empty (parameter req "request")) (redirect_with_error r "request_not_supported")
  require (validate_authorize_request env r) (redirect_with_error r "invalid_request")
  require (not (c.client_type == "public" && is_empty r.code_challenge))
      (redirect_with_error r "invalid_request")
  require (not (r.code_challenge_method == "plain" && env.config.pkce_enforce_sha256))
      (redirect_with_error r "invalid_request")
  require (is_response_type_allowed env (some c) r.response_type)
      (redirect_with_error r "unsupported_response_type")
  require (validate_scopes (some c) r.scope) (redirect_with_error r "invalid_scope")

-- `autoLoginResult` without a redirect URL; the one with a URL is the answer of the handler.
pub record AutoLoginResult : Type 0 where
  pub needs_consent : Bool
  pub has_session : Bool
  pub user_id : String

abbrev pub no_session : AutoLoginResult
no_session = record { needs_consent = false; has_session = false; user_id = "" }

abbrev pub in_session : IdpSession → AutoLoginResult
in_session s = record { needs_consent = false; has_session = true; user_id = s.user_id }

abbrev pub wants_consent : IdpSession → AutoLoginResult
wants_consent s = record { needs_consent = true; has_session = true; user_id = s.user_id }

-- `timeout == 0 || time.Since(from) < timeout`.
abbrev pub is_within : ℕ → ℕ → ℕ → Bool
is_within now from timeout = nat_eq timeout 0 || ltb now (from + timeout)

-- `hasConsent || consent.NeedsConsent(...)`.
unfoldable pub must_ask : {E : Type 0} → Env → AuthorizeRequest → Client → IdpSession → Exec E Bool
must_ask env r c s =
    if member "consent" (fields r.prompt)
    then pure true
    else needs_consent env c.consent_required s.user_id r.client_id r.scope r.prompt

-- The part of the function behind the tests on the session.
unfoldable pub code_from :
    Env → AuthorizeRequest → Client → IdpSession → Exec AutoLoginResult Granted
unfolding must_ask
code_from env r c s = do
  asks ← must_ask env r c s
  require (not asks) (wants_consent s)
  grant_code env (in_session s) (flow_of r) s.user_id s.created_at s.id

-- The part of the function behind the lookup of the session.
unfoldable pub login_from :
    Env → AuthorizeRequest → Client → IdpSession → Exec AutoLoginResult Granted
unfolding code_from
login_from env r c s = do
  require (is_within env.now s.last_activity_at env.config.sso_session_idle_timeout) (in_session s)
  require (is_within env.now s.created_at env.config.sso_session_max_age) (in_session s)
  require (not (exceeds_max_age env.now s.created_at r.max_age)) (in_session s)
  attempt (update_last_activity env s.id)
  code_from env r c s

unfoldable pub try_auto_login :
    Env → Request → AuthorizeRequest → Client → Exec AutoLoginResult Granted
unfolding login_from
try_auto_login env req r c = do
  require (env.config.sso_enabled && not (member "login" (fields r.prompt))) no_session
  require (not (is_empty req.sso_cookie)) no_session
  s ← on_error no_session (idp_session_by_id env req.sso_cookie)
  login_from env r c s

abbrev pub silent_error : AuthorizeRequest → Bool → Answer
silent_error r asks = redirect_with_error r (if asks then "consent_required" else "login_required")

-- prompt=none: an error instead of a page.
unfoldable pub refuse_silently :
    Env → AuthorizeRequest → Client → AutoLoginResult → Exec Answer Granted
refuse_silently env r c result =
    if result.has_session
    then (do
      asks ← needs_consent env c.consent_required result.user_id r.client_id r.scope ""
      raise (silent_error r asks))
    else raise (redirect_with_error r "login_required")

-- The same request as a GET.
unfoldable pub redirect_to_get : Env → AuthorizeRequest → Answer
redirect_to_get env r = redirect (append env.oauth_path "/authorize") (
    ("response_type", r.response_type)
    ∷ ("client_id", r.client_id)
    ∷ ("redirect_uri", r.redirect_uri)
    ∷ ("scope", r.scope)
    ∷ ("state", r.state)
    ∷ ("nonce", r.nonce)
    ∷ ("code_challenge", r.code_challenge)
    ∷ ("code_challenge_method", r.code_challenge_method)
    ∷ ("prompt", r.prompt)
    ∷ ("max_age", r.max_age)
    ∷ [])

-- The part of the handler behind the automatic login, when that has not answered.
unfoldable pub ask_user :
    Env → Request → AuthorizeRequest → Client → AutoLoginResult → Exec Answer Granted
unfolding refuse_silently redirect_to_get authorize_signature
ask_user env req r c result =
    if result.needs_consent
    then raise (redirect_to_consent env (flow_of r))
    else if r.prompt == "none"
    then refuse_silently env r c result
    else if r.prompt == "create"
    then if env.config.allow_self_signup
      then raise (signup_page r (authorize_signature env r) (parameter req "error"))
      else raise (login_page r (authorize_signature env r) "Self-registration is not enabled")
    else if req.method == "POST"
    then raise (redirect_to_get env r)
    else raise (login_page r (authorize_signature env r) (parameter req "error"))

-- The client that may be answered at the redirect URI.
unfoldable pub trusted_client : Env → AuthorizeRequest → Exec Answer Client
trusted_client env r = do
  require (is_redirect_uri env r.redirect_uri) (error_page 400)
  c ← on_error (error_page 400) (client_by_client_id env r.client_id)
  require c.is_active (error_page 400)
  require (is_valid_redirect_uri env (some c) r.redirect_uri) (error_page 400)
  pure c

unfoldable pub handle_authorize : Env → Request → Exec Answer Granted
unfolding trusted_client check_request try_auto_login ask_user authorize_request
handle_authorize env req = do
  c ← trusted_client env (authorize_request req)
  check_request env req (authorize_request req) c
  recover (try_auto_login env req (authorize_request req) c)
      (ask_user env req (authorize_request req) c)
