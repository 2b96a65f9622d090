-- ===== src/Login.antt =====
-- The login form: HandleLoginUser of pkg/login (handler.go, model.go).
pub mod SignedIn
pub mod Factor
use autentico.Prelude.{
  ℕ, ◌+◌, ◌*◌, String, Bool, true, false, not, Option, none, some, List, [], ◌∷◌, ◌++◌, ◌==◌, ◌&&◌,
  ◌||◌, is_empty, if◌then◌else◌,
}
use autentico.Schema.{User, Client, MfaChallenge, second}
use autentico.Env.{Env, FlowParams}
use autentico.Exec.{
  Exec, GoError, account_locked, pure, raise, require, on_error, map_error, ◌>>=◌, ◌>>◌,
}
use autentico.Text.{append}
use autentico.Web.{Request}
use autentico.Browser.{
  Answer, http_error, error_page, redirect, verify_email_page, change_password_page, Granted,
  is_redirect_uri,
}
use autentico.Authzsig.{AuthorizeParams, verify}
use autentico.Client.{client_by_client_id, is_valid_redirect_uri, validate_scopes}
use autentico.User.{authenticate_user}
use autentico.IdpSession.{finalize_login}
use autentico.Consent.{params_of}
use autentico.TrustedDevice.{is_device_trusted}
use autentico.Mfa.{create_mfa_challenge, flow_params}
use autentico.Mfa.Get.{mfa_page}
use autentico.Mfa.Post.{finish, with_cookie, non_empty}

abbrev mfa_challenge_expiration : ℕ
mfa_challenge_expiration = 600 * second

-- `ValidateLoginRequest(request) == nil`.
unfoldable pub validate_login_request : Env → String → String → String → Bool
validate_login_request env username password redirect_uri =
    not (is_empty username)
    && env.has_length env.config.validation_min_username_length
        env.config.validation_max_username_length username
    && not (is_empty password)
    && env.has_length env.config.validation_min_password_length
        env.config.validation_max_password_length password
    && not (is_empty redirect_uri)
    && env.is_url redirect_uri

-- Back to the authorization endpoint with an error.
unfoldable pub redirect_to_login : Env → FlowParams → String → Answer
redirect_to_login env p error =
    redirect (append env.oauth_path "/authorize")
      (("response_type", "code") ∷ ("error", error) ∷ flow_params p)

abbrev pub signed_params : FlowParams → AuthorizeParams
signed_params p = record {
  client_id = p.client_id;
  redirect_uri = p.redirect_uri;
  scope = p.scope;
  nonce = p.nonce;
  code_challenge = p.code_challenge;
  code_challenge_method = p.code_challenge_method;
  state = p.state;
}

abbrev something_wrong : Env → FlowParams → Answer
something_wrong env p = redirect_to_login env p "Something went wrong. Please try again."

-- The method of the second factor, `none` where there is none to offer.
unfoldable pub mfa_method : Env → User → Option String
mfa_method env usr =
    let chosen =
      (if not env.config.require_mfa && usr.totp_verified
        then "totp"
        else if env.config.mfa_method == "both"
        then (if usr.totp_verified then "totp" else "email")
        else env.config.mfa_method) in
    if chosen == "email" && is_empty env.config.smtp_host
    then (if usr.totp_verified then some "totp" else none)
    else some chosen

abbrev pub challenge_row : Env → FlowParams → User → String → String → MfaChallenge
challenge_row env p usr method id = record {
  id = id;
  user_id = usr.id;
  method = method;
  code = "";
  login_state = env.json_login_state p;
  created_at = 0;
  expires_at = env.now + mfa_challenge_expiration;
  used = false;
  failed_attempts = 0;
  otp_sent_at = none;
}

-- The challenge for the second factor; encoding its login state cannot fail.
unfoldable pub challenge : Env → FlowParams → User → String → Exec Answer Granted
unfolding create_mfa_challenge redirect_to_login
challenge env p usr method = elim (env.secure_code 3) [
  | none ↦ raise (something_wrong env p)
  | some id ↦ (do
    on_error (something_wrong env p) (create_mfa_challenge env (challenge_row env p usr method id))
    raise (mfa_page env id))
]

unfoldable pub start_mfa : Env → FlowParams → User → Exec Answer Granted
unfolding mfa_method challenge redirect_to_login
start_mfa env p usr = elim (mfa_method env usr) [
  | none ↦
      raise (redirect_to_login env p "Email verification is not available. Please contact support.")
  | some method ↦ challenge env p usr method
]

-- The session, the consent and the code.
unfoldable pub complete_login : Env → Request → FlowParams → Client → User → Exec Answer Granted
unfolding redirect_to_login
complete_login env req p c usr = do
  idp ← finalize_login env req usr.id
  g ← map_error (with_cookie idp) (finish env (something_wrong env p) p (some c) usr.id idp)
  pure (record g { sso_cookie = non_empty idp })

-- `cfg.TrustDeviceEnabled && trusteddevice.IsDeviceTrusted(...)`.
unfoldable pub skips_mfa : {E : Type 0} → Env → Request → User → Exec E Bool
skips_mfa env req usr =
    if env.config.trust_device_enabled
    then is_device_trusted env usr.id req.device_cookie
    else pure false

-- `cfg.RequireMfa || usr.TotpVerified`.
abbrev pub wants_mfa : Env → User → Bool
wants_mfa env usr = env.config.require_mfa || usr.totp_verified

abbrev pub after_device : Env → Request → FlowParams → Client → User → Bool → Exec Answer Granted
after_device env req p c usr trusted =
    if wants_mfa env usr && not trusted then start_mfa env p usr else complete_login env req p c usr

-- The part of the handler behind the password.
unfoldable pub enter : Env → Request → FlowParams → Client → User → Exec Answer Granted
unfolding start_mfa complete_login skips_mfa
enter env req p c usr = do
  require
      (not (
        env.config.require_email_verification
        && not usr.is_email_verified
        && not (usr.role == "admin")))
      (verify_email_page usr.username p)
  require (not usr.require_password_change) (change_password_page usr.id p)
  trusted ← skips_mfa env req usr
  after_device env req p c usr trusted

abbrev login_error : Env → FlowParams → GoError → Answer
login_error env p account_locked =
    redirect_to_login env p "Account is temporarily locked due to too many failed login attempts"
login_error env p _ = redirect_to_login env p "Invalid username or password"

-- The client of the form, with the tests on what it asks for.
unfoldable pub form_client : Env → FlowParams → Exec Answer Client
form_client env p = do
  c ← on_error (http_error 400 "invalid_client") (client_by_client_id env p.client_id)
  require c.is_active (http_error 400 "invalid_client")
  require (is_valid_redirect_uri env (some c) p.redirect_uri) (http_error 400 "invalid_request")
  require (validate_scopes (some c) p.scope) (http_error 400 "invalid_scope")
  pure c

-- The tests before the client is read.
unfoldable pub admit_form : Env → Request → FlowParams → Exec Answer (Unit {0})
admit_form env req p = do
  require (req.method == "POST") (error_page 405)
  require req.parses (http_error 400 "invalid_request")
  require (not (env.config.auth_mode == "passkey_only")) (http_error 400 "invalid_request")
  require (verify env (signed_params p) (req.form "authorize_sig"))
      (http_error 400 "invalid_request")
  require (is_redirect_uri env p.redirect_uri) (http_error 400 "invalid_request")

-- The detail of an error in the form is left out of the message.
unfoldable pub handle_login_user : Env → Request → Exec Answer Granted
unfolding validate_login_request form_client admit_form enter params_of redirect_to_login
handle_login_user env req = do
  admit_form env req (params_of req.form)
  c ← form_client env (params_of req.form)
  require
      (validate_login_request env (req.form "username") (req.form "password")
        (params_of req.form).redirect_uri)
      (redirect_to_login env (params_of req.form) "user credentials error.")
  usr ←
      map_error (login_error env (params_of req.form))
        (authenticate_user env (req.form "username") (req.form "password"))
  enter env req (params_of req.form) c usr
