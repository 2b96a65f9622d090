-- ===== src/Token/Grants.antt =====
-- The grants that end in a user: the cases of the switch of HandleToken (pkg/token/handler.go).
use autentico.Prelude.{ℕ, String, not, Option, none, some, ◌==◌, ◌||◌, is_empty, if◌then◌else◌}
use autentico.Schema.{User, Client, AuthCode}
use autentico.Env.{Env}
use autentico.Exec.{
  Exec, GoError, account_locked, HttpError, http, twice, Result, ok, err, pure, raise, lift,
  require, map_error, ◌>>=◌, ◌>>◌,
}
use autentico.Client.{validate_scopes}
use autentico.User.{authenticate_user}
use autentico.Token.CodeGrant.{
  TokenRequest, invalid_grant, validate_token_request_password, user_by_authorization_code,
}
use autentico.Token.DeviceGrant.{handle_device_code_grant}
use autentico.Token.RefreshGrant.{Carried, user_by_refresh_token, rotate_grant}

-- What the cases of HandleToken hand to the code that issues the tokens.
pub record Grant : Type 0 where
  pub user : User
  pub scope : String
  pub nonce : String
  pub auth_time : ℕ
  pub idp_session_id : String

abbrev code_grant_of : User × AuthCode → Grant
code_grant_of (usr, c) = record {
  user = usr;
  scope = c.scope;
  nonce = c.nonce;
  auth_time = c.created_at;
  idp_session_id = elim c.idp_session_id [ none ↦ "" | some id ↦ id ];
}

unfoldable pub code_grant : Env → TokenRequest → Exec HttpError Grant
code_grant env r = do granted ← user_by_authorization_code env r; pure (code_grant_of granted)

abbrev plain_grant : Env → User → String → Grant
plain_grant env usr scope = record {
  user = usr;
  scope = scope;
  nonce = "";
  auth_time = env.now;
  idp_session_id = "";
}

abbrev login_reply : GoError → HttpError
login_reply account_locked = http 403 "account_locked"
login_reply _ = invalid_grant

-- The second factor of a password grant.
unfoldable pub check_totp : Env → TokenRequest → User → Result HttpError (Unit {0})
check_totp env r usr =
    if env.config.require_mfa || usr.totp_verified
    then if not usr.totp_verified
      then err (http 403 "mfa_required")
      else if is_empty r.totp_code
      then err (http 403 "mfa_required")
      else if env.validate_totp usr.totp_secret r.totp_code
      then ok tt
      else err (http 403 "invalid_mfa_code")
    else ok tt

abbrev pub default_to : String → String → String
default_to default s = if is_empty s then default else s

unfoldable pub password_scope : TokenRequest → Client → String
password_scope r c = default_to "openid profile email" (default_to c.scopes r.scope)

unfoldable pub password_user : Env → TokenRequest → Client → Exec HttpError Grant
unfolding check_totp password_scope
password_user env r c = do
  usr ← map_error login_reply (authenticate_user env r.username r.password)
  lift (check_totp env r usr)
  require (validate_scopes (some c) (password_scope r c)) (http 400 "invalid_scope")
  pure (plain_grant env usr (password_scope r c))

unfoldable pub password_grant : Env → Option Client → TokenRequest → Exec HttpError Grant
unfolding password_user
password_grant env c r = do
  require (validate_token_request_password r) (http 400 "invalid_request")
  elim c [ none ↦ raise (http 401 "invalid_client") | some client ↦ password_user env r client ]

abbrev device_grant_of : Env → User × String → Grant
device_grant_of env (usr, scope) = plain_grant env usr scope

unfoldable pub device_grant : Env → TokenRequest → Exec HttpError Grant
device_grant env r = do granted ← handle_device_code_grant env r; pure (device_grant_of env granted)

abbrev refreshed : User → Carried → Grant
refreshed usr c = record {
  user = usr;
  scope = c.scope;
  nonce = "";
  auth_time = c.auth_time;
  idp_session_id = c.idp_session_id;
}

-- Without a user (the refresh token has expired and has been answered) the handler goes on to
-- rotate the token, and ends at the test `usr == nil` with a second answer.
unfoldable pub finish_refresh : Env → TokenRequest → Option User → Exec HttpError Grant
finish_refresh env r (some usr) = do c ← rotate_grant env r; pure (refreshed usr c)
finish_refresh env r none =
    map_error (twice invalid_grant)
      (do c ← rotate_grant env r; raise (http 400 "unsupported_grant_type"))

unfoldable pub refresh_grant : Env → TokenRequest → Exec HttpError Grant
unfolding finish_refresh
refresh_grant env r = do usr ← user_by_refresh_token env r; finish_refresh env r usr

-- The switch on the grant type, less client_credentials, which ends in its own case.
unfoldable pub grant : Env → Option Client → TokenRequest → Exec HttpError Grant
unfolding code_grant password_grant device_grant refresh_grant
grant env c r =
    if r.grant_type == "authorization_code"
    then code_grant env r
    else if r.grant_type == "password"
    then password_grant env c r
    else if r.grant_type == "urn:ietf:params:oauth:grant-type:device_code"
    then device_grant env r
    else if r.grant_type == "refresh_token"
    then refresh_grant env r
    else raise (http 400 "unsupported_grant_type")
