-- ===== src/Token/Handler.antt =====
-- The token endpoint: HandleToken of pkg/token/handler.go.
pub mod Issue
pub mod Signed
pub mod Scopes
pub mod RoundTrip
pub mod Endpoint
use autentico.Prelude.{
  ℕ, ◌+◌, ◌/◌, String, Bool, true, false, not, Option, none, some, ◌==◌, ◌&&◌, ◌||◌, is_empty,
  if◌then◌else◌,
}
use autentico.Schema.{User, Client, Token, Session, AuthCode, Db, second}
use autentico.Env.{Env, Config}
use autentico.Exec.{
  Exec, GoError, account_locked, HttpError, http, twice, Result, ok, err, pure, raise, lift,
  require, on_error, map_error, ◌>>=◌, ◌>>◌,
}
use autentico.Web.{Request}
use autentico.Client.{
  authenticate_client_from_request, is_grant_type_allowed, validate_scopes, config_for_client,
}
use autentico.User.{authenticate_user}
use autentico.Session.{create_session}
use autentico.Token.{create_token}
use autentico.Token.Scopes.{contains_scope, remove_scope}
use autentico.Token.CodeGrant.{
  TokenRequest, invalid_grant, validate_token_request, validate_token_request_password,
  user_by_authorization_code,
}
use autentico.Token.DeviceGrant.{handle_device_code_grant}
use autentico.Token.RefreshGrant.{Carried, user_by_refresh_token, rotate_grant}
use autentico.Token.Grants.{Grant, grant, default_to}
use autentico.Token.Generate.{
  AuthToken, generate_tokens, generate_id_token, generate_client_credentials_token,
}

-- The credentials in the Authorization header come before those in the form.
unfoldable pub token_request : Request → TokenRequest
token_request req = record {
  grant_type = req.form "grant_type";
  code = req.form "code";
  redirect_uri = req.form "redirect_uri";
  client_id = elim req.basic_auth [ none ↦ req.form "client_id" | some (user, pass) ↦ user ];
  client_secret = elim req.basic_auth [
    | none ↦ req.form "client_secret"
    | some (user, pass) ↦ pass
  ];
  code_verifier = req.form "code_verifier";
  username = req.form "username";
  password = req.form "password";
  totp_code = req.form "totp_code";
  refresh_token = req.form "refresh_token";
  scope = req.form "scope";
  device_code = req.form "device_code";
}

-- The response, and the cookie that carries the refresh token in the cookie-only mode.
pub record TokenResponse : Type 0 where
  pub access_token : String
  pub token_type : String
  pub expires_in : ℕ
  pub refresh_token : String
  pub id_token : String
  pub scope : String
  pub refresh_cookie : Option String

abbrev pub server_error : HttpError
server_error = http 500 "server_error"

unfoldable pub client_config : Env → Option Client → Config
client_config env none = env.config
client_config env (some c) = config_for_client env c

-- Without a requested scope, that of the client; openid is taken out.
unfoldable pub client_scope : TokenRequest → Client → String
client_scope r c = remove_scope (default_to c.scopes r.scope) "openid"

abbrev pub client_token : Env → AuthToken → String → Token
client_token env t scope = record {
  id = "";
  user_id = none;
  access_token = t.access_token;
  refresh_token = "";
  access_token_type = "Bearer";
  refresh_token_expires_at = t.access_expires_at;
  refresh_token_last_used_at = none;
  access_token_expires_at = t.access_expires_at;
  issued_at = env.now;
  scope = scope;
  grant_type = "client_credentials";
  revoked_at = none;
}

abbrev pub client_response : Config → AuthToken → String → TokenResponse
client_response cfg t scope = record {
  access_token = t.access_token;
  token_type = "Bearer";
  expires_in = cfg.access_token_expiration / second;
  refresh_token = "";
  id_token = "";
  scope = scope;
  refresh_cookie = none;
}

unfoldable pub client_credentials_of : Env → TokenRequest → Client → Exec HttpError TokenResponse
unfolding client_scope
client_credentials_of env r c = do
  require (c.client_type == "confidential") (http 400 "unauthorized_client")
  require (not (is_empty (client_scope r c))) (http 400 "invalid_scope")
  require (validate_scopes (some c) (client_scope r c)) (http 400 "invalid_scope")
  t ← on_error server_error (
      lift (
        generate_client_credentials_token env r.client_id (client_scope r c)
          (config_for_client env c)))
  on_error server_error (create_token env (env.fresh_id 2) (client_token env t (client_scope r c)))
  pure (client_response (config_for_client env c) t (client_scope r c))

unfoldable pub client_credentials :
    Env → Option Client → TokenRequest → Exec HttpError TokenResponse
unfolding client_credentials_of
client_credentials env none r = raise (http 401 "invalid_client")
client_credentials env (some c) r = client_credentials_of env r c

abbrev pub token_row : Env → TokenRequest → Grant → AuthToken → Token
token_row env r g t = record {
  id = "";
  user_id = some t.user_id;
  access_token = t.access_token;
  refresh_token = t.refresh_token;
  access_token_type = "Bearer";
  refresh_token_expires_at = t.refresh_expires_at;
  refresh_token_last_used_at = none;
  access_token_expires_at = t.access_expires_at;
  issued_at = env.now;
  scope = g.scope;
  grant_type = r.grant_type;
  revoked_at = none;
}

abbrev non_empty : String → Option String
non_empty s = if is_empty s then none else some s

abbrev pub session_row : Request → Grant → AuthToken → Session
session_row req g t = record {
  id = t.session_id;
  user_id = t.user_id;
  access_token = t.access_token;
  refresh_token = t.refresh_token;
  user_agent = req.user_agent;
  ip_address = req.client_ip;
  created_at = 0;
  expires_at = t.access_expires_at;
  deactivated_at = none;
  idp_session_id = non_empty g.idp_session_id;
}

unfoldable pub id_token : Env → TokenRequest → Grant → AuthToken → Result GoError String
id_token env r g t =
    if contains_scope g.scope "openid"
    then generate_id_token env g.user t.session_id g.nonce g.scope r.client_id g.auth_time
        t.access_token
    else ok ""

abbrev pub response : Env → Config → Grant → AuthToken → String → TokenResponse
response env cfg g t id = record {
  access_token = t.access_token;
  token_type = "Bearer";
  expires_in = cfg.access_token_expiration / second;
  refresh_token = if env.cookie_only then "" else t.refresh_token;
  id_token = id;
  scope = g.scope;
  refresh_cookie = if env.cookie_only then some t.refresh_token else none;
}

-- The part of the handler behind the switch: the token, its session and the response.
unfoldable pub issue : Env → Request → Option Client → Grant → Exec HttpError TokenResponse
unfolding id_token
issue env req c g = do
  t ← on_error server_error (
      lift (generate_tokens env g.user (token_request req).client_id g.scope (client_config env c)))
  on_error server_error (create_token env (env.fresh_id 2) (token_row env (token_request req) g t))
  on_error server_error (create_session env (session_row req g t))
  id ← on_error server_error (lift (id_token env (token_request req) g t))
  pure (response env (client_config env c) g t id)

-- The tests before the switch.
unfoldable pub admit : Env → Request → Exec HttpError (Option Client)
admit env req = do
  require (req.method == "POST") (http 400 "invalid_request")
  require req.parses (http 400 "invalid_request")
  require (validate_token_request (token_request req)) (http 400 "invalid_request")
  c ← on_error (http 401 "invalid_client") (authenticate_client_from_request env req)
  require (is_grant_type_allowed env c (token_request req).grant_type)
      (http 400 "unauthorized_client")
  pure c

unfoldable pub handle_token : Env → Request → Exec HttpError TokenResponse
unfolding admit issue client_credentials
handle_token env req = do
  c ← admit env req
  if (token_request req).grant_type == "client_credentials"
      then client_credentials env c (token_request req)
      else do g ← grant env c (token_request req); issue env req c g
