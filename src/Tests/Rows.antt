-- ===== src/Tests/Rows.antt =====
-- One user, two clients, and the rows of one browser login at the concrete server.
use autentico.Prelude.{◌==◌, if◌then◌else◌, ◌+◌, ◌*◌, String, true, false, none, some, [], ◌∷◌}
use autentico.Schema.{User, Client, AuthCode, Token, Session, IdpSession, DeviceCode, Db, second}
use autentico.Web.{Request}
use autentico.Token.CodeGrant.{TokenRequest}
use autentico.Tests.World.{start}

abbrev pub user : User
user = record {
  id = "u1";
  username = "ann";
  password = some "pw";
  email = some "ann@id";
  created_at = 0;
  role = "user";
  failed_login_attempts = 0;
  locked_until = none;
  totp_secret = "";
  totp_verified = false;
  is_email_verified = true;
  deactivated_at = none;
  given_name = "Ann";
  family_name = "";
  require_password_change = false;
  last_login = none;
}

abbrev pub app : Client
app = record {
  id = "c1";
  client_id = "app";
  client_secret = none;
  client_type = "public";
  redirect_uris = "https://app/cb,https://*.app/cb";
  post_logout_redirect_uris = "https://app/bye";
  grant_types = "authorization_code,refresh_token,urn:ietf:params:oauth:grant-type:device_code";
  response_types = "code";
  scopes = "openid email";
  is_active = true;
  access_token_expiration = none;
  refresh_token_expiration = none;
  authorization_code_expiration = none;
  allowed_audiences = none;
  consent_required = none;
}

abbrev pub service : Client
service = record app {
  id = "c2";
  client_id = "svc";
  client_secret = some "s3";
  client_type = "confidential";
  grant_types = "client_credentials";
  scopes = "openid read";
}

abbrev pub verifier : String
verifier = "abcdefghijklmnopqrstuvwxyzabcdefghijklmnopqrstuvwxyz"

abbrev pub auth_code : AuthCode
auth_code = record {
  code = "code1";
  user_id = "u1";
  client_id = some "app";
  redirect_uri = "https://app/cb";
  scope = "openid";
  nonce = "n1";
  code_challenge = verifier;
  code_challenge_method = "S256";
  expires_at = start + 600 * second;
  used = false;
  created_at = start;
  idp_session_id = some "idp0";
}

abbrev pub token : Token
token = record {
  id = "tok0";
  user_id = some "u1";
  access_token = "at0";
  refresh_token = "rt0";
  access_token_type = "Bearer";
  refresh_token_expires_at = start + 2592000 * second;
  refresh_token_last_used_at = none;
  access_token_expires_at = start + 900 * second;
  issued_at = start;
  scope = "openid email";
  grant_type = "authorization_code";
  revoked_at = none;
}

abbrev pub session : Session
session = record {
  id = "sid0";
  user_id = "u1";
  access_token = "at0";
  refresh_token = "rt0";
  user_agent = "";
  ip_address = "";
  created_at = start;
  expires_at = start + 900 * second;
  deactivated_at = none;
  idp_session_id = some "idp0";
}

abbrev pub idp_session : IdpSession
idp_session = record {
  id = "idp0";
  user_id = "u1";
  user_agent = "";
  ip_address = "";
  last_activity_at = start;
  created_at = start;
  deactivated_at = none;
}

abbrev pub device_code : DeviceCode
device_code = record {
  code = "dc1";
  user_code = "BCDFGHJK";
  client_id = "app";
  scope = "openid";
  expires_at = start + 600 * second;
  interval_seconds = 5;
  user_id = some "u1";
  status = "authorized";
  last_polled_at = none;
  created_at = start;
}

abbrev pub db : Db
db = record {
  users = user ∷ [];
  clients = app ∷ service ∷ [];
  auth_codes = auth_code ∷ [];
  tokens = token ∷ [];
  sessions = session ∷ [];
  idp_sessions = idp_session ∷ [];
  device_codes = device_code ∷ [];
  user_consents = [];
  mfa_challenges = [];
  trusted_devices = [];
  password_reset_tokens = [];
}

-- A request of the public client; each test fills in its grant.
abbrev pub blank : TokenRequest
blank = record {
  grant_type = "";
  code = "";
  redirect_uri = "";
  client_id = "app";
  client_secret = "";
  code_verifier = "";
  username = "";
  password = "";
  totp_code = "";
  refresh_token = "";
  scope = "";
  device_code = "";
}

abbrev pub code_request : TokenRequest
code_request = record blank {
  grant_type = "authorization_code";
  code = "code1";
  redirect_uri = "https://app/cb";
  code_verifier = verifier;
}

abbrev pub refresh_request : TokenRequest
refresh_request = record blank { grant_type = "refresh_token"; refresh_token = "rt0" }

abbrev pub web : (String → String) → Request
web form = record {
  method = "POST";
  parses = true;
  basic_auth = none;
  form = form;
  query = λ _. "";
  sso_cookie = "";
  device_cookie = "";
  authorization = "";
  user_agent = "";
  client_ip = "";
  has_body = true;
  content_type = "application/x-www-form-urlencoded";
  json_token = none;
}

-- The parameters of an authorization request of the public client.
abbrev pub flow_field : String → String
flow_field name =
    if name == "response_type"
    then "code"
    else if name == "client_id"
    then "app"
    else if name == "redirect_uri"
    then "https://app/cb"
    else if name == "scope"
    then "openid"
    else if name == "state"
    then "s1"
    else if name == "code_challenge"
    then verifier
    else if name == "code_challenge_method"
    then "S256"
    else ""

-- A page that the browser opens, with the cookie of its session.
abbrev pub browse : (String → String) → Request
browse query = record (web (λ _. "")) { method = "GET"; query = query; sso_cookie = "idp0" }
