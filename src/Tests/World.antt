-- ===== src/Tests/World.antt =====
-- A concrete server: its settings, and small concrete functions for those of other packages.
use Prim.Native.String.{len}
use autentico.Prelude.{
  leb, ℕ, ◌+◌, ◌*◌, refl, String, Bool, true, false, not, Option, none, some, [], ◌∷◌, ◌==◌, ◌&&◌,
  is_empty, nat_eq, ltb, if◌then◌else◌,
}
use autentico.Schema.{second, from_unix, to_unix}
use autentico.Env.{text, Env, Config, RefreshClaims, AccessClaims, Healthy}
use autentico.Text.{split}

abbrev pub start : ℕ
start = 63900000000 * second

abbrev pub config : Config
config = record {
  access_token_expiration = 900 * second;
  refresh_token_expiration = 2592000 * second;
  access_token_audience = [];
  lockout_max_attempts = 2;
  lockout_duration = 900 * second;
  require_mfa = false;
  sso_session_idle_timeout = 3600 * second;
  sso_session_max_age = 86400 * second;
  device_code_expiration = 600 * second;
  device_code_polling_interval = 5;
  authorization_code_expiration = 600 * second;
  allow_self_signup = false;
  sso_enabled = true;
  auth_mode = "password";
  trust_device_enabled = true;
  trust_device_expiration = 2592000 * second;
  pkce_enforce_sha256 = true;
  mfa_method = "totp";
  require_email_verification = false;
  smtp_host = "";
  password_reset_expiration = 3600 * second;
  validation_min_username_length = 3;
  validation_max_username_length = 64;
  validation_min_password_length = 2;
  validation_max_password_length = 64;
}

-- The claims of the refresh token "rt0" of the stored session, and of "rt1", which is issued.
abbrev pub old_claims : RefreshClaims
old_claims = record {
  user_id = "u1";
  session_id = "sid0";
  client_id = "app";
  issued_at = to_unix start;
  expires_at = to_unix (start + 2592000 * second);
}

abbrev pub new_claims : RefreshClaims
new_claims = record old_claims { session_id = "sid1" }

abbrev is_new : RefreshClaims → Bool
is_new k =
    k.user_id == "u1"
    && k.session_id == "sid1"
    && k.client_id == "app"
    && nat_eq k.issued_at (to_unix start)
    && nat_eq k.expires_at (to_unix (start + 2592000 * second))

abbrev sign_refresh : RefreshClaims → Option String
sign_refresh k = if is_new k then some "rt1" else none

abbrev unexpired : ℕ → RefreshClaims → Option RefreshClaims
unexpired now k = if ltb now (from_unix k.expires_at) then some k else none

abbrev parse_refresh : ℕ → String → Option RefreshClaims
parse_refresh now s =
    if s == "rt0"
    then unexpired now old_claims
    else if s == "rt1"
    then unexpired now new_claims
    else none

abbrev pub access : AccessClaims
access = record {
  exp = to_unix (start + 900 * second);
  iat = to_unix start;
  auth_time = to_unix start;
  jti = "jti0";
  iss = "https://id";
  aud = "https://id" ∷ "app" ∷ [];
  sub = "u1";
  azp = "app";
  sid = "sid0";
  acr = "1";
  scope = "openid";
  role = some "user";
  preferred_username = none;
  email = none;
  email_verified = none;
  groups = none;
  roles = none;
}

abbrev fresh_id : ℕ → String
fresh_id n = if nat_eq n 0 then "sid1" else if nat_eq n 1 then "jti1" else "tok1"

abbrev pub env_at : ℕ → Env
env_at now = record {
  now = now;
  config = config;
  issuer = "https://id";
  app_url = "https://id";
  oauth_path = "/oauth2";
  cookie_only = false;
  fails = λ _. false;
  fresh_id = fresh_id;
  compare_hash = λ hash password. hash == password;
  hash_password = λ s. some s;
  to_lower = λ s. s;
  sha256_base64 = λ s. s;
  at_hash = λ s. s;
  is_url = λ s. not (is_empty s);
  has_length = λ min max s. leb min (len s) && leb (len s) max;
  json_strings = split b',';
  is_json_strings = λ _. true;
  validate_totp = λ secret code. secret == code;
  parse_refresh = parse_refresh now;
  parse_access = λ s. if s == "at0" then some access else none;
  parse_id_hint =
      λ s. if s == "id0" then some (record { client_id = ""; raw_aud = text "app" }) else none;
  sign_refresh = sign_refresh;
  sign_access = λ _. some "at1";
  sign_id = λ _. some "id1";
  payload_acr = λ s. s;
  extract_azp = λ s. if s == "at0" then "app" else "";
  random_device_code = some "dev1";
  random_positions = some (0 ∷ 1 ∷ 2 ∷ 3 ∷ 4 ∷ 5 ∷ 6 ∷ 7 ∷ []);
  secure_code = λ n. some (if nat_eq n 0 then "idp1" else if nat_eq n 1 then "code2" else "sec");
  random_below = λ _. some 42;
  hmac = λ s. s;
  hash_sha256 = λ s. s;
  parse_url = λ s. if is_empty s then none else some ("https", "app");
  json_login_state = λ l. l.scope;
  parse_login_state = λ s. some (record {
    redirect_uri = "https://app/cb";
    state = "s1";
    client_id = "app";
    scope = s;
    nonce = "n1";
    code_challenge = "c1";
    code_challenge_method = "S256";
    prompt = "";
  });
  generate_totp = λ _. some ("secret", "otpauth");
  qr_encodes = λ _. true;
  send_email_otp = λ _ _. true;
  group_names = λ _. some [];
  parse_duration = λ _. none;
}

abbrev pub env : Env
env = env_at start

abbrev pub minute_later : Env
minute_later = env_at (start + 60 * second)

pub env_at-Healthy : (now : ℕ) → Healthy (env_at now)
env_at-Healthy now stmt = refl
