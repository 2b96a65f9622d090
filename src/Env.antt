-- ===== src/Env.antt =====
-- What a request runs under: the clock, the configuration (pkg/config), which statements fail, and
-- the functions of other packages that the code calls.
use autentico.Prelude.{◌≡◌, ℕ, String, Bool, false, Option, none, some, List, if◌then◌else◌}
use autentico.Schema.{Db}
use autentico.Exec.{Exec, ok, err, GoError, no_rows, db_failed, constraint}

-- The statements of the modelled code, by the function that runs them.
pub data Stmt : Type 0 where
  select_client select_auth_code select_user select_login select_token select_session : Stmt
  select_device_code select_idp_session select_revoked_at select_access_token : Stmt
  select_prior_idp select_scope select_idle select_max_age : Stmt
  insert_auth_code insert_token insert_session insert_device_code insert_idp_session : Stmt
  mark_auth_code revoke_code_tokens revoke_by_id revoke_by_value revoke_user_tokens rotate : Stmt
  lock_user count_failure reset_failures set_last_login : Stmt
  authorize_device deny_device consume_device increment_interval set_last_polled : Stmt
  set_last_activity deactivate_idp deactivate_idp_user deactivate_session : Stmt
  delete_auth_codes delete_tokens delete_sessions delete_idp_sessions delete_device_codes : Stmt
  delete_mfa_challenges delete_trusted_devices delete_password_reset_tokens : Stmt
  select_consent upsert_consent_row delete_consent_row delete_client_consents : Stmt
  delete_user_consents select_challenge insert_challenge mark_challenge set_challenge_code : Stmt
  increment_failed select_trusted insert_trusted delete_trusted set_last_used save_totp : Stmt
  select_user_named select_user_by_email update_columns : Stmt
  select_reset insert_reset mark_reset invalidate_resets end_user_sessions : Stmt
  begin_cascade cascade_idp cascade_sessions cascade_tokens commit_cascade : Stmt

-- `config.Config` after overrides, on the settings that the modelled code reads.
pub record Config : Type 0 where
  pub access_token_expiration : ℕ
  pub refresh_token_expiration : ℕ
  pub access_token_audience : List String
  pub lockout_max_attempts : ℕ
  pub lockout_duration : ℕ
  pub require_mfa : Bool
  pub sso_session_idle_timeout : ℕ
  pub sso_session_max_age : ℕ
  pub device_code_expiration : ℕ
  pub device_code_polling_interval : ℕ
  pub authorization_code_expiration : ℕ
  pub allow_self_signup : Bool
  pub sso_enabled : Bool
  pub auth_mode : String
  pub trust_device_enabled : Bool
  pub trust_device_expiration : ℕ
  pub pkce_enforce_sha256 : Bool
  pub mfa_method : String
  pub require_email_verification : Bool
  pub smtp_host : String
  pub password_reset_expiration : ℕ
  pub validation_min_username_length : ℕ
  pub validation_max_username_length : ℕ
  pub validation_min_password_length : ℕ
  pub validation_max_password_length : ℕ

-- `RefreshTokenClaims`.
pub record RefreshClaims : Type 0 where
  pub user_id : String
  pub session_id : String
  pub client_id : String
  pub issued_at : ℕ
  pub expires_at : ℕ

-- The claims of an access token (`jwt.MapClaims` in GenerateTokens); a claim that may be missing
-- is an `Option`.
pub record AccessClaims : Type 0 where
  pub exp : ℕ
  pub iat : ℕ
  pub auth_time : ℕ
  pub jti : String
  pub iss : String
  pub aud : List String
  pub sub : String
  pub azp : String
  pub sid : String
  pub acr : String
  pub scope : String
  pub role : Option String
  pub preferred_username : Option String
  pub email : Option String
  pub email_verified : Option Bool
  pub groups : Option (List String)
  pub roles : Option (List String)

-- The claims of an ID token (GenerateIDToken).
pub record IdClaims : Type 0 where
  pub iss : String
  pub sub : String
  pub aud : String
  pub exp : ℕ
  pub iat : ℕ
  pub auth_time : ℕ
  pub sid : String
  pub acr : String
  pub nonce : Option String
  pub at_hash : Option String
  pub azp : Option String
  pub preferred_username : Option String
  pub given_name : Option String
  pub family_name : Option String
  pub groups : Option (List String)
  pub roles : List String
  pub email : Option String
  pub email_verified : Option Bool

-- The aud claim of an ID token hint: a text, an array (`none` for an element that is not a text),
-- or anything else.
pub data HintAudience : Type 0 where
  text : String → HintAudience
  texts : List (Option String) → HintAudience
  other : HintAudience

-- `idTokenHintClaims`.
pub record IdTokenHint : Type 0 where
  pub client_id : String
  pub raw_aud : HintAudience

-- The request of a client that a browser carries from page to page: `consent.ConsentParams` and
-- `mfa.LoginState`, which have the same fields.
pub record FlowParams : Type 0 where
  pub redirect_uri : String
  pub state : String
  pub client_id : String
  pub scope : String
  pub nonce : String
  pub code_challenge : String
  pub code_challenge_method : String
  pub prompt : String

pub record Env : Type 0 where
  pub now : ℕ
  pub config : Config
  pub issuer : String
  pub app_url : String
  pub oauth_path : String
  pub cookie_only : Bool
  -- Whether the database refuses a statement, for a reason other than a constraint.
  pub fails : Stmt → Bool
  -- `xid.New().String()`, once for each identifier that a request needs.
  pub fresh_id : ℕ → String
  -- golang.org/x/crypto/bcrypt: CompareHashAndPassword(hash, password) == nil.
  pub compare_hash : String → String → Bool
  -- bcrypt.GenerateFromPassword(password, DefaultCost), `none` on an error.
  pub hash_password : String → Option String
  -- strings.ToLower.
  pub to_lower : String → String
  -- base64.RawURLEncoding of the SHA-256 of a text, and of the first half of it.
  pub sha256_base64 : String → String
  pub at_hash : String → String
  -- ozzo-validation's is.URL.
  pub is_url : String → Bool
  -- ozzo-validation's Length(min, max) of a text that is not empty.
  pub has_length : ℕ → ℕ → String → Bool
  -- encoding/json: an array of texts, empty if the text is not one, and its check.
  pub json_strings : String → List String
  pub is_json_strings : String → Bool
  -- pquerna/otp: ValidateTotpCode(secret, code).
  pub validate_totp : String → String → Bool
  -- golang-jwt: parsing with the HMAC secret or the public key, which tests the expiry, and signing.
  pub parse_refresh : String → Option RefreshClaims
  pub parse_access : String → Option AccessClaims
  -- The claims of an ID token whose signature is right, whether it has expired or not.
  pub parse_id_hint : String → Option IdTokenHint
  pub sign_refresh : RefreshClaims → Option String
  pub sign_access : AccessClaims → Option String
  pub sign_id : IdClaims → Option String
  -- The acr claim in the second part of a token, "" if it cannot be decoded.
  pub payload_acr : String → String
  -- The azp claim of a token parsed without its signature, "" if there is none.
  pub extract_azp : String → String
  -- crypto/rand: a device code in hexadecimal, and the positions of a user code's characters.
  pub random_device_code : Option String
  pub random_positions : Option (List ℕ)
  -- crypto/rand: `GenerateSecureCode()`, once for each secret that a request needs, and a number
  -- below a bound.
  pub secure_code : ℕ → Option String
  pub random_below : ℕ → Option ℕ
  -- base64.RawURLEncoding of the HMAC-SHA256 of a text under the CSRF secret, and the SHA-256 of
  -- a text in hexadecimal.
  pub hmac : String → String
  pub hash_sha256 : String → String
  -- net/url: the scheme and the host of a URL, `none` if it does not parse.
  pub parse_url : String → Option (String × String)
  -- encoding/json: the text of a login state, and back.
  pub json_login_state : FlowParams → String
  pub parse_login_state : String → Option FlowParams
  -- pquerna/otp: a new TOTP secret with its URL for an account, and whether a QR code encodes it.
  pub generate_totp : String → Option (String × String)
  pub qr_encodes : String → Bool
  -- pkg/email: SendEmailOTP(to, code) == nil.
  pub send_email_otp : Option String → String → Bool
  -- pkg/group: GroupNamesByUserID, `none` on an error.
  pub group_names : String → Option (List String)
  -- `config.ParseDuration` of a client's override, `none` if it does not parse.
  pub parse_duration : String → Option ℕ

module _ {A : Type 0} (env : Env) (stmt : Stmt) where
  -- `QueryRow(...).Scan(...)`.
  unfoldable pub query : (Db → Option A) → Exec GoError A
  query f s =
      if env.fails stmt
      then (err db_failed, s)
      else elim (f s) [ none ↦ (err no_rows, s) | some a ↦ (ok a, s) ]

module _ (env : Env) (stmt : Stmt) where
  -- `Exec(...)` of a statement that breaks no constraint.
  unfoldable pub exec : (Db → Db) → Exec GoError (Unit {0})
  exec f s = if env.fails stmt then (err db_failed, s) else (ok tt, f s)

  -- `Exec(...)` of an insert: the test is whether the row keeps the table's constraints.
  unfoldable pub exec_if : (Db → Bool) → (Db → Db) → Exec GoError (Unit {0})
  exec_if fits f s =
      if env.fails stmt
      then (err db_failed, s)
      else if fits s
      then (ok tt, f s)
      else (err constraint, s)

-- A database that refuses no statement.
abbrev pub Healthy : Env → Type 0
Healthy env = (stmt : Stmt) → env.fails stmt ≡ false
