-- ===== src/Schema.antt =====
-- The rows of the database (pkg/db/migrations and the struct of each package) and the database
-- itself, one list of rows for each table. A nullable column is an `Option`; a time is a number
-- of nanoseconds since Go's zero time; a duration is a number of nanoseconds.
use autentico.Prelude.{ℕ, ◌+◌, ◌-◌, ◌*◌, ◌/◌, String, Bool, Option, List}

abbrev pub second : ℕ
second = 1000000000

-- time.Unix(s, 0), and the inverse for times from 1970 on.
abbrev pub unix_epoch : ℕ
unix_epoch = 62135596800

abbrev pub from_unix : ℕ → ℕ
from_unix s = (unix_epoch + s) * second

abbrev pub to_unix : ℕ → ℕ
to_unix t = t / second - unix_epoch

-- The columns of `users` that the modelled code reads or writes.
pub record User : Type 0 where
  pub id : String
  pub username : String
  pub password : Option String
  pub email : Option String
  pub created_at : ℕ
  pub role : String
  pub failed_login_attempts : ℕ
  pub locked_until : Option ℕ
  pub totp_secret : String
  pub totp_verified : Bool
  pub is_email_verified : Bool
  pub deactivated_at : Option ℕ
  pub given_name : String
  pub family_name : String
  pub require_password_change : Bool
  pub last_login : Option ℕ

-- The columns of `clients`; the JSON arrays are kept as the texts that they are.
pub record Client : Type 0 where
  pub id : String
  pub client_id : String
  pub client_secret : Option String
  pub client_type : String
  pub redirect_uris : String
  pub post_logout_redirect_uris : String
  pub grant_types : String
  pub response_types : String
  pub scopes : String
  pub is_active : Bool
  pub access_token_expiration : Option String
  pub refresh_token_expiration : Option String
  pub authorization_code_expiration : Option String
  pub allowed_audiences : Option String
  pub consent_required : Option Bool

pub record AuthCode : Type 0 where
  pub code : String
  pub user_id : String
  pub client_id : Option String
  pub redirect_uri : String
  pub scope : String
  pub nonce : String
  pub code_challenge : String
  pub code_challenge_method : String
  pub expires_at : ℕ
  pub used : Bool
  pub created_at : ℕ
  pub idp_session_id : Option String

pub record Token : Type 0 where
  pub id : String
  pub user_id : Option String
  pub access_token : String
  pub refresh_token : String
  pub access_token_type : String
  pub refresh_token_expires_at : ℕ
  pub refresh_token_last_used_at : Option ℕ
  pub access_token_expires_at : ℕ
  pub issued_at : ℕ
  pub scope : String
  pub grant_type : String
  pub revoked_at : Option ℕ

pub record Session : Type 0 where
  pub id : String
  pub user_id : String
  pub access_token : String
  pub refresh_token : String
  pub user_agent : String
  pub ip_address : String
  pub created_at : ℕ
  pub expires_at : ℕ
  pub deactivated_at : Option ℕ
  pub idp_session_id : Option String

pub record IdpSession : Type 0 where
  pub id : String
  pub user_id : String
  pub user_agent : String
  pub ip_address : String
  pub last_activity_at : ℕ
  pub created_at : ℕ
  pub deactivated_at : Option ℕ

pub record DeviceCode : Type 0 where
  pub code : String
  pub user_code : String
  pub client_id : String
  pub scope : String
  pub expires_at : ℕ
  pub interval_seconds : ℕ
  pub user_id : Option String
  pub status : String
  pub last_polled_at : Option ℕ
  pub created_at : ℕ

pub record UserConsent : Type 0 where
  pub id : String
  pub user_id : String
  pub client_id : String
  pub scopes : String
  pub granted_at : ℕ

pub record MfaChallenge : Type 0 where
  pub id : String
  pub user_id : String
  pub method : String
  pub code : String
  pub login_state : String
  pub created_at : ℕ
  pub expires_at : ℕ
  pub used : Bool
  pub failed_attempts : ℕ
  pub otp_sent_at : Option ℕ

pub record TrustedDevice : Type 0 where
  pub id : String
  pub user_id : String
  pub device_name : String
  pub created_at : ℕ
  pub last_used_at : ℕ
  pub expires_at : ℕ

pub record PasswordResetToken : Type 0 where
  pub id : String
  pub user_id : String
  pub token_hash : String
  pub expires_at : ℕ
  pub used_at : Option ℕ
  pub created_at : ℕ

pub record Db : Type 0 where
  pub users : List User
  pub clients : List Client
  pub auth_codes : List AuthCode
  pub tokens : List Token
  pub sessions : List Session
  pub idp_sessions : List IdpSession
  pub device_codes : List DeviceCode
  pub user_consents : List UserConsent
  pub mfa_challenges : List MfaChallenge
  pub trusted_devices : List TrustedDevice
  pub password_reset_tokens : List PasswordResetToken
