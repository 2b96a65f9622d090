-- ===== src/Token/CodeGrant.antt =====
-- The authorization code grant: TokenRequest and its validation (pkg/token/model.go) and
-- UserByAuthorizationCode (pkg/token/authorization_code.go).
pub mod Checks
pub mod SingleUse
pub mod Race
use autentico.Prelude.{
  ℕ, String, Bool, true, false, not, Option, none, some, ◌==◌, ◌&&◌, ◌||◌, is_empty, or_empty, ltb,
  member, List, [], ◌∷◌, if◌then◌else◌,
}
use autentico.Schema.{User, AuthCode, Db}
use autentico.Env.{Env}
use autentico.Exec.{
  Exec, HttpError, http, Result, ok, err, pure, raise, lift, require, attempt, on_error, ◌>>=◌,
  ◌>>◌,
}
use autentico.AuthCode.{auth_code_by_code_including_used, mark_auth_code_as_used}
use autentico.User.{user_by_id}
use autentico.Token.{revoke_tokens_by_user_and_client}
use autentico.Token.Pkce.{validate_code_verifier, verify_code_challenge}

pub record TokenRequest : Type 0 where
  pub grant_type : String
  pub code : String
  pub redirect_uri : String
  pub client_id : String
  pub client_secret : String
  pub code_verifier : String
  pub username : String
  pub password : String
  pub totp_code : String
  pub refresh_token : String
  pub scope : String
  pub device_code : String

abbrev pub grant_types : List String
grant_types =
    "authorization_code" ∷ "refresh_token" ∷ "password" ∷ "client_credentials"
    ∷ "urn:ietf:params:oauth:grant-type:device_code" ∷ []

-- `ValidateTokenRequest(request) == nil`; an empty text fails validation.Required.
unfoldable pub validate_token_request : TokenRequest → Bool
validate_token_request r = not (is_empty r.grant_type) && member r.grant_type grant_types

unfoldable pub validate_token_request_authorization_code : Env → TokenRequest → Bool
validate_token_request_authorization_code env r =
    r.grant_type == "authorization_code"
    && not (is_empty r.code)
    && not (is_empty r.redirect_uri)
    && env.is_url r.redirect_uri

unfoldable pub validate_token_request_password : TokenRequest → Bool
validate_token_request_password r =
    r.grant_type == "password" && not (is_empty r.username) && not (is_empty r.password)

unfoldable pub validate_token_request_refresh : TokenRequest → Bool
validate_token_request_refresh r = r.grant_type == "refresh_token" && not (is_empty r.refresh_token)

abbrev pub invalid_grant : HttpError
invalid_grant = http 400 "invalid_grant"

-- The PKCE tests, for a code that was issued with a challenge.
unfoldable pub check_pkce : Env → TokenRequest → AuthCode → Bool
check_pkce env r c =
    is_empty c.code_challenge
    || (not (is_empty r.code_verifier)
        && validate_code_verifier r.code_verifier
        && verify_code_challenge env c.code_challenge c.code_challenge_method r.code_verifier)

-- The tests on a code that has not been used; every one answers invalid_grant.
unfoldable pub check_code : Env → TokenRequest → AuthCode → Bool
unfolding check_pkce
check_code env r c =
    not (not (c.redirect_uri == r.redirect_uri) || ltb c.expires_at env.now)
    && not (not (is_empty (or_empty c.client_id)) && not (or_empty c.client_id == r.client_id))
    && check_pkce env r c

-- The code is marked before the user is read.
unfoldable pub redeem : Env → TokenRequest → AuthCode → Exec HttpError (User × AuthCode)
redeem env r c = do
  on_error (http 500 "server_error") (mark_auth_code_as_used env r.code)
  usr ← on_error (http 400 "invalid_request") (user_by_id env c.user_id)
  pure (usr, c)

-- A code that has been used before.
unfoldable pub replayed : Env → AuthCode → Exec HttpError AuthCode
replayed env c = do
  attempt (revoke_tokens_by_user_and_client env c.user_id (or_empty c.client_id))
  raise invalid_grant

-- The function up to its first write for a code that may be redeemed.
unfoldable pub present : Env → TokenRequest → Exec HttpError AuthCode
unfolding replayed
present env r = do
  require (validate_token_request_authorization_code env r) (http 400 "invalid_request")
  c ← on_error invalid_grant (auth_code_by_code_including_used env r.code)
  if c.used then replayed env c else do require (check_code env r c) invalid_grant; pure c

unfoldable pub user_by_authorization_code : Env → TokenRequest → Exec HttpError (User × AuthCode)
unfolding present redeem
user_by_authorization_code env r = do c ← present env r; redeem env r c
